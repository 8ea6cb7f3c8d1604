-- ===== src/Base/Counts.antt =====
-- Lists of texts up to their order: how often each text is there, and that sorting decides it.
use Prim.Native.Nat.{ℕ, ◌+◌, ◌<◌}
use Prim.Native.String.{String}
use mathlib.Core.Path.{◌≡◌, refl, sym, ap, ◌∙◌}
use mathlib.Core.Logic.{inl, inr, ◌↔◌}
use mathlib.Core.Bool.{true}
use mathlib.Core.List.{List, [], ◌∷◌}
use native.Mathlib.Omega.{arith}
use text.Mathlib.Text.{◌==◌}
use text.Mathlib.TextEquality.{eq_iff, Char-path}
use data_platform_operator.Base.Tests.{if◌then◌else◌, Bool-cases}
use data_platform_operator.Base.Sort.{
  text_le, insert_sorted, sorted, IsSorted, Head≤, sorted-IsSorted,
}

unfoldable pub count : String → List String → ℕ
count a [] = 0
count a (x ∷ xs) = (if x == a then 1 else 0) + count a xs

count-insert_sorted :
    (a x : String) (ys : List String)
    → count a (insert_sorted x ys) ≡ (if x == a then 1 else 0) + count a ys
unfolding count insert_sorted
count-insert_sorted a x [] = refl
count-insert_sorted a x (y ∷ ys) = ground (arith, count-insert_sorted a x ys)

pub count-sorted : (a : String) (xs : List String) → count a (sorted xs) ≡ count a xs
unfolding count sorted
count-sorted a [] = refl
count-sorted a (x ∷ xs) = omega (arith, count-insert_sorted a x (sorted xs), count-sorted a xs)

text_le_trans : (s t u : String) → text_le s t ≡ true → text_le t u ≡ true → text_le s u ≡ true
unfolding text_le
text_le_trans String.[] t u h k = refl
text_le_trans (String.◌∷◌ c s) String.[] u h k = cc
text_le_trans (String.◌∷◌ c s) (String.◌∷◌ d t) String.[] h k = cc
text_le_trans (String.◌∷◌ c s) (String.◌∷◌ d t) (String.◌∷◌ e u) h k =
    ground (arith, text_le_trans s t u)

text_le_antisym : (s t : String) → text_le s t ≡ true → text_le t s ≡ true → s ≡ t
unfolding text_le
text_le_antisym String.[] String.[] h k = refl
text_le_antisym String.[] (String.◌∷◌ d t) h k = cc
text_le_antisym (String.◌∷◌ c s) String.[] h k = cc
text_le_antisym (String.◌∷◌ c s) (String.◌∷◌ d t) h k =
    ground (arith, Char-path c d, text_le_antisym s t)

-- What is at most the head of a sorted list is at most all that is in it.
le_all :
    (x a : String) (xs : List String)
    → Head≤ x xs
    → IsSorted xs
    → 0 < count a xs
    → text_le x a ≡ true
unfolding count
le_all x a [] h s c = absurd (omega arith)
le_all x a (y ∷ ys) h s c = elim (Bool-cases (y == a)) [
  | inl same ↦ ground (arith, eq_iff y a, h, same)
  | inr other ↦ text_le_trans x y a h (le_all y a ys s.0 s.1 (ground (arith, c, other)))
]

-- Sorted lists with the same counts have the same head.
same_head :
    (x y : String) (xs ys : List String)
    → IsSorted (x ∷ xs)
    → IsSorted (y ∷ ys)
    → ((a : String) → count a (x ∷ xs) ≡ count a (y ∷ ys))
    → (x == y) ≡ true
unfolding count
same_head x y xs ys h k c = elim (Bool-cases (x == y)) [
  | inl same ↦ same
  | inr other ↦
      let yx =
        le_all y x ys k.0 k.1 (ground (arith, c x, eq_iff x x, eq_iff x y, eq_iff y x, other)) in
      let xy =
        le_all x y xs h.0 h.1 (ground (arith, c y, eq_iff y y, eq_iff x y, eq_iff y x, other)) in
      (eq_iff x y).1 (text_le_antisym x y xy yx)
]

-- Sorted lists with the same counts are equal.
sorted_unique :
    (xs ys : List String)
    → IsSorted xs
    → IsSorted ys
    → ((a : String) → count a xs ≡ count a ys)
    → xs ≡ ys
unfolding count
sorted_unique [] [] h k c = refl
sorted_unique [] (y ∷ ys) h k c = absurd (ground (arith, c y, eq_iff y y))
sorted_unique (x ∷ xs) [] h k c = absurd (ground (arith, c x, eq_iff x x))
sorted_unique (x ∷ xs) (y ∷ ys) h k c =
    let head = same_head x y xs ys h k c in
    let tail =
      sorted_unique xs ys h.1 k.1
        (λ a. ground (arith, c a, eq_iff x y, eq_iff x a, eq_iff y a, head)) in
    ground (arith, tail, eq_iff x y, head)

-- Two lists sort to the same list exactly if every text is in both equally often.
pub sorted_iff :
    (xs ys : List String) → (sorted xs ≡ sorted ys) ↔ ((a : String) → count a xs ≡ count a ys)
sorted_iff xs ys = (
  λ h a. sym (count-sorted a xs) ∙ ap (count a) h ∙ count-sorted a ys,
  λ c.
      sorted_unique (sorted xs) (sorted ys) (sorted-IsSorted xs) (sorted-IsSorted ys)
        (λ a. count-sorted a xs ∙ c a ∙ sym (count-sorted a ys)),
)
