-- ===== src/Base/Sort.antt =====
-- `slices.Sorted` on texts: insertion sort by code points, which is Go's byte order of UTF-8.
use Prim.Native.Char.{code}
use Prim.Native.String.{String}
use mathlib.Core.Path.{◌≡◌, refl}
use mathlib.Core.Logic.{inl, inr}
use mathlib.Core.Bool.{Bool, true, false, ◌||◌}
use mathlib.Core.List.{List, [], ◌∷◌}
use native.Mathlib.Omega.{arith}
use text.Mathlib.Text.{◌==◌}
use data_platform_operator.Base.Tests.{ltb, nat_eq, if◌then◌else◌, Bool-cases}
use data_platform_operator.Base.Lists.{contains}

-- `s <= t` on texts
unfoldable pub text_le : String → String → Bool
text_le String.[] t = true
text_le (String.◌∷◌ c s) String.[] = false
text_le (String.◌∷◌ c s) (String.◌∷◌ d t) =
    if ltb (code c) (code d) then true else if nat_eq (code c) (code d) then text_le s t else false

unfoldable pub insert_sorted : String → List String → List String
insert_sorted x [] = x ∷ []
insert_sorted x (y ∷ ys) = if text_le x y then x ∷ y ∷ ys else y ∷ insert_sorted x ys

unfoldable pub sorted : List String → List String
unfolding insert_sorted
sorted [] = []
sorted (x ∷ xs) = insert_sorted x (sorted xs)

pub text_le_total : (s t : String) → text_le s t ≡ false → text_le t s ≡ true
unfolding text_le
text_le_total String.[] t h = cc
text_le_total (String.◌∷◌ c s) String.[] h = refl
text_le_total (String.◌∷◌ c s) (String.◌∷◌ d t) h = ground (arith, text_le_total s t)

abbrev pub Head≤ : String → List String → Type 0
Head≤ x [] = Unit
Head≤ x (y ∷ ys) = text_le x y ≡ true

-- each text is at most the one behind it
abbrev pub IsSorted : List String → Type 0
IsSorted [] = Unit
IsSorted (x ∷ xs) = Head≤ x xs × IsSorted xs

head_insert :
    (x z : String) (ys : List String)
    → Head≤ z ys
    → text_le z x ≡ true
    → Head≤ z (insert_sorted x ys)
unfolding insert_sorted
head_insert x z [] h le = le
head_insert x z (y ∷ ys) h le = elim (Bool-cases (text_le x y)) [ inl a ↦ rw a le | inr b ↦ rw b h ]

insert_sorted-IsSorted :
    (x : String) (ys : List String) → IsSorted ys → IsSorted (insert_sorted x ys)
unfolding insert_sorted
insert_sorted-IsSorted x [] h = (tt, tt)
insert_sorted-IsSorted x (y ∷ ys) h = elim (Bool-cases (text_le x y)) [
  | inl a ↦ rw a (a, h)
  | inr b ↦ rw b (head_insert x y ys h.0 (text_le_total x y b), insert_sorted-IsSorted x ys h.1)
]

pub sorted-IsSorted : (xs : List String) → IsSorted (sorted xs)
unfolding sorted
sorted-IsSorted [] = tt
sorted-IsSorted (x ∷ xs) = insert_sorted-IsSorted x (sorted xs) (sorted-IsSorted xs)

contains-insert_sorted :
    (x a : String) (ys : List String)
    → contains (insert_sorted x ys) a ≡ ((x == a) || contains ys a)
unfolding insert_sorted contains
contains-insert_sorted x a [] = refl
contains-insert_sorted x a (y ∷ ys) = ground (arith, contains-insert_sorted x a ys)

pub contains-sorted : (a : String) (xs : List String) → contains (sorted xs) a ≡ contains xs a
unfolding sorted contains
contains-sorted a [] = refl
contains-sorted a (x ∷ xs) = rw (contains-insert_sorted x a (sorted xs)) (rw (contains-sorted a xs))
