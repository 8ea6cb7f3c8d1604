-- ===== src/Base/Subset.antt =====
-- Lists of distinct texts: inclusion and length.
use Prim.Native.Nat.{suc, ◌≤◌}
use Prim.Native.String.{String}
use mathlib.Core.Path.{◌≡◌, refl}
use mathlib.Core.Bool.{true, false}
use mathlib.Core.List.{List, [], ◌∷◌}
use native.Mathlib.Omega.{arith}
use text.Mathlib.Text.{◌==◌}
use text.Mathlib.TextEquality.{eq_iff}
use data_platform_operator.Base.Tests.{if◌then◌else◌}
use data_platform_operator.Base.Lists.{length, contains}

abbrev pub Distinct : List String → Type 0
Distinct [] = Unit
Distinct (x ∷ xs) = (contains xs x ≡ false) × Distinct xs

abbrev pub Subset : List String → List String → Type 0
Subset xs ys = (a : String) → contains xs a ≡ true → contains ys a ≡ true

-- without the first occurrence
without : String → List String → List String
without a [] = []
without a (x ∷ xs) = if x == a then xs else x ∷ without a xs

length-without :
    (a : String) (xs : List String) → contains xs a ≡ true → suc (length (without a xs)) ≡ length xs
unfolding without contains
length-without a [] h = cc
length-without a (x ∷ xs) h = ground (arith, length-without a xs)

contains-without :
    (a b : String) (xs : List String) → (a == b) ≡ false → contains (without a xs) b ≡ contains xs b
unfolding without contains
contains-without a b [] h = refl
contains-without a b (x ∷ xs) h =
    ground (arith, contains-without a b xs, eq_iff x a, eq_iff x b, eq_iff a b)

-- dropping a head that the tail lacks keeps the inclusion
Subset-tail :
    (x : String) (xs ys : List String)
    → contains xs x ≡ false
    → Subset (x ∷ xs) ys
    → Subset xs (without x ys)
unfolding contains
Subset-tail x xs ys d s a h = ground (arith, s a, contains-without x a ys, eq_iff x a, h, d)

pub length-le-of_Subset : (xs ys : List String) → Distinct xs → Subset xs ys → length xs ≤ length ys
unfolding contains
length-le-of_Subset [] ys d s = omega arith
length-le-of_Subset (x ∷ xs) ys d s = omega (
  arith,
  length-without x ys (s x (ground (arith, eq_iff x x))),
  length-le-of_Subset xs (without x ys) d.1 (Subset-tail x xs ys d.0 s),
)

-- Distinct texts within as few texts are all of them.
pub Subset_of_length :
    (xs ys : List String) → Distinct xs → Subset xs ys → length ys ≤ length xs → Subset ys xs
unfolding contains
Subset_of_length [] [] d s l a h = h
Subset_of_length [] (y ∷ ys) d s l a h = absurd (omega arith)
Subset_of_length (x ∷ xs) ys d s l a h = ground (
  arith,
  contains-without x a ys,
  Subset_of_length xs (without x ys) d.1 (Subset-tail x xs ys d.0 s)
      (omega (arith, length-without x ys (s x (ground (arith, eq_iff x x))))) a,
)
