-- ===== src/Catalog/Truncated.antt =====
-- How long the part of a response is that an error repeats.
use Prim.Native.Nat.{compare, Ordering}
use Prim.Native.Char.{Char, len_utf8}
use Prim.Native.String.len
use Prim.Native.String.slice
use Prim.Native.String.{len, slice, fits}
use data_platform_operator.Base.{
  ℕ, ◌≤◌, ◌-◌, String, ◌≡◌, refl, ap, arith, leb, Bool-cases, inl, inr,
}
use text.Mathlib.TextPositions.{len-append}
use data_platform_operator.Catalog.Http.{truncate}

len-fits :
    (o : Ordering) (c : Char) (r : String) (n : ℕ)
    → o ≡ compare (len_utf8 c) n
    → len r ≤ n - len_utf8 c
    → len (fits o c r) ≤ n
len-fits Ordering.lt c r n p h = ground (arith, p, len.cons c r, h)
len-fits Ordering.eq c r n p h = ground (arith, p, len.cons c r, h)
len-fits Ordering.gt c r n p h = omega (arith, len.nil)

len-slice : (s : String) (n : ℕ) → len (slice s 0 n) ≤ n
len-slice String.[] n = omega (arith, ap len (slice.nil 0 n), len.nil)
len-slice (String.◌∷◌ c s) n = omega (
  arith,
  ap len (slice.cons-zero c s n),
  len-fits (compare (len_utf8 c) n) c (slice s 0 (n - len_utf8 c)) n refl
      (len-slice s (n - len_utf8 c)),
)

-- However long a response is, what an error repeats of it has 515 bytes at most, and it is the
-- response itself where that has 512 at most.
pub truncate_bound :
    (body : String) → (len (truncate body) ≤ 515) × (len body ≤ 512 → truncate body ≡ body)
unfolding truncate
truncate_bound body = (
  elim (Bool-cases (leb (len body) 512)) as (λ x. len (truncate body) ≤ 515) [
    | inl short ↦ rw short (ground (arith, short))
    | inr long ↦ rw long (omega (arith, len-append (slice body 0 512) "...", len-slice body 512))
  ],
  λ short. ground (arith, short),
)
