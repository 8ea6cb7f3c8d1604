-- ===== src/Base/Exec/Laws.antt =====
-- How an action that ended without an error ran.
use mathlib.Core.Path.{◌≡◌, refl}
use native.Mathlib.Omega.{arith}
use data_platform_operator.Base.Exec.{Result, ok, err, Exec, ◌>>=◌, ◌>>◌}

module _ {ℓ} {S A B : Type ℓ} where
  bind_ok_of :
      (m : Exec S A) (f : A → Exec S B) (s : S) {b : B} (r : Result A)
      → (m s).0 ≡ r
      → ((m >>= f) s).0 ≡ ok b
      → (a : A) × ((m s).0 ≡ ok a) × ((m >>= f) s ≡ f a (m s).1)
  unfolding ◌>>=◌
  bind_ok_of m f s (ok a) p h = (a, p, rw p)
  bind_ok_of m f s (err e) p h = ground (arith, p)

  -- Its first part ended without an error, and it is the second from there.
  pub bind_ok :
      (m : Exec S A) (f : A → Exec S B) (s : S) {b : B}
      → ((m >>= f) s).0 ≡ ok b
      → (a : A) × ((m s).0 ≡ ok a) × ((m >>= f) s ≡ f a (m s).1)
  bind_ok m f s h = bind_ok_of m f s (m s).0 refl h

module _ {S B : Type 0} where
  -- the same for two steps in a row
  pub then_ok :
      (m : Exec S (Unit {0})) (n : Exec S B) (s : S) {b : B}
      → ((m >> n) s).0 ≡ ok b
      → ((m s).0 ≡ ok tt) × ((n (m s).1).0 ≡ ok b) × ((m >> n) s ≡ n (m s).1)
  then_ok m n s h = let (u, p, q) = bind_ok m (λ _. n) s h in (p, rw q at h, q)
