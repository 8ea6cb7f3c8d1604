-- ===== src/Base/Exec/Ran.antt =====
-- The steps that an action made on its way, where it ended with a value.
use mathlib.Core.Path.{◌≡◌, refl}
use data_platform_operator.Base.Exec.{Result, ok, err, Exec, raise, continue, branch, ◌>>=◌}
use data_platform_operator.Base.Exec.Ends.{Ends, Ends_of, Outcome}

-- From some state the action ended with the value.
abbrev pub Ran : {S A : Type 0} → Exec S A → A → Type 0
Ran {S} m a = (s : S) × ((m s).0 ≡ ok a)

abbrev pub Ensures : {S A : Type 0} → Exec S A → (A → Type 0) → Type 0
Ensures m G = Ends (λ s. Unit {0}) m (λ a s. G a) (λ e s. Unit {0})

module _ {S A C : Type 0} {G : C → Type 0} where
  after_step :
      (m : Exec S A) (f : A → Exec S C) (s : S) (x : Result A) (s' : S)
      → (m s).0 ≡ x
      → ((a : A) → Ran m a → Ensures (f a) G)
      → Outcome (λ c s. G c) (λ e s. Unit {0}) (continue x f raise s').0 (continue x f raise s').1
  unfolding raise
  after_step m f s (ok a) s' h ef = (ef a (s, h)).at s' tt
  after_step m f s (err e) s' h ef = tt

  -- what is shown of the rest, where the first step ran
  pub Ensures-step :
      (m : Exec S A) (f : A → Exec S C)
      → ((a : A) → Ran m a → Ensures (f a) G)
      → Ensures (m >>= f) G
  unfolding ◌>>=◌ branch
  Ensures-step m f ef = record { at = λ s p. after_step m f s (m s).0 (m s).1 refl ef }

module _ {S A : Type 0} {G : A → Type 0} where
  -- and of the last step
  pub Ensures-last : (m : Exec S A) → ((a : A) → Ran m a → G a) → Ensures m G
  Ensures-last m g = Ends_of m (λ s a p h. g a (s, h)) (λ e s. tt)

module _ {S A C : Type 0} where
  -- What ran last, where both steps ran.
  Ran-continue :
      (f : A → Exec S C) (c : C) (x : Result A) (s : S)
      → (continue x f raise s).0 ≡ ok c
      → (a : A) × Ran (f a) c
  unfolding raise
  Ran-continue f c (ok a) s h = (a, (s, h))
  Ran-continue f c (err e) s h = absurd (cc)

  pub Ran-bind : (m : Exec S A) (f : A → Exec S C) (c : C) → Ran (m >>= f) c → (a : A) × Ran (f a) c
  unfolding ◌>>=◌ branch
  Ran-bind m f c (s, h) = Ran-continue f c (m s).0 (m s).1 h
