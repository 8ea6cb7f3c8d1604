-- ===== src/Base/Exec/Ends.antt =====
-- Where an action ends: what holds after a value, and what after an error.
use mathlib.Core.Path.{◌≡◌, refl, subst}
use mathlib.Core.Bool.{Bool, true, false}
use data_platform_operator.Base.Tests.{if◌then◌else◌}
use data_platform_operator.Base.Exec.{
  Error, Result, ok, err, Exec, pure, raise, gets, continue, branch, ◌>>=◌,
}

abbrev pub Outcome :
    {S A : Type 0} → (A → S → Type 0) → (Error → S → Type 0) → Result A → S → Type 0
Outcome G B (ok a) s = G a s
Outcome G B (err e) s = B e s

-- From a state of `P`, `m` ends with a value in a state of `G`, or with an error in a state of `B`.
pub record Ends {S A : Type 0} (P : S → Type 0) (m : Exec S A) (G : A → S → Type 0)
    (B : Error → S → Type 0) : Type 0 where
  pub at : (s : S) → P s → Outcome G B (m s).0 (m s).1

module _ {S A : Type 0} (G : A → S → Type 0) (B : Error → S → Type 0) where
  Outcome-ok : (r : Result A) (s : S) {a : A} → Outcome G B r s → r ≡ ok a → G a s
  Outcome-ok r s o p = subst (λ x. Outcome G B x s) p o

  -- what holds of the value that an action ended with
  Outcome-of :
      (r : Result A) (s : S)
      → ((a : A) → r ≡ ok a → G a s)
      → ((e : Error) → B e s)
      → Outcome G B r s
  Outcome-of (ok a) s g b = g a refl
  Outcome-of (err e) s g b = b e

module _ {S A C : Type 0} (M : A → S → Type 0) (G : C → S → Type 0)
    (B B' : Error → S → Type 0) where
  Ends-continue :
      (r : Result A) (s : S) (f : A → Exec S C) (g : Error → Exec S C)
      → Outcome M B' r s
      → ((a : A) → Ends (M a) (f a) G B)
      → ((e : Error) → Ends (B' e) (g e) G B)
      → Outcome G B (continue r f g s).0 (continue r f g s).1
  Ends-continue (ok a) s f g o ef eg = (ef a).at s o
  Ends-continue (err e) s f g o ef eg = (eg e).at s o

module _ {S A : Type 0} {P : S → Type 0} {G : A → S → Type 0} {B : Error → S → Type 0} where
  pub Ends-pure : (a : A) → ((s : S) → P s → G a s) → Ends P (pure a) G B
  unfolding pure
  Ends-pure a h = record { at = h }

  pub Ends-raise : (e : Error) → ((s : S) → P s → B e s) → Ends P (raise e) G B
  unfolding raise
  Ends-raise e h = record { at = h }

  pub Ends-gets : (f : S → A) → ((s : S) → P s → G (f s) s) → Ends P (gets f) G B
  unfolding gets
  Ends-gets f h = record { at = h }

  pub Ends-if :
      (b : Bool) (m n : Exec S A) → Ends P m G B → Ends P n G B → Ends P (if b then m else n) G B
  Ends-if true m n em en = em
  Ends-if false m n em en = en

  pub Ends-ok :
      (m : Exec S A) → Ends P m G B → (s : S) → P s → {a : A} → (m s).0 ≡ ok a → G a (m s).1
  Ends-ok m em s p h = Outcome-ok G B (m s).0 (m s).1 (em.at s p) h

  -- An action ends in `G` if its values do, and after an error there is nothing to show.
  pub Ends_of :
      (m : Exec S A)
      → ((s : S) (a : A) → P s → (m s).0 ≡ ok a → G a (m s).1)
      → ((e : Error) (s : S) → B e s)
      → Ends P m G B
  Ends_of m g b = record {
    at = λ s p. Outcome-of G B (m s).0 (m s).1 (λ a q. g s a p q) (λ e. b e (m s).1);
  }

module _ {S A C : Type 0} {P : S → Type 0} {M : A → S → Type 0} {G : C → S → Type 0}
    {B B' : Error → S → Type 0} where
  pub Ends-branch :
      (m : Exec S A) (f : A → Exec S C) (g : Error → Exec S C)
      → Ends P m M B'
      → ((a : A) → Ends (M a) (f a) G B)
      → ((e : Error) → Ends (B' e) (g e) G B)
      → Ends P (branch m f g) G B
  unfolding branch
  Ends-branch m f g em ef eg = record {
    at = λ s p. Ends-continue M G B B' (m s).0 (m s).1 f g (em.at s p) ef eg;
  }

module _ {S A C : Type 0} {P : S → Type 0} {M : A → S → Type 0} {G : C → S → Type 0}
    {B : Error → S → Type 0} where
  pub Ends-bind :
      (m : Exec S A) (f : A → Exec S C)
      → Ends P m M B
      → ((a : A) → Ends (M a) (f a) G B)
      → Ends P (m >>= f) G B
  unfolding ◌>>=◌
  Ends-bind m f em ef = Ends-branch m f raise em ef (λ e. Ends-raise e (λ s h. h))

module _ {S A : Type 0} (G G' : A → S → Type 0) (B : Error → S → Type 0) where
  Outcome-map :
      (r : Result A) (s : S)
      → ((a : A) (s : S) → G a s → G' a s)
      → Outcome G B r s
      → Outcome G' B r s
  Outcome-map (ok a) s f o = f a s o
  Outcome-map (err e) s f o = o

module _ {S A : Type 0} {P : S → Type 0} {G G' : A → S → Type 0} {B : Error → S → Type 0} where
  -- what follows from what holds after a value
  pub Ends_after :
      (m : Exec S A) → Ends P m G B → ((a : A) (s : S) → G a s → G' a s) → Ends P m G' B
  Ends_after m em f = record { at = λ s p. Outcome-map G G' B (m s).0 (m s).1 f (em.at s p) }

module _ {S A C : Type 0} {P : S → Type 0} {G : C → S → Type 0} where
  -- a first step that nothing is asked of, where nothing is asked after an error
  pub Ends_any :
      (m : Exec S A) (f : A → Exec S C)
      → ((a : A) → Ends (λ s. Unit {0}) (f a) G (λ e s. Unit {0}))
      → Ends P (m >>= f) G (λ e s. Unit {0})
  Ends_any m f ef = Ends-bind {M = λ a s. Unit {0}} m f (Ends_of m (λ s a p h. tt) (λ e s. tt)) ef
