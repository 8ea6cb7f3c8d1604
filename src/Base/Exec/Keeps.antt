-- ===== src/Base/Exec/Keeps.antt =====
-- Invariants of actions, one rule for each way to build an action.
use mathlib.Core.Bool.{Bool, true, false}
use data_platform_operator.Base.Tests.{if◌then◌else◌}
use data_platform_operator.Base.Exec.{
  Error, Result, ok, err, Exec, pure, raise, lift, gets, continue, branch, ◌>>=◌, if_missing,
}

-- Wherever `action` begins in a state of `P`, it ends in one, after an error too.
pub record Keeps {ℓ} {S A : Type ℓ} (P : S → Type ℓ) (action : Exec S A) : Type ℓ where
  pub at : (start : S) → P start → P (action start).1

-- What changes no state keeps everything.
module _ {ℓ} {S A : Type ℓ} {P : S → Type ℓ} where
  pub Keeps-gets : (read : S → A) → Keeps P (gets read)
  unfolding gets
  Keeps-gets read = record { at = λ start p. p }

  pub Keeps-lift : (outcome : Result A) → Keeps P (lift outcome)
  unfolding lift
  Keeps-lift outcome = record { at = λ start p. p }

  pub Keeps-pure : (value : A) → Keeps P (pure value)
  unfolding pure
  Keeps-pure value = record { at = λ start p. p }

  pub Keeps-raise : (e : Error) → Keeps P (raise {A = A} e)
  unfolding raise
  Keeps-raise e = record { at = λ start p. p }

  pub Keeps-if :
      (test : Bool) (left right : Exec S A) (kept : Keeps P left) (other : Keeps P right)
      → Keeps P (if test then left else right)
  Keeps-if false left right kept other = other
  Keeps-if true left right kept other = kept

module _ {ℓ} {S A B : Type ℓ} {P : S → Type ℓ} where
  Keeps-continue :
      (r : Result A) (f : A → Exec S B) (g : Error → Exec S B)
      → ((a : A) → Keeps P (f a))
      → ((e : Error) → Keeps P (g e))
      → Keeps P (continue r f g)
  Keeps-continue (ok a) f g kf kg = kf a
  Keeps-continue (err e) f g kf kg = kg e

  pub Keeps-branch :
      (m : Exec S A) (f : A → Exec S B) (g : Error → Exec S B)
      → Keeps P m
      → ((a : A) → Keeps P (f a))
      → ((e : Error) → Keeps P (g e))
      → Keeps P (branch m f g)
  unfolding branch
  Keeps-branch m f g km kf kg = record {
    at = λ s h. let (r, s') = m s in (Keeps-continue r f g kf kg).at s' (km.at s h);
  }

  pub Keeps-bind :
      (first : Exec S A) (next : A → Exec S B) (kept : Keeps P first)
      (later : (value : A) → Keeps P (next value))
      → Keeps P (first >>= next)
  unfolding ◌>>=◌
  Keeps-bind first next kept later = Keeps-branch first next raise kept later (λ e. Keeps-raise e)

  pub Keeps-if_missing :
      (m : Exec S A) (f : A → Exec S B) (g : Exec S B)
      → Keeps P m
      → ((a : A) → Keeps P (f a))
      → Keeps P g
      → Keeps P (if_missing f g m)
  unfolding if_missing
  Keeps-if_missing m f g km kf kg =
      Keeps-branch m f _ km kf (λ e. Keeps-if e.not_found g (raise e) kg (Keeps-raise e))

pub ruleset keeps_rules = (
  Keeps-pure, Keeps-raise, Keeps-lift, Keeps-gets, Keeps-if, Keeps-bind, Keeps-branch,
  Keeps-if_missing,
)
