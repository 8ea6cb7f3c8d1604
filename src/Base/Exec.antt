-- ===== src/Base/Exec.antt =====
-- Methods that change a state and may return an error. What was written before the error stays
-- written, so the state comes back beside the error too.
pub mod Keeps
pub mod Laws
pub mod Ends
pub mod Ran
use Prim.Native.String.{String}
use mathlib.Core.Bool.{Bool, false}
use data_platform_operator.Base.Tests.{if◌then◌else◌}

-- A Go error: its text, and whether the API server's `errors.IsNotFound` holds of it.
pub record Error : Type 0 where
  pub message : String
  pub not_found : Bool

-- `fmt.Errorf`
abbrev pub errorf : String → Error
errorf m = record { message = m; not_found = false }

pub data Result {ℓ} (A : Type ℓ) : Type ℓ where
  ok : A → Result A
  err : Error → Result A

abbrev pub Exec {ℓ} : Type ℓ → Type ℓ → Type ℓ
Exec S A = S → Result A × S

module _ {ℓ} {S A : Type ℓ} where
  unfoldable pub pure : A → Exec S A
  pure a s = (ok a, s)

  unfoldable pub raise : Error → Exec S A
  raise e s = (err e, s)

  unfoldable pub lift : Result A → Exec S A
  lift r s = (r, s)

  unfoldable pub gets : (S → A) → Exec S A
  gets f s = (ok (f s), s)

unfoldable pub modify : {S : Type 0} → (S → S) → Exec S (Unit {0})
modify f s = (ok tt, f s)

module _ {ℓ} {S A B : Type ℓ} where
  abbrev pub continue : Result A → (A → Exec S B) → (Error → Exec S B) → Exec S B
  continue (ok a) f g s = f a s
  continue (err e) f g s = g e s

  -- `a, err := m`, with what follows for `err == nil` and for an error
  unfoldable pub branch : Exec S A → (A → Exec S B) → (Error → Exec S B) → Exec S B
  unfolding pure raise lift gets modify
  branch m f g s = let (r, s') = m s in continue r f g s'

  infixl 10 ◌>>=◌ ◌>>◌
  -- `a, err := m; if err != nil { return err }`
  unfoldable pub ◌>>=◌ : Exec S A → (A → Exec S B) → Exec S B
  unfolding branch
  m >>= f = branch m f raise

  abbrev pub ◌>>◌ : Exec S A → Exec S B → Exec S B
  m >> n = m >>= λ _. n

  -- `errors.IsNotFound(err)` tells a missing object from an error of the call
  unfoldable pub if_missing : (A → Exec S B) → Exec S B → Exec S A → Exec S B
  unfolding branch
  if_missing found missing m = branch m found λ e. if e.not_found then missing else raise e
