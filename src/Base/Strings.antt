-- ===== src/Base/Strings.antt =====
-- Equality of texts that are put together.
use Prim.Native.Nat.{◌<◌}
use Prim.Native.String.{String, len, ◌++◌}
use mathlib.Core.Path.{◌≡◌, ap}
use mathlib.Core.Bool.{false}
use mathlib.Core.Logic.{inl, inr}
use native.Mathlib.Omega.{arith}
use text.Mathlib.Text.{◌==◌}
use text.Mathlib.TextEquality.{eq_iff}
use text.Mathlib.TextPositions.{len-append}
use text.Mathlib.TextLemmas.{append_cancel_right}
use data_platform_operator.Base.Tests.{Bool-cases}

-- A text that begins with another one is not empty unless that one is.
pub append-nonempty : (s t : String) → 0 < len s → (s ++ t == "") ≡ false
append-nonempty s t h = elim (Bool-cases (s ++ t == "")) as (λ x. (s ++ t == "") ≡ false) [
  | inl e ↦ absurd (omega (arith, len-append s t, ap len ((eq_iff (s ++ t) "").0 e)))
  | inr e ↦ e
]

-- A common end does not matter.
pub append-eq_right : (s t u : String) → (s ++ u == t ++ u) ≡ (s == t)
append-eq_right s t u =
    ground (arith, eq_iff (s ++ u) (t ++ u), eq_iff s t, append_cancel_right s t u)
