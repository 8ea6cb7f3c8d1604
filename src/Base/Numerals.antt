-- ===== src/Base/Numerals.antt =====
-- Numbers in texts are read back.
use Prim.Native.Nat.{ℕ, zero, suc, ◌<◌, ◌+◌, ◌*◌, ◌-◌, ◌/◌, ◌%◌}
use Prim.Native.Char.{Char, code}
use Prim.Native.String.{String, ◌++◌}
use mathlib.Core.Path.{◌≡◌, ap, ◌∙◌}
use mathlib.Core.Logic.{inl, inr}
use native.Mathlib.Omega.{arith}
use text.Mathlib.TextLemmas.{cons-append, nil-append}
use data_platform_operator.Base.Tests.{leb, Bool-cases}
use data_platform_operator.Base.Text.{digit, decimal_from, decimal}

-- A text of one character in front of another text.
pub lead : (c : Char) (s : String) → String.◌∷◌ c String.[] ++ s ≡ String.◌∷◌ c s
lead c s = cons-append c String.[] s ∙ ap (String.◌∷◌ c) (nil-append s)

-- the number that a text of digits continues
unfoldable pub read_digits : ℕ → String → ℕ
read_digits acc String.[] = acc
read_digits acc (String.◌∷◌ c s) = read_digits (10 * acc + (code c - 48)) s

read_digits-digit :
    (d acc : ℕ) (s : String)
    → d < 10
    → read_digits acc (digit d ++ s) ≡ read_digits (10 * acc + d) s
unfolding read_digits digit
read_digits-digit zero acc s h = ap (read_digits acc) (lead "0" s)
read_digits-digit (suc zero) acc s h = ap (read_digits acc) (lead "1" s)
read_digits-digit (suc (suc zero)) acc s h = ap (read_digits acc) (lead "2" s)
read_digits-digit (suc (suc (suc zero))) acc s h = ap (read_digits acc) (lead "3" s)
read_digits-digit (suc (suc (suc (suc zero)))) acc s h = ap (read_digits acc) (lead "4" s)
read_digits-digit (suc (suc (suc (suc (suc zero))))) acc s h = ap (read_digits acc) (lead "5" s)
read_digits-digit (suc (suc (suc (suc (suc (suc zero)))))) acc s h =
    ap (read_digits acc) (lead "6" s)
read_digits-digit (suc (suc (suc (suc (suc (suc (suc zero))))))) acc s h =
    ap (read_digits acc) (lead "7" s)
read_digits-digit (suc (suc (suc (suc (suc (suc (suc (suc zero)))))))) acc s h =
    ap (read_digits acc) (lead "8" s)
read_digits-digit (suc (suc (suc (suc (suc (suc (suc (suc (suc zero))))))))) acc s h =
    ap (read_digits acc) (lead "9" s)
read_digits-digit (suc (suc (suc (suc (suc (suc (suc (suc (suc (suc n)))))))))) acc s h =
    absurd (omega arith)

read_digits-decimal_from :
    (fuel n : ℕ) (out : String)
    → n < fuel
    → read_digits 0 (decimal_from fuel n out) ≡ read_digits n out
unfolding decimal_from
read_digits-decimal_from zero n out h = absurd (omega arith)
read_digits-decimal_from (suc fuel) n out h =
    elim (Bool-cases (leb n 9))
      as (λ x. read_digits 0 (decimal_from (suc fuel) n out) ≡ read_digits n out) [
        | inl small ↦ rw small (
            read_digits-digit n 0 out (ground (arith, small))
            ∙ ap (λ k. read_digits k out) (omega arith))
        | inr large ↦ rw large (
            read_digits-decimal_from fuel (n / 10) (digit (n % 10) ++ out) (ground (arith, large))
            ∙ read_digits-digit (n % 10) (n / 10) out (omega arith)
            ∙ ap (λ k. read_digits k out) (omega arith))
      ]

-- The fuel of `decimal` is enough: what it prints is read back.
pub read_digits-decimal : (n : ℕ) → read_digits 0 (decimal n) ≡ n
unfolding decimal read_digits
read_digits-decimal n = read_digits-decimal_from (suc n) n "" (omega arith)
