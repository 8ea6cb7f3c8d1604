-- ===== src/Base/Text.antt =====
-- The functions of Go's `strings` and `fmt` that the program uses, on native texts.
use Prim.Native.Nat.{ℕ, zero, suc, ◌+◌, ◌/◌, ◌%◌}
use Prim.Native.Char.{code}
use text.Mathlib.Text.{◌==◌}
use Prim.Native.String.{String, ◌++◌}
use mathlib.Core.Path.{◌≡◌, refl}
use mathlib.Core.Bool.{Bool, true, false, ◌&&◌, ◌||◌}
use mathlib.Core.Option.{Option, none, some}
use mathlib.Core.List.{List, [], ◌∷◌, map}
use data_platform_operator.Base.Tests.{leb, nat_eq, if◌then◌else◌}

abbrev pub is_blank : String → Bool
is_blank String.[] = true
is_blank (String.◌∷◌ c s) = false

-- The code points of a text. `String` has its own `[]` and `∷`.
abbrev pub codes : String → List ℕ
codes String.[] = []
codes (String.◌∷◌ c s) = code c ∷ codes s

-- the texts that are written to a builder, one after the other
abbrev pub joined : List String → String
joined [] = ""
joined (s ∷ rest) = s ++ joined rest

-- `strings.TrimRight(s, "/")`
unfoldable pub trim_slashes : String → String
trim_slashes String.[] = ""
trim_slashes (String.◌∷◌ c s) =
    let rest = trim_slashes s in
    if nat_eq (code c) b'/' && is_blank rest then "" else String.◌∷◌ c rest

-- What is left of a text behind a prefix.
unfoldable pub cut_prefix : String → String → Option String
cut_prefix s String.[] = some s
cut_prefix String.[] (String.◌∷◌ d p) = none
cut_prefix (String.◌∷◌ c s) (String.◌∷◌ d p) =
    if nat_eq (code c) (code d) then cut_prefix s p else none

-- `strings.HasPrefix`
unfoldable pub has_prefix : String → String → Bool
unfolding cut_prefix
has_prefix s p = elim (cut_prefix s p) [ none ↦ false | some r ↦ true ]

-- `strings.TrimPrefix`
unfoldable pub trim_prefix : String → String → String
unfolding cut_prefix
trim_prefix s p = elim (cut_prefix s p) [ none ↦ s | some r ↦ r ]

-- `strings.HasSuffix`
unfoldable pub has_suffix : String → String → Bool
has_suffix String.[] p = is_blank p
has_suffix (String.◌∷◌ c s) p = (String.◌∷◌ c s == p) || has_suffix s p

base_from : String → String → String
base_from String.[] base = base
base_from (String.◌∷◌ c s) base = base_from s (if nat_eq (code c) b'/' then s else base)

-- `path.Base` of a path that does not end in a slash
unfoldable pub base_name : String → String
unfolding base_from
base_name s = base_from s s

-- the white space of `unicode.IsSpace`
unfoldable pub is_space : ℕ → Bool
is_space c =
    (leb 9 c && leb c 13)
    || nat_eq c 32
    || nat_eq c 0x85
    || nat_eq c 0xa0
    || nat_eq c 0x1680
    || (leb 0x2000 c && leb c 0x200a)
    || nat_eq c 0x2028
    || nat_eq c 0x2029
    || nat_eq c 0x202f
    || nat_eq c 0x205f
    || nat_eq c 0x3000

trim_space_right : String → String
unfolding is_space
trim_space_right String.[] = ""
trim_space_right (String.◌∷◌ c s) =
    let rest = trim_space_right s in
    if is_space (code c) && is_blank rest then "" else String.◌∷◌ c rest

trim_space_left : String → String
unfolding is_space
trim_space_left String.[] = ""
trim_space_left (String.◌∷◌ c s) = if is_space (code c) then trim_space_left s else String.◌∷◌ c s

-- `strings.TrimSpace`
unfoldable pub trim_space : String → String
unfolding trim_space_left trim_space_right
trim_space s = trim_space_right (trim_space_left s)

begins : List ℕ → List ℕ → Bool
begins s [] = true
begins [] (d ∷ p) = false
begins (c ∷ s) (d ∷ p) = nat_eq c d && begins s p

occurs : List ℕ → List ℕ → Bool
unfolding begins
occurs p [] = begins [] p
occurs p (c ∷ s) = begins (c ∷ s) p || occurs p s

-- `strings.Contains(s, p)`
unfoldable pub contains_text : String → String → Bool
unfolding occurs
contains_text s p = occurs (codes p) (codes s)

-- `strings.ToLower` on the letters A to Z. The words that the program looks for have no letter
-- that another code point is folded to.
unfoldable pub to_lower : ℕ → ℕ
to_lower c = if leb b'A' c && leb c b'Z' then c + 32 else c

-- `strings.Contains(strings.ToLower(s), p)`
unfoldable pub contains_folded : String → String → Bool
unfolding occurs to_lower
contains_folded s p = occurs (codes p) (map to_lower (codes s))

unfoldable pub digit : ℕ → String
digit zero = "0"
digit (suc zero) = "1"
digit (suc (suc zero)) = "2"
digit (suc (suc (suc zero))) = "3"
digit (suc (suc (suc (suc zero)))) = "4"
digit (suc (suc (suc (suc (suc zero))))) = "5"
digit (suc (suc (suc (suc (suc (suc zero)))))) = "6"
digit (suc (suc (suc (suc (suc (suc (suc zero))))))) = "7"
digit (suc (suc (suc (suc (suc (suc (suc (suc zero)))))))) = "8"
digit _ = "9"

unfoldable pub decimal_from : ℕ → ℕ → String → String
unfolding digit
decimal_from zero n out = out
decimal_from (suc fuel) n out =
    let rest = decimal_from fuel (n / 10) (digit (n % 10) ++ out) in
    if leb n 9 then digit n ++ out else rest

-- `%d` of a number that is not negative; a number has at most `n + 1` digits.
unfoldable pub decimal : ℕ → String
unfolding decimal_from
decimal n = decimal_from (suc n) n ""

port_digits : decimal 8181 ≡ "8181"
unfolding decimal
port_digits = refl

trimmed : trim_slashes "https://id.example//" ≡ "https://id.example"
unfolding trim_slashes
trimmed = refl

folded : contains_folded "Role ALREADY exists" "already" ≡ true
unfolding contains_folded
folded = refl

based : base_name "opa/policies/row.rego" ≡ "row.rego"
unfolding base_name
based = refl

suffixed : has_suffix "opa/row.rego" ".rego" ≡ true
unfolding has_suffix
suffixed = refl
