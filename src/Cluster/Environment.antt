-- ===== src/Cluster/Environment.antt =====
-- What a container finds in its environment.
use data_platform_operator.Base.{
  Option, none, some, List, [], ◌∷◌, ◌++◌, String, ◌==◌, ◌≡◌, refl, sym, ap, ◌∙◌, if◌then◌else◌,
}
use data_platform_operator.Api.Defaults.{EnvVar}

-- the first of two values
abbrev pub or_else : Option String → Option String → Option String
or_else none o = o
or_else (some v) o = some v

-- The value of the last variable of a name, which is the one that Kubernetes takes. A variable that
-- is read from a Secret has the empty text here.
unfoldable pub last_value : String → List EnvVar → Option String
last_value name [] = none
last_value name (v ∷ vs) =
    or_else (last_value name vs) (if v.name == name then some v.value else none)

or_else-or_else : (a b c : Option String) → or_else (or_else a b) c ≡ or_else a (or_else b c)
or_else-or_else none b c = refl
or_else-or_else (some v) b c = refl

or_else-none : (o : Option String) → or_else o none ≡ o
or_else-none none = refl
or_else-none (some v) = refl

pub last_value-append :
    (name : String) (xs ys : List EnvVar)
    → last_value name (xs ++ ys) ≡ or_else (last_value name ys) (last_value name xs)
unfolding last_value
last_value-append name [] ys = sym (or_else-none (last_value name ys))
last_value-append name (x ∷ xs) ys =
    ap (λ o. or_else o (if x.name == name then some x.value else none))
      (last_value-append name xs ys)
    ∙ or_else-or_else (last_value name ys) (last_value name xs)
        (if x.name == name then some x.value else none)
