-- ===== src/Opa/Agreement.antt =====
-- OPA and Trino are told of the same policies.
use data_platform_operator.Base.{List, [], ◌∷◌, String}
use data_platform_operator.Base.Json.{Json}
use data_platform_operator.Api.Defaults.{EnvVar}

-- the names of the variables
abbrev pub names : List EnvVar → List String
names [] = []
names (v ∷ vs) = v.name ∷ names vs
