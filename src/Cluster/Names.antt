-- ===== src/Cluster/Names.antt =====
-- internal/controller/apply.go: names, labels and addresses.
use data_platform_operator.Base.{
  ℕ, zero, suc, ◌/◌, ◌%◌, List, [], ◌∷◌, String, ◌<>◌, ◌==◌, ◌||◌, insert, if◌then◌else◌,
}
use data_platform_operator.Base.Text.{decimal}
use data_platform_operator.Api.Platform.{DataPlatform}

-- the name label of a component: components of one product share it
unfoldable pub app_name : String → String
app_name component =
    if component == "trino-coordinator" || component == "trino-worker" || component == "sample-data"
    then "trino"
    else if component == "superset-postgres"
    then "postgres"
    else if component == "superset-redis"
    then "superset-redis"
    else if component == "superset"
    then "superset"
    else if component == "openfga-postgres"
    then "postgres"
    else component

unfoldable pub labels_for : DataPlatform → String → List (String × String)
unfolding app_name
labels_for dp component =
    ("app.kubernetes.io/name", app_name component)
    ∷ ("app.kubernetes.io/instance", dp.name)
    ∷ ("app.kubernetes.io/component", component)
    ∷ ("app.kubernetes.io/managed-by", "data-platform-operator")
    ∷ ("dataplatform.opsarray.io/name", dp.name)
    ∷ []

-- `maps.Copy(current, labels)`
unfoldable pub copy_labels :
    List (String × String) → List (String × String) → List (String × String)
copy_labels current [] = current
copy_labels current ((k, v) ∷ labels) = copy_labels (insert k v current) labels

unfoldable pub cluster_service_url : String → String → ℕ → String
cluster_service_url name namespace port =
    "http://" <> name <> "." <> namespace <> ".svc:" <> decimal port

unfoldable pub hex_digit : ℕ → String
hex_digit zero = "0"
hex_digit (suc zero) = "1"
hex_digit (suc (suc zero)) = "2"
hex_digit (suc (suc (suc zero))) = "3"
hex_digit (suc (suc (suc (suc zero)))) = "4"
hex_digit (suc (suc (suc (suc (suc zero))))) = "5"
hex_digit (suc (suc (suc (suc (suc (suc zero)))))) = "6"
hex_digit (suc (suc (suc (suc (suc (suc (suc zero))))))) = "7"
hex_digit (suc (suc (suc (suc (suc (suc (suc (suc n)))))))) = upper n
  where
    upper : ℕ → String
    upper zero = "8"
    upper (suc zero) = "9"
    upper (suc (suc zero)) = "a"
    upper (suc (suc (suc zero))) = "b"
    upper (suc (suc (suc (suc zero)))) = "c"
    upper (suc (suc (suc (suc (suc zero))))) = "d"
    upper (suc (suc (suc (suc (suc (suc zero)))))) = "e"
    upper _ = "f"

-- `hex.EncodeToString`
unfoldable pub hex_encode : List ℕ → String
unfolding hex_digit
hex_encode [] = ""
hex_encode (b ∷ bs) = hex_digit (b / 16) <> hex_digit (b % 16) <> hex_encode bs
