-- ===== src/Trino/Overrides.antt =====
-- What the properties of a specification override, and what Trino asks OPA.
use data_platform_operator.Base.{
  Bool, true, false, Option, none, some, [], ◌∷◌, String, ◌<>◌, ◌==◌, ◌≡◌, refl, ◌∙◌, Bool-cases,
  inl, inr, insert, lookup, lookup-insert, if◌then◌else◌,
}
use data_platform_operator.Config.{OidcConfig}
use data_platform_operator.Cluster.Names.{copy_labels}
use data_platform_operator.Trino.{Properties, trino_config_map, access_control_map}

-- the value of the last entry with the key, and `otherwise` where there is none
unfoldable pub last_value : String → Properties → Option String → Option String
last_value key [] otherwise = otherwise
last_value key ((name, value) ∷ rest) otherwise =
    last_value key rest (if name == key then some value else otherwise)

lookup-copy_labels :
    (key : String) (m extra : Properties)
    → lookup key (copy_labels m extra) ≡ last_value key extra (lookup key m)
unfolding copy_labels last_value
lookup-copy_labels key m [] = refl
lookup-copy_labels key m ((name, value) ∷ rest) =
    rw (lookup-copy_labels key (insert name value m) rest, lookup-insert name key value m) refl

last_value_over :
    (key : String) (extra : Properties) (below : Option String) (value : String)
    → last_value key extra none ≡ some value
    → last_value key extra below ≡ some value
unfolding last_value
last_value_over key [] below value h = cc
last_value_over key ((name, v) ∷ rest) below value h = elim (Bool-cases (name == key)) [
  | inl same ↦ rw same (rw same at h)
  | inr other ↦ rw other (last_value_over key rest below value (rw other at h))
]

-- For every role, specification and secret, and every property that extraConfig names: the
-- configuration has the value that extraConfig gives it, also for a property that the operator
-- sets itself, the shared secret and the OAuth settings included.
pub trino_config_map-extra :
    (coordinator include : Bool) (ns : String) (extra : Properties) (oidc : OidcConfig)
    (public_url shared_secret : String) (superset_enabled : Bool) (key value : String)
    → last_value key extra none ≡ some value
    → lookup key (
        trino_config_map coordinator include ns extra oidc public_url shared_secret
          superset_enabled)
      ≡ some value
unfolding trino_config_map
trino_config_map-extra coordinator include ns extra oidc public_url shared_secret superset key value
      h =
    lookup-copy_labels key _ extra ∙ last_value_over key extra _ value h

-- Trino asks OPA for row filters exactly where the platform has some, and for column masks exactly
-- where it has column restrictions.
access_control_map-switches :
    (opa_url : String) (row_filters column_access : Bool)
    → (lookup "opa.policy.row-filters-uri" (access_control_map opa_url row_filters column_access)
        ≡ (if row_filters then some (opa_url <> "/v1/data/trino/row_filters") else none))
      × (lookup "opa.policy.batch-column-masking-uri"
            (access_control_map opa_url row_filters column_access)
          ≡ (if column_access then some (opa_url <> "/v1/data/trino/batch_column_masks") else none))
unfolding access_control_map lookup
access_control_map-switches opa_url true true = (refl, refl)
access_control_map-switches opa_url true false = (refl, refl)
access_control_map-switches opa_url false true = (refl, refl)
access_control_map-switches opa_url false false = (refl, refl)
