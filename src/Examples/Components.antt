-- ===== src/Examples/Components.antt =====
-- The theorems on the components that roll out a workload, at the cluster where all is ready.
use data_platform_operator.Base.{
  true, false, ◌&&◌, pos, List, [], ◌∷◌, String, ◌≡◌, refl, lookup, contains, keys, none, some, All,
  if◌then◌else◌,
}
use data_platform_operator.Base.Exec.{ok}
use data_platform_operator.Config.{OpenfgaConfig, no_oidc}
use data_platform_operator.Controller.Ready.{claims_ready}
use data_platform_operator.Openfga.{reconcile_authz, reconcile_openfga}
use data_platform_operator.Openfga.Ready.{reconcile_authz-OpenFGAReady}
use data_platform_operator.Openfga.Policies.{reconcile_openfga_store}
use data_platform_operator.Keycloak.{reconcile_keycloak}
use data_platform_operator.Keycloak.Secrets.{filled_keys}
use data_platform_operator.Keycloak.Ready.{reconcile_keycloak-AuthReady}
use data_platform_operator.Keycloak.Keys.{filled_keys_complete}
use data_platform_operator.Api.Access.{authz_is_enabled, authz_has_access_policies}
use data_platform_operator.Cluster.Environment.{last_value}
use data_platform_operator.Opa.{opa_container}
use data_platform_operator.Trino.Enforced.{reconcile_authz_enforced}
use data_platform_operator.Trino.Engine.{config_contents, trino_config}
use data_platform_operator.Examples.Cluster.{ready_operator}
use data_platform_operator.Examples.Platform.{platform}
use data_platform_operator.Examples.World.{condition_laws, fresh}

reconcile_authz-OpenFGAReady_example :
    ready_operator.condition_api.is_status_true
      (reconcile_authz ready_operator platform fresh).1.status.conditions
      "OpenFGAReady"
    ≡ claims_ready (reconcile_authz ready_operator platform fresh).0
reconcile_authz-OpenFGAReady_example =
    reconcile_authz-OpenFGAReady ready_operator platform condition_laws fresh

abbrev openfga : OpenfgaConfig
openfga = record {
  enabled = true;
  endpoint = "http://openfga.openfga.svc:8081";
  store = "lakekeeper";
  api_key = "api";
  opa_url = "http://opa.openfga.svc:8181";
  http_endpoint = "http://openfga.openfga.svc:8080";
  row_filter_store_id = "store";
}

openfga_ready : (reconcile_openfga ready_operator platform fresh).0 ≡ ok (openfga, true)
unfolding reconcile_openfga data_platform_operator.Openfga.openfga_rolled_out
    data_platform_operator.Openfga.ensure_openfga_secrets
    data_platform_operator.Openfga.apply_openfga_postgres
    data_platform_operator.Openfga.apply_openfga_service
    data_platform_operator.Openfga.openfga_server
    data_platform_operator.Openfga.apply_openfga_deployment
    data_platform_operator.Openfga.reconcile_access_store
    data_platform_operator.Openfga.access_store_unused data_platform_operator.Openfga.openfga_config
    data_platform_operator.Openfga.openfga_concluded data_platform_operator.Cluster.marking
    data_platform_operator.Cluster.ensure_namespace data_platform_operator.Cluster.random_hex
    data_platform_operator.Cluster.ensure_generated_secret data_platform_operator.Cluster.apply
    data_platform_operator.Cluster.stateful_set_ready
    data_platform_operator.Cluster.deployment_ready data_platform_operator.Cluster.get_secret_data
    data_platform_operator.Cluster.secret_value data_platform_operator.Cluster.set_condition
    data_platform_operator.Base.Exec.◌>>=◌ data_platform_operator.Base.Exec.branch
    data_platform_operator.Base.Exec.lift data_platform_operator.Base.Exec.pure
    data_platform_operator.Base.Exec.raise data_platform_operator.Base.Exec.if_missing
    data_platform_operator.Reconciler.in_world data_platform_operator.Reconciler.set_status
    data_platform_operator.Postgres.storage_quantity data_platform_operator.Oidc.with_catalog
    data_platform_operator.Oidc.on_client data_platform_operator.Base.lookup
    data_platform_operator.Api.Access.authz_has_access_policies
    data_platform_operator.Api.Access.authz_has_row_filters
    data_platform_operator.Api.Access.authz_has_column_access
    data_platform_operator.Api.Access.authz_is_enabled
    data_platform_operator.Api.Access.openfga_namespace_or_default
    data_platform_operator.Api.Access.openfga_store_or_default
    data_platform_operator.Api.Engines.trino_is_enabled
    data_platform_operator.Api.Defaults.bool_default_true
    data_platform_operator.Api.Defaults.string_or_default
    data_platform_operator.Cluster.Names.cluster_service_url
    data_platform_operator.Base.Text.decimal data_platform_operator.Base.Text.decimal_from
    data_platform_operator.Base.Text.digit
openfga_ready = refl

reconcile_openfga_store_example :
    last_value "OPENFGA_STORE_ID" (opa_container ready_operator platform no_oidc openfga).env ≡ (
      if authz_has_access_policies platform.spec.authz
      then some (reconcile_openfga ready_operator platform fresh).1.status.row_filter_store_id
      else none)
reconcile_openfga_store_example =
    reconcile_openfga_store ready_operator platform fresh openfga no_oidc openfga_ready

reconcile_authz_enforced_example :
    contains
      (keys (
        config_contents
          (trino_config platform (record no_oidc { enabled = true }) openfga "shared")))
      "access-control.properties"
    ≡ true
unfolding reconcile_authz data_platform_operator.Api.Access.authz_is_enabled
    data_platform_operator.Api.Access.authz_is_embedded
    data_platform_operator.Api.Defaults.bool_default_true
reconcile_authz_enforced_example =
    reconcile_authz_enforced ready_operator platform fresh openfga
      (record no_oidc { enabled = true }) "shared" openfga_ready

reconcile_keycloak-AuthReady_example :
    ready_operator.condition_api.is_status_true
      (reconcile_keycloak ready_operator platform fresh).1.status.conditions
      "AuthReady"
    ≡ claims_ready (reconcile_keycloak ready_operator platform fresh).0
reconcile_keycloak-AuthReady_example =
    reconcile_keycloak-AuthReady ready_operator platform condition_laws fresh

-- a Secret of clients from before OPA and Superset had theirs
abbrev old : List (String × String)
old = ("trinoClientID", "trino") ∷ ("trinoClientSecret", "t") ∷ []

abbrev new : List (String × String)
new =
    ("trinoClientID", "trino")
    ∷ ("trinoClientSecret", "t")
    ∷ ("opaClientID", "opa")
    ∷ ("opaClientSecret", "")
    ∷ ("supersetClientID", "superset")
    ∷ ("supersetClientSecret", "")
    ∷ []

filled_keys_complete_example :
    ((key value : String) → lookup key old ≡ some value → lookup key new ≡ some value)
    × All
        (λ key. contains (keys new) key ≡ true)
        ("opaClientID" ∷ "opaClientSecret" ∷ "supersetClientID" ∷ "supersetClientSecret" ∷ [])
unfolding filled_keys data_platform_operator.Base.Exec.◌>>=◌
    data_platform_operator.Keycloak.Secrets.fill_random data_platform_operator.Keycloak.Secrets.fill
    data_platform_operator.Base.insert data_platform_operator.Cluster.random_hex
    data_platform_operator.Reconciler.in_world data_platform_operator.Cluster.Names.hex_encode
    contains
filled_keys_complete_example = filled_keys_complete ready_operator old fresh (new, true) refl
