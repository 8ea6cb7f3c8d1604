-- ===== src/Openfga.antt =====
-- internal/controller/openfga.go: OpenFGA with its own Postgres, and the store that row filters and
-- column restrictions are resolved in. The types of that store are in Authz/Types.
pub mod Ready
pub mod Policies
use data_platform_operator.Base.{
  pos, Bool, true, false, not, ◌||◌, Option, none, some, List, [], ◌∷◌, String, ◌<>◌, if◌then◌else◌,
}
use data_platform_operator.Base.Exec.{Exec, pure, raise, lift, errorf, ◌>>=◌, ◌>>◌}
use data_platform_operator.Api.Access.{
  OpenfgaSpec, authz_is_enabled, authz_is_embedded, authz_has_access_policies,
  openfga_namespace_or_default, openfga_image_or_default, openfga_store_or_default,
  openfga_row_filter_store_or_default,
}
use data_platform_operator.Api.Database.{
  PostgresSpec, postgres_image_or_default, postgres_storage_size_or_default,
}
use data_platform_operator.Api.Defaults.{EnvVar}
use data_platform_operator.Api.Engines.{trino_is_enabled}
use data_platform_operator.Api.Platform.{DataPlatform}
use data_platform_operator.Authz.Types.{access_authz_types}
use data_platform_operator.Catalog.Types.{AuthzStoreRequest}
use data_platform_operator.Config.{OpenfgaConfig, no_openfga}
use data_platform_operator.Kube.Objects.{Container, PodSpec, tcp_socket}
use data_platform_operator.Oidc.{with_catalog}
use data_platform_operator.Reconciler.{Reconciler, State, in_world, set_status}
use data_platform_operator.Cluster.{
  get_secret_data, marking, set_condition, ensure_generated_secret, ensure_namespace, random_hex,
  apply, stateful_set_ready, deployment_ready, restricted_pod_security,
  restricted_container_security,
}
use data_platform_operator.Cluster.Names.{labels_for, cluster_service_url}
use data_platform_operator.Cluster.Workloads.{
  port, plain, from_secret, set_service, set_deployment, postgres_container, set_postgres,
}
use data_platform_operator.Postgres.{storage_quantity}

abbrev openfga_env : String → List EnvVar
openfga_env uri =
    plain "OPENFGA_DATASTORE_ENGINE" "postgres"
    ∷ plain "OPENFGA_DATASTORE_URI" uri
    ∷ plain "OPENFGA_PLAYGROUND_ENABLED" "false"
    ∷ plain "OPENFGA_AUTHN_METHOD" "preshared"
    ∷ from_secret "OPENFGA_AUTHN_PRESHARED_KEYS" "openfga" "apiKey"
    ∷ []

unfoldable pub migrate_container : OpenfgaSpec → String → Container
migrate_container spec uri = record {
  name = "migrate";
  image = openfga_image_or_default spec;
  image_pull_policy = "";
  command = [];
  args = "migrate" ∷ [];
  ports = [];
  env = openfga_env uri;
  volume_mounts = [];
  readiness_probe = none;
  resources = none;
  security_context = restricted_container_security 65532 65532;
}

unfoldable pub openfga_container : OpenfgaSpec → String → Container
openfga_container spec uri = record {
  name = "openfga";
  image = openfga_image_or_default spec;
  image_pull_policy = "";
  command = [];
  args = "run" ∷ [];
  ports =
      (record { name = "grpc"; container_port = 8081 })
      ∷ (record { name = "http"; container_port = 8080 })
      ∷ [];
  env = openfga_env uri;
  volume_mounts = [];
  readiness_probe = some (tcp_socket 8081 5);
  resources = some spec.resources;
  security_context = restricted_container_security 65532 65532;
}

abbrev openfga_pod : OpenfgaSpec → String → PodSpec → PodSpec
openfga_pod spec uri pod = record pod {
  security_context = some (restricted_pod_security 65532 65532);
  init_containers = migrate_container spec uri ∷ [];
  containers = openfga_container spec uri ∷ [];
}

module _ {W C : Type 0} (r : Reconciler W C) (dp : DataPlatform) where
  unfoldable pub ensure_openfga_secrets : String → Exec (State W C) (Unit {0})
  ensure_openfga_secrets ns = do
    api_key ← random_hex r 32
    ensure_generated_secret r dp "openfga" ns "openfga" (("apiKey", api_key) ∷ [])
    password ← random_hex r 16
    ensure_generated_secret r dp "postgres" ns "openfga-postgres"
        (("username", "postgres") ∷ ("password", password) ∷ ("database", "postgres") ∷ [])

  unfoldable pub apply_openfga_postgres : String → PostgresSpec → Exec (State W C) (Unit {0})
  apply_openfga_postgres ns spec = do
    size ← lift (
        storage_quantity "openfga postgres "
          (r.kube.parse_quantity (postgres_storage_size_or_default spec)))
    apply r dp r.kube.services ns "postgres"
        (set_service (labels_for dp "openfga-postgres") (port "postgres" 5432 ∷ []))
    apply r dp r.kube.stateful_sets ns "postgres" (
        set_postgres (labels_for dp "openfga-postgres") size
          (postgres_container (postgres_image_or_default spec) "postgres"))

  unfoldable pub apply_openfga_service : String → Exec (State W C) (Unit {0})
  apply_openfga_service ns =
      apply r dp r.kube.services ns "openfga"
        (set_service (labels_for dp "openfga") (port "grpc" 8081 ∷ port "http" 8080 ∷ []))

  unfoldable pub apply_openfga_deployment : String → OpenfgaSpec → Exec (State W C) (Unit {0})
  apply_openfga_deployment ns spec = do
    password ← get_secret_data r "postgres" ns "password"
    apply r dp r.kube.deployments ns "openfga" (
        set_deployment (labels_for dp "openfga") (pos 1) (
          openfga_pod spec (
            "postgres://postgres:"
            <> r.kube.query_escape password
            <> "@postgres:5432/postgres?sslmode=disable")))

  unfoldable pub access_store_request : AuthzStoreRequest
  access_store_request = record {
    store = openfga_row_filter_store_or_default dp.spec.authz.openfga;
    types = access_authz_types dp.spec.authz;
  }

  abbrev pub remember_store : String → Exec (State W C) (Unit {0})
  remember_store id = set_status (λ st. record st { row_filter_store_id = id })

  -- nothing asks the store: no policy is configured, or Trino is off
  unfoldable pub access_store_unused : Bool
  access_store_unused =
      not (authz_has_access_policies dp.spec.authz) || not (trino_is_enabled dp.spec.trino)

  unfoldable pub reconcile_access_store : String → String → Exec (State W C) String
  reconcile_access_store ns api_key =
      if access_store_unused
      then remember_store "" >> pure ""
      else with_catalog r λ c. do
        id ← in_world (
            c.ensure_authz_store
              (record { namespace = ns; service = "openfga"; port = 8080; bearer = api_key })
              access_store_request)
        remember_store id
        pure id

  -- the configuration of an OpenFGA whose database waits
  unfoldable pub waiting_config : String → OpenfgaConfig
  waiting_config ns = record no_openfga {
    enabled = true;
    endpoint = cluster_service_url "openfga" ns 8081;
    store = openfga_store_or_default dp.spec.authz.openfga;
  }

  unfoldable pub openfga_config : String → String → OpenfgaConfig
  openfga_config ns api_key = record no_openfga {
    enabled = true;
    endpoint = cluster_service_url "openfga" ns 8081;
    store = openfga_store_or_default dp.spec.authz.openfga;
    api_key = api_key;
    opa_url = cluster_service_url "opa" ns 8181;
    http_endpoint = cluster_service_url "openfga" ns 8080;
  }

  -- the steps once the database is ready
  unfoldable pub openfga_server : String → Exec (State W C) (OpenfgaConfig × Option String)
  openfga_server ns = do
    apply_openfga_deployment ns dp.spec.authz.openfga
    api_key ← get_secret_data r "openfga" ns "apiKey"
    ready ← deployment_ready r ns "openfga"
    if not ready
        then pure (openfga_config ns api_key, some "OpenFGA Deployment is not ready")
        else do
          id ← reconcile_access_store ns api_key
          pure (record (openfga_config ns api_key) { row_filter_store_id = id }, none)

  -- the steps of `reconcileOpenFGA`, every error of which marks the condition
  unfoldable pub openfga_rolled_out : String → Exec (State W C) (OpenfgaConfig × Option String)
  openfga_rolled_out ns = do
    ensure_namespace r dp ns "openfga"
    ensure_openfga_secrets ns
    apply_openfga_postgres ns dp.spec.authz.openfga.postgres
    apply_openfga_service ns
    ready ← stateful_set_ready r ns "postgres"
    if not ready
        then pure (waiting_config ns, some "OpenFGA Postgres is not ready")
        else openfga_server ns

  -- ready, or what it waits for
  unfoldable pub openfga_concluded :
      OpenfgaConfig × Option String → Exec (State W C) (OpenfgaConfig × Bool)
  openfga_concluded (cfg, none) =
      set_condition r dp "OpenFGAReady" true "Ready" "OpenFGA is ready" >> pure (cfg, true)
  openfga_concluded (cfg, some waiting) =
      set_condition r dp "OpenFGAReady" false "NotReady" waiting >> pure (cfg, false)

  unfoldable pub reconcile_openfga : Exec (State W C) (OpenfgaConfig × Bool)
  reconcile_openfga =
      let ns = openfga_namespace_or_default dp.spec.authz.openfga in
      set_status (λ st. record st { openfga_endpoint = cluster_service_url "openfga" ns 8081 })
      >> marking r dp "OpenFGAReady" "Error" (openfga_rolled_out ns)
      >>= openfga_concluded

  unfoldable pub external_openfga : Exec (State W C) (OpenfgaConfig × Bool)
  external_openfga =
      let message : String =
        "external OpenFGA is not supported yet; set spec.authz.embedded=true" in
      set_condition r dp "OpenFGAReady" false "Missing" message >> raise (errorf message)

  unfoldable pub reconcile_authz : Exec (State W C) (OpenfgaConfig × Bool)
  reconcile_authz =
      if not (authz_is_enabled dp.spec.authz)
      then set_condition r dp "OpenFGAReady" true "Disabled" "Authorization is disabled"
        >> pure (no_openfga, true)
      else if not (authz_is_embedded dp.spec.authz)
      then external_openfga
      else reconcile_openfga
