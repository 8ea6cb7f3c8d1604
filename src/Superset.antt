-- ===== src/Superset.antt =====
-- internal/controller/superset.go: Superset with its own Postgres and Redis.
pub mod Python
pub mod Pod
pub mod Ready
pub mod Observed
use data_platform_operator.Base.{
  pos, Bool, true, false, not, Option, none, some, List, [], ◌∷◌, String, ◌<>◌, insert,
  if◌then◌else◌,
}
use data_platform_operator.Base.Exec.{Result, ok, Exec, pure, lift, ◌>>=◌, ◌>>◌}
use data_platform_operator.Api.Constants.{default_trino_catalog}
use data_platform_operator.Api.Database.{
  PostgresSpec, postgres_image_or_default, postgres_storage_size_or_default,
}
use data_platform_operator.Api.Engines.{
  superset_namespace_or_default, trino_namespace_or_default, service_type_or_default,
}
use data_platform_operator.Api.Platform.{DataPlatform}
use data_platform_operator.Config.{OidcConfig}
use data_platform_operator.Kube.Objects.{ConfigMap, Secret, Service}
use data_platform_operator.Reconciler.{Reconciler, State, set_status}
use data_platform_operator.Cluster.{
  get_secret_data, marking, set_condition, ensure_generated_secret, random_hex, apply,
  stateful_set_ready, deployment_ready, hash_data,
}
use data_platform_operator.Cluster.Names.{labels_for, cluster_service_url}
use data_platform_operator.Cluster.Workloads.{
  port, ensure_labels, set_service, set_deployment, postgres_container, set_postgres,
}
use data_platform_operator.Postgres.{storage_quantity}
use Python.{superset_config_text, superset_bootstrap_text}
use Pod.{superset_postgres_database, redis_pod, set_superset}

unfoldable pub database_uri : String → String
database_uri escaped = "postgresql+psycopg2://postgres:" <> escaped <> "@postgres:5432/superset"

unfoldable pub trino_uri : DataPlatform → String
trino_uri dp =
    "trino://trino."
    <> trino_namespace_or_default dp.spec.trino
    <> ".svc:8080/"
    <> default_trino_catalog

abbrev set_oidc_secret : List (String × String) → OidcConfig → Secret → Result Secret
set_oidc_secret labels oidc secret = ok (record secret {
  meta = ensure_labels labels secret.meta;
  contents = insert "trinoClientSecret" oidc.trino_secret (
      insert "trinoClientID" oidc.trino_client_id (
        insert "supersetClientSecret" oidc.superset_secret
          (insert "supersetClientID" oidc.superset_client_id secret.contents)));
})

abbrev set_config : List (String × String) → String → String → ConfigMap → Result ConfigMap
set_config labels config bootstrap cm = ok (record cm {
  meta = ensure_labels labels cm.meta;
  contents = insert "bootstrap_trino.py" bootstrap (insert "superset_config.py" config cm.contents);
})

abbrev set_superset_service : List (String × String) → String → Service → Result Service
set_superset_service labels type svc = ok (record svc {
  meta = ensure_labels labels svc.meta;
  type = type;
  selector = labels;
  ports = port "http" 8088 ∷ [];
})

module _ {W C : Type 0} (r : Reconciler W C) (dp : DataPlatform) where
  abbrev namespace : String
  namespace = superset_namespace_or_default dp.spec.superset

  unfoldable pub ensure_superset_oidc_secret : OidcConfig → Exec (State W C) (Unit {0})
  ensure_superset_oidc_secret oidc =
      apply r dp r.kube.secrets namespace "superset-oidc"
        (set_oidc_secret (labels_for dp "superset") oidc)

  unfoldable pub ensure_superset_secrets : OidcConfig → Exec (State W C) (Unit {0})
  ensure_superset_secrets oidc = do
    password ← random_hex r 16
    ensure_generated_secret r dp "postgres" namespace "superset-postgres"
        (("username", "postgres") ∷ ("password", password) ∷ ("database", "superset") ∷ [])
    secret_key ← random_hex r 32
    ensure_generated_secret r dp "superset" namespace "superset" (("SECRET_KEY", secret_key) ∷ [])
    if not oidc.enabled then pure tt else ensure_superset_oidc_secret oidc

  unfoldable pub apply_superset_postgres : PostgresSpec → Exec (State W C) (Unit {0})
  apply_superset_postgres spec = do
    size ← lift (
        storage_quantity "superset postgres "
          (r.kube.parse_quantity (postgres_storage_size_or_default spec)))
    apply r dp r.kube.services namespace "postgres"
        (set_service (labels_for dp "superset-postgres") (port "postgres" 5432 ∷ []))
    apply r dp r.kube.stateful_sets namespace "postgres" (
        set_postgres (labels_for dp "superset-postgres") size
          (postgres_container (postgres_image_or_default spec) (superset_postgres_database spec)))

  unfoldable pub apply_superset_redis : Exec (State W C) (Unit {0})
  apply_superset_redis = do
    apply r dp r.kube.services namespace "superset-redis"
        (set_service (labels_for dp "superset-redis") (port "redis" 6379 ∷ []))
    apply r dp r.kube.deployments namespace "superset-redis"
        (set_deployment (labels_for dp "superset-redis") (pos 1) (redis_pod dp.spec.superset))

  unfoldable pub superset_config : OidcConfig → Exec (State W C) (String × String)
  superset_config oidc = do
    password ← get_secret_data r "postgres" namespace "password"
    let cfg : String =
        superset_config_text r.quote (database_uri (r.kube.query_escape password)) (trino_uri dp)
          oidc dp.spec.superset.public_url
    pure (cfg, hash_data r (cfg ∷ []))

  unfoldable pub superset_bootstrap_trino : String
  superset_bootstrap_trino = superset_bootstrap_text r.quote (trino_uri dp)

  unfoldable pub apply_superset_config_map : String → Exec (State W C) (Unit {0})
  apply_superset_config_map config =
      apply r dp r.kube.config_maps namespace "superset-config"
        (set_config (labels_for dp "superset") config superset_bootstrap_trino)

  unfoldable pub apply_superset_service : Exec (State W C) (Unit {0})
  apply_superset_service = apply r dp r.kube.services namespace "superset" (
      set_superset_service (labels_for dp "superset")
        (service_type_or_default dp.spec.superset.service))

  unfoldable pub apply_superset_deployment : String → Exec (State W C) (Unit {0})
  apply_superset_deployment hash =
      apply r dp r.kube.deployments namespace "superset"
        (set_superset (labels_for dp "superset") hash dp.spec.superset)

  -- the first of the three workloads that is not ready
  unfoldable pub superset_waiting : Exec (State W C) (Option String)
  superset_waiting = do
    postgres ← stateful_set_ready r namespace "postgres"
    if not postgres then pure (some "Superset Postgres is not ready") else do
      redis ← deployment_ready r namespace "superset-redis"
      if not redis then pure (some "Superset Redis is not ready") else do
        ready ← deployment_ready r namespace "superset"
        pure (if ready then none else some "Superset Deployment is not ready")

  -- the steps of `reconcileSuperset`, every error of which marks the condition
  unfoldable pub superset_rolled_out : OidcConfig → Exec (State W C) (Option String)
  superset_rolled_out oidc = do
    ensure_superset_secrets oidc
    apply_superset_postgres dp.spec.superset.postgres
    apply_superset_redis
    cfg ← superset_config oidc
    apply_superset_config_map cfg.0
    apply_superset_service
    apply_superset_deployment (hash_data r (cfg.1 ∷ superset_bootstrap_trino ∷ []))
    superset_waiting

  -- ready, or what it waits for
  unfoldable pub superset_concluded : Option String → Exec (State W C) (Unit {0})
  superset_concluded none = set_condition r dp "SupersetReady" true "Ready" "Superset is ready"
  superset_concluded (some waiting) = set_condition r dp "SupersetReady" false "NotReady" waiting

  unfoldable pub announce_endpoint : Exec (State W C) (Unit {0})
  announce_endpoint =
      set_status
        λ st. record st { superset_endpoint = cluster_service_url "superset" namespace 8088 }

  unfoldable pub reconcile_superset : OidcConfig → Exec (State W C) (Unit {0})
  reconcile_superset oidc =
      announce_endpoint
      >> marking r dp "SupersetReady" "Error" (superset_rolled_out oidc)
      >>= superset_concluded
