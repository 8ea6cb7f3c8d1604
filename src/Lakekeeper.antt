-- ===== src/Lakekeeper.antt =====
-- internal/controller/lakekeeper.go: the catalog's key, Service and Deployment.
pub mod Env
pub mod Ready
pub mod Switches
use data_platform_operator.Base.{Bool, true, false, none, some, List, [], ◌∷◌, ◌++◌, String, ◌<>◌}
use data_platform_operator.Base.Exec.{Exec, ◌>>=◌, ◌>>◌}
use data_platform_operator.Api.Database.{postgres_image_or_default}
use data_platform_operator.Api.Defaults.{EnvVar}
use data_platform_operator.Api.Engines.{
  LakekeeperSpec, lakekeeper_namespace_or_default, lakekeeper_image_or_default,
  lakekeeper_replicas_or_default,
}
use data_platform_operator.Api.Platform.{DataPlatform}
use data_platform_operator.Config.{OidcConfig, OpenfgaConfig, PostgresConn}
use data_platform_operator.Kube.Objects.{Container, PodSpec, tcp_socket}
use data_platform_operator.Reconciler.{Reconciler, State, set_status}
use data_platform_operator.Cluster.{
  ensure_generated_secret, random_hex, apply, deployment_ready, restricted_pod_security,
  restricted_container_security,
}
use data_platform_operator.Cluster.Names.{labels_for, cluster_service_url}
use data_platform_operator.Cluster.Workloads.{
  port, set_service, set_deployment, unless_secret, rollout,
}
use Env.{int_text, lakekeeper_env}

abbrev pg_wait : PostgresConn → String
pg_wait conn =
    "until pg_isready -h "
    <> conn.host
    <> " -p "
    <> int_text conn.port
    <> " -U "
    <> conn.username
    <> "; do sleep 2; done"

unfoldable pub wait_container : LakekeeperSpec → PostgresConn → Container
unfolding int_text
wait_container spec conn = record {
  name = "wait-for-postgres";
  image = postgres_image_or_default spec.postgres;
  image_pull_policy = "";
  command = "sh" ∷ "-c" ∷ pg_wait conn ∷ [];
  args = [];
  ports = [];
  env = [];
  volume_mounts = [];
  readiness_probe = none;
  resources = none;
  security_context = restricted_container_security 999 999;
}

unfoldable pub migrate_container : LakekeeperSpec → List EnvVar → Container
migrate_container spec env = record {
  name = "migrate";
  image = lakekeeper_image_or_default spec;
  image_pull_policy = "";
  command = [];
  args = "migrate" ∷ [];
  ports = [];
  env = env;
  volume_mounts = [];
  readiness_probe = none;
  resources = none;
  security_context = restricted_container_security 65532 65534;
}

unfoldable pub serve_container : LakekeeperSpec → List EnvVar → Container
serve_container spec env = record {
  name = "lakekeeper";
  image = lakekeeper_image_or_default spec;
  image_pull_policy = "";
  command = [];
  args = "serve" ∷ [];
  ports = (record { name = "http"; container_port = 8181 }) ∷ [];
  env = env;
  volume_mounts = [];
  readiness_probe = some (tcp_socket 8181 5);
  resources = some spec.resources;
  security_context = restricted_container_security 65532 65534;
}

-- the environment of both containers: the extra variables of the specification come last
unfoldable pub container_env :
    DataPlatform → PostgresConn → OidcConfig → OpenfgaConfig → List EnvVar
container_env dp conn oidc fga = lakekeeper_env dp conn oidc fga ++ dp.spec.lakekeeper.extra_env

unfoldable pub lakekeeper_pod : LakekeeperSpec → PostgresConn → List EnvVar → PodSpec → PodSpec
unfolding wait_container migrate_container serve_container
lakekeeper_pod spec conn env pod = record pod {
  security_context = some (restricted_pod_security 0 0);
  init_containers = wait_container spec conn ∷ migrate_container spec env ∷ [];
  containers = serve_container spec env ∷ [];
}

abbrev pub namespace : DataPlatform → String
namespace dp = lakekeeper_namespace_or_default dp.spec.lakekeeper

module _ {W C : Type 0} (r : Reconciler W C) (dp : DataPlatform) where
  unfoldable pub ensure_encryption_secret : Exec (State W C) (Unit {0})
  ensure_encryption_secret = unless_secret r (namespace dp) "lakekeeper-encryption" (do
    key ← random_hex r 32
    ensure_generated_secret r dp "lakekeeper-encryption" (namespace dp) "lakekeeper"
        (("LAKEKEEPER__PG_ENCRYPTION_KEY", key) ∷ []))

  unfoldable pub apply_lakekeeper_service : Exec (State W C) (Unit {0})
  apply_lakekeeper_service =
      apply r dp r.kube.services (namespace dp) "lakekeeper"
        (set_service (labels_for dp "lakekeeper") (port "http" 8181 ∷ []))

  unfoldable pub apply_lakekeeper_deployment :
      PostgresConn → OidcConfig → OpenfgaConfig → Exec (State W C) (Unit {0})
  apply_lakekeeper_deployment conn oidc fga =
      apply r dp r.kube.deployments (namespace dp) "lakekeeper" (
        set_deployment (labels_for dp "lakekeeper")
          (lakekeeper_replicas_or_default dp.spec.lakekeeper)
          (lakekeeper_pod dp.spec.lakekeeper conn (container_env dp conn oidc fga)))

  -- the steps, every error of which marks the condition
  unfoldable pub lakekeeper_rolled_out :
      PostgresConn → OidcConfig → OpenfgaConfig → Exec (State W C) Bool
  lakekeeper_rolled_out conn oidc fga = do
    ensure_encryption_secret
    apply_lakekeeper_service
    apply_lakekeeper_deployment conn oidc fga
    deployment_ready r (namespace dp) "lakekeeper"

  unfoldable pub announce_endpoint : Exec (State W C) (Unit {0})
  announce_endpoint =
      set_status λ st. record st {
        lakekeeper_endpoint = cluster_service_url "lakekeeper" (namespace dp) 8181;
      }

  unfoldable pub reconcile_lakekeeper :
      PostgresConn → OidcConfig → OpenfgaConfig → Exec (State W C) (Unit {0})
  reconcile_lakekeeper conn oidc fga =
      announce_endpoint
      >> rollout r dp "LakekeeperReady" "LakeKeeper is ready" "LakeKeeper Deployment is not ready"
          (lakekeeper_rolled_out conn oidc fga)
