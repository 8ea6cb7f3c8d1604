-- ===== src/Superset/Pod.antt =====
-- internal/controller/superset.go: the containers of Superset and of its Redis.
use data_platform_operator.Base.{
  pos, true, false, none, some, List, [], ◌∷◌, ◌++◌, String, ◌<>◌, ◌==◌, insert, if◌then◌else◌,
}
use data_platform_operator.Base.Exec.{Result, ok}
use data_platform_operator.Api.Database.{PostgresSpec}
use data_platform_operator.Api.Defaults.{EnvVar}
use data_platform_operator.Api.Engines.{
  SupersetSpec, superset_image_or_default, superset_redis_image_or_default,
}
use data_platform_operator.Kube.Objects.{
  Container, Deployment, PodSpec, http_get, tcp_socket, config_map,
}
use data_platform_operator.Cluster.{restricted_pod_security, restricted_container_security}
use data_platform_operator.Cluster.Workloads.{plain, from_secret, ensure_labels}

-- the database that Superset's Postgres is made with
unfoldable pub superset_postgres_database : PostgresSpec → String
superset_postgres_database spec = if spec.database == "" then "superset" else spec.database

-- a value of a Secret that may lack it
abbrev optional_secret : String → String → EnvVar
optional_secret name key = record {
  name = name;
  value = "";
  value_from = some (record { name = "superset-oidc"; key = key; optional = some true });
}

unfoldable pub superset_env : List EnvVar
superset_env =
    plain "SUPERSET_CONFIG_PATH" "/app/pythonpath/superset_config.py"
    ∷ plain "SUPERSET_PORT" "8088"
    ∷ plain "SERVER_PORT" "8088"
    ∷ from_secret "SUPERSET_SECRET_KEY" "superset" "SECRET_KEY"
    ∷ from_secret "DB_PASS" "postgres" "password"
    ∷ optional_secret "SUPERSET_OIDC_CLIENT_ID" "supersetClientID"
    ∷ optional_secret "SUPERSET_OIDC_CLIENT_SECRET" "supersetClientSecret"
    ∷ optional_secret "TRINO_OIDC_CLIENT_ID" "trinoClientID"
    ∷ optional_secret "TRINO_OIDC_CLIENT_SECRET" "trinoClientSecret"
    ∷ []

abbrev start_script : String
start_script =
    "set -eu\n" <> "superset db upgrade\n"
    <> "# init seeds FAB roles; ignore UniqueViolation on re-runs\n" <> "superset init || true\n"
    <> "python /app/pythonpath/bootstrap_trino.py\n" <> "exec /usr/bin/run-server.sh"

unfoldable pub superset_container : SupersetSpec → Container
unfolding superset_env
superset_container spec = record {
  name = "superset";
  image = superset_image_or_default spec;
  image_pull_policy = "IfNotPresent";
  command = "/bin/sh" ∷ "-c" ∷ [];
  args = start_script ∷ [];
  ports = (record { name = "http"; container_port = 8088 }) ∷ [];
  env = superset_env ++ spec.extra_env;
  volume_mounts =
      (record { name = "config"; mount_path = "/app/pythonpath"; sub_path = ""; read_only = false })
      ∷ [];
  readiness_probe = some (http_get "/health" 8088 60 10);
  resources = some spec.resources;
  security_context = restricted_container_security 1000 1000;
}

unfoldable pub redis_container : SupersetSpec → Container
redis_container spec = record {
  name = "superset-redis";
  image = superset_redis_image_or_default spec.redis;
  image_pull_policy = "";
  command = [];
  args = [];
  ports = (record { name = "redis"; container_port = 6379 }) ∷ [];
  env = [];
  volume_mounts = [];
  readiness_probe = some (tcp_socket 6379 5);
  resources = some spec.redis.resources;
  security_context = restricted_container_security 999 999;
}

unfoldable pub redis_pod : SupersetSpec → PodSpec → PodSpec
unfolding redis_container
redis_pod spec pod = record pod {
  security_context = some (restricted_pod_security 999 999);
  containers = redis_container spec ∷ [];
}

unfoldable pub set_superset :
    List (String × String) → String → SupersetSpec → Deployment → Result Deployment
unfolding ensure_labels superset_container
set_superset labels hash spec deploy = ok (record deploy {
  meta = ensure_labels labels deploy.meta;
  selector = if deploy.meta.created then deploy.selector else labels;
  replicas = some (pos 1);
  template = record {
    labels = labels;
    annotations = insert "dataplatform.opsarray.io/config-hash" hash deploy.template.annotations;
    spec = record deploy.template.spec {
      security_context = some (restricted_pod_security 1000 1000);
      containers = superset_container spec ∷ [];
      volumes = (record { name = "config"; source = config_map "superset-config" none }) ∷ [];
    };
  };
})
