-- ===== src/Cluster/Workloads.antt =====
-- internal/controller/apply.go and the components: what their Services, Deployments and generated
-- Secrets have in common.
use data_platform_operator.Base.{
  ℕ, ℤ, pos, Bool, true, false, none, some, List, [], ◌∷◌, String, if◌then◌else◌,
}
use data_platform_operator.Base.Exec.{Result, ok, err, Exec, pure, branch, ◌>>=◌}
use data_platform_operator.Api.Platform.{DataPlatform}
use data_platform_operator.Api.Defaults.{EnvVar}
use data_platform_operator.Kube.Objects.{
  ObjectMeta, Service, ServicePort, Deployment, StatefulSet, PodSpec, Container, tcp_socket,
}
use data_platform_operator.Reconciler.{Reconciler, State, in_world}
use data_platform_operator.Cluster.{
  set_condition, marking, restricted_pod_security, restricted_container_security,
}
use data_platform_operator.Cluster.Names.{copy_labels}

-- `ensureLabels`
unfoldable pub ensure_labels : List (String × String) → ObjectMeta → ObjectMeta
unfolding copy_labels
ensure_labels labels meta = record meta { labels = copy_labels meta.labels labels }

abbrev pub plain : String → String → EnvVar
plain name value = record { name = name; value = value; value_from = none }

abbrev pub from_secret : String → String → String → EnvVar
from_secret name secret key = record {
  name = name;
  value = "";
  value_from = some (record { name = secret; key = key; optional = none });
}

abbrev pub port : String → ℕ → ServicePort
port name n = record { name = name; port = n; target_port = n }

-- a Service of the components' shape
unfoldable pub set_service : List (String × String) → List ServicePort → Service → Result Service
unfolding ensure_labels
set_service labels ports svc =
    ok (record svc { meta = ensure_labels labels svc.meta; selector = labels; ports = ports })

-- A Deployment of the components' shape. The selector, which the API server lets no one change, is
-- set on creation only.
unfoldable pub set_deployment :
    List (String × String) → ℤ → (PodSpec → PodSpec) → Deployment → Result Deployment
unfolding ensure_labels
set_deployment labels replicas pod deploy = ok (record deploy {
  meta = ensure_labels labels deploy.meta;
  selector = if deploy.meta.created then deploy.selector else labels;
  replicas = some replicas;
  template = record deploy.template { labels = labels; spec = pod deploy.template.spec };
})

-- the container of a Postgres that the operator runs, by its image and database
unfoldable pub postgres_container : String → String → Container
postgres_container image database = record {
  name = "postgres";
  image = image;
  image_pull_policy = "";
  command = [];
  args = [];
  ports = (record { name = "postgres"; container_port = 5432 }) ∷ [];
  env =
      plain "POSTGRES_USER" "postgres"
      ∷ from_secret "POSTGRES_PASSWORD" "postgres" "password"
      ∷ plain "POSTGRES_DB" database
      ∷ plain "PGDATA" "/var/lib/postgresql/data/pgdata"
      ∷ [];
  volume_mounts =
      (record {
        name = "data";
        mount_path = "/var/lib/postgresql/data";
        sub_path = "";
        read_only = false;
      })
      ∷ [];
  readiness_probe = some (tcp_socket 5432 5);
  resources = none;
  security_context = restricted_container_security 999 999;
}

-- and its StatefulSet, by its labels, storage and container
unfoldable pub set_postgres :
    List (String × String) → String → Container → StatefulSet → Result StatefulSet
unfolding ensure_labels
set_postgres labels size container sts = ok (record sts {
  meta = ensure_labels labels sts.meta;
  selector = if sts.meta.created then sts.selector else labels;
  service_name = if sts.meta.created then sts.service_name else "postgres";
  storage = if sts.meta.created then sts.storage else some size;
  replicas = some (pos 1);
  template = record sts.template {
    labels = labels;
    spec = record sts.template.spec {
      security_context = some (restricted_pod_security 999 999);
      containers = container ∷ [];
    };
  };
})

-- whether steps that tell of readiness ended with it
unfoldable pub became_ready : Result Bool → Bool
became_ready (ok ready) = ready
became_ready (err e) = false

module _ {W C : Type 0} (r : Reconciler W C) where
  -- what is done unless the Secret can be read
  unfoldable pub unless_secret :
      String → String → Exec (State W C) (Unit {0}) → Exec (State W C) (Unit {0})
  unless_secret namespace name make =
      branch (in_world (r.kube.secrets.get namespace name)) (λ secret. pure tt) (λ e. make)

  -- the condition of a component that is ready, or waits for its workload
  unfoldable pub report_ready :
      DataPlatform → String → String → String → Bool → Exec (State W C) (Unit {0})
  report_ready dp type message waiting ready =
      if ready
      then set_condition r dp type true "Ready" message
      else set_condition r dp type false "NotReady" waiting

  -- A component whose condition tells of one workload: the steps, every error of which marks the
  -- condition, and whether the workload is ready.
  unfoldable pub rollout :
      DataPlatform → String → String → String → Exec (State W C) Bool → Exec (State W C) (Unit {0})
  rollout dp type message waiting steps =
      marking r dp type "Error" steps >>= report_ready dp type message waiting
