-- ===== src/Minio/Jobs.antt =====
-- internal/controller/minio.go: how a Job stands, and the containers of MinIO.
use data_platform_operator.Cluster.Workloads.{plain, from_secret}
use data_platform_operator.Base.{
  Bool, false, ◌&&◌, ◌||◌, none, some, List, [], ◌∷◌, String, ◌<>◌, ◌==◌, ltb,
}
use data_platform_operator.Api.Defaults.{EnvVar}
use data_platform_operator.Api.Storage.{
  MinioSpec, minio_image_or_default, minio_mc_image_or_default, minio_bucket_or_default,
}
use data_platform_operator.Kube.Objects.{Job, StatusCondition, Container, http_get, empty_dir}
use data_platform_operator.Cluster.{
  restricted_pod_security, restricted_container_security, new_meta,
}

-- some condition of the type is "True"
unfoldable pub has_condition : String → List StatusCondition → Bool
has_condition type [] = false
has_condition type (c ∷ cs) = ((c.type == type) && c.is_true) || has_condition type cs

unfoldable pub job_succeeded : Job → Bool
unfolding has_condition
job_succeeded job = has_condition "Complete" job.conditions || ltb 0 job.succeeded

unfoldable pub job_failed : Job → Bool
unfolding has_condition
job_failed job = has_condition "Failed" job.conditions

unfoldable pub sets_home : List EnvVar → Bool
sets_home [] = false
sets_home (v ∷ vs) = ((v.name == "HOME") && (v.value == "/tmp")) || sets_home vs

-- `mcJobWritableConfig`, of the job's containers
unfoldable pub mc_job_writable_config : List Container → Bool
unfolding sets_home
mc_job_writable_config [] = false
mc_job_writable_config (c ∷ cs) = sets_home c.env

unfoldable pub minio_container : MinioSpec → Container
minio_container spec = record {
  name = "minio";
  image = minio_image_or_default spec;
  image_pull_policy = "";
  command = [];
  args = "server" ∷ "/data" ∷ "--console-address" ∷ ":9001" ∷ [];
  ports =
      (record { name = "api"; container_port = 9000 })
      ∷ (record { name = "console"; container_port = 9001 })
      ∷ [];
  env =
      from_secret "MINIO_ROOT_USER" "minio" "AWS_ACCESS_KEY_ID"
      ∷ from_secret "MINIO_ROOT_PASSWORD" "minio" "AWS_SECRET_ACCESS_KEY"
      ∷ [];
  volume_mounts =
      (record { name = "data"; mount_path = "/data"; sub_path = ""; read_only = false }) ∷ [];
  readiness_probe = some (http_get "/minio/health/ready" 9000 0 5);
  resources = some spec.resources;
  security_context = restricted_container_security 1000 1000;
}

unfoldable pub mc_container : MinioSpec → Container
mc_container spec = record {
  name = "mc";
  image = minio_mc_image_or_default spec;
  image_pull_policy = "";
  command = [];
  args = "mb" ∷ "--ignore-existing" ∷ ("local/" <> minio_bucket_or_default spec) ∷ [];
  ports = [];
  env =
      plain "HOME" "/tmp"
      ∷ plain "MC_CONFIG_DIR" "/tmp/.mc"
      ∷ from_secret "MC_HOST_local" "minio-mc" "MC_HOST_local"
      ∷ [];
  volume_mounts =
      (record { name = "tmp"; mount_path = "/tmp"; sub_path = ""; read_only = false }) ∷ [];
  readiness_probe = none;
  resources = none;
  security_context = restricted_container_security 1000 1000;
}

unfoldable pub bucket_job : MinioSpec → String → List (String × String) → Job
bucket_job spec namespace labels = record {
  meta = new_meta "minio-create-bucket" namespace labels;
  backoff_limit = some 6;
  template = record {
    labels = labels;
    annotations = [];
    spec = record {
      restart_policy = "OnFailure";
      security_context = some (restricted_pod_security 1000 1000);
      init_containers = [];
      containers = mc_container spec ∷ [];
      volumes = (record { name = "tmp"; source = empty_dir }) ∷ [];
    };
  };
  conditions = [];
  succeeded = 0;
}
