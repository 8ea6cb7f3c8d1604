-- ===== src/SampleData.antt =====
-- internal/controller/sampledata.go: the Job that seeds the sample tables.
pub mod Seed
pub mod Ready
use data_platform_operator.Cluster.Workloads.{ensure_labels, plain, from_secret}
use data_platform_operator.Base.{
  Bool, true, false, not, ◌&&◌, ◌||◌, Option, none, some, List, [], ◌∷◌, ◌++◌, String, ◌<>◌, ◌==◌,
  lookup, insert, if◌then◌else◌,
}
use data_platform_operator.Base.Exec.{Result, ok, Exec, pure, branch, if_missing, ◌>>=◌, ◌>>◌}
use data_platform_operator.Api.Constants.{
  default_oidc_admin_user, default_oidc_client_id, default_trino_catalog,
}
use data_platform_operator.Api.Defaults.{EnvVar}
use data_platform_operator.Api.Engines.{
  lakekeeper_is_enabled, trino_is_enabled, trino_namespace_or_default, superset_is_enabled,
  sample_data_is_enabled, sample_data_schema_or_default, sample_data_image_or_default,
}
use data_platform_operator.Api.Identity.{
  auth_is_enabled, auth_is_embedded, keycloak_namespace_or_default,
}
use data_platform_operator.Api.Platform.{DataPlatform}
use data_platform_operator.Config.{OidcConfig}
use data_platform_operator.Kube.Objects.{ConfigMap, Secret, Job, config_map}
use data_platform_operator.Reconciler.{Reconciler, State, in_world}
use data_platform_operator.Cluster.{
  apply, condition_true, get_secret_data, hash_data, marking, new_meta,
  restricted_container_security, restricted_pod_security, set_condition,
}
use data_platform_operator.Cluster.Names.{labels_for, cluster_service_url}
use data_platform_operator.Minio.{preset}
use data_platform_operator.Minio.Jobs.{job_succeeded, job_failed}
use data_platform_operator.Trino.{trino_oauth_enabled}
use Seed.{sample_data_sql, sample_data_seed_script}

unfoldable pub sample_data_job_hash : Job → String
sample_data_job_hash job =
    elim (lookup "dataplatform.opsarray.io/sample-data-hash" job.meta.annotations) [
      | none ↦ ""
      | some h ↦ h
    ]

unfoldable pub seed_env : String → OidcConfig → Bool → List EnvVar
seed_env namespace oidc needs_oauth =
    (plain "TRINO_URL" (cluster_service_url "trino" namespace 8080)
      ∷ plain "SQL_FILE" "/sample/sample.sql"
      ∷ [])
    ++ (if needs_oauth
        then plain "TOKEN_URL" oidc.token_url
          ∷ plain "OIDC_CLIENT_ID" default_oidc_client_id
          ∷ plain "OIDC_USERNAME" default_oidc_admin_user
          ∷ from_secret "OIDC_PASSWORD" "trino-sample-data-oidc" "password"
          ∷ []
        else plain "TRINO_USER" default_oidc_admin_user ∷ [])

unfoldable pub seed_job : DataPlatform → String → String → List EnvVar → Job
seed_job dp namespace hash env =
    let labels = labels_for dp "sample-data" in
    record {
      meta = record (new_meta "trino-sample-data" namespace labels) {
        annotations = ("dataplatform.opsarray.io/sample-data-hash", hash) ∷ [];
      };
      backoff_limit = some 6;
      template = record {
        labels = labels;
        annotations = [];
        spec = record {
          restart_policy = "OnFailure";
          security_context = some (restricted_pod_security 65532 65532);
          init_containers = [];
          containers =
              (record {
                name = "seed";
                image = sample_data_image_or_default dp.spec.sample_data;
                image_pull_policy = "IfNotPresent";
                command = "python3" ∷ "/sample/seed.py" ∷ [];
                args = [];
                ports = [];
                env = env;
                volume_mounts =
                    (record {
                      name = "sample";
                      mount_path = "/sample";
                      sub_path = "";
                      read_only = true;
                    })
                    ∷ [];
                readiness_probe = none;
                resources = none;
                security_context = restricted_container_security 65532 65532;
              })
              ∷ [];
          volumes =
              (record { name = "sample"; source = config_map "trino-sample-data" (some 292) }) ∷ [];
        };
      };
      conditions = [];
      succeeded = 0;
    }

unfoldable pub seed_disabled : DataPlatform → Bool
seed_disabled dp =
    not (trino_is_enabled dp.spec.trino)
    || not (lakekeeper_is_enabled dp.spec.lakekeeper)
    || not (sample_data_is_enabled dp.spec.sample_data)

-- the Job can log in at the embedded provider only
unfoldable pub seed_unauthenticated : DataPlatform → Bool
seed_unauthenticated dp = auth_is_enabled dp.spec.auth && not (auth_is_embedded dp.spec.auth)

module _ {W C : Type 0} (r : Reconciler W C) (dp : DataPlatform) where
  -- how a Job that was found stands: it is ready only where it succeeded, and one that failed or
  -- has other contents is deleted
  unfoldable pub seed_job_found : String → String → Job → Exec (State W C) Bool
  seed_job_found namespace hash job =
      if job.meta.deleting
      then pure false
      else if job_succeeded job
      then pure true
      else if job_failed job || not (sample_data_job_hash job == hash)
      then (in_world (r.kube.jobs.delete namespace "trino-sample-data") >> pure false)
      else pure false

  abbrev set_oidc_secret : String → Secret → Result Secret
  set_oidc_secret password secret = ok (record secret {
    meta = ensure_labels (labels_for dp "sample-data") secret.meta;
    type = "Opaque";
    contents = insert "password" password secret.contents;
  })

  unfoldable pub ensure_sample_data_oidc_secret : String → Exec (State W C) (Unit {0})
  ensure_sample_data_oidc_secret namespace = do
    password ←
        get_secret_data r "keycloak-admin" (keycloak_namespace_or_default dp.spec.auth.keycloak)
          "password"
    apply r dp r.kube.secrets namespace "trino-sample-data-oidc" (set_oidc_secret password)

  unfoldable pub ensure_sample_data_job :
      String → String → OidcConfig → Bool → Exec (State W C) Bool
  ensure_sample_data_job namespace hash oidc needs_oauth =
      if_missing (seed_job_found namespace hash)
        (do
          (if needs_oauth then ensure_sample_data_oidc_secret namespace else pure tt)
          apply r dp r.kube.jobs namespace "trino-sample-data"
              (preset (seed_job dp namespace hash (seed_env namespace oidc needs_oauth)))
          pure false)
        (in_world (r.kube.jobs.get namespace "trino-sample-data"))

  abbrev set_seed : String → ConfigMap → Result ConfigMap
  set_seed sql cm = ok (record cm {
    meta = ensure_labels (labels_for dp "sample-data") cm.meta;
    contents = insert "seed.py" sample_data_seed_script (insert "sample.sql" sql cm.contents);
  })

  -- the ConfigMap and the Job, every error of which marks the condition
  unfoldable pub seeded : String → OidcConfig → Exec (State W C) Bool
  seeded sql oidc =
      let namespace = trino_namespace_or_default dp.spec.trino in
      apply r dp r.kube.config_maps namespace "trino-sample-data" (set_seed sql)
      >> ensure_sample_data_job namespace (hash_data r (sql ∷ sample_data_seed_script ∷ [])) oidc
          (trino_oauth_enabled oidc dp.spec.trino.public_url (superset_is_enabled dp.spec.superset))

  -- the condition, and that it is still progressing
  unfoldable pub waiting : String → Exec (State W C) Bool
  waiting message = set_condition r dp "SampleDataReady" false "NotReady" message >> pure true

  unfoldable pub finished : String → String → Exec (State W C) Bool
  finished reason message = set_condition r dp "SampleDataReady" true reason message >> pure false

  unfoldable pub seed_stack : OidcConfig → Exec (State W C) Bool
  seed_stack oidc =
      let schema = sample_data_schema_or_default dp.spec.sample_data in
      let fq = default_trino_catalog <> "." <> schema in
      marking r dp "SampleDataReady" "Error"
        (seeded (sample_data_sql default_trino_catalog schema) oidc)
      >>= λ ready.
          if ready
          then finished "Ready" ("Seeded " <> fq <> ".orders and " <> fq <> ".invoices")
          else waiting "Sample data Job is running"

  unfoldable pub reconcile_sample_data : OidcConfig → Exec (State W C) Bool
  reconcile_sample_data oidc =
      if seed_disabled dp
      then finished "Disabled" "Sample data is disabled"
      else if seed_unauthenticated dp
      then finished "Disabled"
          "Sample data skipped: embedded Keycloak is required to authenticate the seed Job"
      else (condition_true r "WarehouseReady" >>= λ warehouse.
          if not warehouse
          then waiting "Waiting for warehouse"
          else (condition_true r "TrinoReady" >>= λ trino.
              if not trino then waiting "Waiting for Trino" else seed_stack oidc))
