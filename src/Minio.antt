-- ===== src/Minio.antt =====
-- internal/controller/minio.go: the object store, external or MinIO in the cluster.
pub mod Jobs
pub mod Ready
use data_platform_operator.Cluster.Workloads.{ensure_labels}
use data_platform_operator.Base.{
  ℤ, pos, Bool, true, false, not, ◌&&◌, ◌||◌, Option, none, some, List, [], ◌∷◌, String, ◌<>◌, ◌==◌,
  if◌then◌else◌,
}
use data_platform_operator.Base.Exec.{
  Error, Result, ok, err, Exec, pure, raise, lift, gets, errorf, branch, if_missing, ◌>>=◌, ◌>>◌,
}
use data_platform_operator.Api.Platform.{DataPlatform}
use data_platform_operator.Api.Storage.{
  S3Spec, S3CredentialsSecretRef, MinioSpec, storage_is_embedded, minio_namespace_or_default,
  minio_storage_size_or_default, minio_bucket_or_default, s3_flavor_or_default,
  s3_credentials_secret_access_key_id_key_or_default,
  s3_credentials_secret_secret_access_key_key_or_default,
}
use data_platform_operator.Api.Constants.{default_s3_compat_region, default_s3_compat_flavor}
use data_platform_operator.Config.{ObjectStore, no_object_store}
use data_platform_operator.Kube.Objects.{ObjectMeta, Job, Secret, Service, StatefulSet}
use data_platform_operator.Reconciler.{Reconciler, State, in_world, set_status}
use data_platform_operator.Cluster.{
  get_secret_data, marking, set_condition, ensure_namespace, ensure_generated_secret, random_hex,
  apply, stateful_set_ready, restricted_pod_security,
}
use data_platform_operator.Cluster.Names.{labels_for, copy_labels, cluster_service_url}
use Jobs.{job_succeeded, job_failed, mc_job_writable_config, minio_container, bucket_job}

-- An object that is given whole is created where none is found, and one that is found stays.
unfoldable pub preset : Job → Job → Result Job
preset job found = ok (if found.meta.created then found else job)

abbrev pub named_credentials : Option S3CredentialsSecretRef → Option S3CredentialsSecretRef
named_credentials none = none
named_credentials (some ref) = if ref.name == "" then none else some ref

module _ {W C : Type 0} (r : Reconciler W C) (dp : DataPlatform) where
  unfoldable pub store_missing : String → Exec (State W C) ObjectStore
  store_missing message =
      set_condition r dp "MinioReady" false "Missing" message >> raise (errorf message)

  unfoldable pub external_from : S3Spec → S3CredentialsSecretRef → Exec (State W C) ObjectStore
  external_from s3 ref = do
    access_key ← marking r dp "MinioReady" "Error" (
        get_secret_data r ref.name ref.namespace
          (s3_credentials_secret_access_key_id_key_or_default ref))
    secret_key ← marking r dp "MinioReady" "Error" (
        get_secret_data r ref.name ref.namespace
          (s3_credentials_secret_secret_access_key_key_or_default ref))
    pure (record {
      bucket = s3.bucket;
      region = s3.region;
      endpoint = s3.endpoint;
      path_style_access = s3.path_style_access;
      flavor = s3_flavor_or_default s3;
      sts_enabled = s3.sts_enabled;
      sts_role_arn = s3.sts_role_arn;
      access_key_id = access_key;
      secret_access_key = secret_key;
    })

  unfoldable pub external_with :
      S3Spec → Option S3CredentialsSecretRef → Exec (State W C) ObjectStore
  external_with s3 none =
      store_missing
        "spec.storage.s3.credentialsSecretRef is required when storage.embedded is false"
  external_with s3 (some ref) = external_from s3 ref

  -- `externalObjectStore`
  unfoldable pub external_object_store : Option S3Spec → Exec (State W C) ObjectStore
  external_object_store none =
      store_missing "spec.storage.s3 is required when storage.embedded is false"
  external_object_store (some s3) = external_with s3 (named_credentials s3.credentials_secret_ref)

  -- any error of the read makes new keys, which `ensure_generated_secret` then checks again
  unfoldable pub ensure_minio_secret : String → Exec (State W C) (Unit {0})
  ensure_minio_secret namespace =
      branch (in_world (r.kube.secrets.get namespace "minio")) (λ secret. pure tt)
        λ e. do
          access ← random_hex r 8
          secret_key ← random_hex r 16
          ensure_generated_secret r dp "minio" namespace "minio"
              (("AWS_ACCESS_KEY_ID", access) ∷ ("AWS_SECRET_ACCESS_KEY", secret_key) ∷ [])

  abbrev labels : List (String × String)
  labels = labels_for dp "minio"

  abbrev pub set_service : Service → Result Service
  set_service svc = ok (record svc {
    meta = ensure_labels labels svc.meta;
    selector = labels;
    ports =
        (record { name = "api"; port = 9000; target_port = 9000 })
        ∷ (record { name = "console"; port = 9001; target_port = 9001 })
        ∷ [];
  })

  unfoldable pub apply_minio_service : String → Exec (State W C) (Unit {0})
  apply_minio_service namespace = apply r dp r.kube.services namespace "minio" set_service

  -- the fields that the API server lets no one change are set on creation only
  abbrev pub set_stateful_set : MinioSpec → String → StatefulSet → Result StatefulSet
  set_stateful_set spec size sts = ok (record sts {
    meta = ensure_labels labels sts.meta;
    selector = if sts.meta.created then sts.selector else labels;
    service_name = if sts.meta.created then sts.service_name else "minio";
    storage = if sts.meta.created then sts.storage else some size;
    replicas = some (pos 1);
    template = record sts.template {
      labels = labels;
      spec = record sts.template.spec {
        security_context = some (restricted_pod_security 1000 1000);
        containers = minio_container spec ∷ [];
      };
    };
  })

  abbrev quantity : Result String → Result String
  quantity (ok q) = ok q
  quantity (err e) = err (errorf ("invalid minio storageSize: " <> e.message))

  unfoldable pub apply_minio_stateful_set : String → MinioSpec → Exec (State W C) (Unit {0})
  apply_minio_stateful_set namespace spec = do
    size ← lift (quantity (r.kube.parse_quantity (minio_storage_size_or_default spec)))
    apply r dp r.kube.stateful_sets namespace "minio" (set_stateful_set spec size)

  abbrev pub set_mc_secret : String → Secret → Result Secret
  set_mc_secret host secret = ok (record secret {
    meta = ensure_labels labels secret.meta;
    type = "Opaque";
    contents = ("MC_HOST_local", host) ∷ [];
  })

  -- how a Job that was found stands: one that failed or is outdated is deleted
  unfoldable pub bucket_job_found : String → Job → Exec (State W C) Bool
  bucket_job_found namespace job =
      if job.meta.deleting
      then pure false
      else if job_succeeded job
      then pure true
      else if job_failed job || not (mc_job_writable_config job.template.spec.containers)
      then (in_world (r.kube.jobs.delete namespace "minio-create-bucket") >> pure false)
      else pure false

  unfoldable pub ensure_minio_bucket : String → MinioSpec → String → String → Exec (State W C) Bool
  ensure_minio_bucket namespace spec access_key secret_key = do
    apply r dp r.kube.secrets namespace "minio-mc" (
        set_mc_secret (
          "http://"
          <> r.kube.path_escape access_key
          <> ":"
          <> r.kube.path_escape secret_key
          <> "@minio."
          <> namespace
          <> ".svc:9000"))
    if_missing (bucket_job_found namespace)
        (apply r dp r.kube.jobs namespace "minio-create-bucket"
            (preset (bucket_job spec namespace labels))
          >> pure false)
        (in_world (r.kube.jobs.get namespace "minio-create-bucket"))

  -- the steps of `reconcileMinio`, every error of which marks the condition
  unfoldable pub minio_rolled_out :
      String → MinioSpec → Exec (State W C) (ObjectStore × Option String)
  minio_rolled_out namespace spec = do
    ensure_namespace r dp namespace "minio"
    ensure_minio_secret namespace
    apply_minio_service namespace
    apply_minio_stateful_set namespace spec
    access_key ← get_secret_data r "minio" namespace "AWS_ACCESS_KEY_ID"
    secret_key ← get_secret_data r "minio" namespace "AWS_SECRET_ACCESS_KEY"
    let store : ObjectStore = record no_object_store {
      bucket = minio_bucket_or_default spec;
      region = default_s3_compat_region;
      endpoint = cluster_service_url "minio" namespace 9000;
      path_style_access = true;
      flavor = default_s3_compat_flavor;
      access_key_id = access_key;
      secret_access_key = secret_key;
    }
    ready ← stateful_set_ready r namespace "minio"
    if not ready then pure (store, some "MinIO StatefulSet is not ready") else do
      bucket ← ensure_minio_bucket namespace spec access_key secret_key
      pure (store, if bucket then none else some "Waiting for MinIO bucket to be created")

  -- ready, or what it waits for
  unfoldable pub minio_concluded :
      ObjectStore × Option String → Exec (State W C) (ObjectStore × Bool)
  minio_concluded (store, none) =
      set_condition r dp "MinioReady" true "Ready" "MinIO is ready" >> pure (store, true)
  minio_concluded (store, some waiting) =
      set_condition r dp "MinioReady" false "NotReady" waiting >> pure (store, false)

  unfoldable pub reconcile_minio : Exec (State W C) (ObjectStore × Bool)
  reconcile_minio =
      let spec = dp.spec.storage.minio in
      let namespace = minio_namespace_or_default spec in
      set_status (λ st. record st { minio_endpoint = cluster_service_url "minio" namespace 9000 })
      >> marking r dp "MinioReady" "Error" (minio_rolled_out namespace spec)
      >>= minio_concluded

  unfoldable pub reconcile_object_store : Exec (State W C) (ObjectStore × Bool)
  reconcile_object_store =
      if storage_is_embedded dp.spec.storage
      then reconcile_minio
      else (external_object_store dp.spec.storage.s3 >>= λ store.
          set_condition r dp "MinioReady" true "Disabled" "Using external object store"
          >> pure (store, true))
