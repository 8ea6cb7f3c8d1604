-- ===== src/Minio/Ready.antt =====
-- What the object store's component owes the controller.
use data_platform_operator.Base.{
  Bool, true, false, Option, none, some, String, ◌==◌, ◌≡◌, refl, arith,
}
use data_platform_operator.Base.Exec.{ok}
use data_platform_operator.Base.Exec.Keeps.{
  Keeps, Keeps-pure, Keeps-raise, Keeps-lift, Keeps-bind, Keeps-branch, Keeps-if, Keeps-if_missing,
  keeps_rules,
}
use data_platform_operator.Base.Exec.Ends.{Ends, Ends_of, Ends-ok, Ends-pure, Ends-if, Ends-bind}
use data_platform_operator.Api.Platform.{DataPlatform}
use data_platform_operator.Api.Storage.{S3Spec, S3CredentialsSecretRef, MinioSpec}
use data_platform_operator.Config.{ObjectStore}
use data_platform_operator.Kube.{ConditionLaws}
use data_platform_operator.Kube.Objects.{Job}
use data_platform_operator.Reconciler.{Reconciler, State}
use data_platform_operator.Cluster.Frame.{
  Is, Keeps-in_world, Keeps-set_status, Keeps-marking, Keeps-get_secret_data, Keeps-set_condition,
  Keeps-ensure_namespace, Keeps-ensure_generated_secret, Keeps-random_hex, Keeps-apply,
  Keeps-stateful_set_ready,
}
use data_platform_operator.Controller.Parts.{Owns, Reports}
use data_platform_operator.Controller.Known.{AnythingAfter}
use data_platform_operator.Controller.Ready.{Ends-set_condition}
use data_platform_operator.Minio.{
  store_missing, external_from, external_with, external_object_store, ensure_minio_secret,
  apply_minio_service, apply_minio_stateful_set, bucket_job_found, ensure_minio_bucket,
  minio_rolled_out, minio_concluded, reconcile_minio, reconcile_object_store, named_credentials,
}

module _ {W C : Type 0} (r : Reconciler W C) (dp : DataPlatform) where
  bucket_job_found-Keeps :
      (namespace : String) (job : Job) (t : String) (b : Bool)
      → Keeps (Is r t b) (bucket_job_found r dp namespace job)
  unfolding bucket_job_found
  bucket_job_found-Keeps namespace job t b = search (keeps_rules, Keeps-in_world)

  ensure_minio_bucket-Keeps :
      (namespace : String) (spec : MinioSpec) (access_key secret_key t : String) (b : Bool)
      → Keeps (Is r t b) (ensure_minio_bucket r dp namespace spec access_key secret_key)
  unfolding ensure_minio_bucket
  ensure_minio_bucket-Keeps namespace spec access_key secret_key t b =
      Keeps-bind _ _ (Keeps-apply r dp _ _ _ _ t b) λ u.
        Keeps-if_missing _ _ _ (Keeps-in_world r _ t b)
          (λ job. bucket_job_found-Keeps namespace job t b)
          (Keeps-bind _ _ (Keeps-apply r dp _ _ _ _ t b) λ u. Keeps-pure _)

  minio_rolled_out-Keeps :
      (namespace : String) (spec : MinioSpec) (t : String) (b : Bool)
      → Keeps (Is r t b) (minio_rolled_out r dp namespace spec)
  unfolding minio_rolled_out ensure_minio_secret apply_minio_service apply_minio_stateful_set
  minio_rolled_out-Keeps namespace spec t b =
      Keeps-bind _ _ (Keeps-ensure_namespace r dp _ _ t b) λ u.
        Keeps-bind _ _
          (Keeps-branch _ _ _ (Keeps-in_world r _ t b) (λ secret. Keeps-pure _)
            λ e. Keeps-bind _ _ (Keeps-random_hex r _ t b) λ access.
              Keeps-bind _ _ (Keeps-random_hex r _ t b)
                λ secret_key. Keeps-ensure_generated_secret r dp _ _ _ _ t b)
          λ u. Keeps-bind _ _ (Keeps-apply r dp _ _ _ _ t b) λ u.
            Keeps-bind _ _ (Keeps-bind _ _ (Keeps-lift _) λ size. Keeps-apply r dp _ _ _ _ t b) λ u.
              Keeps-bind _ _ (Keeps-get_secret_data r _ _ _ t b) λ access_key.
                Keeps-bind _ _ (Keeps-get_secret_data r _ _ _ t b) λ secret_key.
                  Keeps-bind _ _ (Keeps-stateful_set_ready r _ _ t b) λ ready.
                    Keeps-if _ _ _ (Keeps-pure _) (
                      Keeps-bind _ _ (ensure_minio_bucket-Keeps namespace spec _ _ t b)
                        λ bucket. Keeps-pure _)

  module _ (laws : ConditionLaws r.condition_api) where
    store_missing-Owns : (message : String) → Owns r "MinioReady" (store_missing r dp message)
    unfolding store_missing
    store_missing-Owns message t b other =
        Keeps-bind _ _ (Keeps-set_condition r dp laws _ _ _ _ t b other) λ u. Keeps-raise _

    external_from-Owns :
        (s3 : S3Spec) (ref : S3CredentialsSecretRef)
        → Owns r "MinioReady" (external_from r dp s3 ref)
    unfolding external_from
    external_from-Owns s3 ref t b other =
        Keeps-bind _ _ (Keeps-marking r dp laws _ _ _ t b other (Keeps-get_secret_data r _ _ _ t b))
          λ access.
            Keeps-bind _ _
              (Keeps-marking r dp laws _ _ _ t b other (Keeps-get_secret_data r _ _ _ t b))
              λ secret. Keeps-pure _

    external_with-Owns :
        (s3 : S3Spec) (ref : Option S3CredentialsSecretRef)
        → Owns r "MinioReady" (external_with r dp s3 ref)
    unfolding external_with
    external_with-Owns s3 none = store_missing-Owns _
    external_with-Owns s3 (some ref) = external_from-Owns s3 ref

    external_object_store-Owns :
        (s3 : Option S3Spec) → Owns r "MinioReady" (external_object_store r dp s3)
    unfolding external_object_store
    external_object_store-Owns none = store_missing-Owns _
    external_object_store-Owns (some s3) =
        external_with-Owns s3 (named_credentials s3.credentials_secret_ref)

    minio_concluded-Owns :
        (x : ObjectStore × Option String) → Owns r "MinioReady" (minio_concluded r dp x)
    unfolding minio_concluded
    minio_concluded-Owns (store, none) t b other =
        Keeps-bind _ _ (Keeps-set_condition r dp laws _ _ _ _ t b other) λ u. Keeps-pure _
    minio_concluded-Owns (store, some waiting) t b other =
        Keeps-bind _ _ (Keeps-set_condition r dp laws _ _ _ _ t b other) λ u. Keeps-pure _

    pub reconcile_object_store-Owns : Owns r "MinioReady" (reconcile_object_store r dp)
    unfolding reconcile_object_store reconcile_minio
    reconcile_object_store-Owns t b other =
        Keeps-if _ _ _
          (Keeps-bind _ _
            (Keeps-bind _ _ (Keeps-set_status r _ t b (λ st. refl))
              λ u. Keeps-marking r dp laws _ _ _ t b other (minio_rolled_out-Keeps _ _ t b))
            λ x. minio_concluded-Owns x t b other)
          (Keeps-bind _ _ (external_object_store-Owns dp.spec.storage.s3 t b other) λ store.
            Keeps-bind _ _ (Keeps-set_condition r dp laws _ _ _ _ t b other) λ u. Keeps-pure _)

    ReadyWhere : ObjectStore × Bool → State W C → Type 0
    ReadyWhere a s = a.1 ≡ true → Is r "MinioReady" true s

    minio_concluded_ends :
        (x : ObjectStore × Option String)
        → Ends (λ s. Unit {0}) (minio_concluded r dp x) ReadyWhere AnythingAfter
    unfolding minio_concluded ReadyWhere
    minio_concluded_ends (store, none) =
        Ends-bind _ _ (Ends-set_condition r laws dp "MinioReady" true _ _)
          λ u. Ends-pure _ (λ s h q. h)
    minio_concluded_ends (store, some waiting) =
        Ends-bind _ _ (Ends-set_condition r laws dp "MinioReady" false _ _)
          λ u. Ends-pure _ (λ s h q. ground (arith, q))

    pub reconcile_object_store-Reports : Reports r "MinioReady" (reconcile_object_store r dp)
    unfolding reconcile_object_store reconcile_minio ReadyWhere
    reconcile_object_store-Reports s a h =
        Ends-ok {P = λ s. Unit {0}} {G = ReadyWhere} {B = AnythingAfter} _
          (Ends-if _ _ _
            (Ends-bind {M = λ x s. Unit {0}} _ _ (Ends_of _ (λ s a p h. tt) (λ e s. tt))
              λ x. minio_concluded_ends x)
            (Ends-bind {M = λ x s. Unit {0}} _ _ (Ends_of _ (λ s a p h. tt) (λ e s. tt)) λ store.
              Ends-bind _ _ (Ends-set_condition r laws dp "MinioReady" true _ _)
                λ u. Ends-pure _ (λ s h q. h)))
          s tt h refl

    -- Whatever the cluster answers, and whether or not the object store's component, external or
    -- MinIO, ends with an error, every condition but MinioReady is true after it where it was, and
    -- is not where it was not.
    pub reconcile_object_store_frame :
        (t : String) (b : Bool) (s : State W C)
        → ("MinioReady" == t) ≡ false
        → r.condition_api.is_status_true s.status.conditions t ≡ b
        → r.condition_api.is_status_true (reconcile_object_store r dp s).1.status.conditions t ≡ b
    reconcile_object_store_frame t b s other h = (reconcile_object_store-Owns t b other).at s h

    -- If the object store's component returns a store that is ready, MinioReady is true.
    pub reconcile_object_store_ready :
        (s : State W C) (store : ObjectStore)
        → (reconcile_object_store r dp s).0 ≡ ok (store, true)
        → r.condition_api.is_status_true
            (reconcile_object_store r dp s).1.status.conditions
            "MinioReady"
          ≡ true
    reconcile_object_store_ready s store h = reconcile_object_store-Reports s store h
