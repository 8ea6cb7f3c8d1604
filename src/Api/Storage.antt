-- ===== src/Api/Storage.antt =====
-- api/v1alpha1: the parts of the specification about object storage, with their defaults.
use data_platform_operator.Base.{Option, Bool, String}
use data_platform_operator.Api.Constants.{
  default_mc_image, default_minio_bucket, default_minio_image, default_minio_namespace,
  default_minio_storage, default_s3_flavor,
}
use data_platform_operator.Api.Defaults.{bool_default_true, string_or_default, ResourceRequirements}

pub record S3CredentialsSecretRef : Type 0 where
  pub name : String
  pub namespace : String
  pub access_key_id_key : String
  pub secret_access_key_key : String

pub record S3Spec : Type 0 where
  pub bucket : String
  pub region : String
  pub endpoint : String
  pub path_style_access : Bool
  pub flavor : String
  pub sts_enabled : Bool
  pub sts_role_arn : String
  pub credentials_secret_ref : Option S3CredentialsSecretRef

pub record MinioSpec : Type 0 where
  pub namespace : String
  pub image : String
  pub mc_image : String
  pub storage_size : String
  pub bucket : String
  pub resources : ResourceRequirements

pub record StorageSpec : Type 0 where
  pub embedded : Option Bool
  pub minio : MinioSpec
  pub s3 : Option S3Spec

unfoldable pub storage_is_embedded : StorageSpec → Bool
unfolding bool_default_true
storage_is_embedded s = bool_default_true s.embedded

unfoldable pub minio_namespace_or_default : MinioSpec → String
unfolding string_or_default
minio_namespace_or_default s = string_or_default s.namespace default_minio_namespace

unfoldable pub minio_image_or_default : MinioSpec → String
unfolding string_or_default
minio_image_or_default s = string_or_default s.image default_minio_image

unfoldable pub minio_mc_image_or_default : MinioSpec → String
unfolding string_or_default
minio_mc_image_or_default s = string_or_default s.mc_image default_mc_image

unfoldable pub minio_storage_size_or_default : MinioSpec → String
unfolding string_or_default
minio_storage_size_or_default s = string_or_default s.storage_size default_minio_storage

unfoldable pub minio_bucket_or_default : MinioSpec → String
unfolding string_or_default
minio_bucket_or_default s = string_or_default s.bucket default_minio_bucket

unfoldable pub s3_flavor_or_default : S3Spec → String
unfolding string_or_default
s3_flavor_or_default s = string_or_default s.flavor default_s3_flavor

unfoldable pub s3_credentials_secret_access_key_id_key_or_default : S3CredentialsSecretRef → String
unfolding string_or_default
s3_credentials_secret_access_key_id_key_or_default s =
    string_or_default s.access_key_id_key "AWS_ACCESS_KEY_ID"

unfoldable pub s3_credentials_secret_secret_access_key_key_or_default :
    S3CredentialsSecretRef → String
unfolding string_or_default
s3_credentials_secret_secret_access_key_key_or_default s =
    string_or_default s.secret_access_key_key "AWS_SECRET_ACCESS_KEY"
