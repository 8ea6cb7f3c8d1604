-- ===== src/Api/Database.antt =====
-- api/v1alpha1: the parts of the specification about Postgres, with their defaults.
use data_platform_operator.Base.{if◌then◌else◌, Option, false, Bool, ℤ, pos, negsuc, String, nat_eq}
use data_platform_operator.Api.Constants.{default_postgres_image, default_postgres_storage}
use data_platform_operator.Api.Defaults.{bool_default_true, string_or_default}

pub record PostgresCredentialsSecretRef : Type 0 where
  pub name : String
  pub namespace : String
  pub username_key : String
  pub password_key : String

pub record PostgresSpec : Type 0 where
  pub embedded : Option Bool
  pub image : String
  pub storage_size : String
  pub host : String
  pub port : ℤ
  pub database : String
  pub ssl_mode : String
  pub credentials_secret_ref : Option PostgresCredentialsSecretRef

unfoldable pub postgres_is_embedded : PostgresSpec → Bool
unfolding bool_default_true
postgres_is_embedded s = bool_default_true s.embedded

unfoldable pub postgres_image_or_default : PostgresSpec → String
unfolding string_or_default
postgres_image_or_default s = string_or_default s.image default_postgres_image

unfoldable pub postgres_storage_size_or_default : PostgresSpec → String
unfolding string_or_default
postgres_storage_size_or_default s = string_or_default s.storage_size default_postgres_storage

abbrev is_zero : ℤ → Bool
is_zero (pos n) = nat_eq n 0
is_zero (negsuc n) = false

unfoldable pub postgres_port_or_default : PostgresSpec → ℤ
postgres_port_or_default s = if is_zero s.port then pos 5432 else s.port

unfoldable pub postgres_database_or_default : PostgresSpec → String
unfolding string_or_default
postgres_database_or_default s = string_or_default s.database "postgres"

unfoldable pub postgres_credentials_secret_username_key_or_default :
    PostgresCredentialsSecretRef → String
unfolding string_or_default
postgres_credentials_secret_username_key_or_default s = string_or_default s.username_key "username"

unfoldable pub postgres_credentials_secret_password_key_or_default :
    PostgresCredentialsSecretRef → String
unfolding string_or_default
postgres_credentials_secret_password_key_or_default s = string_or_default s.password_key "password"
