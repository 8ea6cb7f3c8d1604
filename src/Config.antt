-- ===== src/Config.antt =====
-- internal/controller/oidc.go, openfga.go, minio.go, postgres.go: the values that one component of
-- a reconciliation hands to the next.
use data_platform_operator.Base.{ℕ, ℤ, Bool, false, String}

pub record OidcConfig : Type 0 where
  pub enabled : Bool
  pub issuer : String
  pub public_issuer : String
  pub audience : String
  pub scope : String
  pub ui_client_id : String
  pub trino_client_id : String
  pub trino_secret : String
  pub opa_client_id : String
  pub opa_secret : String
  pub superset_client_id : String
  pub superset_secret : String
  pub operator_client_id : String
  pub operator_secret : String
  pub admin_subject : String
  pub admin_name : String
  pub admin_email : String
  pub opa_subject : String
  pub trino_subject : String
  pub token_url : String
  pub proxy_namespace : String
  pub proxy_service : String
  pub proxy_port : ℕ
  pub proxy_token_path : String

-- `oidcConfig{}`
abbrev pub no_oidc : OidcConfig
no_oidc = record {
  enabled = false;
  issuer = "";
  public_issuer = "";
  audience = "";
  scope = "";
  ui_client_id = "";
  trino_client_id = "";
  trino_secret = "";
  opa_client_id = "";
  opa_secret = "";
  superset_client_id = "";
  superset_secret = "";
  operator_client_id = "";
  operator_secret = "";
  admin_subject = "";
  admin_name = "";
  admin_email = "";
  opa_subject = "";
  trino_subject = "";
  token_url = "";
  proxy_namespace = "";
  proxy_service = "";
  proxy_port = 0;
  proxy_token_path = "";
}

pub record OpenfgaConfig : Type 0 where
  pub enabled : Bool
  pub endpoint : String
  pub store : String
  pub api_key : String
  pub opa_url : String
  pub http_endpoint : String
  pub row_filter_store_id : String

-- `openfgaConfig{}`
abbrev pub no_openfga : OpenfgaConfig
no_openfga = record {
  enabled = false;
  endpoint = "";
  store = "";
  api_key = "";
  opa_url = "";
  http_endpoint = "";
  row_filter_store_id = "";
}

pub record ObjectStore : Type 0 where
  pub bucket : String
  pub region : String
  pub endpoint : String
  pub path_style_access : Bool
  pub flavor : String
  pub sts_enabled : Bool
  pub sts_role_arn : String
  pub access_key_id : String
  pub secret_access_key : String

-- `objectStore{}`
abbrev pub no_object_store : ObjectStore
no_object_store = record {
  bucket = "";
  region = "";
  endpoint = "";
  path_style_access = false;
  flavor = "";
  sts_enabled = false;
  sts_role_arn = "";
  access_key_id = "";
  secret_access_key = "";
}

pub record PostgresConn : Type 0 where
  pub host : String
  pub port : ℤ
  pub database : String
  pub username : String
  pub password : String
  pub ssl_mode : String
