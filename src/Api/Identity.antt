-- ===== src/Api/Identity.antt =====
-- api/v1alpha1: the parts of the specification about the identity provider, with their defaults.
use data_platform_operator.Base.{◌<>◌, ◌==◌, if◌then◌else◌, Option, Bool, String}
use data_platform_operator.Base.Text.{trim_slashes}
use data_platform_operator.Api.Constants.{
  default_keycloak_image, default_keycloak_namespace, default_oidc_audience, default_oidc_client_id,
  default_oidc_realm, default_oidc_scope,
}
use data_platform_operator.Api.Defaults.{bool_default_true, string_or_default, ResourceRequirements}

pub record OidcCredentialsSecretRef : Type 0 where
  pub name : String
  pub namespace : String
  pub client_secret_key : String
  pub client_id_key : String
  pub trino_client_id_key : String
  pub trino_client_secret_key : String
  pub superset_client_id_key : String
  pub superset_client_secret_key : String

pub record OidcSpec : Type 0 where
  pub issuer : String
  pub audience : String
  pub client_id : String
  pub token_endpoint : String
  pub scope : String
  pub credentials_secret_ref : Option OidcCredentialsSecretRef

pub record KeycloakSpec : Type 0 where
  pub namespace : String
  pub image : String
  pub realm : String
  pub public_url : String
  pub resources : ResourceRequirements

pub record AuthSpec : Type 0 where
  pub enabled : Option Bool
  pub embedded : Option Bool
  pub keycloak : KeycloakSpec
  pub oidc : Option OidcSpec

unfoldable pub auth_is_enabled : AuthSpec → Bool
unfolding bool_default_true
auth_is_enabled s = bool_default_true s.enabled

unfoldable pub auth_is_embedded : AuthSpec → Bool
unfolding bool_default_true
auth_is_embedded s = bool_default_true s.embedded

unfoldable pub keycloak_namespace_or_default : KeycloakSpec → String
unfolding string_or_default
keycloak_namespace_or_default s = string_or_default s.namespace default_keycloak_namespace

unfoldable pub keycloak_image_or_default : KeycloakSpec → String
unfolding string_or_default
keycloak_image_or_default s = string_or_default s.image default_keycloak_image

unfoldable pub keycloak_realm_or_default : KeycloakSpec → String
unfolding string_or_default
keycloak_realm_or_default s = string_or_default s.realm default_oidc_realm

unfoldable pub oidc_audience_or_default : OidcSpec → String
unfolding string_or_default
oidc_audience_or_default s = string_or_default s.audience default_oidc_audience

unfoldable pub oidc_client_id_or_default : OidcSpec → String
unfolding string_or_default
oidc_client_id_or_default s = string_or_default s.client_id default_oidc_client_id

unfoldable pub oidc_scope_or_default : OidcSpec → String
unfolding string_or_default
oidc_scope_or_default s = string_or_default s.scope default_oidc_scope

unfoldable pub oidc_token_endpoint_or_default : OidcSpec → String
unfolding trim_slashes
oidc_token_endpoint_or_default s =
    if s.token_endpoint == ""
    then trim_slashes s.issuer <> "/protocol/openid-connect/token"
    else s.token_endpoint

unfoldable pub oidc_credentials_secret_client_secret_key_or_default :
    OidcCredentialsSecretRef → String
unfolding string_or_default
oidc_credentials_secret_client_secret_key_or_default s =
    string_or_default s.client_secret_key "clientSecret"
