-- ===== src/Oidc.antt =====
-- internal/controller/oidc.go: the identity provider, and the operator's own token. The embedded
-- provider (keycloak.go) is a parameter of `reconcile_auth`.
pub mod Auth
use data_platform_operator.Base.{
  ℕ, Bool, true, false, not, ◌&&◌, ◌||◌, Option, none, some, List, [], ◌∷◌, ◌++◌, String, ◌<>◌,
  ◌==◌, if◌then◌else◌,
}
use data_platform_operator.Base.Exec.{
  Error, Result, ok, err, Exec, pure, raise, lift, errorf, branch, ◌>>=◌, ◌>>◌,
}
use data_platform_operator.Base.Text.{trim_slashes, decimal}
use data_platform_operator.Api.Identity.{
  OidcSpec, OidcCredentialsSecretRef, auth_is_enabled, auth_is_embedded, oidc_audience_or_default,
  oidc_client_id_or_default, oidc_scope_or_default, oidc_token_endpoint_or_default,
  oidc_credentials_secret_client_secret_key_or_default,
}
use data_platform_operator.Api.Platform.{DataPlatform}
use data_platform_operator.Catalog.Types.{Response, Form, CatalogClient}
use data_platform_operator.Catalog.Http.{is_success, truncate}
use data_platform_operator.Config.{OidcConfig, no_oidc}
use data_platform_operator.Reconciler.{Reconciler, State, in_world}
use data_platform_operator.Cluster.{get_secret_data, marking, set_condition}

unfoldable pub oidc_issuer : String → String → String
unfolding trim_slashes
oidc_issuer base realm = trim_slashes base <> "/realms/" <> realm

unfoldable pub oidc_token_path : String → String
oidc_token_path realm = "realms/" <> realm <> "/protocol/openid-connect/token"

unfoldable pub oidc_token_url : String → String
unfolding trim_slashes
oidc_token_url issuer = trim_slashes issuer <> "/protocol/openid-connect/token"

unfoldable pub oidc_auth_url : String → String
unfolding trim_slashes
oidc_auth_url issuer = trim_slashes issuer <> "/protocol/openid-connect/auth"

unfoldable pub oidc_jwks_url : String → String
unfolding trim_slashes
oidc_jwks_url issuer = trim_slashes issuer <> "/protocol/openid-connect/certs"

unfoldable pub token_form : OidcConfig → Form
token_form cfg =
    (("grant_type", "client_credentials")
      ∷ ("client_id", cfg.operator_client_id)
      ∷ ("client_secret", cfg.operator_secret)
      ∷ [])
    ++ (if cfg.scope == "" then [] else ("scope", cfg.scope) ∷ [])

-- `parseAccessToken`, from what `json.Unmarshal` made of the body
unfoldable pub parse_access_token : Result String → Result String
parse_access_token (err e) = err (errorf ("decode token response: " <> e.message))
parse_access_token (ok token) =
    if token == "" then err (errorf "token response missing access_token") else ok token

-- the reference of a specification, if it names a Secret
abbrev pub named_ref : Option OidcCredentialsSecretRef → Option OidcCredentialsSecretRef
named_ref none = none
named_ref (some ref) = if ref.name == "" then none else some ref

module _ {W C : Type 0} (r : Reconciler W C) where
  -- what follows on a catalog client, an error where it is nil
  unfoldable pub on_client :
      {A : Type 0}
      → Option (CatalogClient W)
      → (CatalogClient W → Exec (State W C) A)
      → Exec (State W C) A
  on_client none f = raise (errorf "catalog client is not configured")
  on_client (some c) f = f c

  unfoldable pub with_catalog :
      {A : Type 0} → (CatalogClient W → Exec (State W C) A) → Exec (State W C) A
  with_catalog f = on_client r.catalog f

  unfoldable pub token_of : String → Response → Exec (State W C) String
  token_of what response =
      if is_success response.status
      then lift (parse_access_token (r.decode_access_token response.body))
      else raise (
          errorf
            (what <> " returned " <> decimal response.status <> ": " <> truncate response.body))

  unfoldable pub oidc_access_token : OidcConfig → Exec (State W C) String
  oidc_access_token cfg =
      if not cfg.enabled
      then pure ""
      else with_catalog λ c.
        (if cfg.proxy_service == ""
          then in_world (c.fetch_token cfg.token_url (token_form cfg))
          else in_world (
              c.form_post
                (record {
                  namespace = cfg.proxy_namespace;
                  service = cfg.proxy_service;
                  port = cfg.proxy_port;
                  bearer = "";
                })
                cfg.proxy_token_path (token_form cfg)))
        >>= token_of "token endpoint"

  module _ (dp : DataPlatform) where
    -- a Secret's value, the error of which marks `AuthReady`
    unfoldable pub auth_secret : OidcCredentialsSecretRef → String → Exec (State W C) String
    auth_secret ref key =
        marking r dp "AuthReady" "Error" (get_secret_data r ref.name ref.namespace key)

    unfoldable pub auth_secret_or :
        OidcCredentialsSecretRef → String → String → Exec (State W C) String
    auth_secret_or ref key otherwise = if key == "" then pure otherwise else auth_secret ref key

    unfoldable pub auth_missing : String → Exec (State W C) OidcConfig
    auth_missing message =
        set_condition r dp "AuthReady" false "Missing" message >> raise (errorf message)

    unfoldable pub external_from : OidcSpec → OidcCredentialsSecretRef → Exec (State W C) OidcConfig
    external_from spec ref = do
      client_id ← auth_secret_or ref ref.client_id_key (oidc_client_id_or_default spec)
      client_secret ← auth_secret ref (oidc_credentials_secret_client_secret_key_or_default ref)
      trino_id ← auth_secret_or ref ref.trino_client_id_key client_id
      trino_secret ← auth_secret_or ref ref.trino_client_secret_key client_secret
      superset_id ← auth_secret_or ref ref.superset_client_id_key trino_id
      superset_secret ← auth_secret_or ref ref.superset_client_secret_key trino_secret
      pure (record no_oidc {
        enabled = true;
        issuer = trim_slashes spec.issuer;
        audience = oidc_audience_or_default spec;
        scope = oidc_scope_or_default spec;
        ui_client_id = client_id;
        trino_client_id = trino_id;
        trino_secret = trino_secret;
        opa_client_id = trino_id;
        opa_secret = trino_secret;
        superset_client_id = superset_id;
        superset_secret = superset_secret;
        operator_client_id = client_id;
        operator_secret = client_secret;
        token_url = oidc_token_endpoint_or_default spec;
      })

    unfoldable pub external_with :
        OidcSpec → Option OidcCredentialsSecretRef → Exec (State W C) OidcConfig
    external_with spec none =
        auth_missing "spec.auth.oidc.credentialsSecretRef is required when auth.embedded is false"
    external_with spec (some ref) = external_from spec ref

    unfoldable pub external_of : Option OidcSpec → Exec (State W C) OidcConfig
    external_of none = auth_missing "spec.auth.oidc.issuer is required when auth.embedded is false"
    external_of (some spec) =
        if spec.issuer == ""
        then auth_missing "spec.auth.oidc.issuer is required when auth.embedded is false"
        else external_with spec (named_ref spec.credentials_secret_ref)

    -- `externalOIDC`
    unfoldable pub external_oidc : Exec (State W C) OidcConfig
    external_oidc = external_of dp.spec.auth.oidc

    unfoldable pub reconcile_auth :
        Exec (State W C) (OidcConfig × Bool) → Exec (State W C) (OidcConfig × Bool)
    reconcile_auth keycloak =
        if not (auth_is_enabled dp.spec.auth)
        then set_condition r dp "AuthReady" true "Disabled" "Authentication is disabled"
          >> pure (no_oidc, true)
        else if auth_is_embedded dp.spec.auth
        then keycloak
        else external_oidc >>= λ cfg.
            set_condition r dp "AuthReady" true "Ready" "Using external OIDC issuer"
            >> pure (cfg, true)
