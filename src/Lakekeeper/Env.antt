-- ===== src/Lakekeeper/Env.antt =====
-- internal/controller/lakekeeper.go: the environment of LakeKeeper's containers.
use data_platform_operator.Base.{
  suc, ℤ, pos, negsuc, Bool, not, ◌&&◌, List, [], ◌∷◌, ◌++◌, String, ◌<>◌, ◌==◌, if◌then◌else◌,
}
use data_platform_operator.Base.Text.{trim_slashes, contains_text, decimal}
use data_platform_operator.Api.Database.{postgres_is_embedded}
use data_platform_operator.Api.Defaults.{EnvVar}
use data_platform_operator.Api.Platform.{DataPlatform}
use data_platform_operator.Config.{OidcConfig, OpenfgaConfig, PostgresConn}
use data_platform_operator.Cluster.Workloads.{plain, from_secret}

-- `strconv.Itoa`
unfoldable pub int_text : ℤ → String
int_text (pos n) = decimal n
int_text (negsuc n) = "-" <> decimal (suc n)

unfoldable pub lakekeeper_ui_scope : String → String
unfolding contains_text
lakekeeper_ui_scope scope =
    if scope == ""
    then "openid"
    else if contains_text scope "openid"
    then scope
    else "openid " <> scope

unfoldable pub engine_audiences : OidcConfig → String
engine_audiences oidc =
    if not (oidc.opa_client_id == "") && not (oidc.opa_client_id == oidc.trino_client_id)
    then oidc.trino_client_id <> "," <> oidc.opa_client_id
    else oidc.trino_client_id

unfoldable pub lakekeeper_trusted_engine_env : OidcConfig → List EnvVar
unfolding engine_audiences
lakekeeper_trusted_engine_env oidc =
    plain "LAKEKEEPER__TRUSTED_ENGINES__TRINO__TYPE" "trino"
    ∷ plain "LAKEKEEPER__TRUSTED_ENGINES__TRINO__OWNER_PROPERTY" "trino.run-as-owner"
    ∷ plain "LAKEKEEPER__TRUSTED_ENGINES__TRINO__IDENTITIES__OIDC__AUDIENCES"
        ("[" <> engine_audiences oidc <> "]")
    ∷ []

unfoldable pub database_env : PostgresConn → List EnvVar
unfolding int_text
database_env conn =
    from_secret "LAKEKEEPER__PG_ENCRYPTION_KEY" "lakekeeper-encryption"
      "LAKEKEEPER__PG_ENCRYPTION_KEY"
    ∷ plain "LAKEKEEPER__PG_HOST_W" conn.host
    ∷ plain "LAKEKEEPER__PG_PORT" (int_text conn.port)
    ∷ plain "LAKEKEEPER__PG_DATABASE" conn.database
    ∷ []

-- the public address, which the UI is pinned to, and the TLS mode, where they are given
unfoldable pub optional_env : String → String → List EnvVar
optional_env name value = if value == "" then [] else plain name value ∷ []

unfoldable pub authz_env : OidcConfig → OpenfgaConfig → List EnvVar
authz_env oidc fga =
    if fga.enabled
    then (plain "LAKEKEEPER__AUTHZ_BACKEND" "openfga"
        ∷ plain "LAKEKEEPER__OPENFGA__ENDPOINT" fga.endpoint
        ∷ plain "LAKEKEEPER__OPENFGA__STORE_NAME" fga.store
        ∷ plain "LAKEKEEPER__OPENFGA__API_KEY" fga.api_key
        ∷ [])
      ++ (if oidc.enabled then lakekeeper_trusted_engine_env oidc else [])
    else if oidc.enabled
    then plain "LAKEKEEPER__AUTHZ_BACKEND" "allowall" ∷ []
    else []

-- tokens carry the public address of the provider where it differs from the inner one
unfoldable pub public_issuer_differs : OidcConfig → Bool
public_issuer_differs oidc =
    not (oidc.public_issuer == "") && not (oidc.public_issuer == oidc.issuer)

unfoldable pub openid_env : OidcConfig → List EnvVar
unfolding lakekeeper_ui_scope public_issuer_differs
openid_env oidc =
    if oidc.enabled
    then (plain "LAKEKEEPER__OPENID_PROVIDER_URI" oidc.issuer
        ∷ plain "LAKEKEEPER__OPENID_AUDIENCE" oidc.audience
        ∷ plain "LAKEKEEPER__UI__OPENID_CLIENT_ID" oidc.ui_client_id
        ∷ plain "LAKEKEEPER__UI__OPENID_SCOPE" (lakekeeper_ui_scope oidc.scope)
        ∷ [])
      ++ (if public_issuer_differs oidc
          then plain "LAKEKEEPER__OPENID_ADDITIONAL_ISSUERS" oidc.public_issuer
            ∷ plain "LAKEKEEPER__UI__OPENID_PROVIDER_URI" oidc.public_issuer
            ∷ []
          else [])
    else []

unfoldable pub credentials_env : Bool → PostgresConn → List EnvVar
credentials_env embedded conn =
    if embedded
    then from_secret "LAKEKEEPER__PG_USER" "postgres" "username"
      ∷ from_secret "LAKEKEEPER__PG_PASSWORD" "postgres" "password"
      ∷ []
    else plain "LAKEKEEPER__PG_USER" conn.username
      ∷ plain "LAKEKEEPER__PG_PASSWORD" conn.password
      ∷ []

unfoldable pub lakekeeper_env :
    DataPlatform → PostgresConn → OidcConfig → OpenfgaConfig → List EnvVar
unfolding database_env optional_env authz_env openid_env credentials_env trim_slashes
lakekeeper_env dp conn oidc fga =
    database_env conn
    ++ optional_env "LAKEKEEPER__UI__LAKEKEEPER_URL" (trim_slashes dp.spec.lakekeeper.public_url)
    ++ optional_env "LAKEKEEPER__PG_SSL_MODE" conn.ssl_mode
    ++ authz_env oidc fga
    ++ openid_env oidc
    ++ credentials_env (postgres_is_embedded dp.spec.lakekeeper.postgres) conn
