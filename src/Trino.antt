-- ===== src/Trino.antt =====
-- internal/controller/trino.go: the properties that Trino is configured with.
pub mod Overrides
pub mod Pod
pub mod Catalogs
pub mod Engine
pub mod Access
pub mod Enforced
pub mod Written
pub mod Owned
pub mod Ready
use data_platform_operator.Base.{
  Bool, true, false, not, ◌&&◌, ◌||◌, Option, none, some, List, [], ◌∷◌, ◌++◌, String, ◌<>◌, ◌==◌,
  lookup, insert, keys, if◌then◌else◌,
}
use data_platform_operator.Base.Sort.{sorted}
use data_platform_operator.Base.Text.{trim_slashes}
use data_platform_operator.Config.{OidcConfig}
use data_platform_operator.Cluster.Names.{cluster_service_url, copy_labels}
use data_platform_operator.Oidc.{oidc_auth_url, oidc_jwks_url}

-- `map[string]string`
abbrev pub Properties : Type 0
Properties = List (String × String)

unfoldable pub trino_ui_auth_enabled : OidcConfig → String → Bool
unfolding trim_slashes
trino_ui_auth_enabled oidc public_url = oidc.enabled && not (trim_slashes public_url == "")

unfoldable pub trino_oauth_enabled : OidcConfig → String → Bool → Bool
unfolding trim_slashes
trino_oauth_enabled oidc public_url superset_enabled =
    if not oidc.enabled then false else not (trim_slashes public_url == "") || superset_enabled

unfoldable pub render_keys : Properties → List String → String
unfolding lookup
render_keys props [] = ""
render_keys props (k ∷ ks) =
    k <> "=" <> elim (lookup k props) [ none ↦ "" | some v ↦ v ] <> "\n" <> render_keys props ks

-- `renderProperties`: one line for each key, in order
unfoldable pub render_properties : Properties → String
unfolding render_keys
render_properties props = render_keys props (sorted (keys props))

-- the addresses that are set where the token's issuer is not the public one
unfoldable pub proxied_urls : OidcConfig → Properties
unfolding oidc_auth_url oidc_jwks_url
proxied_urls oidc =
    if not (oidc.proxy_service == "")
      && not (oidc.public_issuer == "")
      && not (oidc.public_issuer == oidc.issuer)
    then ("http-server.authentication.oauth2.oidc.discovery", "false")
      ∷ ("http-server.authentication.oauth2.auth-url", oidc_auth_url oidc.public_issuer)
      ∷ ("http-server.authentication.oauth2.token-url", oidc.token_url)
      ∷ ("http-server.authentication.oauth2.jwks-url", oidc_jwks_url oidc.issuer)
      ∷ []
    else []

unfoldable pub trino_oauth_properties : OidcConfig → Bool → Properties
unfolding proxied_urls
trino_oauth_properties oidc enable_web_ui =
    (("http-server.authentication.type", "oauth2")
      ∷ ("http-server.authentication.allow-insecure-over-http", "true")
      ∷ (
        "http-server.authentication.oauth2.issuer",
        if oidc.public_issuer == "" then oidc.issuer else oidc.public_issuer,
      )
      ∷ ("http-server.authentication.oauth2.client-id", oidc.trino_client_id)
      ∷ ("http-server.authentication.oauth2.client-secret", oidc.trino_secret)
      ∷ ("http-server.authentication.oauth2.scopes", "openid")
      ∷ ("http-server.authentication.oauth2.principal-field", "sub")
      ∷ ("http-server.authentication.oauth2.additional-audiences", oidc.audience)
      ∷ [])
    ++ (if enable_web_ui then ("web-ui.authentication.type", "oauth2") ∷ [] else [])
    ++ proxied_urls oidc

abbrev bool_text : Bool → String
bool_text true = "true"
bool_text false = "false"

-- the map that `trinoConfigProperties` renders
unfoldable pub trino_config_map :
    Bool → Bool → String → Properties → OidcConfig → String → String → Bool → Properties
trino_config_map coordinator include ns extra oidc public_url shared_secret superset_enabled =
    let base : Properties =
      ("coordinator", bool_text coordinator)
      ∷ ("http-server.http.port", "8080")
      ∷ ("http-server.process-forwarded", "true")
      ∷ (
        "discovery.uri",
        if coordinator then "http://127.0.0.1:8080" else cluster_service_url "trino" ns 8080,
      )
      ∷ ("node-scheduler.include-coordinator", bool_text include)
      ∷ [] in
    let oauth =
      if coordinator && trino_oauth_enabled oidc public_url superset_enabled
      then copy_labels base (trino_oauth_properties oidc (trino_ui_auth_enabled oidc public_url))
      else base in
    let shared =
      if shared_secret == ""
      then oauth
      else insert "internal-communication.shared-secret" shared_secret oauth in
    copy_labels shared extra

unfoldable pub trino_config_properties :
    Bool → Bool → String → Properties → OidcConfig → String → String → Bool → String
unfolding render_properties trino_config_map
trino_config_properties coordinator include ns extra oidc public_url shared_secret
      superset_enabled =
    render_properties
      (trino_config_map coordinator include ns extra oidc public_url shared_secret superset_enabled)

unfoldable pub access_control_map : String → Bool → Bool → Properties
access_control_map opa_url row_filters column_access =
    (("access-control.name", "opa")
      ∷ ("opa.policy.uri", opa_url <> "/v1/data/trino/allow")
      ∷ ("opa.policy.batched-uri", opa_url <> "/v1/data/trino/batch")
      ∷ [])
    ++ (if row_filters
        then ("opa.policy.row-filters-uri", opa_url <> "/v1/data/trino/row_filters") ∷ []
        else [])
    ++ (if column_access
        then ("opa.policy.batch-column-masking-uri", opa_url <> "/v1/data/trino/batch_column_masks")
          ∷ []
        else [])

unfoldable pub trino_access_control_properties : String → Bool → Bool → String
unfolding render_properties access_control_map
trino_access_control_properties opa_url row_filters column_access =
    if opa_url == ""
    then ""
    else render_properties (access_control_map opa_url row_filters column_access)
