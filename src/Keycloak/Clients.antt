-- ===== src/Keycloak/Clients.antt =====
-- internal/controller/keycloak.go: the clients of the realm.
use data_platform_operator.Base.{
  true, false, List, [], ◌∷◌, ◌++◌, String, ◌<>◌, ◌==◌, map, insert, is_empty, if◌then◌else◌,
}
use data_platform_operator.Base.Json.{Json, bool, str, list, singleton, texts, text_object}
use data_platform_operator.Base.Text.{trim_slashes}
use data_platform_operator.Api.Constants.{
  default_oidc_client_id, default_oidc_trino_client_id, default_oidc_opa_client_id,
  default_oidc_superset_client_id, default_oidc_operator_client,
}
use data_platform_operator.Api.Identity.{KeycloakSpec}
use data_platform_operator.Cluster.Names.{cluster_service_url}
use data_platform_operator.Keycloak.Scopes.{
  default_oidc_client_scopes, optional_oidc_client_scopes, audience_mapper, mapper,
}

pub record RealmOptions : Type 0 where
  pub spec : KeycloakSpec
  pub admin_password : String
  pub trino_secret : String
  pub operator_secret : String
  pub opa_secret : String
  pub superset_secret : String
  pub signing_key : String
  pub signing_certificate : String
  pub lakekeeper_namespace : String
  pub lakekeeper_public_url : String
  pub trino_public_url : String
  pub superset_public_url : String

-- addresses below a public one, where there is a public one
unfoldable pub public_redirects : String → List String → List String
unfolding trim_slashes
public_redirects url paths =
    if trim_slashes url == "" then [] else map (λ p. trim_slashes url <> p) paths

unfoldable pub lakekeeper_redirects : RealmOptions → List String
unfolding public_redirects
lakekeeper_redirects o =
    ((cluster_service_url "lakekeeper" o.lakekeeper_namespace 8181 <> "/ui/callback")
      ∷ "http://localhost:8181/ui/callback"
      ∷ "http://127.0.0.1:8181/ui/callback"
      ∷ "*"
      ∷ [])
    ++ public_redirects o.lakekeeper_public_url ("/ui/callback" ∷ "/*" ∷ [])

unfoldable pub trino_redirects : RealmOptions → List String
unfolding public_redirects
trino_redirects o =
    public_redirects o.trino_public_url ("/oauth2/callback" ∷ [])
    ++ public_redirects o.superset_public_url ("/api/v1/database/oauth2/" ∷ [])

unfoldable pub superset_redirects : RealmOptions → List String
unfolding public_redirects
superset_redirects o = public_redirects o.superset_public_url ("/oauth-authorized/keycloak" ∷ [])

-- A Go map is an association list, and an assignment to it `insert`.
abbrev pub Document : Type 0
Document = List (String × Json)

unfoldable pub lakekeeper_client : RealmOptions → Document
unfolding lakekeeper_redirects
lakekeeper_client o =
    ("clientId", str default_oidc_client_id)
    ∷ ("name", str "LakeKeeper")
    ∷ ("enabled", bool true)
    ∷ ("protocol", str "openid-connect")
    ∷ ("publicClient", bool true)
    ∷ ("standardFlowEnabled", bool true)
    ∷ ("directAccessGrantsEnabled", bool true)
    ∷ ("serviceAccountsEnabled", bool false)
    ∷ ("redirectUris", texts (lakekeeper_redirects o))
    ∷ ("webOrigins", texts ("+" ∷ []))
    ∷ ("defaultClientScopes", texts default_oidc_client_scopes)
    ∷ ("optionalClientScopes", texts optional_oidc_client_scopes)
    ∷ (
      "attributes",
      text_object (
          ("oauth2.device.authorization.grant.enabled", "true")
          ∷ ("pkce.code.challenge.method", "S256")
          ∷ []),
    )
    ∷ []

-- `uuid.NewSHA1(uuid.NameSpaceURL, …)` is the parameter `uuid`.
module _ (uuid : String → String) where
  unfoldable pub keycloak_uuid : String → String → String
  keycloak_uuid kind name =
      uuid ("https://dataplatform.opsarray.io/keycloak/" <> kind <> "/" <> name)

  unfoldable pub client_credentials : String → String → String → Document
  unfolding keycloak_uuid audience_mapper
  client_credentials id name secret =
      ("id", str (keycloak_uuid "client" id))
      ∷ ("clientId", str id)
      ∷ ("name", str name)
      ∷ ("enabled", bool true)
      ∷ ("protocol", str "openid-connect")
      ∷ ("publicClient", bool false)
      ∷ ("secret", str secret)
      ∷ ("serviceAccountsEnabled", bool true)
      ∷ ("standardFlowEnabled", bool false)
      ∷ ("directAccessGrantsEnabled", bool false)
      ∷ ("defaultClientScopes", texts default_oidc_client_scopes)
      ∷ ("optionalClientScopes", texts optional_oidc_client_scopes)
      ∷ ("protocolMappers", singleton (audience_mapper id))
      ∷ []

  -- the mapper that a client with a login has beside its audience
  unfoldable pub username_mapper : Json
  unfolding mapper
  username_mapper = mapper "username" "oidc-usermodel-property-mapper" (
      ("user.attribute", "username")
      ∷ ("claim.name", "preferred_username")
      ∷ ("jsonType.label", "String")
      ∷ ("id.token.claim", "true")
      ∷ ("access.token.claim", "true")
      ∷ ("userinfo.token.claim", "true")
      ∷ [])

  -- A client logs users in only if it has somewhere to send them back to.
  unfoldable pub confidential_client : String → String → String → List String → Document
  unfolding client_credentials username_mapper
  confidential_client id name secret redirects =
      let client : Document = client_credentials id name secret in
      if is_empty redirects
      then client
      else insert "protocolMappers" (list (audience_mapper id ∷ username_mapper ∷ [])) (
          insert "webOrigins" (texts ("+" ∷ [])) (
            insert "redirectUris" (texts redirects)
              (insert "standardFlowEnabled" (bool true) client)))

  unfoldable pub realm_clients : RealmOptions → List Document
  unfolding lakekeeper_client confidential_client trino_redirects superset_redirects
  realm_clients o =
      lakekeeper_client o
      ∷ confidential_client default_oidc_trino_client_id "Trino" o.trino_secret (trino_redirects o)
      ∷ confidential_client default_oidc_opa_client_id "OPA" o.opa_secret []
      ∷ confidential_client default_oidc_superset_client_id "Superset" o.superset_secret
          (superset_redirects o)
      ∷ confidential_client default_oidc_operator_client "Data Platform Operator" o.operator_secret
          []
      ∷ []
