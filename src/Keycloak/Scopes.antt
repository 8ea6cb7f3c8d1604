-- ===== src/Keycloak/Scopes.antt =====
-- internal/controller/keycloak.go: the client scopes of the realm, and their mappers of claims.
use data_platform_operator.Base.{List, [], ◌∷◌, String, ◌<>◌}
use data_platform_operator.Base.Json.{Json, str, object, list, text_object}
use data_platform_operator.Api.Constants.{default_oidc_scope, default_oidc_audience}

abbrev pub default_oidc_client_scopes : List String
default_oidc_client_scopes = "basic" ∷ "profile" ∷ "email" ∷ default_oidc_scope ∷ []

abbrev pub optional_oidc_client_scopes : List String
optional_oidc_client_scopes = "offline_access" ∷ []

unfoldable pub mapper : String → String → List (String × String) → Json
mapper name kind config = object (
    ("name", str name)
    ∷ ("protocol", str "openid-connect")
    ∷ ("protocolMapper", str kind)
    ∷ ("config", text_object config)
    ∷ [])

unfoldable pub user_property_mapper : String → String → Json
unfolding mapper
user_property_mapper property claim = mapper claim "oidc-usermodel-property-mapper" (
    ("user.attribute", property)
    ∷ ("claim.name", claim)
    ∷ ("jsonType.label", "String")
    ∷ ("id.token.claim", "true")
    ∷ ("access.token.claim", "true")
    ∷ ("userinfo.token.claim", "true")
    ∷ [])

unfoldable pub groups_mapper : Json
unfolding mapper
groups_mapper = mapper "groups" "oidc-group-membership-mapper" (
    ("full.path", "false")
    ∷ ("id.token.claim", "true")
    ∷ ("access.token.claim", "true")
    ∷ ("userinfo.token.claim", "true")
    ∷ ("claim.name", "groups")
    ∷ [])

-- a mapper that puts an audience on the tokens, by its name and the audience
unfoldable pub audience_mapper_of : String → String → Json
unfolding mapper
audience_mapper_of name audience = mapper name "oidc-audience-mapper" (
    ("included.client.audience", audience)
    ∷ ("id.token.claim", "false")
    ∷ ("access.token.claim", "true")
    ∷ ("introspection.token.claim", "true")
    ∷ [])

unfoldable pub audience_mapper : String → Json
unfolding audience_mapper_of
audience_mapper client_id = audience_mapper_of ("audience-" <> client_id) client_id

-- what every scope begins with
abbrev scope : String → String → String → List (String × Json) → Json
scope name description in_token rest = object (
    ("name", str name)
    ∷ ("description", str description)
    ∷ ("protocol", str "openid-connect")
    ∷ (
      "attributes",
      text_object
          (("include.in.token.scope", in_token) ∷ ("display.on.consent.screen", "false") ∷ []),
    )
    ∷ rest)

abbrev mappers : List Json → List (String × Json)
mappers ms = ("protocolMappers", list ms) ∷ []

unfoldable pub oidc_client_scopes : List Json
unfolding user_property_mapper groups_mapper audience_mapper_of mapper
oidc_client_scopes =
    scope "basic" "OpenID Connect scope for add all basic claims to the token" "false" (
      mappers (
        mapper "sub" "oidc-sub-mapper"
          (("access.token.claim", "true") ∷ ("introspection.token.claim", "true") ∷ [])
        ∷ []))
    ∷ scope "profile" "OpenID Connect built-in scope: profile" "true" (
        mappers (
          user_property_mapper "username" "preferred_username"
          ∷ user_property_mapper "firstName" "given_name"
          ∷ user_property_mapper "lastName" "family_name"
          ∷ groups_mapper
          ∷ []))
    ∷ scope "email" "OpenID Connect built-in scope: email" "true"
        (mappers (user_property_mapper "email" "email" ∷ []))
    ∷ scope "offline_access" "OpenID Connect built-in scope: offline_access" "true" []
    ∷ scope default_oidc_scope "Audience for LakeKeeper" "true"
        (mappers (audience_mapper_of "audience-lakekeeper" default_oidc_audience ∷ []))
    ∷ []
