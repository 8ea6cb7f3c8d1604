-- ===== src/Keycloak/Realm.antt =====
-- internal/controller/keycloak.go: the realm that Keycloak imports.
use data_platform_operator.Base.{true, false, List, [], ◌∷◌, String, ◌<>◌, map}
use data_platform_operator.Base.Json.{Json, bool, num, str, object, list, singleton, texts}
use data_platform_operator.Access.People.{AccessGroup, default_access_groups}
use data_platform_operator.Api.Constants.{
  default_oidc_trino_client_id, default_oidc_opa_client_id, default_oidc_superset_client_id,
  default_oidc_operator_client, default_oidc_admin_user, default_oidc_admin_user_id,
  default_group_platform_admins,
}
use data_platform_operator.Api.Identity.{keycloak_realm_or_default}
use data_platform_operator.Keycloak.Scopes.{default_oidc_client_scopes, oidc_client_scopes}
use data_platform_operator.Keycloak.Clients.{RealmOptions, Document, keycloak_uuid, realm_clients}

abbrev key_provider : String → String → List (String × Json) → Json
key_provider name id config =
    object (("name", str name) ∷ ("providerId", str id) ∷ ("config", object config) ∷ [])

abbrev one : String → Json
one value = texts (value ∷ [])

unfoldable pub realm_key_components : String → String → Json
realm_key_components signing_key certificate = object (
    (
      "org.keycloak.keys.KeyProvider",
      list (
          key_provider "operator-rsa" "rsa" (
            ("privateKey", one signing_key)
            ∷ ("certificate", one certificate)
            ∷ ("algorithm", one "RS256")
            ∷ ("priority", one "200")
            ∷ ("active", one "true")
            ∷ ("enabled", one "true")
            ∷ [])
          ∷ key_provider "hmac-generated" "hmac-generated"
              (("algorithm", one "HS512") ∷ ("priority", one "100") ∷ [])
          ∷ key_provider "aes-generated" "aes-generated" (("priority", one "100") ∷ [])
          ∷ key_provider "rsa-enc-generated" "rsa-enc-generated"
              (("algorithm", one "RSA-OAEP") ∷ ("priority", one "100") ∷ [])
          ∷ []),
    )
    ∷ [])

unfoldable pub access_realm_role : AccessGroup → Json
access_realm_role group =
    object (("name", str group.name) ∷ ("description", str group.description) ∷ [])

unfoldable pub access_realm_roles : String → List Json
unfolding access_realm_role
access_realm_roles realm =
    object (("name", str ("default-roles-" <> realm)) ∷ ("composite", bool true) ∷ [])
    ∷ map access_realm_role default_access_groups

-- `uuid.NewSHA1(uuid.NameSpaceURL, …)` is the parameter `uuid`.
module _ (uuid : String → String) where
  unfoldable pub service_account_user : String → Document
  unfolding keycloak_uuid
  service_account_user client_id =
      ("id", str (keycloak_uuid uuid "service-account" client_id))
      ∷ ("username", str ("service-account-" <> client_id))
      ∷ ("enabled", bool true)
      ∷ ("serviceAccountClientId", str client_id)
      ∷ []

  unfoldable pub access_realm_group : AccessGroup → Json
  unfolding keycloak_uuid
  access_realm_group group = object (
      ("id", str (keycloak_uuid uuid "group" group.name))
      ∷ ("name", str group.name)
      ∷ ("path", str ("/" <> group.name))
      ∷ ("realmRoles", texts (group.name ∷ []))
      ∷ [])

  unfoldable pub access_realm_groups : List Json
  unfolding access_realm_group
  access_realm_groups = map access_realm_group default_access_groups

  unfoldable pub admin_user : RealmOptions → Document
  admin_user o =
      ("id", str default_oidc_admin_user_id)
      ∷ ("username", str default_oidc_admin_user)
      ∷ ("enabled", bool true)
      ∷ ("emailVerified", bool true)
      ∷ ("email", str "admin@local")
      ∷ ("firstName", str "Admin")
      ∷ ("lastName", str "Local")
      ∷ ("groups", texts (("/" <> default_group_platform_admins) ∷ []))
      ∷ (
        "credentials",
        singleton (
            object (
              ("type", str "password")
              ∷ ("value", str o.admin_password)
              ∷ ("temporary", bool false)
              ∷ [])),
      )
      ∷ []

  unfoldable pub realm_users : RealmOptions → List Document
  unfolding admin_user service_account_user
  realm_users o =
      admin_user o
      ∷ service_account_user default_oidc_trino_client_id
      ∷ service_account_user default_oidc_opa_client_id
      ∷ service_account_user default_oidc_superset_client_id
      ∷ service_account_user default_oidc_operator_client
      ∷ []

  -- the document that `keycloakRealmJSON` marshals
  unfoldable pub keycloak_realm : RealmOptions → Json
  unfolding realm_clients realm_users realm_key_components access_realm_roles access_realm_groups
      oidc_client_scopes
  keycloak_realm o =
      let realm : String = keycloak_realm_or_default o.spec in
      object (
        ("realm", str realm)
        ∷ ("enabled", bool true)
        ∷ ("sslRequired", str "NONE")
        ∷ ("accessTokenLifespan", num 43_200)
        ∷ ("roles", object (("realm", list (access_realm_roles realm)) ∷ []))
        ∷ ("groups", list access_realm_groups)
        ∷ ("clientScopes", list oidc_client_scopes)
        ∷ ("defaultDefaultClientScopes", texts default_oidc_client_scopes)
        ∷ ("defaultOptionalClientScopes", texts ("offline_access" ∷ []))
        ∷ ("components", realm_key_components o.signing_key o.signing_certificate)
        ∷ ("clients", list (map object (realm_clients uuid o)))
        ∷ ("users", list (map object (realm_users o)))
        ∷ [])
