-- ===== src/Access.antt =====
-- internal/controller/access.go: the groups of Keycloak become roles of LakeKeeper, and their
-- members tuples of OpenFGA.
pub mod People
pub mod Tuples
use data_platform_operator.Base.{
  Bool, true, false, not, ◌&&◌, ◌||◌, Option, none, some, List, [], ◌∷◌, ◌++◌, String, ◌<>◌, ◌==◌,
  contains, insert, lookup, is_empty, if◌then◌else◌,
}
use data_platform_operator.Base.Exec.{
  Error, Result, ok, err, Exec, pure, raise, lift, errorf, ◌>>=◌, ◌>>◌,
}
use data_platform_operator.Base.Text.{decimal, has_prefix, trim_prefix, trim_space}
use data_platform_operator.Api.Constants.{
  default_group_platform_admins, default_group_data_engineers, default_group_analysts,
}
use data_platform_operator.Api.Access.{openfga_namespace_or_default}
use data_platform_operator.Api.Engines.{lakekeeper_namespace_or_default, warehouse_name_or_default}
use data_platform_operator.Api.Identity.{
  auth_is_embedded, keycloak_namespace_or_default, keycloak_realm_or_default,
}
use data_platform_operator.Api.Platform.{DataPlatform}
use data_platform_operator.Catalog.Types.{
  CatalogPrincipal, CatalogAccessRole, AuthzTuple, GroupEntry, MemberEntry, Response, Endpoint,
  Form,
}
use data_platform_operator.Catalog.Http.{is_success, truncate}
use data_platform_operator.Config.{OidcConfig, OpenfgaConfig}
use data_platform_operator.Reconciler.{Reconciler, State, in_world}
use data_platform_operator.Cluster.{get_secret_data}
use data_platform_operator.Oidc.{with_catalog, token_of, oidc_access_token}
use People.{Members, default_access_groups, wanted, principals_of, roles_of, tuples_of}

abbrev keycloak : String → String → Endpoint
keycloak namespace bearer = record {
  namespace = namespace;
  service = "keycloak";
  port = 8080;
  bearer = bearer;
}

abbrev decoded : {A : Type 0} → String → Result A → Result A
decoded what (ok a) = ok a
decoded what (err e) = err (errorf ("parse " <> what <> ": " <> e.message))

module _ {W C : Type 0} (r : Reconciler W C) where
  -- a listing's entries, from its response
  unfoldable pub listed_of :
      {A : Type 0} → String → (String → Result A) → Response → Exec (State W C) A
  listed_of what decode response =
      if is_success response.status
      then lift (decoded what (decode response.body))
      else raise (
          errorf (
            "list "
            <> what
            <> " returned "
            <> decimal response.status
            <> ": "
            <> truncate response.body))

  unfoldable pub keycloak_group_members :
      String → String → String → String → Exec (State W C) (List CatalogPrincipal)
  keycloak_group_members namespace realm token group_id = with_catalog r λ c.
      in_world (
        c.json "GET" (keycloak namespace token)
          ("admin/realms/"
            <> r.kube.path_escape realm
            <> "/groups/"
            <> r.kube.path_escape group_id
            <> "/members?max=500")
          none)
      >>= λ response. listed_of "Keycloak group members" r.decode_members response >>= λ members.
          pure (principals_of members)

  unfoldable pub wanted_members :
      String → String → String → List GroupEntry → Members → Exec (State W C) Members
  wanted_members namespace realm token [] out = pure out
  wanted_members namespace realm token (g ∷ gs) out =
      if wanted g.name
      then (keycloak_group_members namespace realm token g.id >>= λ members.
          wanted_members namespace realm token gs (insert g.name members out))
      else wanted_members namespace realm token gs out

  abbrev admin_form : String → String → Form
  admin_form user password =
      ("grant_type", "password")
      ∷ ("client_id", "admin-cli")
      ∷ ("username", user)
      ∷ ("password", password)
      ∷ []

  module _ (dp : DataPlatform) where
    unfoldable pub access_group_members : Exec (State W C) Members
    access_group_members = with_catalog r λ c.
        let namespace = keycloak_namespace_or_default dp.spec.auth.keycloak in
        let realm = keycloak_realm_or_default dp.spec.auth.keycloak in
        do
          user ← get_secret_data r "keycloak-admin" namespace "username"
          password ← get_secret_data r "keycloak-admin" namespace "password"
          response ← in_world (
              c.form_post (keycloak namespace "") "realms/master/protocol/openid-connect/token"
                (admin_form user password))
          token ← token_of r "keycloak admin token" response
          listing ← in_world (
              c.json "GET" (keycloak namespace token)
                ("admin/realms/" <> r.kube.path_escape realm <> "/groups") none)
          groups ← listed_of "Keycloak groups" r.decode_groups listing
          wanted_members namespace realm token groups []

    -- `reconcileAccessGroups`. Its client is the one that `access_group_members` checked.
    unfoldable pub reconcile_access_groups :
        OidcConfig → OpenfgaConfig → Exec (State W C) (Unit {0})
    reconcile_access_groups oidc fga =
        if not oidc.enabled || not (auth_is_embedded dp.spec.auth)
        then pure tt
        else with_catalog r λ c. do
          members ← access_group_members
          token ← oidc_access_token r oidc
          in_world (
              c.ensure_access_roles
                (record {
                  namespace = lakekeeper_namespace_or_default dp.spec.lakekeeper;
                  service = "lakekeeper";
                  port = 8181;
                  bearer = token;
                })
                (warehouse_name_or_default dp.spec.lakekeeper.warehouse)
                (roles_of members default_access_groups))
          (if (fga.row_filter_store_id == "") || is_empty (tuples_of members default_access_groups)
              then pure tt
              else in_world (
                  c.ensure_authz_tuples
                    (record {
                      namespace = openfga_namespace_or_default dp.spec.authz.openfga;
                      service = "openfga";
                      port = 8080;
                      bearer = fga.api_key;
                    })
                    fga.row_filter_store_id (tuples_of members default_access_groups)))
