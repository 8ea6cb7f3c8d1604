-- ===== src/Warehouse/Principals.antt =====
-- Who is granted what on the catalog.
use data_platform_operator.Base.{
  Bool, false, not, ◌&&◌, ◌||◌, List, [], ◌∷◌, String, ◌<>◌, ◌==◌, ◌≡◌, arith,
}
use data_platform_operator.Api.Access.{authz_is_enabled}
use data_platform_operator.Api.Platform.{DataPlatform}
use data_platform_operator.Catalog.Types.{CatalogPrincipal}
use data_platform_operator.Config.{OidcConfig}
use data_platform_operator.Warehouse.{catalog_principals}

-- Some principal of the list has the subject and the project relation.
unfoldable pub granted : String → String → List CatalogPrincipal → Bool
granted subject relation [] = false
granted subject relation (p ∷ ps) =
    ((p.subject == subject) && (p.project_relation == relation)) || granted subject relation ps

-- Some principal of the list has the subject and the server relation.
unfoldable pub granted_server : String → String → List CatalogPrincipal → Bool
granted_server subject relation [] = false
granted_server subject relation (p ∷ ps) =
    ((p.subject == subject) && (p.server_relation == relation))
    || granted_server subject relation ps

-- For every subject: it is granted security_admin on the project exactly when the operator knows
-- its admin, authorization is enabled and the subject is the OPA bridge's; it is granted
-- project_admin exactly when the operator knows its admin and the subject is the admin's or
-- Trino's; and it is granted admin on the server exactly when it is the known admin's.
pub catalog_principals-granted :
    (dp : DataPlatform) (oidc : OidcConfig) (subject : String)
    → (granted subject "security_admin" (catalog_principals dp oidc) ≡ (
        not (oidc.admin_subject == "")
        && authz_is_enabled dp.spec.authz
        && not (oidc.opa_subject == "")
        && (("oidc~" <> oidc.opa_subject) == subject)))
      × (granted subject "project_admin" (catalog_principals dp oidc) ≡ (
          not (oidc.admin_subject == "")
          && ((("oidc~" <> oidc.admin_subject) == subject)
              || (not (oidc.trino_subject == "") && (("oidc~" <> oidc.trino_subject) == subject)))))
      × (granted_server subject "admin" (catalog_principals dp oidc)
          ≡ (not (oidc.admin_subject == "") && (("oidc~" <> oidc.admin_subject) == subject)))
unfolding catalog_principals granted granted_server
catalog_principals-granted dp oidc subject = (ground arith, ground arith, ground arith)
