-- ===== src/Catalog/Client/Grants.antt =====
-- What `EnsureGrants` has done when it returns no error.
use data_platform_operator.Base.{Bool, true, false, String, ◌<>◌, ◌==◌}
use data_platform_operator.Base.Exec.{Exec}
use data_platform_operator.Base.Exec.Keeps.{Keeps}
use data_platform_operator.Base.Json.{Json}
use data_platform_operator.Catalog.Types.{CatalogPrincipal}
use data_platform_operator.Catalog.Http.{Http}
use data_platform_operator.Catalog.Client.{grant_json, catalog_user_json}
use data_platform_operator.Catalog.Server.{Server}

-- what is there unless there is nothing to do
abbrev pub Unless : Bool → Type 0 → Type 0
Unless true D = Unit {0}
Unless false D = D

-- a grant is there, unless it names no relation
abbrev pub GrantDone :
    {W : Type 0} → (W → String → Json → Type 0) → W → String → String → CatalogPrincipal → Type 0
GrantDone Done w scope relation p = Unless (relation == "") (
    Done w ("management/v1/permissions/" <> scope <> "/assignments")
      (grant_json relation "user" p.subject))

-- The principal is provisioned and holds the grants that it names.
pub record PrincipalDone {W : Type 0} (Done : W → String → Json → Type 0) (w : W)
    (p : CatalogPrincipal) : Type 0 where
  pub user : Done w "management/v1/user" (catalog_user_json p)
  pub server : GrantDone Done w "server" p.server_relation p
  pub project : GrantDone Done w "project" p.project_relation p
