-- ===== src/Catalog/Roles.antt =====
-- internal/controller/catalog.go: `EnsureAccessRoles` and what it calls.
use data_platform_operator.Base.{none, some, List, [], ◌∷◌, String, ◌<>◌, ◌==◌, if◌then◌else◌}
use data_platform_operator.Base.Exec.{Exec, Result, ok, err, pure, raise, errorf, ◌>>=◌, ◌>>◌}
use data_platform_operator.Base.Json.{str, object}
use data_platform_operator.Catalog.Types.{CatalogPrincipal, CatalogAccessRole, Response, Endpoint}
use data_platform_operator.Catalog.Http.{Http, RoleEntry, is_success, is_already_done}
use data_platform_operator.Catalog.Client.{
  returned, grant_json, optional_field, catalog_user_json, warehouse_id_for_name, post,
}

unfoldable pub role_named : String → List RoleEntry → String
role_named name [] = ""
role_named name (role ∷ roles) = if role.name == name then role.id else role_named name roles

-- `parseRoleID`: the empty text where the body does not decode
abbrev parse_role_id : Result String → String
parse_role_id (err e) = ""
parse_role_id (ok id) = id

module _ {W M : Type 0} (http : Http W M) where
  unfoldable pub found_role : String → Result (List RoleEntry) → Exec W String
  unfolding role_named
  found_role name (err e) = raise (errorf ("parse role list: " <> e.message))
  found_role name (ok roles) = pure (role_named name roles)

  -- the empty text where no role has the name
  unfoldable pub find_role_id : Endpoint → String → Exec W String
  find_role_id e name = do
    r ← http.exchange "GET" e "management/v1/role?pageSize=100" none
    if is_success r.status
        then found_role name (http.decode_roles r.body)
        else returned "list roles" r

  -- `id` or an error where it is empty
  unfoldable pub nonempty : String → String → Exec W String
  nonempty message id = if id == "" then raise (errorf message) else pure id

  unfoldable pub created_role : Endpoint → CatalogAccessRole → Response → Exec W String
  created_role e role r =
      if is_success r.status
      then nonempty ("created role " <> http.quote role.name <> " has no id")
          (parse_role_id (http.decode_id r.body))
      else if is_already_done r.status r.body
      then (do
        id ← find_role_id e role.name
        nonempty ("role " <> http.quote role.name <> " already exists but was not listed") id)
      else returned ("create role " <> http.quote role.name) r

  unfoldable pub ensure_role : Endpoint → CatalogAccessRole → Exec W String
  ensure_role e role = do
    id ← find_role_id e role.name
    if id == ""
        then (do
          r ← http.exchange "POST" e "management/v1/role" (
              some
                (object (("name", str role.name) ∷ optional_field "description" role.description)))
          created_role e role r)
        else pure id

  -- one loop of `grantRoleAccess`: `path` and `what` are those of its scope
  unfoldable pub grant_relations :
      Endpoint → String → String → String → CatalogAccessRole → List String → Exec W (Unit {0})
  grant_relations e path what role_id role [] = pure tt
  grant_relations e path what role_id role (relation ∷ relations) = do
    post http e path (grant_json relation "role" role_id)
        ("grant " <> what <> " " <> relation <> " to role " <> role.name)
    grant_relations e path what role_id role relations

  unfoldable pub grant_role_access :
      Endpoint → String → String → CatalogAccessRole → Exec W (Unit {0})
  grant_role_access e role_id warehouse_id role = do
    grant_relations e "management/v1/permissions/server/assignments" "server" role_id role
        role.server_relations
    grant_relations e "management/v1/permissions/project/assignments" "project" role_id role
        role.project_relations
    if warehouse_id == ""
        then pure tt
        else grant_relations e
            ("management/v1/permissions/warehouse/" <> warehouse_id <> "/assignments") "warehouse"
            role_id role role.warehouse_relations

  unfoldable pub warehouse_id : Endpoint → String → Exec W String
  warehouse_id e name = do
    r ← http.exchange "GET" e "management/v1/warehouse" none
    if is_success r.status
        then nonempty ("warehouse " <> http.quote name <> " was not listed")
            (warehouse_id_for_name (http.decode_warehouses r.body) name)
        else returned "list warehouses" r

  unfoldable pub assign_members :
      Endpoint → String → CatalogAccessRole → List CatalogPrincipal → Exec W (Unit {0})
  assign_members e role_id role [] = pure tt
  assign_members e role_id role (member ∷ members) = do
    post http e "management/v1/user" (catalog_user_json member) ("provision user " <> member.name)
    post http e ("management/v1/permissions/role/" <> role_id <> "/assignments")
        (grant_json "assignee" "user" member.subject)
        ("assign " <> member.name <> " to role " <> role.name)
    assign_members e role_id role members

  unfoldable pub ensure_roles : Endpoint → String → List CatalogAccessRole → Exec W (Unit {0})
  ensure_roles e wid [] = pure tt
  ensure_roles e wid (role ∷ roles) = do
    role_id ← ensure_role e role
    grant_role_access e role_id wid role
    assign_members e role_id role role.members
    ensure_roles e wid roles

  unfoldable pub ensure_access_roles :
      Endpoint → String → List CatalogAccessRole → Exec W (Unit {0})
  ensure_access_roles e warehouse_name [] = pure tt
  ensure_access_roles e warehouse_name (role ∷ roles) = do
    wid ← warehouse_id e warehouse_name
    ensure_roles e wid (role ∷ roles)
