-- ===== src/Catalog/Client.antt =====
-- internal/controller/catalog.go: `post`, `Bootstrap`, `EnsureGrants` and `EnsureWarehouse`.
pub mod Grants
use data_platform_operator.Base.{
  Bool, true, false, Option, none, some, List, [], ◌∷◌, ◌++◌, String, ◌<>◌, ◌==◌, ◌&&◌, ◌||◌,
  if◌then◌else◌,
}
use data_platform_operator.Base.Exec.{Exec, Result, ok, err, pure, raise, errorf, ◌>>=◌, ◌>>◌}
use data_platform_operator.Base.Json.{Json, bool, str, object, singleton}
use data_platform_operator.Base.Text.{decimal, contains_text}
use data_platform_operator.Catalog.Types.{CatalogPrincipal, WarehouseRequest, Response, Endpoint}
use data_platform_operator.Catalog.Http.{
  Http, WarehouseEntry, is_success, is_already_done, truncate,
}

-- the errors of a call that answered with a status code
unfoldable pub returned : {W A : Type 0} → String → Response → Exec W A
unfolding truncate
returned what r =
    raise (errorf (what <> " returned " <> decimal r.status <> ": " <> truncate r.body))

-- "Existing … are treated as success"
unfoldable pub is_accepted : Response → Bool
unfolding is_success is_already_done
is_accepted r = is_success r.status || is_already_done r.status r.body

-- `map[string]any{"writes": …}` with one grant to a user or a role
abbrev pub grant_json : String → String → String → Json
grant_json relation kind id =
    object (("writes", singleton (object (("type", str relation) ∷ (kind, str id) ∷ []))) ∷ [])

abbrev pub optional_field : String → String → List (String × Json)
optional_field k v = if v == "" then [] else (k, str v) ∷ []

unfoldable pub catalog_user_json : CatalogPrincipal → Json
catalog_user_json p = object (
    ("id", str p.subject)
    ∷ ("name", str p.name)
    ∷ ("user-type", str p.type)
    ∷ ("update-if-exists", bool true)
    ∷ optional_field "email" p.email)

unfoldable pub storage_profile : WarehouseRequest → List (String × Json)
storage_profile req =
    (("type", str "s3")
      ∷ ("bucket", str req.bucket)
      ∷ ("region", str req.region)
      ∷ ("flavor", str req.flavor)
      ∷ ("sts-enabled", bool req.sts_enabled)
      ∷ [])
    ++ optional_field "key-prefix" req.key_prefix
    ++ optional_field "endpoint" req.endpoint
    ++ (if req.path_style_access then ("path-style-access", bool true) ∷ [] else [])
    ++ optional_field "sts-role-arn" req.sts_role_arn

unfoldable pub warehouse_create_json : WarehouseRequest → Json
unfolding storage_profile
warehouse_create_json req = object (
    ("warehouse-name", str req.name)
    ∷ ("storage-profile", object (storage_profile req))
    ∷ (
      "storage-credential",
      object (
          ("type", str "s3")
          ∷ ("credential-type", str "access-key")
          ∷ ("aws-access-key-id", str req.access_key_id)
          ∷ ("aws-secret-access-key", str req.secret_access_key)
          ∷ []),
    )
    ∷ [])

unfoldable pub is_named : String → WarehouseEntry → Bool
is_named name w = (w.name == name) || (w.warehouse_name == name)

unfoldable pub listed : String → List WarehouseEntry → Bool
unfolding is_named
listed name [] = false
listed name (w ∷ ws) = is_named name w || listed name ws

-- `warehouseListed`: where the body does not decode, its text is searched
unfoldable pub warehouse_listed : Result (List WarehouseEntry) → String → String → Bool
unfolding listed
warehouse_listed (err e) body name = contains_text body ("\"" <> name <> "\"")
warehouse_listed (ok ws) body name = listed name ws

unfoldable pub id_for_name : String → List WarehouseEntry → String
unfolding is_named
id_for_name name [] = ""
id_for_name name (w ∷ ws) =
    if is_named name w then (if w.id == "" then w.warehouse_id else w.id) else id_for_name name ws

-- `warehouseIDForName`
unfoldable pub warehouse_id_for_name : Result (List WarehouseEntry) → String → String
unfolding id_for_name
warehouse_id_for_name (err e) name = ""
warehouse_id_for_name (ok ws) name = id_for_name name ws

module _ {W M : Type 0} (http : Http W M) where
  unfoldable pub post : Endpoint → String → Json → String → Exec W (Unit {0})
  post e path payload what = do
    r ← http.exchange "POST" e path (some payload)
    if is_accepted r then pure tt else returned what r

  unfoldable pub bootstrap : Endpoint → Exec W (Unit {0})
  bootstrap e =
      post e "management/v1/bootstrap"
        (object (("accept-terms-of-use", bool true) ∷ ("is-operator", bool true) ∷ [])) "bootstrap"

  -- a grant that is set is made; an empty one is left out
  unfoldable pub grant_to_user : Endpoint → String → String → CatalogPrincipal → Exec W (Unit {0})
  grant_to_user e scope relation p =
      if relation == ""
      then pure tt
      else post e ("management/v1/permissions/" <> scope <> "/assignments")
          (grant_json relation "user" p.subject)
          ("grant " <> scope <> " " <> relation <> " to " <> p.name)

  unfoldable pub ensure_grants : Endpoint → List CatalogPrincipal → Exec W (Unit {0})
  ensure_grants e [] = pure tt
  ensure_grants e (p ∷ ps) = do
    post e "management/v1/user" (catalog_user_json p) ("provision user " <> p.name)
    grant_to_user e "server" p.server_relation p
    grant_to_user e "project" p.project_relation p
    ensure_grants e ps

  unfoldable pub ensure_warehouse : Endpoint → WarehouseRequest → Exec W (Unit {0})
  ensure_warehouse e req = do
    listing ← http.exchange "GET" e "management/v1/warehouse" none
    if is_success listing.status
          && warehouse_listed (http.decode_warehouses listing.body) listing.body req.name
        then pure tt
        else post e "management/v1/warehouse" (warehouse_create_json req) "create warehouse"
