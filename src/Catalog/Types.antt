-- ===== src/Catalog/Types.antt =====
-- internal/controller/catalog.go: the requests that the reconciler makes of the catalog client,
-- and the client's interface.
use data_platform_operator.Base.{ℕ, Bool, Option, List, String}
use data_platform_operator.Base.Exec.{Exec}
use data_platform_operator.Base.Json.{Json}

pub record AuthzType : Type 0 where
  pub name : String
  pub relations : List String

pub record AuthzStoreRequest : Type 0 where
  pub store : String
  pub types : List AuthzType

pub record CatalogPrincipal : Type 0 where
  pub subject : String
  pub name : String
  pub email : String
  pub type : String
  pub server_relation : String
  pub project_relation : String

pub record CatalogAccessRole : Type 0 where
  pub name : String
  pub description : String
  pub server_relations : List String
  pub project_relations : List String
  pub warehouse_relations : List String
  pub members : List CatalogPrincipal

pub record AuthzTuple : Type 0 where
  pub user : String
  pub relation : String
  pub object : String

pub record WarehouseRequest : Type 0 where
  pub name : String
  pub bucket : String
  pub region : String
  pub key_prefix : String
  pub endpoint : String
  pub path_style_access : Bool
  pub flavor : String
  pub sts_enabled : Bool
  pub sts_role_arn : String
  pub access_key_id : String
  pub secret_access_key : String

-- internal/controller/access.go: the entries of Keycloak's listings
pub record GroupEntry : Type 0 where
  pub id : String
  pub name : String

pub record MemberEntry : Type 0 where
  pub id : String
  pub username : String
  pub email : String
  pub first_name : String
  pub last_name : String
  pub service_client : String

-- a status code and a body
pub record Response : Type 0 where
  pub status : ℕ
  pub body : String

-- The address that every call begins with: namespace, service, port and bearer token.
pub record Endpoint : Type 0 where
  pub namespace : String
  pub service : String
  pub port : ℕ
  pub bearer : String

-- `url.Values` with one value for each key
abbrev pub Form : Type 0
Form = List (String × String)

-- `CatalogClient`. Time and cancellation (`ctx`) are left out.
pub record CatalogClient (W : Type 0) : Type 0 where
  pub bootstrap : Endpoint → Exec W (Unit {0})
  pub ensure_grants : Endpoint → List CatalogPrincipal → Exec W (Unit {0})
  pub ensure_warehouse : Endpoint → WarehouseRequest → Exec W (Unit {0})
  pub ensure_access_roles : Endpoint → String → List CatalogAccessRole → Exec W (Unit {0})
  pub ensure_authz_store : Endpoint → AuthzStoreRequest → Exec W String
  pub ensure_authz_tuples : Endpoint → String → List AuthzTuple → Exec W (Unit {0})
  pub json : String → Endpoint → String → Option Json → Exec W Response
  pub form_post : Endpoint → String → Form → Exec W Response
  pub fetch_token : String → Form → Exec W Response
