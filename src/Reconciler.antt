-- ===== src/Reconciler.antt =====
-- internal/controller/dataplatform_controller.go: the reconciler's own fields, and the state that
-- a reconciliation changes.
use data_platform_operator.Base.{Option, List, String}
use data_platform_operator.Base.Exec.{Exec, Result}
use data_platform_operator.Base.Json.{Json}
use data_platform_operator.Api.Platform.{DataPlatform, DataPlatformStatus}
use data_platform_operator.Kube.{Kube, ConditionApi}
use data_platform_operator.Catalog.Types.{CatalogClient, GroupEntry, MemberEntry}

-- `DataPlatformReconciler`. `Catalog` may be nil. The last fields are the libraries that the
-- program decodes tokens and derives identifiers with.
pub record Reconciler (W C : Type 0) : Type 0 where
  pub kube : Kube W
  pub condition_api : ConditionApi C
  pub catalog : Option (CatalogClient W)
  -- the DataPlatform objects of the API server: `Get`, with the object's status, and
  -- `Status().Update`
  pub get_platform : String → Exec W (DataPlatform × DataPlatformStatus C)
  pub update_status : String → DataPlatformStatus C → Exec W (Unit {0})
  -- `json.Unmarshal` of a token response, its `access_token` field
  pub decode_access_token : String → Result String
  -- and of Keycloak's listings
  pub decode_groups : String → Result (List GroupEntry)
  pub decode_members : String → Result (List MemberEntry)
  -- `json.Marshal` to a text
  pub marshal : Json → String
  -- the paths and texts of the policies that are embedded in the program, as the walk of their
  -- directories visits them
  pub opa_policies : Result (List (String × String))
  -- `generateRealmSigningKey`, which only calls the crypto libraries: a new RSA key for the realm,
  -- and its certificate
  pub new_signing_key : String → Exec W (String × String)
  -- `%q` of a text
  pub quote : String → String
  -- `uuid.NewSHA1(uuid.NameSpaceURL, …)`
  pub uuid_of_url : String → String

-- The status of the object at hand, and the world outside the process.
pub record State (W C : Type 0) : Type 0 where
  pub status : DataPlatformStatus C
  pub world : W

abbrev outside : {W C A : Type 0} → Result A × W → State W C → Result A × State W C
outside p s = (p.0, record s { world = p.1 })

-- A call to the world outside leaves the status alone.
unfoldable pub in_world : {W C A : Type 0} → Exec W A → Exec (State W C) A
in_world m s = outside (m s.world) s

-- an action on the status alone
unfoldable pub set_status :
    {W C : Type 0} → (DataPlatformStatus C → DataPlatformStatus C) → Exec (State W C) (Unit {0})
set_status f s = (Result.ok tt, record s { status = f s.status })
