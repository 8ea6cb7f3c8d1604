-- ===== src/Warehouse.antt =====
-- internal/controller/warehouse.go: the catalog is bootstrapped, its principals hold their grants,
-- and it has the warehouse.
pub mod Principals
pub mod Condition
pub mod Provisioned
use data_platform_operator.Base.{
  Bool, true, false, not, ◌&&◌, ◌||◌, Option, none, some, List, [], ◌∷◌, ◌++◌, String, ◌<>◌, ◌==◌,
  is_empty, if◌then◌else◌,
}
use data_platform_operator.Base.Exec.{Exec, pure, raise, errorf, ◌>>=◌, ◌>>◌}
use data_platform_operator.Api.Access.{authz_is_enabled}
use data_platform_operator.Api.Engines.{lakekeeper_namespace_or_default, warehouse_name_or_default}
use data_platform_operator.Api.Platform.{DataPlatform}
use data_platform_operator.Catalog.Types.{
  CatalogPrincipal, WarehouseRequest, Endpoint, CatalogClient,
}
use data_platform_operator.Config.{OidcConfig, OpenfgaConfig, ObjectStore}
use data_platform_operator.Reconciler.{Reconciler, State, in_world}
use data_platform_operator.Cluster.{set_condition, marking}
use data_platform_operator.Oidc.{oidc_access_token}
use data_platform_operator.Access.{reconcile_access_groups}

abbrev admin_principal : OidcConfig → CatalogPrincipal
admin_principal oidc = record {
  subject = "oidc~" <> oidc.admin_subject;
  name = oidc.admin_name;
  email = oidc.admin_email;
  type = "human";
  server_relation = "admin";
  project_relation = "project_admin";
}

abbrev application : String → String → String → CatalogPrincipal
application subject name relation = record {
  subject = "oidc~" <> subject;
  name = name;
  email = "";
  type = "application";
  server_relation = "";
  project_relation = relation;
}

unfoldable pub catalog_principals : DataPlatform → OidcConfig → List CatalogPrincipal
catalog_principals dp oidc =
    if oidc.admin_subject == ""
    then []
    else ((admin_principal oidc ∷ [])
        ++ (if oidc.trino_subject == ""
            then []
            else application oidc.trino_subject oidc.trino_client_id "project_admin" ∷ [])
        ++ (if authz_is_enabled dp.spec.authz && not (oidc.opa_subject == "")
            then application oidc.opa_subject oidc.opa_client_id "security_admin" ∷ []
            else []))

unfoldable pub warehouse_request : DataPlatform → ObjectStore → WarehouseRequest
warehouse_request dp store = record {
  name = warehouse_name_or_default dp.spec.lakekeeper.warehouse;
  bucket = store.bucket;
  region = store.region;
  key_prefix = dp.spec.lakekeeper.warehouse.key_prefix;
  endpoint = store.endpoint;
  path_style_access = store.path_style_access;
  flavor = store.flavor;
  sts_enabled = store.sts_enabled;
  sts_role_arn = store.sts_role_arn;
  access_key_id = store.access_key_id;
  secret_access_key = store.secret_access_key;
}

module _ {W C : Type 0} (r : Reconciler W C) (dp : DataPlatform) where
  -- the token, an error where it is empty though authentication is on
  unfoldable pub checked_token : OidcConfig → Exec (State W C) String
  checked_token oidc = do
    token ← oidc_access_token r oidc
    if oidc.enabled && (token == "") then raise (errorf "OIDC token is empty") else pure token

  unfoldable pub provision :
      CatalogClient W → ObjectStore → OidcConfig → OpenfgaConfig → Exec (State W C) (Unit {0})
  provision c store oidc fga = do
    token ← checked_token oidc
    let e : Endpoint = record {
      namespace = lakekeeper_namespace_or_default dp.spec.lakekeeper;
      service = "lakekeeper";
      port = 8181;
      bearer = token;
    }
    in_world (c.bootstrap e)
    (if is_empty (catalog_principals dp oidc)
        then pure tt
        else in_world (c.ensure_grants e (catalog_principals dp oidc)))
    in_world (c.ensure_warehouse e (warehouse_request dp store))
    reconcile_access_groups r dp oidc fga

  unfoldable pub warehouse_with :
      Option (CatalogClient W)
      → ObjectStore
      → OidcConfig
      → OpenfgaConfig
      → Exec (State W C) (Unit {0})
  warehouse_with none store oidc fga =
      set_condition r dp "WarehouseReady" false "Missing" "Catalog client is not configured"
  warehouse_with (some c) store oidc fga =
      marking r dp "WarehouseReady" "Error" (provision c store oidc fga)
      >> set_condition r dp "WarehouseReady" true "Ready"
          ("Warehouse " <> (warehouse_request dp store).name <> " is ready")

  -- `reconcileWarehouse`: every error of the provisioning marks the condition
  unfoldable pub reconcile_warehouse :
      ObjectStore → OidcConfig → OpenfgaConfig → Exec (State W C) (Unit {0})
  reconcile_warehouse store oidc fga = warehouse_with r.catalog store oidc fga
