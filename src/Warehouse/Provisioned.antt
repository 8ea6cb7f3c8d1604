-- ===== src/Warehouse/Provisioned.antt =====
-- What has been done where the warehouse's condition is true.
use data_platform_operator.Base.{
  true, Option, none, some, String, ◌≡◌, refl, sym, ◌∙◌, is_empty, arith, if◌then◌else◌,
}
use data_platform_operator.Base.Exec.{Result, ok, err, pure, raise, branch, ◌>>=◌, ◌>>◌}
use data_platform_operator.Base.Exec.Ends.{Outcome}
use data_platform_operator.Base.Exec.Ran.{Ran, Ensures, Ensures-step, Ensures-last}
use data_platform_operator.Api.Engines.{lakekeeper_namespace_or_default}
use data_platform_operator.Api.Platform.{DataPlatform}
use data_platform_operator.Catalog.Types.{CatalogClient, Endpoint}
use data_platform_operator.Config.{OidcConfig, OpenfgaConfig, ObjectStore}
use data_platform_operator.Kube.{ConditionLaws}
use data_platform_operator.Reconciler.{Reconciler, State, in_world, set_status}
use data_platform_operator.Cluster.{marking, set_condition}
use data_platform_operator.Access.{reconcile_access_groups}
use data_platform_operator.Warehouse.{
  checked_token, catalog_principals, warehouse_request, provision, warehouse_with,
  reconcile_warehouse,
}

module _ {W C : Type 0} (r : Reconciler W C) (dp : DataPlatform) (store : ObjectStore)
    (oidc : OidcConfig) (fga : OpenfgaConfig) where
  -- LakeKeeper's service, asked with the token
  abbrev pub lakekeeper_with : String → Endpoint
  lakekeeper_with token = record {
    namespace = lakekeeper_namespace_or_default dp.spec.lakekeeper;
    service = "lakekeeper";
    port = 8181;
    bearer = token;
  }

  -- A token was there, and with it the catalog was bootstrapped, the principals were granted their
  -- rights if there are any, and the warehouse was ensured; and the access groups were reconciled.
  abbrev pub Provisioned : CatalogClient W → Type 0
  Provisioned c =
      (token : String) × Ran (checked_token r dp oidc) token
      × Ran (in_world {C = C} (c.bootstrap (lakekeeper_with token))) tt
      × Ran {S = State W C}
          (if is_empty (catalog_principals dp oidc)
            then pure tt
            else in_world (c.ensure_grants (lakekeeper_with token) (catalog_principals dp oidc)))
          tt
      × Ran
          (in_world {C = C}
            (c.ensure_warehouse (lakekeeper_with token) (warehouse_request dp store)))
          tt
      × Ran (reconcile_access_groups r dp oidc fga) tt

  provision-Provisioned :
      (c : CatalogClient W) → Ensures (provision r dp c store oidc fga) (λ u. Provisioned c)
  unfolding provision
  provision-Provisioned c = Ensures-step _ _ λ token asked. Ensures-step _ _ λ u started.
      Ensures-step _ _ λ u granted.
        Ensures-step _ _
          λ u made. Ensures-last _ λ u synced. (token, asked, started, granted, made, synced)

  module _ (laws : ConditionLaws r.condition_api) where
    Provisioned-after :
        (c : CatalogClient W) (message : String) (x : Result (Unit {0})) (start end : State W C)
        → Outcome (λ u s. Provisioned c) (λ e s. Unit {0}) x end
        → r.condition_api.is_status_true
            ((marking r dp "WarehouseReady" "Error" (λ s. (x, end))
                >> set_condition r dp "WarehouseReady" true "Ready" message)
              start).1.status.conditions
            "WarehouseReady"
          ≡ true
        → Provisioned c
    unfolding marking set_condition set_status ◌>>=◌ branch pure raise
    Provisioned-after c message (ok u) start end q h = q
    Provisioned-after c message (err e) start end q h =
        let told = sym (laws.set_lem end.status.conditions _ "WarehouseReady") ∙ h in
        absurd (ground (arith, told))

    warehouse_with-Provisioned :
        (o : Option (CatalogClient W)) (s : State W C)
        → r.condition_api.is_status_true
            (warehouse_with r dp o store oidc fga s).1.status.conditions
            "WarehouseReady"
          ≡ true
        → (c : CatalogClient W) × (o ≡ some c) × Provisioned c
    unfolding warehouse_with marking set_condition set_status ◌>>=◌ branch
    warehouse_with-Provisioned none s h =
        let told = sym (laws.set_lem s.status.conditions _ "WarehouseReady") ∙ h in
        absurd (ground (arith, told))
    warehouse_with-Provisioned (some c) s h =
        let (x, end) = provision r dp c store oidc fga s in
        (
          c,
          refl,
          unfold marking set_condition set_status ◌>>=◌ branch in
              Provisioned-after c _ x s end ((provision-Provisioned c).at s tt) h,
        )

    -- If the condition WarehouseReady is true after the warehouse's component, then a client of the
    -- catalog is configured, and each of these was done without an error: asking for the token,
    -- bootstrapping the catalog, granting the principals their rights if there are any, ensuring the
    -- warehouse, and reconciling the access groups.
    pub reconcile_warehouse-Provisioned :
        (s : State W C)
        → r.condition_api.is_status_true
            (reconcile_warehouse r dp store oidc fga s).1.status.conditions
            "WarehouseReady"
          ≡ true
        → (c : CatalogClient W) × (r.catalog ≡ some c) × Provisioned c
    unfolding reconcile_warehouse
    reconcile_warehouse-Provisioned s = warehouse_with-Provisioned r.catalog s
