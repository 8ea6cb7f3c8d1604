-- ===== src/Controller/Parts.antt =====
-- The components that internal/controller/dataplatform_controller.go drives, as the controller
-- sees them: one operation for each, and the conditions that it may set.
use data_platform_operator.Base.{Bool, true, false, String, ◌==◌, ◌≡◌}
use data_platform_operator.Base.Exec.{Exec, ok}
use data_platform_operator.Base.Exec.Keeps.{Keeps}
use data_platform_operator.Api.Platform.{DataPlatform}
use data_platform_operator.Reconciler.{Reconciler, State}
use data_platform_operator.Config.{OidcConfig, OpenfgaConfig, ObjectStore, PostgresConn}
use data_platform_operator.Cluster.Frame.{Is}

-- `reconcilePostgres` and so on. The Boolean of a result is the readiness that the source returns
-- with it, and for the sample data whether it is still progressing.
pub record Components (W C : Type 0) : Type 0 where
  pub reconcile_postgres : DataPlatform → Exec (State W C) PostgresConn
  pub reconcile_object_store : DataPlatform → Exec (State W C) (ObjectStore × Bool)
  pub reconcile_auth : DataPlatform → Exec (State W C) (OidcConfig × Bool)
  pub reconcile_authz : DataPlatform → Exec (State W C) (OpenfgaConfig × Bool)
  pub reconcile_lakekeeper :
      DataPlatform → PostgresConn → OidcConfig → OpenfgaConfig → Exec (State W C) (Unit {0})
  pub reconcile_warehouse :
      DataPlatform → ObjectStore → OidcConfig → OpenfgaConfig → Exec (State W C) (Unit {0})
  pub reconcile_opa : DataPlatform → OidcConfig → OpenfgaConfig → Exec (State W C) Bool
  pub reconcile_trino :
      DataPlatform → ObjectStore → OidcConfig → OpenfgaConfig → Exec (State W C) (Unit {0})
  pub reconcile_superset : DataPlatform → OidcConfig → Exec (State W C) (Unit {0})
  pub reconcile_sample_data : DataPlatform → OidcConfig → Exec (State W C) Bool

module _ {W C : Type 0} (r : Reconciler W C) where
  -- `m` leaves every condition but `own` as it was.
  abbrev pub Owns : {A : Type 0} → String → Exec (State W C) A → Type 0
  Owns own m = (t : String) (b : Bool) → (own == t) ≡ false → Keeps (Is r t b) m

  -- Where `m` reports that it is ready, its condition is true.
  abbrev pub Reports : {A : Type 0} → String → Exec (State W C) (A × Bool) → Type 0
  Reports {A} own m = (s : State W C) (a : A) → (m s).0 ≡ ok (a, true) → Is r own true (m s).1

  -- What each component owes the controller.
  pub record ComponentLaws (k : Components W C) : Type 0 where
    pub postgres : (dp : DataPlatform) → Owns "PostgresReady" (k.reconcile_postgres dp)
    pub object_store : (dp : DataPlatform) → Owns "MinioReady" (k.reconcile_object_store dp)
    pub auth : (dp : DataPlatform) → Owns "AuthReady" (k.reconcile_auth dp)
    pub authz : (dp : DataPlatform) → Owns "OpenFGAReady" (k.reconcile_authz dp)
    pub lakekeeper :
        (dp : DataPlatform) (conn : PostgresConn) (oidc : OidcConfig) (fga : OpenfgaConfig)
        → Owns "LakekeeperReady" (k.reconcile_lakekeeper dp conn oidc fga)
    pub warehouse :
        (dp : DataPlatform) (store : ObjectStore) (oidc : OidcConfig) (fga : OpenfgaConfig)
        → Owns "WarehouseReady" (k.reconcile_warehouse dp store oidc fga)
    pub opa :
        (dp : DataPlatform) (oidc : OidcConfig) (fga : OpenfgaConfig) (t : String) (b : Bool)
        → Keeps (Is r t b) (k.reconcile_opa dp oidc fga)
    pub trino :
        (dp : DataPlatform) (store : ObjectStore) (oidc : OidcConfig) (fga : OpenfgaConfig)
        → Owns "TrinoReady" (k.reconcile_trino dp store oidc fga)
    pub superset :
        (dp : DataPlatform) (oidc : OidcConfig)
        → Owns "SupersetReady" (k.reconcile_superset dp oidc)
    pub sample_data :
        (dp : DataPlatform) (oidc : OidcConfig)
        → Owns "SampleDataReady" (k.reconcile_sample_data dp oidc)
    pub object_store_reports :
        (dp : DataPlatform) → Reports "MinioReady" (k.reconcile_object_store dp)
    pub auth_reports : (dp : DataPlatform) → Reports "AuthReady" (k.reconcile_auth dp)
    pub authz_reports : (dp : DataPlatform) → Reports "OpenFGAReady" (k.reconcile_authz dp)
    pub sample_data_reports :
        (dp : DataPlatform) (oidc : OidcConfig) (s : State W C)
        → (k.reconcile_sample_data dp oidc s).0 ≡ ok false
        → Is r "SampleDataReady" true (k.reconcile_sample_data dp oidc s).1
