-- ===== src/Assembly.antt =====
-- The controller with its components, as internal/controller/dataplatform_controller.go calls them.
use data_platform_operator.Base.{true, false, ◌≡◌}
use data_platform_operator.Api.Platform.{DataPlatform}
use data_platform_operator.Kube.{ConditionLaws}
use data_platform_operator.Reconciler.{Reconciler, State}
use data_platform_operator.Controller.{reconcile}
use data_platform_operator.Controller.Parts.{Components, ComponentLaws}
use data_platform_operator.Controller.Conditions.{AllReady, reconcile-AllReady}
use data_platform_operator.Postgres.{reconcile_postgres}
use data_platform_operator.Postgres.Ready.{reconcile_postgres-Owns}
use data_platform_operator.Minio.{reconcile_object_store}
use data_platform_operator.Minio.Ready.{reconcile_object_store-Owns, reconcile_object_store-Reports}
use data_platform_operator.Oidc.{reconcile_auth}
use data_platform_operator.Oidc.Auth.{reconcile_auth-Owns, reconcile_auth-Reports}
use data_platform_operator.Keycloak.{reconcile_keycloak}
use data_platform_operator.Keycloak.Ready.{reconcile_keycloak-Owns, reconcile_keycloak-Reports}
use data_platform_operator.Openfga.{reconcile_authz}
use data_platform_operator.Openfga.Ready.{reconcile_authz-Owns, reconcile_authz-Reports}
use data_platform_operator.Lakekeeper.{reconcile_lakekeeper}
use data_platform_operator.Lakekeeper.Ready.{reconcile_lakekeeper-Owns}
use data_platform_operator.Warehouse.{reconcile_warehouse}
use data_platform_operator.Warehouse.Condition.{reconcile_warehouse-Owns}
use data_platform_operator.Opa.{reconcile_opa}
use data_platform_operator.Opa.Frame.{reconcile_opa-Keeps}
use data_platform_operator.Trino.Engine.{reconcile_trino}
use data_platform_operator.Trino.Ready.{reconcile_trino-Owns}
use data_platform_operator.Superset.{reconcile_superset}
use data_platform_operator.Superset.Ready.{reconcile_superset-Owns}
use data_platform_operator.SampleData.{reconcile_sample_data}
use data_platform_operator.SampleData.Ready.{
  reconcile_sample_data-Owns, reconcile_sample_data-SampleDataReady,
}

module _ {W C : Type 0} (r : Reconciler W C) where
  abbrev pub assembled : Components W C
  assembled = record {
    reconcile_postgres = λ dp. reconcile_postgres r dp;
    reconcile_object_store = λ dp. reconcile_object_store r dp;
    reconcile_auth = λ dp. reconcile_auth r dp (reconcile_keycloak r dp);
    reconcile_authz = λ dp. reconcile_authz r dp;
    reconcile_lakekeeper = λ dp conn oidc fga. reconcile_lakekeeper r dp conn oidc fga;
    reconcile_warehouse = λ dp store oidc fga. reconcile_warehouse r dp store oidc fga;
    reconcile_opa = λ dp oidc fga. reconcile_opa r dp oidc fga;
    reconcile_trino = λ dp store oidc fga. reconcile_trino r dp store oidc fga;
    reconcile_superset = λ dp oidc. reconcile_superset r dp oidc;
    reconcile_sample_data = λ dp oidc. reconcile_sample_data r dp oidc;
  }

  module _ (laws : ConditionLaws r.condition_api) where
    pub assembled-ComponentLaws : ComponentLaws r assembled
    assembled-ComponentLaws = record {
      postgres = λ dp. reconcile_postgres-Owns r dp laws;
      object_store = λ dp. reconcile_object_store-Owns r dp laws;
      auth = λ dp.
          reconcile_auth-Owns r laws dp (reconcile_keycloak r dp)
            (reconcile_keycloak-Owns r dp laws);
      authz = λ dp. reconcile_authz-Owns r dp laws;
      lakekeeper = λ dp conn oidc fga. reconcile_lakekeeper-Owns r dp conn oidc fga laws;
      warehouse = λ dp store oidc fga. reconcile_warehouse-Owns r dp laws store oidc fga;
      opa = λ dp oidc fga t b. reconcile_opa-Keeps r dp oidc fga t b;
      trino = λ dp store oidc fga. reconcile_trino-Owns r dp store oidc fga laws;
      superset = λ dp oidc. reconcile_superset-Owns r dp laws oidc;
      sample_data = λ dp oidc. reconcile_sample_data-Owns r dp laws oidc;
      object_store_reports = λ dp. reconcile_object_store-Reports r dp laws;
      auth_reports = λ dp.
          reconcile_auth-Reports r laws dp (reconcile_keycloak r dp)
            (reconcile_keycloak-Reports r dp laws);
      authz_reports = λ dp. reconcile_authz-Reports r dp laws;
      sample_data_reports =
          λ dp oidc s h. reconcile_sample_data-SampleDataReady r dp laws oidc s false h;
    }

    -- With every component as the source has it, whatever the cluster and the catalog answer: a
    -- reconciliation that leaves the platform's Ready condition true leaves true the conditions of
    -- all of its components, and that of authentication unless LakeKeeper is disabled and
    -- authentication is not.
    pub assembled-AllReady :
        (dp : DataPlatform) (s : State W C)
        → r.condition_api.is_status_true (reconcile r assembled dp s).1.status.conditions "Ready"
          ≡ true
        → AllReady r laws assembled assembled-ComponentLaws dp (reconcile r assembled dp s).1
    assembled-AllReady dp s ready =
        reconcile-AllReady r laws assembled assembled-ComponentLaws dp s ready
