-- ===== src/Examples/Reconciliations.antt =====
-- The theorems on the controller, with components that are ready at once.
use data_platform_operator.Base.{pos, List, Bool, true, false, some, none, String, ◌≡◌, refl, ap}
use data_platform_operator.Base.Exec.{Result, ok, Exec, pure, ◌>>=◌, ◌>>◌}
use data_platform_operator.Base.Exec.Keeps.{Keeps-bind, Keeps-pure}
use data_platform_operator.Config.{no_oidc, no_openfga, no_object_store}
use data_platform_operator.Kube.{Condition}
use data_platform_operator.Reconciler.{State}
use data_platform_operator.Cluster.{set_condition}
use data_platform_operator.Cluster.Frame.{Is, Keeps-set_condition}
use data_platform_operator.Controller.{
  Requeue, while_progressing, access_sync, reconcile, reconcile_request,
}
use data_platform_operator.Controller.Parts.{Components, ComponentLaws, Owns}
use data_platform_operator.Controller.Ready.{settled, reconcile-Ready}
use data_platform_operator.Controller.Conditions.{AllReady, reconcile-AllReady}
use data_platform_operator.Examples.Platform.{platform}
use data_platform_operator.Examples.World.{World, operator, condition_laws, fresh}

abbrev pub announce : {A : Type 0} → String → A → Exec (State World (List Condition)) A
announce t a = set_condition operator platform t true "Ready" "ready" >> pure a

pub announce-Owns : {A : Type 0} (t : String) (a : A) → Owns operator t (announce t a)
unfolding ◌>>=◌
announce-Owns t a t' b other =
    Keeps-bind _ _ (Keeps-set_condition operator platform condition_laws t true _ _ t' b other)
      λ u. Keeps-pure a

abbrev pub ready_components : Components World (List Condition)
ready_components = record {
  reconcile_postgres = λ dp. announce "PostgresReady" (record {
    host = "postgres";
    port = pos 5432;
    database = "catalog";
    username = "u";
    password = "p";
    ssl_mode = "disable";
  });
  reconcile_object_store = λ dp. announce "MinioReady" (no_object_store, true);
  reconcile_auth = λ dp. announce "AuthReady" (no_oidc, true);
  reconcile_authz = λ dp. announce "OpenFGAReady" (no_openfga, true);
  reconcile_lakekeeper = λ dp conn oidc fga. announce "LakekeeperReady" tt;
  reconcile_warehouse = λ dp store oidc fga. announce "WarehouseReady" tt;
  reconcile_opa = λ dp oidc fga. pure true;
  reconcile_trino = λ dp store oidc fga. announce "TrinoReady" tt;
  reconcile_superset = λ dp oidc. announce "SupersetReady" tt;
  reconcile_sample_data = λ dp oidc. announce "SampleDataReady" false;
}

ready_laws : ComponentLaws operator ready_components
unfolding set_condition data_platform_operator.Reconciler.set_status ◌>>=◌
ready_laws = record {
  postgres = λ dp. announce-Owns "PostgresReady" _;
  object_store = λ dp. announce-Owns "MinioReady" _;
  auth = λ dp. announce-Owns "AuthReady" _;
  authz = λ dp. announce-Owns "OpenFGAReady" _;
  lakekeeper = λ dp conn oidc fga. announce-Owns "LakekeeperReady" tt;
  warehouse = λ dp store oidc fga. announce-Owns "WarehouseReady" tt;
  opa = λ dp oidc fga t b. Keeps-pure true;
  trino = λ dp store oidc fga. announce-Owns "TrinoReady" tt;
  superset = λ dp oidc. announce-Owns "SupersetReady" tt;
  sample_data = λ dp oidc. announce-Owns "SampleDataReady" false;
  object_store_reports = λ dp s a h. refl;
  auth_reports = λ dp s a h. refl;
  authz_reports = λ dp s a h. refl;
  sample_data_reports = λ dp oidc s h. refl;
}

reconcile-Ready_example :
    Is operator "Ready"
      (settled (reconcile operator ready_components platform fresh).0)
      (reconcile operator ready_components platform fresh).1
reconcile-Ready_example = reconcile-Ready operator condition_laws platform ready_components fresh

reconcile-AllReady_example :
    AllReady operator condition_laws ready_components ready_laws platform
      (reconcile operator ready_components platform fresh).1
unfolding reconcile ◌>>=◌ data_platform_operator.Cluster.marking
    data_platform_operator.Controller.reconcile_lakekeeper_stack
    data_platform_operator.Api.Engines.lakekeeper_is_enabled
    data_platform_operator.Controller.enabled_lakekeeper
    data_platform_operator.Cluster.ensure_namespace data_platform_operator.Base.Exec.if_missing
    data_platform_operator.Reconciler.in_world set_condition
    data_platform_operator.Reconciler.set_status
    data_platform_operator.Controller.lakekeeper_or_wait
    data_platform_operator.Cluster.condition_true
    data_platform_operator.Controller.warehouse_or_wait
    data_platform_operator.Controller.reconcile_trino_stack
    data_platform_operator.Api.Engines.trino_is_enabled
    data_platform_operator.Controller.reconcile_superset_stack
    data_platform_operator.Api.Defaults.bool_default_true
    data_platform_operator.Api.Engines.superset_is_enabled
    data_platform_operator.Api.Identity.auth_is_embedded
    data_platform_operator.Api.Identity.auth_is_enabled data_platform_operator.Base.Exec.branch
    data_platform_operator.Base.Exec.gets data_platform_operator.Base.Exec.lift pure
    data_platform_operator.Base.Exec.raise data_platform_operator.Controller.conclude
reconcile-AllReady_example =
    reconcile-AllReady operator condition_laws ready_components ready_laws platform fresh refl
