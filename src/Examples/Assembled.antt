-- ===== src/Examples/Assembled.antt =====
-- The assembled controller, at a cluster in which every object is ready.
use data_platform_operator.Base.{true, false, some, refl}
use data_platform_operator.Api.Platform.{DataPlatform}
use data_platform_operator.Assembly.{assembled, assembled-ComponentLaws, assembled-AllReady}
use data_platform_operator.Controller.{reconcile}
use data_platform_operator.Controller.Conditions.{AllReady}
use data_platform_operator.Examples.Cluster.{ready_operator}
use data_platform_operator.Examples.Parts.{external}
use data_platform_operator.Examples.World.{condition_laws, fresh}

-- an external object store, and no authentication and no sample data
abbrev plain_platform : DataPlatform
plain_platform = record external {
  spec = record external.spec {
    auth = record external.spec.auth { enabled = some false };
    authz = record external.spec.authz { enabled = some false };
    sample_data = record external.spec.sample_data { enabled = some false };
  };
}

assembled-AllReady_example :
    AllReady ready_operator condition_laws
      (assembled ready_operator)
      (assembled-ComponentLaws ready_operator condition_laws)
      plain_platform
      (reconcile ready_operator (assembled ready_operator) plain_platform fresh).1
unfolding data_platform_operator.Controller.reconcile data_platform_operator.Base.Exec.◌>>=◌
    data_platform_operator.Cluster.marking
    data_platform_operator.Controller.reconcile_lakekeeper_stack
    data_platform_operator.Api.Engines.lakekeeper_is_enabled
    data_platform_operator.Controller.enabled_lakekeeper
    data_platform_operator.Cluster.ensure_namespace data_platform_operator.Base.Exec.if_missing
    data_platform_operator.Reconciler.in_world data_platform_operator.Cluster.set_condition
    data_platform_operator.Reconciler.set_status
    data_platform_operator.Controller.lakekeeper_or_wait
    data_platform_operator.Cluster.condition_true
    data_platform_operator.Controller.warehouse_or_wait
    data_platform_operator.Controller.reconcile_trino_stack
    data_platform_operator.Api.Engines.trino_is_enabled
    data_platform_operator.Controller.reconcile_superset_stack
    data_platform_operator.Api.Defaults.bool_default_true
    data_platform_operator.Api.Engines.superset_is_enabled
    data_platform_operator.Api.Identity.auth_is_embedded
    data_platform_operator.Api.Identity.auth_is_enabled data_platform_operator.Base.Exec.branch
    data_platform_operator.Base.Exec.gets data_platform_operator.Base.Exec.lift
    data_platform_operator.Base.Exec.pure data_platform_operator.Base.Exec.raise
    data_platform_operator.Controller.conclude data_platform_operator.Minio.reconcile_object_store
    data_platform_operator.Minio.external_object_store data_platform_operator.Minio.external_with
    data_platform_operator.Minio.external_from data_platform_operator.Cluster.secret_value
    data_platform_operator.Cluster.get_secret_data data_platform_operator.Oidc.reconcile_auth
    data_platform_operator.Warehouse.reconcile_warehouse
    data_platform_operator.Warehouse.warehouse_with data_platform_operator.Warehouse.provision
    data_platform_operator.Warehouse.checked_token data_platform_operator.Oidc.oidc_access_token
    data_platform_operator.Warehouse.catalog_principals
    data_platform_operator.Access.reconcile_access_groups
    data_platform_operator.SampleData.reconcile_sample_data
    data_platform_operator.SampleData.seed_disabled data_platform_operator.SampleData.finished
    data_platform_operator.Api.Engines.sample_data_is_enabled
    data_platform_operator.Api.Storage.storage_is_embedded data_platform_operator.Base.lookup
    data_platform_operator.Api.Defaults.string_or_default
    data_platform_operator.Api.Storage.s3_credentials_secret_access_key_id_key_or_default
    data_platform_operator.Api.Storage.s3_credentials_secret_secret_access_key_key_or_default
    data_platform_operator.Postgres.reconcile_postgres
    data_platform_operator.Api.Database.postgres_is_embedded
    data_platform_operator.Cluster.Workloads.rollout
    data_platform_operator.Postgres.postgres_rolled_out
    data_platform_operator.Postgres.ensure_postgres_secret
    data_platform_operator.Cluster.Workloads.unless_secret
    data_platform_operator.Postgres.apply_postgres_service data_platform_operator.Cluster.apply
    data_platform_operator.Postgres.apply_postgres_stateful_set
    data_platform_operator.Postgres.storage_quantity
    data_platform_operator.Cluster.stateful_set_ready
    data_platform_operator.Cluster.Workloads.report_ready
    data_platform_operator.Openfga.reconcile_authz
    data_platform_operator.Api.Access.authz_is_enabled
    data_platform_operator.Lakekeeper.reconcile_lakekeeper
    data_platform_operator.Lakekeeper.announce_endpoint
    data_platform_operator.Lakekeeper.lakekeeper_rolled_out
    data_platform_operator.Lakekeeper.ensure_encryption_secret
    data_platform_operator.Lakekeeper.apply_lakekeeper_service
    data_platform_operator.Lakekeeper.apply_lakekeeper_deployment
    data_platform_operator.Cluster.deployment_ready data_platform_operator.Opa.reconcile_opa
    data_platform_operator.Opa.opa_wanted data_platform_operator.Trino.Engine.reconcile_trino
    data_platform_operator.Trino.Engine.announce_endpoint
    data_platform_operator.Trino.Engine.trino_rolled_out
    data_platform_operator.Trino.Engine.trino_shared_secret
    data_platform_operator.Trino.Engine.apply_trino_config_map
    data_platform_operator.Trino.Engine.apply_trino_catalog_secret
    data_platform_operator.Trino.Engine.apply_trino_service
    data_platform_operator.Trino.Engine.apply_trino_coordinator
    data_platform_operator.Trino.Engine.reconcile_trino_workers
    data_platform_operator.Trino.Engine.is_zero data_platform_operator.Trino.Engine.delete_workers
    data_platform_operator.Api.Engines.trino_workers_or_default
    data_platform_operator.Api.Defaults.int32_or_default
    data_platform_operator.Trino.trino_oauth_enabled
assembled-AllReady_example =
    assembled-AllReady ready_operator condition_laws plain_platform fresh refl
