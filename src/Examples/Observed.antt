-- ===== src/Examples/Observed.antt =====
-- The theorems on what has been seen and done where a condition is true, at the cluster where all is
-- ready.
use data_platform_operator.Base.{true, some, ◌≡◌, refl}
use data_platform_operator.Base.Exec.{ok}
use data_platform_operator.Config.{
  OidcConfig, OpenfgaConfig, PostgresConn, no_oidc, no_openfga, no_object_store,
}
use data_platform_operator.Catalog.Types.{CatalogClient}
use data_platform_operator.Cluster.Observed.{LastSeesDeployment, LastSeesStatefulSet}
use data_platform_operator.Lakekeeper.{reconcile_lakekeeper}
use data_platform_operator.Lakekeeper.Ready.{reconcile_lakekeeper_observed}
use data_platform_operator.Postgres.{embedded_conn, reconcile_postgres}
use data_platform_operator.Postgres.Ready.{reconcile_postgres_observed}
use data_platform_operator.Superset.{reconcile_superset}
use data_platform_operator.Superset.Observed.{SeesAll, reconcile_superset_observed}
use data_platform_operator.Trino.Engine.{reconcile_trino}
use data_platform_operator.Trino.Ready.{reconcile_trino_observed}
use data_platform_operator.Warehouse.Provisioned.{Provisioned, reconcile_warehouse-Provisioned}
use data_platform_operator.Examples.Cluster.{ready_operator}
use data_platform_operator.Examples.Platform.{platform}
use data_platform_operator.Examples.World.{World, condition_laws, fresh}

abbrev conn : PostgresConn
conn = embedded_conn ready_operator platform

-- an OPA to ask, and a login
abbrev asked : OpenfgaConfig
asked = record no_openfga { enabled = true; opa_url = "http://opa.openfga.svc:8181" }

abbrev login : OidcConfig
login = record no_oidc { enabled = true }

reconcile_postgres_observed_example :
    LastSeesStatefulSet ready_operator "lakekeeper" "postgres"
      (reconcile_postgres ready_operator platform fresh).1.world
unfolding data_platform_operator.Api.Database.postgres_credentials_secret_password_key_or_default
    data_platform_operator.Api.Database.postgres_credentials_secret_username_key_or_default
    data_platform_operator.Api.Database.postgres_database_or_default
    data_platform_operator.Api.Database.postgres_image_or_default
    data_platform_operator.Api.Database.postgres_is_embedded
    data_platform_operator.Api.Database.postgres_port_or_default
    data_platform_operator.Api.Database.postgres_storage_size_or_default
    data_platform_operator.Api.Defaults.bool_default_true
    data_platform_operator.Api.Defaults.string_or_default
    data_platform_operator.Api.Engines.lakekeeper_namespace_or_default
    data_platform_operator.Base.Exec.branch data_platform_operator.Base.Exec.if_missing
    data_platform_operator.Base.Exec.lift data_platform_operator.Base.Exec.pure
    data_platform_operator.Base.Exec.raise data_platform_operator.Base.Exec.◌>>=◌
    data_platform_operator.Base.insert data_platform_operator.Base.lookup
    data_platform_operator.Cluster.Names.app_name data_platform_operator.Cluster.Names.copy_labels
    data_platform_operator.Cluster.Names.hex_digit data_platform_operator.Cluster.Names.hex_encode
    data_platform_operator.Cluster.Names.labels_for
    data_platform_operator.Cluster.Workloads.ensure_labels
    data_platform_operator.Cluster.Workloads.postgres_container
    data_platform_operator.Cluster.Workloads.report_ready
    data_platform_operator.Cluster.Workloads.rollout
    data_platform_operator.Cluster.Workloads.set_postgres
    data_platform_operator.Cluster.Workloads.set_service
    data_platform_operator.Cluster.Workloads.unless_secret data_platform_operator.Cluster.apply
    data_platform_operator.Cluster.ensure_generated_secret
    data_platform_operator.Cluster.get_secret_data data_platform_operator.Cluster.marking
    data_platform_operator.Cluster.random_hex
    data_platform_operator.Cluster.restricted_container_security
    data_platform_operator.Cluster.restricted_pod_security
    data_platform_operator.Cluster.secret_value data_platform_operator.Cluster.set_condition
    data_platform_operator.Cluster.stateful_set_ready
    data_platform_operator.Postgres.apply_postgres_service
    data_platform_operator.Postgres.apply_postgres_stateful_set
    data_platform_operator.Postgres.credential
    data_platform_operator.Postgres.ensure_postgres_secret
    data_platform_operator.Postgres.external_from data_platform_operator.Postgres.external_postgres
    data_platform_operator.Postgres.external_with data_platform_operator.Postgres.postgres_missing
    data_platform_operator.Postgres.postgres_rolled_out
    data_platform_operator.Postgres.storage_quantity data_platform_operator.Reconciler.in_world
    data_platform_operator.Reconciler.set_status embedded_conn reconcile_postgres
reconcile_postgres_observed_example =
    reconcile_postgres_observed ready_operator platform condition_laws fresh refl refl

reconcile_lakekeeper_observed_example :
    LastSeesDeployment ready_operator "lakekeeper" "lakekeeper"
      (reconcile_lakekeeper ready_operator platform conn no_oidc no_openfga fresh).1.world
unfolding reconcile_lakekeeper data_platform_operator.Base.Exec.◌>>=◌
    data_platform_operator.Lakekeeper.announce_endpoint data_platform_operator.Reconciler.set_status
    data_platform_operator.Cluster.Workloads.rollout data_platform_operator.Cluster.marking
    data_platform_operator.Lakekeeper.lakekeeper_rolled_out
    data_platform_operator.Lakekeeper.ensure_encryption_secret
    data_platform_operator.Cluster.Workloads.unless_secret
    data_platform_operator.Reconciler.in_world
    data_platform_operator.Lakekeeper.apply_lakekeeper_service data_platform_operator.Cluster.apply
    data_platform_operator.Lakekeeper.apply_lakekeeper_deployment
    data_platform_operator.Cluster.deployment_ready
    data_platform_operator.Cluster.Workloads.report_ready
    data_platform_operator.Cluster.set_condition
reconcile_lakekeeper_observed_example =
    reconcile_lakekeeper_observed ready_operator platform conn no_oidc no_openfga condition_laws
      fresh refl

reconcile_trino_observed_example :
    LastSeesDeployment ready_operator "trino" "trino"
      (reconcile_trino ready_operator platform no_object_store no_oidc no_openfga fresh).1.world
unfolding data_platform_operator.Api.Engines.trino_workers_or_default
    data_platform_operator.Base.Exec.if_missing data_platform_operator.Base.Exec.◌>>=◌
    data_platform_operator.Cluster.Workloads.report_ready
    data_platform_operator.Cluster.Workloads.rollout data_platform_operator.Cluster.apply
    data_platform_operator.Cluster.deployment_ready data_platform_operator.Cluster.marking
    data_platform_operator.Cluster.set_condition data_platform_operator.Reconciler.in_world
    data_platform_operator.Reconciler.set_status
    data_platform_operator.Trino.Engine.announce_endpoint
    data_platform_operator.Trino.Engine.apply_trino_catalog_secret
    data_platform_operator.Trino.Engine.apply_trino_config_map
    data_platform_operator.Trino.Engine.apply_trino_coordinator
    data_platform_operator.Trino.Engine.apply_trino_service
    data_platform_operator.Trino.Engine.delete_workers data_platform_operator.Trino.Engine.is_zero
    data_platform_operator.Trino.Engine.reconcile_trino_workers
    data_platform_operator.Trino.Engine.trino_rolled_out
    data_platform_operator.Trino.Engine.trino_shared_secret
    data_platform_operator.Trino.trino_oauth_enabled reconcile_trino
reconcile_trino_observed_example =
    reconcile_trino_observed ready_operator platform no_object_store no_oidc no_openfga
      condition_laws fresh refl

reconcile_superset_observed_example :
    SeesAll ready_operator platform
      (reconcile_superset ready_operator platform no_oidc fresh).1.world
unfolding data_platform_operator.Api.Database.postgres_image_or_default
    data_platform_operator.Api.Database.postgres_storage_size_or_default
    data_platform_operator.Api.Defaults.string_or_default
    data_platform_operator.Api.Engines.service_type_or_default
    data_platform_operator.Api.Engines.superset_image_or_default
    data_platform_operator.Api.Engines.superset_namespace_or_default
    data_platform_operator.Api.Engines.superset_redis_image_or_default
    data_platform_operator.Api.Engines.trino_namespace_or_default
    data_platform_operator.Base.Exec.branch data_platform_operator.Base.Exec.if_missing
    data_platform_operator.Base.Exec.lift data_platform_operator.Base.Exec.pure
    data_platform_operator.Base.Exec.raise data_platform_operator.Base.Exec.◌>>=◌
    data_platform_operator.Base.Text.decimal data_platform_operator.Base.Text.decimal_from
    data_platform_operator.Base.Text.digit data_platform_operator.Base.Text.trim_slashes
    data_platform_operator.Base.insert data_platform_operator.Base.lookup
    data_platform_operator.Cluster.Names.app_name
    data_platform_operator.Cluster.Names.cluster_service_url
    data_platform_operator.Cluster.Names.copy_labels data_platform_operator.Cluster.Names.hex_digit
    data_platform_operator.Cluster.Names.hex_encode data_platform_operator.Cluster.Names.labels_for
    data_platform_operator.Cluster.Workloads.ensure_labels
    data_platform_operator.Cluster.Workloads.postgres_container
    data_platform_operator.Cluster.Workloads.set_deployment
    data_platform_operator.Cluster.Workloads.set_postgres
    data_platform_operator.Cluster.Workloads.set_service data_platform_operator.Cluster.apply
    data_platform_operator.Cluster.deployment_ready
    data_platform_operator.Cluster.ensure_generated_secret
    data_platform_operator.Cluster.get_secret_data data_platform_operator.Cluster.hash_data
    data_platform_operator.Cluster.marking data_platform_operator.Cluster.random_hex
    data_platform_operator.Cluster.restricted_container_security
    data_platform_operator.Cluster.restricted_pod_security
    data_platform_operator.Cluster.secret_value data_platform_operator.Cluster.set_condition
    data_platform_operator.Cluster.stateful_set_ready data_platform_operator.Oidc.oidc_auth_url
    data_platform_operator.Oidc.oidc_jwks_url data_platform_operator.Postgres.storage_quantity
    data_platform_operator.Reconciler.in_world data_platform_operator.Reconciler.set_status
    data_platform_operator.Superset.Pod.redis_container
    data_platform_operator.Superset.Pod.redis_pod data_platform_operator.Superset.Pod.set_superset
    data_platform_operator.Superset.Pod.superset_container
    data_platform_operator.Superset.Pod.superset_env
    data_platform_operator.Superset.Pod.superset_postgres_database
    data_platform_operator.Superset.Python.config_base
    data_platform_operator.Superset.Python.config_database_client
    data_platform_operator.Superset.Python.config_login
    data_platform_operator.Superset.Python.config_mutator
    data_platform_operator.Superset.Python.config_provider
    data_platform_operator.Superset.Python.config_redirect
    data_platform_operator.Superset.Python.superset_api_base
    data_platform_operator.Superset.Python.superset_auth_url
    data_platform_operator.Superset.Python.superset_bootstrap_text
    data_platform_operator.Superset.Python.superset_config_text
    data_platform_operator.Superset.announce_endpoint
    data_platform_operator.Superset.apply_superset_config_map
    data_platform_operator.Superset.apply_superset_deployment
    data_platform_operator.Superset.apply_superset_postgres
    data_platform_operator.Superset.apply_superset_redis
    data_platform_operator.Superset.apply_superset_service
    data_platform_operator.Superset.database_uri
    data_platform_operator.Superset.ensure_superset_oidc_secret
    data_platform_operator.Superset.ensure_superset_secrets
    data_platform_operator.Superset.superset_bootstrap_trino
    data_platform_operator.Superset.superset_concluded
    data_platform_operator.Superset.superset_config
    data_platform_operator.Superset.superset_rolled_out
    data_platform_operator.Superset.superset_waiting data_platform_operator.Superset.trino_uri
    reconcile_superset
reconcile_superset_observed_example =
    reconcile_superset_observed ready_operator platform condition_laws no_oidc fresh refl

reconcile_warehouse-Provisioned_example :
    (c : CatalogClient World) × (ready_operator.catalog ≡ some c)
    × Provisioned ready_operator platform no_object_store no_oidc no_openfga c
unfolding data_platform_operator.Warehouse.reconcile_warehouse
    data_platform_operator.Warehouse.warehouse_with data_platform_operator.Base.Exec.◌>>=◌
    data_platform_operator.Cluster.marking data_platform_operator.Warehouse.provision
    data_platform_operator.Warehouse.checked_token data_platform_operator.Oidc.oidc_access_token
    data_platform_operator.Reconciler.in_world data_platform_operator.Warehouse.catalog_principals
    data_platform_operator.Access.reconcile_access_groups
    data_platform_operator.Cluster.set_condition data_platform_operator.Reconciler.set_status
reconcile_warehouse-Provisioned_example =
    reconcile_warehouse-Provisioned ready_operator platform no_object_store no_oidc no_openfga
      condition_laws fresh refl
