-- ===== src/Api/Constants.antt =====
-- api/v1alpha1/dataplatform_types.go: the names of the conditions and the default values.
use data_platform_operator.Base.{String}

abbrev pub condition_ready : String
condition_ready = "Ready"

abbrev pub condition_postgres_ready : String
condition_postgres_ready = "PostgresReady"

abbrev pub condition_lakekeeper_ready : String
condition_lakekeeper_ready = "LakekeeperReady"

abbrev pub condition_warehouse_ready : String
condition_warehouse_ready = "WarehouseReady"

abbrev pub condition_trino_ready : String
condition_trino_ready = "TrinoReady"

abbrev pub condition_superset_ready : String
condition_superset_ready = "SupersetReady"

abbrev pub condition_minio_ready : String
condition_minio_ready = "MinioReady"

abbrev pub condition_auth_ready : String
condition_auth_ready = "AuthReady"

abbrev pub condition_openfga_ready : String
condition_openfga_ready = "OpenFGAReady"

abbrev pub condition_sample_data_ready : String
condition_sample_data_ready = "SampleDataReady"

abbrev pub default_lakekeeper_namespace : String
default_lakekeeper_namespace = "lakekeeper"

abbrev pub default_trino_namespace : String
default_trino_namespace = "trino"

abbrev pub default_superset_namespace : String
default_superset_namespace = "superset"

abbrev pub default_minio_namespace : String
default_minio_namespace = "minio"

abbrev pub default_keycloak_namespace : String
default_keycloak_namespace = "keycloak"

abbrev pub default_openfga_namespace : String
default_openfga_namespace = "openfga"

abbrev pub default_lakekeeper_image : String
default_lakekeeper_image = "quay.io/lakekeeper/catalog:v0.13.3"

abbrev pub default_trino_image : String
default_trino_image = "trinodb/trino:476"

abbrev pub default_superset_image : String
default_superset_image = "data-platform-superset:5.0.0"

abbrev pub default_redis_image : String
default_redis_image = "redis:7.4-alpine"

abbrev pub default_postgres_image : String
default_postgres_image = "postgres:17"

abbrev pub default_minio_image : String
default_minio_image = "quay.io/minio/minio:RELEASE.2025-04-22T22-12-26Z"

abbrev pub default_mc_image : String
default_mc_image = "quay.io/minio/mc:RELEASE.2025-04-16T18-13-26Z"

abbrev pub default_keycloak_image : String
default_keycloak_image = "quay.io/keycloak/keycloak:26.3.3"

abbrev pub default_openfga_image : String
default_openfga_image = "openfga/openfga:v1.8.12"

abbrev pub default_opa_image : String
default_opa_image = "openpolicyagent/opa:1.10.1"

abbrev pub default_openfga_store : String
default_openfga_store = "lakekeeper"

abbrev pub default_sample_data_image : String
default_sample_data_image = "python:3.12-alpine"

abbrev pub default_sample_data_schema : String
default_sample_data_schema = "sales"

abbrev pub default_trino_catalog : String
default_trino_catalog = "lakekeeper"

abbrev pub default_row_filter_store : String
default_row_filter_store = "rowfilters"

abbrev pub default_row_filter_relation : String
default_row_filter_relation = "viewer"

abbrev pub default_column_mask : String
default_column_mask = "NULL"

abbrev pub default_warehouse_name : String
default_warehouse_name = "default"

abbrev pub default_postgres_storage : String
default_postgres_storage = "10Gi"

abbrev pub default_minio_storage : String
default_minio_storage = "20Gi"

abbrev pub default_minio_bucket : String
default_minio_bucket = "warehouse"

abbrev pub default_s3_flavor : String
default_s3_flavor = "aws"

abbrev pub default_s3_compat_flavor : String
default_s3_compat_flavor = "s3-compat"

abbrev pub default_s3_compat_region : String
default_s3_compat_region = "us-east-1"

abbrev pub default_oidc_realm : String
default_oidc_realm = "dataplatform"

abbrev pub default_oidc_audience : String
default_oidc_audience = "lakekeeper"

abbrev pub default_oidc_client_id : String
default_oidc_client_id = "lakekeeper"

abbrev pub default_oidc_trino_client_id : String
default_oidc_trino_client_id = "trino"

abbrev pub default_oidc_opa_client_id : String
default_oidc_opa_client_id = "opa"

abbrev pub default_oidc_superset_client_id : String
default_oidc_superset_client_id = "superset"

abbrev pub default_oidc_operator_client : String
default_oidc_operator_client = "operator"

abbrev pub default_oidc_scope : String
default_oidc_scope = "lakekeeper"

abbrev pub default_oidc_admin_user : String
default_oidc_admin_user = "admin"

abbrev pub default_oidc_admin_user_id : String
default_oidc_admin_user_id = "00000000-0000-4000-8000-000000000001"

abbrev pub default_group_platform_admins : String
default_group_platform_admins = "platform-admins"

abbrev pub default_group_data_engineers : String
default_group_data_engineers = "data-engineers"

abbrev pub default_group_analysts : String
default_group_analysts = "analysts"
