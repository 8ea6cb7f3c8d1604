-- ===== src/Api/Engines.antt =====
-- api/v1alpha1: the parts of the specification about LakeKeeper, Trino, Superset and the sample data, with their defaults.
use data_platform_operator.Base.{◌==◌, if◌then◌else◌, List, Option, Bool, ℤ, pos, String}
use data_platform_operator.Api.Constants.{
  default_lakekeeper_image, default_lakekeeper_namespace, default_redis_image,
  default_sample_data_image, default_sample_data_schema, default_superset_image,
  default_superset_namespace, default_trino_image, default_trino_namespace, default_warehouse_name,
}
use data_platform_operator.Api.Defaults.{
  bool_default_true, int32_or_default, string_or_default, ResourceRequirements, EnvVar,
}
use data_platform_operator.Api.Database.{PostgresSpec}

pub record WarehouseSpec : Type 0 where
  pub name : String
  pub key_prefix : String

pub record LakekeeperSpec : Type 0 where
  pub enabled : Option Bool
  pub namespace : String
  pub image : String
  pub replicas : Option ℤ
  pub resources : ResourceRequirements
  pub extra_env : List EnvVar
  pub public_url : String
  pub postgres : PostgresSpec
  pub warehouse : WarehouseSpec

pub record ServiceSpec : Type 0 where
  pub type : String

pub record TrinoCoordinatorSpec : Type 0 where
  pub resources : ResourceRequirements

pub record TrinoSpec : Type 0 where
  pub enabled : Option Bool
  pub namespace : String
  pub image : String
  pub workers : Option ℤ
  pub coordinator : TrinoCoordinatorSpec
  pub extra_config : List (String × String)
  pub extra_catalogs : List (String × String)
  pub extra_env : List EnvVar
  pub public_url : String
  pub resources : ResourceRequirements
  pub service : ServiceSpec

pub record SupersetRedisSpec : Type 0 where
  pub image : String
  pub resources : ResourceRequirements

pub record SupersetSpec : Type 0 where
  pub enabled : Option Bool
  pub namespace : String
  pub image : String
  pub public_url : String
  pub postgres : PostgresSpec
  pub redis : SupersetRedisSpec
  pub resources : ResourceRequirements
  pub extra_env : List EnvVar
  pub service : ServiceSpec

pub record SampleDataSpec : Type 0 where
  pub enabled : Option Bool
  pub schema : String
  pub image : String

unfoldable pub lakekeeper_is_enabled : LakekeeperSpec → Bool
unfolding bool_default_true
lakekeeper_is_enabled s = bool_default_true s.enabled

unfoldable pub lakekeeper_namespace_or_default : LakekeeperSpec → String
unfolding string_or_default
lakekeeper_namespace_or_default s = string_or_default s.namespace default_lakekeeper_namespace

unfoldable pub lakekeeper_image_or_default : LakekeeperSpec → String
unfolding string_or_default
lakekeeper_image_or_default s = string_or_default s.image default_lakekeeper_image

unfoldable pub lakekeeper_replicas_or_default : LakekeeperSpec → ℤ
unfolding int32_or_default
lakekeeper_replicas_or_default s = int32_or_default s.replicas (pos 1)

unfoldable pub warehouse_name_or_default : WarehouseSpec → String
unfolding string_or_default
warehouse_name_or_default s = string_or_default s.name default_warehouse_name

unfoldable pub trino_is_enabled : TrinoSpec → Bool
unfolding bool_default_true
trino_is_enabled s = bool_default_true s.enabled

unfoldable pub trino_namespace_or_default : TrinoSpec → String
unfolding string_or_default
trino_namespace_or_default s = string_or_default s.namespace default_trino_namespace

unfoldable pub trino_image_or_default : TrinoSpec → String
unfolding string_or_default
trino_image_or_default s = string_or_default s.image default_trino_image

unfoldable pub trino_workers_or_default : TrinoSpec → ℤ
unfolding int32_or_default
trino_workers_or_default s = int32_or_default s.workers (pos 0)

unfoldable pub superset_is_enabled : SupersetSpec → Bool
unfolding bool_default_true
superset_is_enabled s = bool_default_true s.enabled

unfoldable pub superset_namespace_or_default : SupersetSpec → String
unfolding string_or_default
superset_namespace_or_default s = string_or_default s.namespace default_superset_namespace

unfoldable pub superset_image_or_default : SupersetSpec → String
unfolding string_or_default
superset_image_or_default s = string_or_default s.image default_superset_image

unfoldable pub superset_redis_image_or_default : SupersetRedisSpec → String
unfolding string_or_default
superset_redis_image_or_default s = string_or_default s.image default_redis_image

unfoldable pub service_type_or_default : ServiceSpec → String
service_type_or_default s = if s.type == "" then "ClusterIP" else s.type

unfoldable pub sample_data_is_enabled : SampleDataSpec → Bool
unfolding bool_default_true
sample_data_is_enabled s = bool_default_true s.enabled

unfoldable pub sample_data_schema_or_default : SampleDataSpec → String
unfolding string_or_default
sample_data_schema_or_default s = string_or_default s.schema default_sample_data_schema

unfoldable pub sample_data_image_or_default : SampleDataSpec → String
unfolding string_or_default
sample_data_image_or_default s = string_or_default s.image default_sample_data_image
