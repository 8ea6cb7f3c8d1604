-- ===== src/Api/Platform.antt =====
-- api/v1alpha1/dataplatform_types.go: the specification of a platform, and its status. The
-- conditions of the status are a type of the Kubernetes library, a parameter.
use data_platform_operator.Base.{ℕ, String}
use data_platform_operator.Api.Identity.{AuthSpec}
use data_platform_operator.Api.Access.{AuthzSpec}
use data_platform_operator.Api.Storage.{StorageSpec}
use data_platform_operator.Api.Engines.{LakekeeperSpec, TrinoSpec, SupersetSpec, SampleDataSpec}

pub record DataPlatformSpec : Type 0 where
  pub storage : StorageSpec
  pub auth : AuthSpec
  pub authz : AuthzSpec
  pub lakekeeper : LakekeeperSpec
  pub trino : TrinoSpec
  pub sample_data : SampleDataSpec
  pub superset : SupersetSpec

pub record DataPlatformStatus (C : Type 0) : Type 0 where
  pub conditions : C
  pub minio_endpoint : String
  pub lakekeeper_endpoint : String
  pub trino_endpoint : String
  pub superset_endpoint : String
  pub keycloak_endpoint : String
  pub openfga_endpoint : String
  pub row_filter_store_id : String

-- What a reconciliation reads of the object: its name, its generation and its specification. The
-- status, which it changes, is part of the state.
pub record DataPlatform : Type 0 where
  pub name : String
  pub generation : ℕ
  pub spec : DataPlatformSpec
