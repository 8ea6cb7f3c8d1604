-- ===== src/Api/Access.antt =====
-- api/v1alpha1: the parts of the specification about authorization, row filters and column access, with their defaults.
use data_platform_operator.Base.{
  ◌<>◌, ◌==◌, ◌&&◌, ◌||◌, if◌then◌else◌, List, Option, none, some, false, Bool, String, not,
  is_empty,
}
use data_platform_operator.Api.Constants.{
  default_column_mask, default_opa_image, default_openfga_image, default_openfga_namespace,
  default_openfga_store, default_row_filter_relation, default_row_filter_store,
  default_trino_catalog,
}
use data_platform_operator.Api.Defaults.{bool_default_true, string_or_default, ResourceRequirements}
use data_platform_operator.Api.Database.{PostgresSpec}

pub record RowFilterSubjectSpec : Type 0 where
  pub type : String
  pub relation : String

pub record RowFilterSpec : Type 0 where
  pub catalog : String
  pub schema : String
  pub table : String
  pub column : String
  pub openfga : RowFilterSubjectSpec
  pub numeric : Option Bool

pub record ColumnAccessSubjectSpec : Type 0 where
  pub type : String
  pub relation : String
  pub object : String

pub record ColumnAccessSpec : Type 0 where
  pub catalog : String
  pub schema : String
  pub table : String
  pub column : String
  pub mask : String
  pub openfga : ColumnAccessSubjectSpec

pub record OpenfgaSpec : Type 0 where
  pub namespace : String
  pub image : String
  pub opa_image : String
  pub store : String
  pub row_filter_store : String
  pub postgres : PostgresSpec
  pub resources : ResourceRequirements

pub record AuthzSpec : Type 0 where
  pub enabled : Option Bool
  pub embedded : Option Bool
  pub openfga : OpenfgaSpec
  pub row_filters : List RowFilterSpec
  pub column_access : List ColumnAccessSpec

unfoldable pub authz_is_enabled : AuthzSpec → Bool
unfolding bool_default_true
authz_is_enabled s = bool_default_true s.enabled

unfoldable pub authz_is_embedded : AuthzSpec → Bool
unfolding bool_default_true
authz_is_embedded s = bool_default_true s.embedded

unfoldable pub openfga_namespace_or_default : OpenfgaSpec → String
unfolding string_or_default
openfga_namespace_or_default s = string_or_default s.namespace default_openfga_namespace

unfoldable pub openfga_image_or_default : OpenfgaSpec → String
unfolding string_or_default
openfga_image_or_default s = string_or_default s.image default_openfga_image

unfoldable pub openfga_opa_image_or_default : OpenfgaSpec → String
unfolding string_or_default
openfga_opa_image_or_default s = string_or_default s.opa_image default_opa_image

unfoldable pub openfga_store_or_default : OpenfgaSpec → String
unfolding string_or_default
openfga_store_or_default s = string_or_default s.store default_openfga_store

unfoldable pub openfga_row_filter_store_or_default : OpenfgaSpec → String
unfolding string_or_default
openfga_row_filter_store_or_default s =
    string_or_default s.row_filter_store default_row_filter_store

unfoldable pub authz_has_row_filters : AuthzSpec → Bool
unfolding authz_is_enabled
authz_has_row_filters s = authz_is_enabled s && not (is_empty s.row_filters)

unfoldable pub authz_has_column_access : AuthzSpec → Bool
unfolding authz_is_enabled
authz_has_column_access s = authz_is_enabled s && not (is_empty s.column_access)

unfoldable pub authz_has_access_policies : AuthzSpec → Bool
unfolding authz_has_row_filters authz_has_column_access
authz_has_access_policies s = authz_has_row_filters s || authz_has_column_access s

unfoldable pub row_filter_catalog_or_default : RowFilterSpec → String
unfolding string_or_default
row_filter_catalog_or_default s = string_or_default s.catalog default_trino_catalog

unfoldable pub row_filter_is_numeric : RowFilterSpec → Bool
row_filter_is_numeric s = elim s.numeric [ none ↦ false | some v ↦ v ]

unfoldable pub row_filter_subject_relation_or_default : RowFilterSubjectSpec → String
unfolding string_or_default
row_filter_subject_relation_or_default s = string_or_default s.relation default_row_filter_relation

unfoldable pub column_access_catalog_or_default : ColumnAccessSpec → String
unfolding string_or_default
column_access_catalog_or_default s = string_or_default s.catalog default_trino_catalog

unfoldable pub column_access_mask_or_default : ColumnAccessSpec → String
unfolding string_or_default
column_access_mask_or_default s = string_or_default s.mask default_column_mask

unfoldable pub column_access_subject_relation_or_default : ColumnAccessSubjectSpec → String
unfolding string_or_default
column_access_subject_relation_or_default s =
    string_or_default s.relation default_row_filter_relation

unfoldable pub column_access_object_or_default : ColumnAccessSpec → String
unfolding column_access_catalog_or_default
column_access_object_or_default s =
    if s.openfga.object == ""
    then column_access_catalog_or_default s <> "." <> s.schema <> "." <> s.table <> "." <> s.column
    else s.openfga.object
