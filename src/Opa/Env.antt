-- ===== src/Opa/Env.antt =====
-- internal/controller/opa.go: what OPA is told of the row filters and the column restrictions.
use data_platform_operator.Base.{not, List, [], ◌∷◌, ◌++◌, String, map, if◌then◌else◌}
use data_platform_operator.Base.Json.{Json, object, list}
use data_platform_operator.Api.Access.{
  RowFilterSpec, ColumnAccessSpec, authz_has_access_policies, authz_has_row_filters,
  authz_has_column_access, row_filter_catalog_or_default, row_filter_subject_relation_or_default,
  row_filter_is_numeric, column_access_catalog_or_default, column_access_mask_or_default,
  column_access_subject_relation_or_default, column_access_object_or_default,
}
use data_platform_operator.Api.Defaults.{EnvVar}
use data_platform_operator.Api.Platform.{DataPlatform}
use data_platform_operator.Config.{OpenfgaConfig}
use data_platform_operator.Cluster.Workloads.{plain, from_secret}

unfoldable pub row_filter_entry : RowFilterSpec → Json
row_filter_entry f = object (
    ("catalog", Json.str (row_filter_catalog_or_default f))
    ∷ ("schema", Json.str f.schema)
    ∷ ("table", Json.str f.table)
    ∷ ("column", Json.str f.column)
    ∷ ("type", Json.str f.openfga.type)
    ∷ ("relation", Json.str (row_filter_subject_relation_or_default f.openfga))
    ∷ ("numeric", Json.bool (row_filter_is_numeric f))
    ∷ [])

unfoldable pub column_access_entry : ColumnAccessSpec → Json
column_access_entry c = object (
    ("catalog", Json.str (column_access_catalog_or_default c))
    ∷ ("schema", Json.str c.schema)
    ∷ ("table", Json.str c.table)
    ∷ ("column", Json.str c.column)
    ∷ ("mask", Json.str (column_access_mask_or_default c))
    ∷ ("type", Json.str c.openfga.type)
    ∷ ("relation", Json.str (column_access_subject_relation_or_default c.openfga))
    ∷ ("object", Json.str (column_access_object_or_default c))
    ∷ [])

-- `json.Marshal` is the parameter `marshal`. It fails on no value of texts and truth values, so
-- that the source's answer to its error, "[]", is never given.
module _ (marshal : Json → String) where
  unfoldable pub row_filters_json : List RowFilterSpec → String
  unfolding row_filter_entry
  row_filters_json filters = marshal (list (map row_filter_entry filters))

  unfoldable pub column_access_json : List ColumnAccessSpec → String
  unfolding column_access_entry
  column_access_json access = marshal (list (map column_access_entry access))

  unfoldable pub opa_access_env : DataPlatform → OpenfgaConfig → List EnvVar
  unfolding row_filters_json column_access_json
  opa_access_env dp fga =
      if not (authz_has_access_policies dp.spec.authz)
      then []
      else (plain "OPENFGA_URL" fga.http_endpoint
          ∷ plain "OPENFGA_STORE_ID" fga.row_filter_store_id
          ∷ from_secret "OPENFGA_API_KEY" "openfga" "apiKey"
          ∷ [])
        ++ (if authz_has_row_filters dp.spec.authz
            then plain "TRINO_ROW_FILTERS" (row_filters_json dp.spec.authz.row_filters) ∷ []
            else [])
        ++ (if authz_has_column_access dp.spec.authz
            then plain "TRINO_COLUMN_ACCESS" (column_access_json dp.spec.authz.column_access) ∷ []
            else [])
