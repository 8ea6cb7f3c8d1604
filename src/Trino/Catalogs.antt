-- ===== src/Trino/Catalogs.antt =====
-- internal/controller/trino.go: the catalogs that Trino is given. A map that the source visits in
-- no fixed order is a list here, in the order of the visit.
use data_platform_operator.Base.{
  Bool, true, false, List, [], ◌∷◌, ◌++◌, String, ◌<>◌, ◌==◌, insert, if◌then◌else◌,
}
use data_platform_operator.Api.Engines.{
  lakekeeper_is_enabled, lakekeeper_namespace_or_default, warehouse_name_or_default,
}
use data_platform_operator.Api.Platform.{DataPlatform}
use data_platform_operator.Config.{OidcConfig, ObjectStore}
use data_platform_operator.Cluster.Names.{cluster_service_url}
use data_platform_operator.Trino.{Properties, render_properties}

abbrev bool_text : Bool → String
bool_text true = "true"
bool_text false = "false"

unfoldable pub catalog_auth : OidcConfig → Properties
catalog_auth oidc =
    if oidc.enabled
    then (("iceberg.rest-catalog.security", "OAUTH2")
        ∷ (
          "iceberg.rest-catalog.oauth2.credential",
          oidc.trino_client_id <> ":" <> oidc.trino_secret,
        )
        ∷ ("iceberg.rest-catalog.oauth2.server-uri", oidc.token_url)
        ∷ [])
      ++ (if oidc.scope == "" then [] else ("iceberg.rest-catalog.oauth2.scope", oidc.scope) ∷ [])
    else []

-- the map that `lakekeeperCatalogProperties` renders
unfoldable pub lakekeeper_catalog_map : DataPlatform → ObjectStore → OidcConfig → Properties
unfolding catalog_auth
lakekeeper_catalog_map dp store oidc =
    (("connector.name", "iceberg")
      ∷ ("iceberg.catalog.type", "rest")
      ∷ (
        "iceberg.rest-catalog.uri",
        cluster_service_url "lakekeeper" (lakekeeper_namespace_or_default dp.spec.lakekeeper) 8181
            <> "/catalog",
      )
      ∷ ("iceberg.rest-catalog.warehouse", warehouse_name_or_default dp.spec.lakekeeper.warehouse)
      ∷ ("iceberg.rest-catalog.nested-namespace-enabled", "true")
      ∷ ("iceberg.unique-table-location", "true")
      ∷ ("fs.native-s3.enabled", "true")
      ∷ ("s3.region", store.region)
      ∷ ("iceberg.rest-catalog.vended-credentials-enabled", bool_text store.sts_enabled)
      ∷ [])
    ++ catalog_auth oidc
    ++ (if store.sts_enabled
        then []
        else ("s3.aws-access-key", store.access_key_id)
          ∷ ("s3.aws-secret-key", store.secret_access_key)
          ∷ [])
    ++ (if store.endpoint == "" then [] else ("s3.endpoint", store.endpoint) ∷ [])
    ++ (if store.path_style_access then ("s3.path-style-access", "true") ∷ [] else [])

unfoldable pub lakekeeper_catalog_properties : DataPlatform → ObjectStore → OidcConfig → String
unfolding lakekeeper_catalog_map
lakekeeper_catalog_properties dp store oidc =
    render_properties (lakekeeper_catalog_map dp store oidc)

-- The catalogs' files, and the parts that are hashed.
abbrev pub Catalogs : Type 0
Catalogs = Properties × List String

-- an entry of `extraCatalogs`, of which the one that the operator owns is ignored
unfoldable pub add_catalogs : Properties → Catalogs → Catalogs
add_catalogs [] c = c
add_catalogs ((name, contents) ∷ extra) (files, parts) =
    let rest = add_catalogs extra (
      if name == "lakekeeper"
      then (files, parts)
      else (insert (name <> ".properties") contents files, parts ++ (name ∷ contents ∷ []))) in
    rest

unfoldable pub own_catalog : DataPlatform → ObjectStore → OidcConfig → Catalogs
own_catalog dp store oidc =
    if lakekeeper_is_enabled dp.spec.lakekeeper
    then (
      ("lakekeeper.properties", lakekeeper_catalog_properties dp store oidc) ∷ [],
      lakekeeper_catalog_properties dp store oidc ∷ [],
    )
    else ([], [])

unfoldable pub trino_catalog_data : DataPlatform → ObjectStore → OidcConfig → Catalogs
unfolding add_catalogs own_catalog
trino_catalog_data dp store oidc =
    add_catalogs dp.spec.trino.extra_catalogs (own_catalog dp store oidc)
