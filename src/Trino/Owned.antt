-- ===== src/Trino/Owned.antt =====
-- The catalog that the operator owns.
use data_platform_operator.Base.{
  none, some, List, [], ◌∷◌, ◌++◌, String, ◌<>◌, ◌≡◌, refl, ◌==◌, false, lookup, contains, keys,
  insert, lookup-insert, arith, if◌then◌else◌,
}
use text.Mathlib.TextEquality.{eq_iff}
use data_platform_operator.Base.Maps.{contains-keys}
use data_platform_operator.Base.Subset.{Distinct}
use data_platform_operator.Base.Strings.{append-eq_right}
use data_platform_operator.Api.Engines.{lakekeeper_is_enabled}
use data_platform_operator.Api.Platform.{DataPlatform}
use data_platform_operator.Config.{OidcConfig, ObjectStore}
use data_platform_operator.Trino.{Properties}
use data_platform_operator.Trino.Catalogs.{
  add_catalogs, own_catalog, trino_catalog_data, lakekeeper_catalog_properties,
}

lookup-add_catalogs :
    (extra files : Properties) (parts : List String)
    → lookup "lakekeeper.properties" (add_catalogs extra (files, parts)).0
      ≡ lookup "lakekeeper.properties" files
unfolding add_catalogs
lookup-add_catalogs [] files parts = refl
lookup-add_catalogs ((name, contents) ∷ extra) files parts = ground (
  arith,
  lookup-add_catalogs extra files parts,
  lookup-add_catalogs extra (insert (name <> ".properties") contents files)
      (parts ++ (name ∷ contents ∷ [])),
  lookup-insert (name <> ".properties") "lakekeeper.properties" contents files,
  append-eq_right name "lakekeeper" ".properties",
)

-- No extra catalog of the specification, whatever it is called, replaces the catalog of LakeKeeper:
-- its file is the operator's where LakeKeeper is enabled, and there is none where it is not.
pub lookup-trino_catalog_data :
    (dp : DataPlatform) (store : ObjectStore) (oidc : OidcConfig)
    → lookup "lakekeeper.properties" (trino_catalog_data dp store oidc).0 ≡ (
        if lakekeeper_is_enabled dp.spec.lakekeeper
        then some (lakekeeper_catalog_properties dp store oidc)
        else none)
unfolding trino_catalog_data own_catalog lookup
lookup-trino_catalog_data dp store oidc = ground (
  arith,
  lookup-add_catalogs dp.spec.trino.extra_catalogs [] [],
  lookup-add_catalogs dp.spec.trino.extra_catalogs
      (("lakekeeper.properties", lakekeeper_catalog_properties dp store oidc) ∷ [])
      (lakekeeper_catalog_properties dp store oidc ∷ []),
)

lookup-add_catalogs_extra :
    (name : String) (extra files : Properties) (parts : List String)
    → Distinct (keys extra)
    → (name == "lakekeeper") ≡ false
    → lookup (name <> ".properties") (add_catalogs extra (files, parts)).0 ≡ (
        if contains (keys extra) name
        then lookup name extra
        else lookup (name <> ".properties") files)
unfolding add_catalogs lookup contains
lookup-add_catalogs_extra name [] files parts h other = refl
lookup-add_catalogs_extra name ((key, contents) ∷ extra) files parts h other = ground (
  arith,
  lookup-add_catalogs_extra name extra files parts h.1 other,
  lookup-add_catalogs_extra name extra (insert (key <> ".properties") contents files)
      (parts ++ (key ∷ contents ∷ [])) h.1 other,
  lookup-insert (key <> ".properties") (name <> ".properties") contents files,
  append-eq_right key name ".properties",
  contains-keys name extra,
  eq_iff key name,
  h.0,
  other,
)

-- If no name is twice among the extra catalogs, then under every name but the one that the operator
-- owns Trino gets exactly the file of the extra catalog with that name, and none where there is none.
pub lookup-extra_catalogs :
    (dp : DataPlatform) (store : ObjectStore) (oidc : OidcConfig) (name : String)
    → Distinct (keys dp.spec.trino.extra_catalogs)
    → (name == "lakekeeper") ≡ false
    → lookup (name <> ".properties") (trino_catalog_data dp store oidc).0
      ≡ lookup name dp.spec.trino.extra_catalogs
unfolding trino_catalog_data own_catalog lookup
lookup-extra_catalogs dp store oidc name distinct other = ground (
  arith,
  lookup-add_catalogs_extra name dp.spec.trino.extra_catalogs [] [] distinct other,
  lookup-add_catalogs_extra name dp.spec.trino.extra_catalogs
      (("lakekeeper.properties", lakekeeper_catalog_properties dp store oidc) ∷ [])
      (lakekeeper_catalog_properties dp store oidc ∷ []) distinct other,
  contains-keys name dp.spec.trino.extra_catalogs,
  append-eq_right "lakekeeper" name ".properties",
  eq_iff "lakekeeper" name,
  eq_iff name "lakekeeper",
)
