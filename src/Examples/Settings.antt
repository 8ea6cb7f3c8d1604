-- ===== src/Examples/Settings.antt =====
-- The theorems on what the components are configured with.
use data_platform_operator.Base.{
  true, ◌≤◌, some, none, [], ◌∷◌, ◌≡◌, refl, contains, lookup, if◌then◌else◌,
}
use Prim.Native.String.{len}
use data_platform_operator.Api.Engines.{lakekeeper_is_enabled}
use data_platform_operator.Api.Platform.{DataPlatform}
use data_platform_operator.Catalog.Http.{truncate}
use data_platform_operator.Catalog.Truncated.{truncate_bound}
use data_platform_operator.Config.{OidcConfig, OpenfgaConfig, no_oidc, no_openfga, no_object_store}
use data_platform_operator.Lakekeeper.{container_env}
use data_platform_operator.Lakekeeper.Switches.{container_env-last_value}
use data_platform_operator.Cluster.Environment.{last_value}
use data_platform_operator.Cluster.Workloads.{plain}
use data_platform_operator.Postgres.{embedded_conn}
use data_platform_operator.Trino.Catalogs.{trino_catalog_data, lakekeeper_catalog_properties}
use data_platform_operator.Trino.Owned.{lookup-trino_catalog_data, lookup-extra_catalogs}
use data_platform_operator.Examples.Platform.{platform}
use data_platform_operator.Examples.World.{operator}

-- two extra catalogs, one of them under the operator's own name
abbrev with_catalogs : DataPlatform
with_catalogs = record platform {
  spec = record platform.spec {
    trino = record platform.spec.trino {
      extra_catalogs =
          ("lakekeeper", "connector.name=memory") ∷ ("tpch", "connector.name=tpch") ∷ [];
    };
  };
}

lookup-trino_catalog_data_example :
    lookup "lakekeeper.properties" (trino_catalog_data with_catalogs no_object_store no_oidc).0 ≡ (
      if lakekeeper_is_enabled with_catalogs.spec.lakekeeper
      then some (lakekeeper_catalog_properties with_catalogs no_object_store no_oidc)
      else none)
lookup-trino_catalog_data_example = lookup-trino_catalog_data with_catalogs no_object_store no_oidc

lookup-extra_catalogs_example :
    lookup "tpch.properties" (trino_catalog_data with_catalogs no_object_store no_oidc).0
    ≡ some "connector.name=tpch"
unfolding lookup contains
lookup-extra_catalogs_example =
    lookup-extra_catalogs with_catalogs no_object_store no_oidc "tpch" (refl, (refl, tt)) refl

-- an OPA to ask, and a login
abbrev asked : OpenfgaConfig
asked = record no_openfga { enabled = true; opa_url = "http://opa" }

abbrev login : OidcConfig
login = record no_oidc { enabled = true }

-- a platform that opens the catalog by an extra variable
abbrev opened : DataPlatform
opened = record platform {
  spec = record platform.spec {
    lakekeeper = record platform.spec.lakekeeper {
      extra_env = plain "LAKEKEEPER__AUTHZ_BACKEND" "allowall" ∷ [];
    };
  };
}

container_env-last_value_example :
    let env = container_env opened (embedded_conn operator opened) login asked in
    (last_value "LAKEKEEPER__AUTHZ_BACKEND" env ≡ some "allowall")
    × (last_value "LAKEKEEPER__TRUSTED_ENGINES__TRINO__TYPE" env ≡ some "trino")
    × (last_value "LAKEKEEPER__OPENID_PROVIDER_URI" env ≡ some "")
unfolding last_value container_env data_platform_operator.Postgres.embedded_conn
container_env-last_value_example =
    container_env-last_value opened (embedded_conn operator opened) login asked

truncate_bound_example :
    (len (truncate "bad request") ≤ 515)
    × (len "bad request" ≤ 512 → truncate "bad request" ≡ "bad request")
truncate_bound_example = truncate_bound "bad request"
