-- ===== src/Examples/Engines.antt =====
-- The theorems on Trino and the sample data, at that cluster.
use data_platform_operator.Base.{
  true, false, not, none, some, [], ◌∷◌, ◌≡◌, refl, lookup, if◌then◌else◌,
}
use data_platform_operator.Config.{no_oidc}
use data_platform_operator.SampleData.{reconcile_sample_data}
use data_platform_operator.SampleData.Ready.{reconcile_sample_data-SampleDataReady}
use data_platform_operator.Trino.{Properties, trino_config_map}
use data_platform_operator.Trino.Overrides.{last_value, trino_config_map-extra}
use data_platform_operator.Examples.Platform.{platform}
use data_platform_operator.Examples.World.{operator, condition_laws, fresh}

abbrev other_port : Properties
other_port = ("http-server.http.port", "9090") ∷ []

trino_config_map-extra_example :
    lookup "http-server.http.port"
      (trino_config_map true false "trino" other_port no_oidc "" "secret" false)
    ≡ some "9090"
unfolding last_value
trino_config_map-extra_example =
    trino_config_map-extra true false "trino" other_port no_oidc "" "secret" false
      "http-server.http.port" "9090" refl

reconcile_sample_data-SampleDataReady_example :
    operator.condition_api.is_status_true
      (reconcile_sample_data operator platform no_oidc fresh).1.status.conditions
      "SampleDataReady"
    ≡ not true
unfolding reconcile_sample_data data_platform_operator.SampleData.seed_disabled
    data_platform_operator.Api.Engines.trino_is_enabled
    data_platform_operator.Api.Engines.lakekeeper_is_enabled
    data_platform_operator.Api.Engines.sample_data_is_enabled
    data_platform_operator.SampleData.seed_unauthenticated
    data_platform_operator.Api.Identity.auth_is_enabled
    data_platform_operator.Api.Identity.auth_is_embedded data_platform_operator.Base.Exec.◌>>=◌
    data_platform_operator.Cluster.condition_true data_platform_operator.SampleData.waiting
    data_platform_operator.Cluster.set_condition data_platform_operator.Reconciler.set_status
reconcile_sample_data-SampleDataReady_example =
    reconcile_sample_data-SampleDataReady operator platform condition_laws no_oidc fresh true refl
