-- ===== src/Superset/Ready.antt =====
-- What Superset's component owes the controller.
use data_platform_operator.Base.{Bool, Option, none, some, String, refl}
use data_platform_operator.Base.Exec.Keeps.{Keeps, Keeps-bind}
use data_platform_operator.Api.Platform.{DataPlatform}
use data_platform_operator.Config.{OidcConfig}
use data_platform_operator.Kube.{ConditionLaws}
use data_platform_operator.Reconciler.{Reconciler}
use data_platform_operator.Cluster.Frame.{Is, Keeps-marking, Keeps-set_condition, Keeps-set_status}
use data_platform_operator.Cluster.Rollout.{frame_rules}
use data_platform_operator.Controller.Parts.{Owns}
use data_platform_operator.Superset.{
  ensure_superset_oidc_secret, ensure_superset_secrets, apply_superset_postgres,
  apply_superset_redis, superset_config, apply_superset_config_map, apply_superset_service,
  apply_superset_deployment, superset_waiting, superset_rolled_out, superset_concluded,
  announce_endpoint, reconcile_superset,
}

module _ {W C : Type 0} (r : Reconciler W C) (dp : DataPlatform) where
  ensure_superset_secrets-Keeps :
      (oidc : OidcConfig) (t : String) (b : Bool)
      → Keeps (Is r t b) (ensure_superset_secrets r dp oidc)
  unfolding ensure_superset_secrets ensure_superset_oidc_secret
  ensure_superset_secrets-Keeps oidc t b = search frame_rules depth 14

  superset_waiting-Keeps : (t : String) (b : Bool) → Keeps (Is r t b) (superset_waiting r dp)
  unfolding superset_waiting
  superset_waiting-Keeps t b = search frame_rules depth 14

  superset_rolled_out-Keeps :
      (oidc : OidcConfig) (t : String) (b : Bool) → Keeps (Is r t b) (superset_rolled_out r dp oidc)
  unfolding superset_rolled_out apply_superset_postgres apply_superset_redis superset_config
      apply_superset_config_map apply_superset_service apply_superset_deployment
  superset_rolled_out-Keeps oidc t b =
      search (frame_rules, ensure_superset_secrets-Keeps, superset_waiting-Keeps) depth 16

  module _ (laws : ConditionLaws r.condition_api) where
    superset_concluded-Owns :
        (x : Option String) → Owns r "SupersetReady" (superset_concluded r dp x)
    unfolding superset_concluded
    superset_concluded-Owns none t b other = Keeps-set_condition r dp laws _ _ _ _ t b other
    superset_concluded-Owns (some w) t b other = Keeps-set_condition r dp laws _ _ _ _ t b other

    pub reconcile_superset-Owns :
        (oidc : OidcConfig) → Owns r "SupersetReady" (reconcile_superset r dp oidc)
    unfolding reconcile_superset announce_endpoint
    reconcile_superset-Owns oidc t b other =
        Keeps-bind _ _
          (Keeps-bind _ _ (Keeps-set_status r _ t b (λ st. refl))
            λ u. Keeps-marking r dp laws _ _ _ t b other (superset_rolled_out-Keeps oidc t b))
          λ x. superset_concluded-Owns x t b other
