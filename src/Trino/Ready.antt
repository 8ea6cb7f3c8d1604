-- ===== src/Trino/Ready.antt =====
-- What Trino's component owes the controller, and when its condition is true.
use data_platform_operator.Base.{Bool, true, not, ◌≡◌, refl, String}
use data_platform_operator.Base.Exec.{branch, ◌>>=◌}
use data_platform_operator.Base.Exec.Keeps.{Keeps, Keeps-bind, Keeps-if, Keeps-pure}
use data_platform_operator.Api.Engines.{
  superset_is_enabled, trino_workers_or_default, trino_namespace_or_default,
}
use data_platform_operator.Api.Platform.{DataPlatform}
use data_platform_operator.Config.{OidcConfig, OpenfgaConfig, ObjectStore}
use data_platform_operator.Kube.{ConditionLaws}
use data_platform_operator.Reconciler.{Reconciler, State, set_status}
use data_platform_operator.Cluster.Frame.{Is, Keeps-set_status, Keeps-apply}
use data_platform_operator.Base.Exec.Ends.{Ends, Ends_any}
use data_platform_operator.Cluster.Observed.{
  LastSeesDeployment, Ends-last_deployment, rollout_observed,
}
use data_platform_operator.Cluster.Rollout.{frame_rules, rollout-Owns}
use data_platform_operator.Controller.Parts.{Owns}
use data_platform_operator.Trino.{trino_oauth_enabled}
use data_platform_operator.Trino.Engine.{
  trino_shared_secret, apply_trino_config_map, apply_trino_catalog_secret, apply_trino_service,
  apply_trino_coordinator, delete_workers, reconcile_trino_workers, trino_rolled_out,
  announce_endpoint, reconcile_trino, is_zero,
}

module _ {W C : Type 0} (r : Reconciler W C) (dp : DataPlatform) where
  trino_shared_secret-Keeps :
      (oidc : OidcConfig) (t : String) (b : Bool) → Keeps (Is r t b) (trino_shared_secret r dp oidc)
  unfolding trino_shared_secret
  trino_shared_secret-Keeps oidc t b =
      Keeps-if
        (not (
          trino_oauth_enabled oidc dp.spec.trino.public_url (superset_is_enabled dp.spec.superset)))
        _ _ (Keeps-pure _) (search frame_rules depth 12)

  reconcile_trino_workers-Keeps :
      (hash t : String) (b : Bool) → Keeps (Is r t b) (reconcile_trino_workers r dp hash)
  unfolding reconcile_trino_workers delete_workers
  reconcile_trino_workers-Keeps hash t b =
      Keeps-if (is_zero (trino_workers_or_default dp.spec.trino)) _ _ (search frame_rules depth 12)
        (Keeps-apply r dp _ _ _ _ t b)

  module _ (store : ObjectStore) (oidc : OidcConfig) (fga : OpenfgaConfig) where
    trino_rolled_out-Keeps :
        (t : String) (b : Bool) → Keeps (Is r t b) (trino_rolled_out r dp store oidc fga)
    unfolding trino_rolled_out apply_trino_config_map apply_trino_catalog_secret apply_trino_service
        apply_trino_coordinator
    trino_rolled_out-Keeps t b =
        search (frame_rules, trino_shared_secret-Keeps, reconcile_trino_workers-Keeps) depth 12

    trino_rolled_out_seen :
        Ends
          (λ s. Unit {0})
          (trino_rolled_out r dp store oidc fga)
          (λ ready s.
            ready ≡ true
            → LastSeesDeployment r (trino_namespace_or_default dp.spec.trino) "trino" s.world)
          (λ e s. Unit {0})
    unfolding trino_rolled_out
    trino_rolled_out_seen = Ends_any _ _ λ shared. Ends_any _ _ λ u. Ends_any _ _ λ u.
        Ends_any _ _ λ u. Ends_any _ _ λ u.
          Ends_any _ _
            λ u. Ends-last_deployment r (trino_namespace_or_default dp.spec.trino) "trino"

    module _ (laws : ConditionLaws r.condition_api) where
      pub reconcile_trino-Owns : Owns r "TrinoReady" (reconcile_trino r dp store oidc fga)
      unfolding reconcile_trino announce_endpoint
      reconcile_trino-Owns t b other =
          Keeps-bind _ _ (Keeps-set_status r _ t b (λ st. refl))
            λ u. rollout-Owns r dp laws _ _ _ _ trino_rolled_out-Keeps t b other

      -- If the condition TrinoReady is true after Trino's component, then the last thing that the
      -- component did was to read the coordinator's Deployment, and it had a ready replica.
      pub reconcile_trino_observed :
          (s : State W C)
          → r.condition_api.is_status_true
              (reconcile_trino r dp store oidc fga s).1.status.conditions
              "TrinoReady"
            ≡ true
          → LastSeesDeployment r
              (trino_namespace_or_default dp.spec.trino)
              "trino"
              (reconcile_trino r dp store oidc fga s).1.world
      unfolding reconcile_trino announce_endpoint set_status ◌>>=◌ branch
      reconcile_trino_observed s =
          rollout_observed r dp laws
            (LastSeesDeployment r (trino_namespace_or_default dp.spec.trino) "trino") _ _ _
            (trino_rolled_out r dp store oidc fga) (announce_endpoint r dp s).1
            trino_rolled_out_seen
