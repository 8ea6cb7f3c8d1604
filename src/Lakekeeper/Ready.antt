-- ===== src/Lakekeeper/Ready.antt =====
-- What LakeKeeper's component owes the controller, and what its condition tells.
use data_platform_operator.Base.{Bool, true, ◌≡◌, refl, String}
use data_platform_operator.Base.Exec.{branch, ◌>>=◌}
use data_platform_operator.Base.Exec.Keeps.{Keeps, Keeps-bind}
use data_platform_operator.Api.Platform.{DataPlatform}
use data_platform_operator.Config.{OidcConfig, OpenfgaConfig, PostgresConn}
use data_platform_operator.Kube.{ConditionLaws}
use data_platform_operator.Reconciler.{Reconciler, State, set_status}
use data_platform_operator.Cluster.Frame.{Is, Keeps-set_status}
use data_platform_operator.Base.Exec.Ends.{Ends, Ends_any}
use data_platform_operator.Cluster.Observed.{
  LastSeesDeployment, Ends-last_deployment, rollout_observed,
}
use data_platform_operator.Cluster.Rollout.{frame_rules, Keeps-unless_secret, rollout-Owns}
use data_platform_operator.Controller.Parts.{Owns}
use data_platform_operator.Lakekeeper.{
  namespace, announce_endpoint, ensure_encryption_secret, apply_lakekeeper_service,
  apply_lakekeeper_deployment, lakekeeper_rolled_out, reconcile_lakekeeper,
}

module _ {W C : Type 0} (r : Reconciler W C) (dp : DataPlatform) (conn : PostgresConn)
    (oidc : OidcConfig) (fga : OpenfgaConfig) where
  lakekeeper_rolled_out-Keeps :
      (t : String) (b : Bool) → Keeps (Is r t b) (lakekeeper_rolled_out r dp conn oidc fga)
  unfolding lakekeeper_rolled_out ensure_encryption_secret apply_lakekeeper_service
      apply_lakekeeper_deployment
  lakekeeper_rolled_out-Keeps t b = search (frame_rules, Keeps-unless_secret) depth 12

  lakekeeper_rolled_out_seen :
      Ends
        (λ s. Unit {0})
        (lakekeeper_rolled_out r dp conn oidc fga)
        (λ ready s. ready ≡ true → LastSeesDeployment r (namespace dp) "lakekeeper" s.world)
        (λ e s. Unit {0})
  unfolding lakekeeper_rolled_out
  lakekeeper_rolled_out_seen =
      Ends_any _ _
        λ u. Ends_any _ _ λ u. Ends_any _ _ λ u. Ends-last_deployment r (namespace dp) "lakekeeper"

  module _ (laws : ConditionLaws r.condition_api) where
    pub reconcile_lakekeeper-Owns :
        Owns r "LakekeeperReady" (reconcile_lakekeeper r dp conn oidc fga)
    unfolding reconcile_lakekeeper announce_endpoint
    reconcile_lakekeeper-Owns t b other =
        Keeps-bind _ _ (Keeps-set_status r _ t b (λ st. refl))
          λ u. rollout-Owns r dp laws _ _ _ _ lakekeeper_rolled_out-Keeps t b other

    -- If the condition LakekeeperReady is true after LakeKeeper's component, then the last thing that
    -- the component did was to read LakeKeeper's Deployment, and it had a ready replica.
    pub reconcile_lakekeeper_observed :
        (s : State W C)
        → r.condition_api.is_status_true
            (reconcile_lakekeeper r dp conn oidc fga s).1.status.conditions
            "LakekeeperReady"
          ≡ true
        → LastSeesDeployment r
            (namespace dp)
            "lakekeeper"
            (reconcile_lakekeeper r dp conn oidc fga s).1.world
    unfolding reconcile_lakekeeper announce_endpoint set_status ◌>>=◌ branch
    reconcile_lakekeeper_observed s =
        rollout_observed r dp laws (LastSeesDeployment r (namespace dp) "lakekeeper") _ _ _
          (lakekeeper_rolled_out r dp conn oidc fga) (announce_endpoint r dp s).1
          lakekeeper_rolled_out_seen
