-- ===== src/Opa/Frame.antt =====
-- OPA's component sets no condition.
use data_platform_operator.Base.{Bool, not, String}
use data_platform_operator.Base.Exec.Keeps.{Keeps, Keeps-if, Keeps-pure}
use data_platform_operator.Api.Platform.{DataPlatform}
use data_platform_operator.Config.{OidcConfig, OpenfgaConfig}
use data_platform_operator.Reconciler.{Reconciler}
use data_platform_operator.Cluster.Frame.{Is}
use data_platform_operator.Cluster.Rollout.{frame_rules}
use data_platform_operator.Opa.{
  apply_opa_secret, apply_opa_policies, apply_opa_service, apply_opa_deployment, opa_wanted,
  reconcile_opa,
}

module _ {W C : Type 0} (r : Reconciler W C) (dp : DataPlatform) (oidc : OidcConfig)
    (fga : OpenfgaConfig) where
  pub reconcile_opa-Keeps : (t : String) (b : Bool) → Keeps (Is r t b) (reconcile_opa r dp oidc fga)
  unfolding reconcile_opa apply_opa_secret apply_opa_policies apply_opa_service apply_opa_deployment
  reconcile_opa-Keeps t b =
      Keeps-if (not (opa_wanted r dp oidc fga)) _ _ (Keeps-pure _) (search frame_rules depth 12)
