-- ===== src/Keycloak/Auth.antt =====
-- The identity provider's component with the embedded provider of the source.
use data_platform_operator.Base.{true, ◌≡◌}
use data_platform_operator.Base.Exec.{ok}
use data_platform_operator.Api.Platform.{DataPlatform}
use data_platform_operator.Config.{OidcConfig}
use data_platform_operator.Kube.{ConditionLaws}
use data_platform_operator.Reconciler.{Reconciler, State}
use data_platform_operator.Oidc.{reconcile_auth}
use data_platform_operator.Oidc.Auth.{reconcile_auth-Reports}
use data_platform_operator.Keycloak.{reconcile_keycloak}
use data_platform_operator.Keycloak.Ready.{reconcile_keycloak-Reports}

module _ {W C : Type 0} (r : Reconciler W C) (laws : ConditionLaws r.condition_api)
    (dp : DataPlatform) where
  -- If the identity provider's component returns that it is ready, then AuthReady is true after it:
  -- with authentication disabled, with Keycloak, and with an external issuer.
  pub reconcile_auth_ready :
      (s : State W C) (cfg : OidcConfig)
      → (reconcile_auth r dp (reconcile_keycloak r dp) s).0 ≡ ok (cfg, true)
      → r.condition_api.is_status_true
          (reconcile_auth r dp (reconcile_keycloak r dp) s).1.status.conditions
          "AuthReady"
        ≡ true
  reconcile_auth_ready s cfg h =
      reconcile_auth-Reports r laws dp (reconcile_keycloak r dp)
        (reconcile_keycloak-Reports r dp laws) s cfg h
