-- ===== src/Oidc/Auth.antt =====
-- What the identity provider's component owes the controller, and what an external issuer gives.
use data_platform_operator.Base.{Bool, true, false, Option, none, some, String, ◌==◌, ◌≡◌, refl}
use data_platform_operator.Base.Exec.{Exec}
use data_platform_operator.Base.Exec.Keeps.{Keeps-pure, Keeps-raise, Keeps-bind, Keeps-if}
use data_platform_operator.Base.Exec.Ends.{Ends_of, Ends-ok, Ends-pure, Ends-if, Ends-bind}
use data_platform_operator.Api.Platform.{DataPlatform}
use data_platform_operator.Api.Identity.{OidcSpec, OidcCredentialsSecretRef}
use data_platform_operator.Config.{OidcConfig}
use data_platform_operator.Kube.{ConditionLaws}
use data_platform_operator.Reconciler.{Reconciler, State}
use data_platform_operator.Cluster.Frame.{
  Is, Keeps-marking, Keeps-get_secret_data, Keeps-set_condition,
}
use data_platform_operator.Controller.Parts.{Owns, Reports}
use data_platform_operator.Controller.Ready.{Ends-set_condition}
use data_platform_operator.Controller.Known.{AnythingAfter}
use data_platform_operator.Oidc.{
  auth_secret, auth_secret_or, auth_missing, external_from, external_with, external_of,
  external_oidc, reconcile_auth,
}

module _ {W C : Type 0} (r : Reconciler W C) (laws : ConditionLaws r.condition_api)
    (dp : DataPlatform) where
  auth_secret-Owns :
      (ref : OidcCredentialsSecretRef) (key : String)
      → Owns r "AuthReady" (auth_secret r dp ref key)
  unfolding auth_secret
  auth_secret-Owns ref key t b other =
      Keeps-marking r dp laws "AuthReady" "Error" _ t b other (Keeps-get_secret_data r _ _ key t b)

  auth_secret_or-Owns :
      (ref : OidcCredentialsSecretRef) (key otherwise : String)
      → Owns r "AuthReady" (auth_secret_or r dp ref key otherwise)
  unfolding auth_secret_or
  auth_secret_or-Owns ref key otherwise t b other =
      Keeps-if _ _ _ (Keeps-pure otherwise) (auth_secret-Owns ref key t b other)

  auth_missing-Owns : (message : String) → Owns r "AuthReady" (auth_missing r dp message)
  unfolding auth_missing
  auth_missing-Owns message t b other =
      Keeps-bind _ _ (Keeps-set_condition r dp laws "AuthReady" false "Missing" message t b other)
        λ u. Keeps-raise _

  external_from-Owns :
      (spec : OidcSpec) (ref : OidcCredentialsSecretRef)
      → Owns r "AuthReady" (external_from r dp spec ref)
  unfolding external_from
  external_from-Owns spec ref t b other =
      Keeps-bind _ _ (auth_secret_or-Owns ref _ _ t b other) λ client_id.
        Keeps-bind _ _ (auth_secret-Owns ref _ t b other) λ client_secret.
          Keeps-bind _ _ (auth_secret_or-Owns ref _ _ t b other) λ trino_id.
            Keeps-bind _ _ (auth_secret_or-Owns ref _ _ t b other) λ trino_secret.
              Keeps-bind _ _ (auth_secret_or-Owns ref _ _ t b other) λ superset_id.
                Keeps-bind _ _ (auth_secret_or-Owns ref _ _ t b other)
                  λ superset_secret. Keeps-pure _

  external_with-Owns :
      (spec : OidcSpec) (ref : Option OidcCredentialsSecretRef)
      → Owns r "AuthReady" (external_with r dp spec ref)
  unfolding external_with
  external_with-Owns spec none t b other = auth_missing-Owns _ t b other
  external_with-Owns spec (some ref) t b other = external_from-Owns spec ref t b other

  external_of-Owns : (spec : Option OidcSpec) → Owns r "AuthReady" (external_of r dp spec)
  unfolding external_of
  external_of-Owns none t b other = auth_missing-Owns _ t b other
  external_of-Owns (some spec) t b other =
      Keeps-if _ _ _ (auth_missing-Owns _ t b other) (external_with-Owns spec _ t b other)

  external_oidc-Owns : Owns r "AuthReady" (external_oidc r dp)
  unfolding external_oidc
  external_oidc-Owns = external_of-Owns dp.spec.auth.oidc

  pub reconcile_auth-Owns :
      (keycloak : Exec (State W C) (OidcConfig × Bool))
      → Owns r "AuthReady" keycloak
      → Owns r "AuthReady" (reconcile_auth r dp keycloak)
  unfolding reconcile_auth
  reconcile_auth-Owns keycloak owns t b other =
      Keeps-if _ _ _
        (Keeps-bind _ _ (Keeps-set_condition r dp laws _ _ _ _ t b other) λ u. Keeps-pure _)
        (Keeps-if _ _ _ (owns t b other) (
          Keeps-bind _ _ (external_oidc-Owns t b other) λ cfg.
            Keeps-bind _ _ (Keeps-set_condition r dp laws _ _ _ _ t b other) λ u. Keeps-pure _))

  pub reconcile_auth-Reports :
      (keycloak : Exec (State W C) (OidcConfig × Bool))
      → Reports r "AuthReady" keycloak
      → Reports r "AuthReady" (reconcile_auth r dp keycloak)
  unfolding reconcile_auth
  reconcile_auth-Reports keycloak reports s a h =
      Ends-ok {P = λ s. Unit {0}} {G = λ a s. a.1 ≡ true → Is r "AuthReady" true s}
        {B = AnythingAfter} _
        (Ends-if _ _ _
          (Ends-bind _ _ (Ends-set_condition r laws dp "AuthReady" true _ _)
            λ u. Ends-pure _ (λ s h q. h))
          (Ends-if _ _ _ (Ends_of keycloak (λ s a p h q. reports s a.0 (rw q at h)) (λ e s. tt)) (
            Ends-bind {M = λ c s. Unit {0}} _ _ (Ends_of _ (λ s a p h. tt) (λ e s. tt)) λ cfg.
              Ends-bind _ _ (Ends-set_condition r laws dp "AuthReady" true _ _)
                λ u. Ends-pure _ (λ s h q. h))))
        s tt h refl

  -- If the embedded provider touches only the condition AuthReady, then every other condition is
  -- true after the identity provider's component where it was, and is not where it was not: with
  -- authentication disabled, embedded or external, and whatever Secrets or fields are missing.
  pub reconcile_auth_frame :
      (keycloak : Exec (State W C) (OidcConfig × Bool)) (t : String) (b : Bool) (s : State W C)
      → Owns r "AuthReady" keycloak
      → ("AuthReady" == t) ≡ false
      → r.condition_api.is_status_true s.status.conditions t ≡ b
      → r.condition_api.is_status_true (reconcile_auth r dp keycloak s).1.status.conditions t ≡ b
  reconcile_auth_frame keycloak t b s owns other h =
      (reconcile_auth-Owns keycloak owns t b other).at s h
