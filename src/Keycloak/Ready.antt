-- ===== src/Keycloak/Ready.antt =====
-- What the embedded identity provider owes the controller.
use data_platform_operator.Base.{Bool, true, false, String, ◌≡◌, refl, ap, ◌∙◌}
use data_platform_operator.Base.Exec.{Error}
use data_platform_operator.Base.Exec.Keeps.{Keeps, Keeps-if, Keeps-bind, Keeps-pure}
use data_platform_operator.Base.Exec.Ends.{Ends, Ends-pure, Ends-bind}
use data_platform_operator.Api.Platform.{DataPlatform}
use data_platform_operator.Config.{OidcConfig}
use data_platform_operator.Kube.{ConditionLaws}
use data_platform_operator.Kube.Objects.{Secret}
use data_platform_operator.Reconciler.{Reconciler, State, set_status}
use data_platform_operator.Cluster.Frame.{
  Is, Keeps-marking, Keeps-set_condition, Keeps-set_status, Keeps-random_hex,
}
use data_platform_operator.Cluster.Rollout.{frame_rules}
use data_platform_operator.Controller.Parts.{Owns, Reports}
use data_platform_operator.Controller.Ready.{
  Ends-set_condition, Ends-marking, claims_ready, claims_ready_lem,
}
use data_platform_operator.Keycloak.Secrets.{
  Filled, fill_random, filled_keys, ensure_oidc_secret_keys, ensure_keycloak_realm_key,
  ensure_keycloak_admin, new_oidc_secret, ensure_keycloak_secrets,
}
use data_platform_operator.Keycloak.{
  read_realm_options, apply_keycloak_realm, apply_keycloak_service, apply_keycloak_deployment,
  embedded_oidc_config, keycloak_rolled_out, keycloak_concluded, reconcile_keycloak,
}

module _ {W C : Type 0} (r : Reconciler W C) where
  fill_random-Keeps :
      (key : String) (x : Filled) (t : String) (b : Bool) → Keeps (Is r t b) (fill_random r key x)
  unfolding fill_random
  fill_random-Keeps key (m, changed) t b =
      Keeps-if _ _ _ (Keeps-pure _) (Keeps-bind _ _ (Keeps-random_hex r _ t b) λ s. Keeps-pure _)

  ensure_oidc_secret_keys-Keeps :
      (oidc : Secret) (t : String) (b : Bool) → Keeps (Is r t b) (ensure_oidc_secret_keys r oidc)
  unfolding ensure_oidc_secret_keys filled_keys
  ensure_oidc_secret_keys-Keeps oidc t b = search (frame_rules, fill_random-Keeps) depth 12

  module _ (dp : DataPlatform) where
    ensure_keycloak_secrets-Keeps :
        (ns t : String) (b : Bool) → Keeps (Is r t b) (ensure_keycloak_secrets r dp ns)
    unfolding ensure_keycloak_secrets ensure_keycloak_realm_key ensure_keycloak_admin
        new_oidc_secret
    ensure_keycloak_secrets-Keeps ns t b =
        search (frame_rules, ensure_oidc_secret_keys-Keeps) depth 14

    apply_keycloak_realm-Keeps :
        (ns t : String) (b : Bool) → Keeps (Is r t b) (apply_keycloak_realm r dp ns)
    unfolding apply_keycloak_realm read_realm_options
    apply_keycloak_realm-Keeps ns t b = search frame_rules depth 14

    embedded_oidc_config-Keeps :
        (ns t : String) (b : Bool) → Keeps (Is r t b) (embedded_oidc_config r dp ns)
    unfolding embedded_oidc_config
    embedded_oidc_config-Keeps ns t b = search frame_rules depth 14

    keycloak_rolled_out-Keeps :
        (ns t : String) (b : Bool) → Keeps (Is r t b) (keycloak_rolled_out r dp ns)
    unfolding keycloak_rolled_out apply_keycloak_service apply_keycloak_deployment
    keycloak_rolled_out-Keeps ns t b =
        search
          (
            frame_rules, ensure_keycloak_secrets-Keeps, apply_keycloak_realm-Keeps,
            embedded_oidc_config-Keeps,
          )
          depth 14

    module _ (laws : ConditionLaws r.condition_api) where
      pub reconcile_keycloak-Owns : Owns r "AuthReady" (reconcile_keycloak r dp)
      unfolding reconcile_keycloak keycloak_concluded
      reconcile_keycloak-Owns t b other =
          Keeps-bind _ _
            (Keeps-bind _ _ (Keeps-set_status r _ t b (λ st. refl))
              λ u. Keeps-marking r dp laws _ _ _ t b other (keycloak_rolled_out-Keeps _ t b))
            λ x.
              Keeps-if x.1 _ _
                (Keeps-bind _ _ (Keeps-set_condition r dp laws _ _ _ _ t b other) λ u. Keeps-pure _)
                (Keeps-bind _ _ (Keeps-set_condition r dp laws _ _ _ _ t b other) λ u. Keeps-pure _)

      ReadyWhere : OidcConfig × Bool → State W C → Type 0
      ReadyWhere a s = Is r "AuthReady" a.1 s

      NotReady : Error → State W C → Type 0
      NotReady e s = Is r "AuthReady" false s

      keycloak_concluded_ends :
          (x : OidcConfig × Bool)
          → Ends (λ s. Unit {0}) (keycloak_concluded r dp x) ReadyWhere NotReady
      unfolding keycloak_concluded ReadyWhere
      keycloak_concluded_ends (cfg, true) =
          Ends-bind _ _ (Ends-set_condition r laws dp "AuthReady" true _ _)
            λ u. Ends-pure _ (λ s h. h)
      keycloak_concluded_ends (cfg, false) =
          Ends-bind _ _ (Ends-set_condition r laws dp "AuthReady" false _ _)
            λ u. Ends-pure _ (λ s h. h)

      reconcile_keycloak_ends : Ends (λ s. Unit {0}) (reconcile_keycloak r dp) ReadyWhere NotReady
      unfolding reconcile_keycloak ReadyWhere NotReady set_status
      reconcile_keycloak_ends =
          Ends-bind _ _
            (Ends-bind {M = λ u s. Unit {0}} _ _ (record { at = λ s p. tt })
              λ u. Ends-marking r laws dp "AuthReady" "Error" _)
            λ x. keycloak_concluded_ends x

      -- After the embedded identity provider's component, whatever the cluster answers, AuthReady is
      -- true exactly if the component ended without an error and reports that it is ready.
      pub reconcile_keycloak-AuthReady :
          (s : State W C)
          → r.condition_api.is_status_true
              (reconcile_keycloak r dp s).1.status.conditions
              "AuthReady"
            ≡ claims_ready (reconcile_keycloak r dp s).0
      unfolding ReadyWhere NotReady
      reconcile_keycloak-AuthReady s =
          claims_ready_lem r laws dp "AuthReady" (reconcile_keycloak r dp) reconcile_keycloak_ends s

      pub reconcile_keycloak-Reports : Reports r "AuthReady" (reconcile_keycloak r dp)
      reconcile_keycloak-Reports s a h = reconcile_keycloak-AuthReady s ∙ ap claims_ready h
