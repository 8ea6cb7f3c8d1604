-- ===== src/Openfga/Ready.antt =====
-- What the authorization component owes the controller.
use data_platform_operator.Base.{
  Bool, true, false, not, none, some, Option, String, ◌≡◌, refl, ap, ◌∙◌,
}
use data_platform_operator.Base.Exec.{Error}
use data_platform_operator.Base.Exec.Keeps.{Keeps, Keeps-if, Keeps-bind, Keeps-pure, Keeps-raise}
use data_platform_operator.Base.Exec.Ends.{Ends, Ends-pure, Ends-raise, Ends-if, Ends-bind}
use data_platform_operator.Api.Access.{authz_is_enabled, authz_is_embedded}
use data_platform_operator.Api.Platform.{DataPlatform}
use data_platform_operator.Config.{OpenfgaConfig}
use data_platform_operator.Kube.{ConditionLaws}
use data_platform_operator.Reconciler.{Reconciler, State, set_status}
use data_platform_operator.Cluster.Frame.{
  Is, Keeps-marking, Keeps-set_condition, Keeps-set_status, Keeps-in_world,
}
use data_platform_operator.Cluster.Rollout.{frame_rules}
use data_platform_operator.Controller.Parts.{Owns, Reports}
use data_platform_operator.Controller.Ready.{
  Ends-set_condition, Ends-marking, claims_ready, claims_ready_lem,
}
use data_platform_operator.Warehouse.Condition.{with_catalog-Quiet}
use data_platform_operator.Openfga.{
  ensure_openfga_secrets, apply_openfga_postgres, apply_openfga_service, apply_openfga_deployment,
  reconcile_access_store, openfga_server, openfga_rolled_out, openfga_concluded, reconcile_openfga,
  external_openfga, reconcile_authz, access_store_unused,
}

module _ {W C : Type 0} (r : Reconciler W C) (dp : DataPlatform) where
  reconcile_access_store-Keeps :
      (ns key t : String) (b : Bool) → Keeps (Is r t b) (reconcile_access_store r dp ns key)
  unfolding reconcile_access_store
  reconcile_access_store-Keeps ns key t b =
      Keeps-if (access_store_unused r dp) _ _
        (Keeps-bind _ _ (Keeps-set_status r _ t b (λ st. refl)) λ u. Keeps-pure _)
        (with_catalog-Quiet r _
          (λ c t b.
            Keeps-bind _ _ (Keeps-in_world r _ t b)
              λ id. Keeps-bind _ _ (Keeps-set_status r _ t b (λ st. refl)) λ u. Keeps-pure _)
          t b)

  openfga_server-Keeps : (ns t : String) (b : Bool) → Keeps (Is r t b) (openfga_server r dp ns)
  unfolding openfga_server apply_openfga_deployment
  openfga_server-Keeps ns t b = search (frame_rules, reconcile_access_store-Keeps) depth 12

  openfga_rolled_out-Keeps :
      (ns t : String) (b : Bool) → Keeps (Is r t b) (openfga_rolled_out r dp ns)
  unfolding openfga_rolled_out ensure_openfga_secrets apply_openfga_postgres apply_openfga_service
  openfga_rolled_out-Keeps ns t b = search (frame_rules, openfga_server-Keeps) depth 12

  module _ (laws : ConditionLaws r.condition_api) where
    openfga_concluded-Owns :
        (x : OpenfgaConfig × Option String) → Owns r "OpenFGAReady" (openfga_concluded r dp x)
    unfolding openfga_concluded
    openfga_concluded-Owns (cfg, none) t b other =
        Keeps-bind _ _ (Keeps-set_condition r dp laws _ _ _ _ t b other) λ u. Keeps-pure _
    openfga_concluded-Owns (cfg, some waiting) t b other =
        Keeps-bind _ _ (Keeps-set_condition r dp laws _ _ _ _ t b other) λ u. Keeps-pure _

    pub reconcile_authz-Owns : Owns r "OpenFGAReady" (reconcile_authz r dp)
    unfolding reconcile_authz reconcile_openfga external_openfga
    reconcile_authz-Owns t b other =
        Keeps-if (not (authz_is_enabled dp.spec.authz)) _ _
          (Keeps-bind _ _ (Keeps-set_condition r dp laws _ _ _ _ t b other) λ u. Keeps-pure _)
          (Keeps-if (not (authz_is_embedded dp.spec.authz)) _ _
            (Keeps-bind _ _ (Keeps-set_condition r dp laws _ _ _ _ t b other) λ u. Keeps-raise _)
            (Keeps-bind _ _
              (Keeps-bind _ _ (Keeps-set_status r _ t b (λ st. refl))
                λ u. Keeps-marking r dp laws _ _ _ t b other (openfga_rolled_out-Keeps _ t b))
              λ x. openfga_concluded-Owns x t b other))

    ReadyWhere : OpenfgaConfig × Bool → State W C → Type 0
    ReadyWhere a s = Is r "OpenFGAReady" a.1 s

    NotReady : Error → State W C → Type 0
    NotReady e s = Is r "OpenFGAReady" false s

    openfga_concluded_ends :
        (x : OpenfgaConfig × Option String)
        → Ends (λ s. Unit {0}) (openfga_concluded r dp x) ReadyWhere NotReady
    unfolding openfga_concluded ReadyWhere
    openfga_concluded_ends (cfg, none) =
        Ends-bind _ _ (Ends-set_condition r laws dp "OpenFGAReady" true _ _)
          λ u. Ends-pure _ (λ s h. h)
    openfga_concluded_ends (cfg, some waiting) =
        Ends-bind _ _ (Ends-set_condition r laws dp "OpenFGAReady" false _ _)
          λ u. Ends-pure _ (λ s h. h)

    reconcile_authz_ends : Ends (λ s. Unit {0}) (reconcile_authz r dp) ReadyWhere NotReady
    unfolding reconcile_authz reconcile_openfga external_openfga ReadyWhere NotReady set_status
    reconcile_authz_ends =
        Ends-if (not (authz_is_enabled dp.spec.authz)) _ _
          (Ends-bind _ _ (Ends-set_condition r laws dp "OpenFGAReady" true _ _)
            λ u. Ends-pure _ (λ s h. h))
          (Ends-if (not (authz_is_embedded dp.spec.authz)) _ _
            (Ends-bind _ _ (Ends-set_condition r laws dp "OpenFGAReady" false _ _)
              λ u. Ends-raise _ (λ s h. h))
            (Ends-bind _ _
              (Ends-bind {M = λ u s. Unit {0}} _ _ (record { at = λ s p. tt })
                λ u. Ends-marking r laws dp "OpenFGAReady" "Error" _)
              λ x. openfga_concluded_ends x))

    -- After the authorization component, whatever the cluster answers, OpenFGAReady is true exactly
    -- if the component ended without an error and reports that it is ready.
    pub reconcile_authz-OpenFGAReady :
        (s : State W C)
        → r.condition_api.is_status_true (reconcile_authz r dp s).1.status.conditions "OpenFGAReady"
          ≡ claims_ready (reconcile_authz r dp s).0
    unfolding ReadyWhere NotReady
    reconcile_authz-OpenFGAReady s =
        claims_ready_lem r laws dp "OpenFGAReady" (reconcile_authz r dp) reconcile_authz_ends s

    pub reconcile_authz-Reports : Reports r "OpenFGAReady" (reconcile_authz r dp)
    reconcile_authz-Reports s a h = reconcile_authz-OpenFGAReady s ∙ ap claims_ready h
