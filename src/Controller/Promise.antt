-- ===== src/Controller/Promise.antt =====
-- What the platform's Ready condition promises of the components' conditions.
use data_platform_operator.Base.{
  Bool, true, false, not, ◌&&◌, ◌||◌, List, [], ◌∷◌, String, ◌≡◌, refl, arith, if◌then◌else◌,
}
use data_platform_operator.Base.Exec.{pure}
use data_platform_operator.Base.Exec.Ends.{Ends, Ends-pure, Ends_of, Ends-bind}
use data_platform_operator.Base.Exec.Keeps.{Keeps-if}
use data_platform_operator.Api.Platform.{DataPlatform}
use data_platform_operator.Api.Identity.{auth_is_enabled}
use data_platform_operator.Api.Engines.{lakekeeper_is_enabled}
use data_platform_operator.Config.{OidcConfig, OpenfgaConfig, ObjectStore, PostgresConn}
use data_platform_operator.Kube.{ConditionLaws}
use data_platform_operator.Reconciler.{Reconciler, State}
use data_platform_operator.Cluster.{set_condition}
use data_platform_operator.Cluster.Frame.{Keeps-set_condition}
use data_platform_operator.Controller.{
  Stack, lakekeeper_or_wait, warehouse_or_wait, disable_lakekeeper, enabled_lakekeeper,
  reconcile_lakekeeper_stack,
}
use data_platform_operator.Controller.Parts.{Components, ComponentLaws, Owns}
use data_platform_operator.Controller.Known.{
  Facts, Apart, AnythingAfter, Known, Ends-Known, Ends_learnt, at_once, Known-never,
  condition_true_learnt, set_condition_learnt,
}

-- the conditions of the LakeKeeper stack, but for `AuthReady`
abbrev pub stack_conditions : List String
stack_conditions =
    "MinioReady" ∷ "PostgresReady" ∷ "LakekeeperReady" ∷ "WarehouseReady" ∷ "OpenFGAReady" ∷ []

-- `AuthReady` is not set where LakeKeeper is disabled and authentication is not
unfoldable pub sets_auth : DataPlatform → Bool
sets_auth dp = lakekeeper_is_enabled dp.spec.lakekeeper || not (auth_is_enabled dp.spec.auth)

abbrev pub stack_facts : DataPlatform → Bool → Facts
stack_facts dp b = (sets_auth dp && b, "AuthReady") ∷ at_once b stack_conditions

module _ {W C : Type 0} (r : Reconciler W C) (laws : ConditionLaws r.condition_api)
    (k : Components W C) (owed : ComponentLaws r k) (dp : DataPlatform) where
  StackKnown : Stack → State W C → Type 0
  StackKnown stack s = Known r (stack_facts dp (not stack.progressing)) s

  auth_disabled :
      (b : Bool) (fs : Facts)
      → Apart "AuthReady" fs
      → Ends
          (Known r fs)
          (if b
            then pure tt
            else set_condition r dp "AuthReady" true "Disabled" "LakeKeeper is disabled")
          (λ u s. Known r ((not b, "AuthReady") ∷ fs) s)
          AnythingAfter
  auth_disabled true fs apart = Ends-pure tt (λ s h. (λ q. ground (arith, q), h))
  auth_disabled false fs apart = set_condition_learnt r dp laws "AuthReady" _ _ fs apart

  disable_lakekeeper_ends :
      lakekeeper_is_enabled dp.spec.lakekeeper ≡ false
      → Ends (λ s. Unit {0}) (disable_lakekeeper r k dp) StackKnown AnythingAfter
  unfolding disable_lakekeeper StackKnown sets_auth
  disable_lakekeeper_ends off =
      Ends-bind _ _ (set_condition_learnt r dp laws "MinioReady" _ _ [] tt) λ u.
        Ends-bind _ _
          (set_condition_learnt r dp laws "PostgresReady" _ _ (at_once true ("MinioReady" ∷ []))
            (refl, tt))
          λ u.
            Ends-bind _ _
              (set_condition_learnt r dp laws "LakekeeperReady" _ _
                (at_once true ("PostgresReady" ∷ "MinioReady" ∷ [])) (refl, (refl, tt)))
              λ u.
                Ends-bind _ _
                  (set_condition_learnt r dp laws "WarehouseReady" _ _
                    (at_once true ("LakekeeperReady" ∷ "PostgresReady" ∷ "MinioReady" ∷ []))
                    (refl, (refl, (refl, tt))))
                  λ u.
                    Ends-bind _ _
                      (set_condition_learnt r dp laws "OpenFGAReady" _ _
                        (at_once true (
                          "WarehouseReady" ∷ "LakekeeperReady" ∷ "PostgresReady" ∷ "MinioReady"
                          ∷ []))
                        (refl, (refl, (refl, (refl, tt)))))
                      λ u.
                        Ends-bind _ _
                          (auth_disabled (auth_is_enabled dp.spec.auth)
                            (at_once true (
                              "OpenFGAReady" ∷ "WarehouseReady" ∷ "LakekeeperReady"
                              ∷ "PostgresReady" ∷ "MinioReady" ∷ []))
                            (refl, (refl, (refl, (refl, (refl, tt))))))
                          λ u.
                            Ends-pure _
                              λ s
                                  (
                                    auth,
                                    (fga, (warehouse, (lakekeeper, (postgres, (minio, rest))))),
                                  ).
                                (
                                  λ q. auth (ground (arith, off, q)),
                                  (minio, (postgres, (lakekeeper, (warehouse, (fga, tt))))),
                                )

  lakekeeper_or_wait-Owns :
      (conn : PostgresConn) (oidc : OidcConfig) (auth_ready : Bool) (fga : OpenfgaConfig)
      (fga_ready : Bool)
      → Owns r "LakekeeperReady" (lakekeeper_or_wait r k dp conn oidc auth_ready fga fga_ready)
  unfolding lakekeeper_or_wait
  lakekeeper_or_wait-Owns conn oidc auth_ready fga fga_ready t b other =
      Keeps-if _ _ _ (owed.lakekeeper dp conn oidc fga t b other) (
        Keeps-if _ _ _ (Keeps-set_condition r dp laws _ _ _ _ t b other)
          (Keeps-set_condition r dp laws _ _ _ _ t b other))

  abbrev waited_facts : Bool → Bool → Bool → Bool → Bool → Facts
  waited_facts lakekeeper postgres fga auth minio =
      (lakekeeper, "LakekeeperReady")
      ∷ (postgres, "PostgresReady")
      ∷ (fga, "OpenFGAReady")
      ∷ (auth, "AuthReady")
      ∷ (minio, "MinioReady")
      ∷ []

  warehouse_or_wait_ends :
      (waiting lakekeeper postgres fga_ready auth minio : Bool) (store : ObjectStore)
      (oidc : OidcConfig) (fga : OpenfgaConfig)
      → waiting ≡ (not postgres || not lakekeeper || not auth || not fga_ready || not minio)
      → Ends
          (Known r (waited_facts lakekeeper postgres fga_ready auth minio))
          (warehouse_or_wait r k dp waiting store oidc fga)
          StackKnown
          AnythingAfter
  unfolding warehouse_or_wait StackKnown
  warehouse_or_wait_ends true lakekeeper postgres fga_ready auth minio store oidc fga w =
      Ends-pure _ (λ s h. (λ q. ground (arith, q), Known-never r stack_conditions s))
  warehouse_or_wait_ends false lakekeeper postgres fga_ready auth minio store oidc fga w =
      Ends-bind _ _
        (Ends-Known r "WarehouseReady" _ (waited_facts lakekeeper postgres fga_ready auth minio)
          (owed.warehouse dp store oidc fga) (refl, (refl, (refl, (refl, (refl, tt))))))
        λ u.
          Ends-bind _ _
            (condition_true_learnt r "WarehouseReady"
              (waited_facts lakekeeper postgres fga_ready auth minio))
            λ ready. Ends-pure _ λ s (h, (l, (p, (f, (a, (m, rest)))))). (
              λ q. a (ground (arith, w)),
              (
                λ q. m (ground (arith, w)),
                (
                  λ q. p (ground (arith, w)),
                  (
                    λ q. l (ground (arith, w)),
                    (λ q. h (ground (arith, q)), (λ q. f (ground (arith, w)), tt)),
                  ),
                ),
              ),
            )

  enabled_lakekeeper_ends :
      Ends (λ s. Unit {0}) (enabled_lakekeeper r k dp) StackKnown AnythingAfter
  unfolding enabled_lakekeeper
  enabled_lakekeeper_ends =
      Ends-bind {M = λ u s. Known r [] s} _ _ (Ends_of _ (λ s a p h. tt) (λ e s. tt)) λ u.
        Ends-bind {M = λ u s. Known r [] s} _ _ (Ends_of _ (λ s a p h. tt) (λ e s. tt)) λ conn.
          Ends-bind _ _
            (Ends_learnt r "MinioReady" (k.reconcile_object_store dp) (λ a. a.1) []
              (owed.object_store dp) tt (λ s a h q. owed.object_store_reports dp s a.0 (rw q at h)))
            λ store.
              Ends-bind _ _
                (Ends_learnt r "AuthReady" (k.reconcile_auth dp) (λ a. a.1)
                  ((store.1, "MinioReady") ∷ []) (owed.auth dp) (refl, tt)
                  (λ s a h q. owed.auth_reports dp s a.0 (rw q at h)))
                λ oidc.
                  Ends-bind _ _
                    (Ends_learnt r "OpenFGAReady" (k.reconcile_authz dp) (λ a. a.1)
                      ((oidc.1, "AuthReady") ∷ (store.1, "MinioReady") ∷ []) (owed.authz dp)
                      (refl, (refl, tt)) (λ s a h q. owed.authz_reports dp s a.0 (rw q at h)))
                    λ fga.
                      Ends-bind _ _
                        (Ends-Known r "LakekeeperReady" _
                          ((fga.1, "OpenFGAReady")
                            ∷ (oidc.1, "AuthReady")
                            ∷ (store.1, "MinioReady")
                            ∷ [])
                          (lakekeeper_or_wait-Owns conn oidc.0 oidc.1 fga.0 fga.1)
                          (refl, (refl, (refl, tt))))
                        λ u.
                          Ends-bind _ _
                            (condition_true_learnt r "PostgresReady" (
                              (fga.1, "OpenFGAReady")
                              ∷ (oidc.1, "AuthReady")
                              ∷ (store.1, "MinioReady")
                              ∷ []))
                            λ postgres.
                              Ends-bind _ _
                                (condition_true_learnt r "LakekeeperReady" (
                                  (postgres, "PostgresReady")
                                  ∷ (fga.1, "OpenFGAReady")
                                  ∷ (oidc.1, "AuthReady")
                                  ∷ (store.1, "MinioReady")
                                  ∷ []))
                                λ lakekeeper.
                                  warehouse_or_wait_ends _ lakekeeper postgres fga.1 oidc.1 store.1
                                    store.0 oidc.0 fga.0 refl

  stack_of :
      (b : Bool)
      → lakekeeper_is_enabled dp.spec.lakekeeper ≡ b
      → Ends
          (λ s. Unit {0})
          (if b then enabled_lakekeeper r k dp else disable_lakekeeper r k dp)
          StackKnown
          AnythingAfter
  stack_of true on = enabled_lakekeeper_ends
  stack_of false off = disable_lakekeeper_ends off

  pub reconcile_lakekeeper_stack_ends :
      Ends
        (λ s. Unit {0})
        (reconcile_lakekeeper_stack r k dp)
        (λ stack s. Known r (stack_facts dp (not stack.progressing)) s)
        AnythingAfter
  unfolding reconcile_lakekeeper_stack StackKnown
  reconcile_lakekeeper_stack_ends = stack_of _ refl
