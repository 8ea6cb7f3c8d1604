-- ===== src/Controller/Conditions.antt =====
-- What the platform's Ready condition says of the components: the whole reconciliation.
use data_platform_operator.Base.{
  Bool, true, false, not, ◌&&◌, ◌||◌, ◌∷◌, ◌≡◌, refl, sym, ◌∙◌, arith, All,
}
use data_platform_operator.Base.Exec.{Result, ok, err}
use data_platform_operator.Base.Exec.Keeps.{Keeps-bind}
use data_platform_operator.Base.Exec.Ends.{Outcome, Ends, Ends-pure, Ends-if, Ends-bind, Ends_after}
use data_platform_operator.Api.Platform.{DataPlatform}
use data_platform_operator.Api.Engines.{trino_is_enabled, superset_is_enabled}
use data_platform_operator.Config.{OidcConfig, OpenfgaConfig, ObjectStore}
use data_platform_operator.Kube.{ConditionLaws}
use data_platform_operator.Reconciler.{Reconciler, State}
use data_platform_operator.Cluster.Frame.{Is, Keeps-ensure_namespace, Keeps-set_condition}
use data_platform_operator.Controller.{
  Requeue, conclude, reconcile, reconcile_trino_stack, reconcile_superset_stack,
}
use data_platform_operator.Controller.Parts.{Components, ComponentLaws}
use data_platform_operator.Controller.Known.{
  Facts, Apart, AnythingAfter, Known, Ends-Known, Ends_learnt, condition_true_learnt, Ends-marking,
  set_condition_learnt,
}
use data_platform_operator.Controller.Promise.{
  sets_auth, stack_conditions, stack_facts, reconcile_lakekeeper_stack_ends,
}
use data_platform_operator.Controller.Ready.{is_settled, settled, reconcile-Ready}

module _ {W C : Type 0} (r : Reconciler W C) (laws : ConditionLaws r.condition_api)
    (k : Components W C) (owed : ComponentLaws r k) (dp : DataPlatform) where
  reconcile_trino_stack_ends :
      (store : ObjectStore) (oidc : OidcConfig) (fga : OpenfgaConfig) (fs : Facts)
      → Apart "TrinoReady" fs
      → Ends
          (Known r fs)
          (reconcile_trino_stack r k dp store oidc fga)
          (λ p s. Known r ((not p, "TrinoReady") ∷ fs) s)
          AnythingAfter
  unfolding reconcile_trino_stack
  reconcile_trino_stack_ends store oidc fga fs apart =
      Ends-if (trino_is_enabled dp.spec.trino) _ _
        (Ends-bind _ _
          (Ends-Known r "TrinoReady" _ fs (λ t b other. Keeps-ensure_namespace r dp _ _ t b) apart)
          λ u.
            Ends-bind _ _
              (Ends-Known r "TrinoReady" _ fs
                (λ t b other.
                  Keeps-bind _ _ (owed.opa dp oidc fga t b)
                    λ ready. owed.trino dp store oidc fga t b other)
                apart)
              λ u.
                Ends-bind _ _ (condition_true_learnt r "TrinoReady" fs)
                  λ ready. Ends-pure _ λ s (h, rest). (λ q. h (ground (arith, q)), rest))
        (Ends-bind _ _ (set_condition_learnt r dp laws "TrinoReady" _ _ fs apart)
          λ u. Ends-pure _ λ s (h, rest). (λ q. h refl, rest))

  reconcile_superset_stack_ends :
      (oidc : OidcConfig) (fs : Facts)
      → Apart "SupersetReady" fs
      → Ends
          (Known r fs)
          (reconcile_superset_stack r k dp oidc)
          (λ p s. Known r ((not p, "SupersetReady") ∷ fs) s)
          AnythingAfter
  unfolding reconcile_superset_stack
  reconcile_superset_stack_ends oidc fs apart =
      Ends-if (superset_is_enabled dp.spec.superset) _ _
        (Ends-bind _ _
          (Ends-Known r "SupersetReady" _ fs (λ t b other. Keeps-ensure_namespace r dp _ _ t b)
            apart)
          λ u. Ends-bind _ _ (Ends-Known r "SupersetReady" _ fs (owed.superset dp oidc) apart) λ u.
            Ends-bind _ _ (condition_true_learnt r "SupersetReady" fs)
              λ ready. Ends-pure _ λ s (h, rest). (λ q. h (ground (arith, q)), rest))
        (Ends-bind _ _ (set_condition_learnt r dp laws "SupersetReady" _ _ fs apart)
          λ u. Ends-pure _ λ s (h, rest). (λ q. h refl, rest))

  -- the conclusion touches `Ready` only, and is settled only where nothing is progressing
  conclude_settled :
      (progressing : Bool) (fs : Facts)
      → Apart "Ready" fs
      → Ends
          (Known r fs)
          (conclude r k dp progressing)
          (λ q s. (is_settled q ≡ true → progressing ≡ false) × Known r fs s)
          AnythingAfter
  unfolding conclude is_settled
  conclude_settled true fs apart =
      Ends-bind _ _
        (Ends-Known r "Ready" _ fs
          (λ t b other. Keeps-set_condition r dp laws "Ready" false _ _ t b other) apart)
        λ u. Ends-pure _ λ s h. (λ q. ground (arith, q), h)
  conclude_settled false fs apart =
      Ends-bind _ _
        (Ends-Known r "Ready" _ fs
          (λ t b other. Keeps-set_condition r dp laws "Ready" true _ _ t b other) apart)
        λ u. Ends-pure _ λ s h. (λ q. refl, h)

  -- every component's condition is true
  pub record AllReady (s : State W C) : Type 0 where
    pub stack : All (λ t. Is r t true s) stack_conditions
    pub trino : Is r "TrinoReady" true s
    pub superset : Is r "SupersetReady" true s
    pub sample_data : Is r "SampleDataReady" true s
    pub auth :
        (not (sets_auth dp) || r.condition_api.is_status_true s.status.conditions "AuthReady")
        ≡ true

  known_or : (a x b : Bool) → b ≡ true → (a && b ≡ true → x ≡ true) → (not a || x) ≡ true
  known_or true x b h f = f h
  known_or false x b h f = refl

  all_facts : Bool → Bool → Bool → Bool → Facts
  all_facts stack trino superset sample =
      (not sample, "SampleDataReady")
      ∷ (not superset, "SupersetReady")
      ∷ (not trino, "TrinoReady")
      ∷ stack_facts dp (not stack)

  Known-all :
      (stack trino superset sample : Bool) (s : State W C)
      → (stack || trino || superset || sample) ≡ false
      → Known r (all_facts stack trino superset sample) s
      → AllReady s
  unfolding all_facts
  Known-all stack trino superset sample s n (sa, (su, (tr, (au, (m, (p, (l, (w, (f, rest))))))))) =
      record {
        stack = (
          m (ground (arith, n)),
          (
            p (ground (arith, n)),
            (l (ground (arith, n)), (w (ground (arith, n)), (f (ground (arith, n)), tt))),
          ),
        );
        trino = tr (ground (arith, n));
        superset = su (ground (arith, n));
        sample_data = sa (ground (arith, n));
        auth = known_or (sets_auth dp) _ (not stack) (ground (arith, n)) au;
      }

  sample_data_ready :
      (oidc : OidcConfig) (s : State W C) (p : Bool)
      → (k.reconcile_sample_data dp oidc s).0 ≡ ok p
      → not p ≡ true
      → Is r "SampleDataReady" true (k.reconcile_sample_data dp oidc s).1
  sample_data_ready oidc s true h q = ground (arith, q)
  sample_data_ready oidc s false h q = owed.sample_data_reports dp oidc s h

  reconcile_ends :
      Ends
        (λ s. Unit {0})
        (reconcile r k dp)
        (λ q s. is_settled q ≡ true → AllReady s)
        AnythingAfter
  unfolding reconcile all_facts sets_auth
  reconcile_ends =
      Ends-bind _ _
        (Ends-marking r dp "Ready" "Error" _ (reconcile_lakekeeper_stack_ends r laws k owed dp))
        λ stack.
          let below = stack_facts dp (not stack.progressing) in
          Ends-bind _ _
            (Ends-marking r dp "Ready" "Error" _ (
              reconcile_trino_stack_ends stack.store stack.oidc stack.fga below
                (refl, (refl, (refl, (refl, (refl, (refl, tt))))))))
            λ trino.
              let trino_known = (not trino, "TrinoReady") ∷ below in
              Ends-bind _ _
                (Ends-marking r dp "Ready" "Error" _ (
                  reconcile_superset_stack_ends stack.oidc trino_known
                    (refl, (refl, (refl, (refl, (refl, (refl, (refl, tt)))))))))
                λ superset.
                  let superset_known = (not superset, "SupersetReady") ∷ trino_known in
                  Ends-bind _ _
                    (Ends-marking r dp "Ready" "Error" _ (
                      Ends_learnt r "SampleDataReady" (k.reconcile_sample_data dp stack.oidc)
                        (λ p. not p) superset_known (owed.sample_data dp stack.oidc)
                        (refl, (refl, (refl, (refl, (refl, (refl, (refl, (refl, tt))))))))
                        (sample_data_ready stack.oidc)))
                    λ sample.
                      Ends_after _
                        (conclude_settled (stack.progressing || trino || superset || sample)
                          (all_facts stack.progressing trino superset sample)
                          (
                            refl,
                            (refl, (refl, (refl, (refl, (refl, (refl, (refl, (refl, tt)))))))),
                          ))
                        λ q s (n, known) h.
                          Known-all stack.progressing trino superset sample s (n h) known

  AllReady-of :
      (o : Result Requeue) (s : State W C)
      → Outcome (λ q s. is_settled q ≡ true → AllReady s) AnythingAfter o s
      → settled o ≡ true
      → AllReady s
  AllReady-of (ok q) s h t = h t
  AllReady-of (err e) s h t = ground (arith, t)

  -- If each component touches its own condition only, and reports itself ready only where that
  -- condition is true, then a reconciliation that leaves the platform's Ready condition true leaves
  -- true the conditions of the object store, PostgreSQL, LakeKeeper, the warehouse, OpenFGA, Trino,
  -- Superset and the sample data, and that of authentication unless LakeKeeper is disabled and
  -- authentication is not.
  pub reconcile-AllReady :
      (s : State W C) → Is r "Ready" true (reconcile r k dp s).1 → AllReady (reconcile r k dp s).1
  reconcile-AllReady s ready =
      AllReady-of (reconcile r k dp s).0 (reconcile r k dp s).1 (reconcile_ends.at s tt)
        (sym (reconcile-Ready r laws dp k s) ∙ ready)
