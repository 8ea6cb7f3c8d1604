-- ===== src/Controller/Ready.antt =====
-- The platform's own condition, `Ready`, after a reconciliation.
use data_platform_operator.Base.{
  Bool, true, false, not, none, some, String, refl, ◌∙◌, arith, nat_eq, eq_refl,
}
use data_platform_operator.Base.Exec.{Error, Result, ok, err, Exec}
use data_platform_operator.Base.Exec.Ends.{
  Outcome, Ends, Ends-pure, Ends-raise, Ends-if, Ends_of, Ends-bind, Ends-branch,
}
use data_platform_operator.Api.Platform.{DataPlatform}
use data_platform_operator.Kube.{ConditionLaws}
use data_platform_operator.Reconciler.{Reconciler, State, set_status}
use data_platform_operator.Cluster.{set_condition, marking}
use data_platform_operator.Cluster.Frame.{Is}
use data_platform_operator.Controller.{Requeue, conclude, reconcile, reconcile_lakekeeper_stack}
use data_platform_operator.Controller.Parts.{Components}

-- the request does not ask to come again while something progresses
unfoldable pub is_settled : Requeue → Bool
is_settled none = true
is_settled (some n) = not (nat_eq n 15)

-- The reconciliation ended without an error, and nothing is progressing.
abbrev pub settled : Result Requeue → Bool
settled (ok q) = is_settled q
settled (err e) = false

-- The component ended without an error, and reports that it is ready.
abbrev pub claims_ready : {A : Type 0} → Result (A × Bool) → Bool
claims_ready (ok (a, ready)) = ready
claims_ready (err e) = false

module _ {W C : Type 0} (r : Reconciler W C) (laws : ConditionLaws r.condition_api)
    (dp : DataPlatform) where
  abbrev Anything : {A : Type 0} → A → State W C → Type 0
  Anything a s = Unit {0}

  abbrev NotReady : Error → State W C → Type 0
  NotReady e s = Is r "Ready" false s

  pub Ends-set_condition :
      (t : String) (b : Bool) (reason message : String) {P : State W C → Type 0}
      {B : Error → State W C → Type 0}
      → Ends P (set_condition r dp t b reason message) (λ u s. Is r t b s) B
  unfolding set_condition set_status
  Ends-set_condition t b reason message = record {
    at = λ s p. laws.set_lem s.status.conditions _ t ∙ rw (eq_refl t) refl;
  }

  -- after an error that marks a condition, the condition is not true
  pub Ends-marking :
      {A : Type 0} (t reason : String) (m : Exec (State W C) A)
      → Ends (λ s. Unit {0}) (marking r dp t reason m) Anything (λ e s. Is r t false s)
  unfolding marking
  Ends-marking t reason m =
      Ends-branch {B' = λ e s. Unit {0}} m _ _
        (Ends_of {G = Anything} m (λ s a p h. tt) (λ e s. tt)) (λ a. Ends-pure a (λ s h. tt))
        (λ e.
          Ends-bind _ _ (Ends-set_condition t false reason e.message) λ u. Ends-raise e (λ s h. h))

  marking-NotReady :
      {A : Type 0} (reason : String) (m : Exec (State W C) A)
      → Ends (λ s. Unit {0}) (marking r dp "Ready" reason m) Anything NotReady
  marking-NotReady reason m = Ends-marking "Ready" reason m

  claimed :
      {A : Type 0} (t : String) (o : Result (A × Bool)) (s : State W C)
      → Outcome (λ a s. Is r t a.1 s) (λ e s. Is r t false s) o s
      → Is r t (claims_ready o) s
  claimed t (ok (a, ready)) s h = h
  claimed t (err e) s h = h

  -- what the condition says of an action that ends with its own readiness or an error
  pub claims_ready_lem :
      {A : Type 0} (t : String) (m : Exec (State W C) (A × Bool))
      → Ends (λ s. Unit {0}) m (λ a s. Is r t a.1 s) (λ e s. Is r t false s)
      → (s : State W C) → Is r t (claims_ready (m s).0) (m s).1
  claims_ready_lem t m em s = claimed t (m s).0 (m s).1 (em.at s tt)

  module _ (k : Components W C) where
    conclude_Ready :
        (progressing : Bool)
        → Ends
            (λ s. Unit {0})
            (conclude r k dp progressing)
            (λ q s. Is r "Ready" (is_settled q) s)
            NotReady
    unfolding conclude is_settled
    conclude_Ready progressing =
        Ends-if progressing _ _
          (Ends-bind _ _ (Ends-set_condition "Ready" false _ _) λ u. Ends-pure _ (λ s h. h))
          (Ends-bind _ _ (Ends-set_condition "Ready" true _ _)
            λ u. Ends-pure _ (λ s h. ground (arith, h)))

    reconcile_ends :
        Ends (λ s. Unit {0}) (reconcile r k dp) (λ q s. Is r "Ready" (is_settled q) s) NotReady
    unfolding reconcile
    reconcile_ends =
        Ends-bind _ _ (marking-NotReady "Error" (reconcile_lakekeeper_stack r k dp)) λ stack.
          Ends-bind _ _ (marking-NotReady "Error" _) λ trino.
            Ends-bind _ _ (marking-NotReady "Error" _)
              λ superset. Ends-bind _ _ (marking-NotReady "Error" _) λ sample. conclude_Ready _

    settled_of :
        (o : Result Requeue) (s : State W C)
        → Outcome (λ q s. Is r "Ready" (is_settled q) s) NotReady o s
        → Is r "Ready" (settled o) s
    settled_of (ok q) s h = h
    settled_of (err e) s h = h

    -- Whatever the components do, after a reconciliation the platform's Ready condition is true
    -- exactly when it ended without an error and does not ask to come again after the 15 seconds
    -- of a platform that is still progressing.
    pub reconcile-Ready :
        (s : State W C) → Is r "Ready" (settled (reconcile r k dp s).0) (reconcile r k dp s).1
    reconcile-Ready s =
        settled_of (reconcile r k dp s).0 (reconcile r k dp s).1 (reconcile_ends.at s tt)
