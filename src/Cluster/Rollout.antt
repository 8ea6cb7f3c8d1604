-- ===== src/Cluster/Rollout.antt =====
-- What the components' shared operations leave alone, and what a condition tells of the steps that
-- it is set after.
use data_platform_operator.Base.{Bool, true, false, String, ◌≡◌, refl, ◌∙◌, eq_refl}
use data_platform_operator.Base.Exec.{
  Result, ok, err, Exec, branch, ◌>>=◌, ◌>>◌, pure, raise, continue,
}
use data_platform_operator.Base.Exec.Keeps.{
  Keeps, Keeps-pure, Keeps-bind, Keeps-branch, Keeps-if, keeps_rules,
}
use data_platform_operator.Api.Platform.{DataPlatform}
use data_platform_operator.Kube.{ConditionLaws}
use data_platform_operator.Reconciler.{Reconciler, State, set_status}
use data_platform_operator.Cluster.{marking, set_condition}
use data_platform_operator.Cluster.Frame.{
  Is, Keeps-in_world, Keeps-set_condition, Keeps-marking, Keeps-apply, Keeps-random_hex,
  Keeps-ensure_generated_secret, Keeps-ensure_namespace, Keeps-get_secret_data,
  Keeps-stateful_set_ready, Keeps-deployment_ready,
}
use data_platform_operator.Cluster.Workloads.{unless_secret, report_ready, became_ready, rollout}
use data_platform_operator.Controller.Parts.{Owns}

pub ruleset frame_rules = (
  keeps_rules, Keeps-in_world, Keeps-apply, Keeps-random_hex, Keeps-ensure_generated_secret,
  Keeps-ensure_namespace, Keeps-get_secret_data, Keeps-stateful_set_ready, Keeps-deployment_ready,
)

module _ {W C : Type 0} (r : Reconciler W C) where
  pub Keeps-unless_secret :
      (ns name : String) (make : Exec (State W C) (Unit {0})) (t : String) (b : Bool)
      → Keeps (Is r t b) make
      → Keeps (Is r t b) (unless_secret r ns name make)
  unfolding unless_secret
  Keeps-unless_secret ns name make t b k =
      Keeps-branch _ _ _ (Keeps-in_world r _ t b) (λ s. Keeps-pure _) (λ e. k)

  module _ (dp : DataPlatform) (laws : ConditionLaws r.condition_api) where
    pub report_ready-Owns :
        (own message waiting : String) (ready : Bool)
        → Owns r own (report_ready r dp own message waiting ready)
    unfolding report_ready
    report_ready-Owns own message waiting ready t b other =
        Keeps-if _ _ _ (Keeps-set_condition r dp laws _ _ _ _ t b other)
          (Keeps-set_condition r dp laws _ _ _ _ t b other)

    pub rollout-Owns :
        (own message waiting : String) (m : Exec (State W C) Bool)
        → ((t : String) (b : Bool) → Keeps (Is r t b) m)
        → Owns r own (rollout r dp own message waiting m)
    unfolding rollout
    rollout-Owns own message waiting m km t b other =
        Keeps-bind _ _ (Keeps-marking r dp laws own _ m t b other (km t b))
          λ ready. report_ready-Owns own message waiting ready t b other

    pub rollout_after :
        (own message waiting : String) (x : Result Bool) (end start : State W C)
        → r.condition_api.is_status_true
            (rollout r dp own message waiting (λ s. (x, end)) start).1.status.conditions
            own
          ≡ became_ready x
    unfolding rollout marking report_ready set_condition set_status ◌>>=◌ branch pure raise
        became_ready
    rollout_after own message waiting (ok true) end start =
        laws.set_lem _ _ own ∙ rw (eq_refl own) refl
    rollout_after own message waiting (ok false) end start =
        laws.set_lem _ _ own ∙ rw (eq_refl own) refl
    rollout_after own message waiting (err e) end start =
        laws.set_lem _ _ own ∙ rw (eq_refl own) refl

module _ {S A B : Type 0} where
  continue-pure : (x : Result A) (b : B) (s : S) → (continue x (λ a. pure b) raise s).1 ≡ s
  unfolding pure raise
  continue-pure (ok a) b s = refl
  continue-pure (err e) b s = refl

  -- A value that is returned at the end changes no state.
  pub then-pure : (m : Exec S A) (b : B) (s : S) → ((m >> pure b) s).1 ≡ (m s).1
  unfolding ◌>>=◌ branch
  then-pure m b s = continue-pure (m s).0 b (m s).1
