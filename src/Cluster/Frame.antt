-- ===== src/Cluster/Frame.antt =====
-- What an action leaves alone: whether the condition of a type is true.
use data_platform_operator.Base.{Bool, false, String, ◌==◌, ◌≡◌, ◌∙◌}
use data_platform_operator.Base.Exec.{Result, Exec}
use data_platform_operator.Base.Exec.Keeps.{
  Keeps, Keeps-pure, Keeps-raise, Keeps-gets, Keeps-bind, Keeps-branch, keeps_rules,
}
use data_platform_operator.Api.Platform.{DataPlatform, DataPlatformStatus}
use data_platform_operator.Kube.{ConditionLaws, Store}
use data_platform_operator.Reconciler.{Reconciler, State, in_world, set_status}
use data_platform_operator.Cluster.{
  set_condition, marking, apply, ensure_generated_secret, ensure_namespace, get_secret_data,
  random_hex, stateful_set_ready, deployment_ready, condition_true,
}

module _ {W C : Type 0} (r : Reconciler W C) where
  -- the condition `t` is true, or is not, as `b` says
  abbrev pub Is : String → Bool → State W C → Type 0
  Is t b s = r.condition_api.is_status_true s.status.conditions t ≡ b

  pub Keeps-in_world :
      {A : Type 0} (m : Exec W A) (t : String) (b : Bool) → Keeps (Is t b) (in_world m)
  unfolding in_world
  Keeps-in_world m t b = record { at = λ s h. h }

  pub Keeps-set_status :
      (f : DataPlatformStatus C → DataPlatformStatus C) (t : String) (b : Bool)
      → ((st : DataPlatformStatus C) → (f st).conditions ≡ st.conditions)
      → Keeps (Is t b) (set_status f)
  unfolding set_status
  Keeps-set_status f t b same = record { at = λ s h. rw (same s.status) h }

  pub Keeps-condition_true : (c t : String) (b : Bool) → Keeps (Is t b) (condition_true r c)
  unfolding condition_true
  Keeps-condition_true c t b = Keeps-gets _

  pub Keeps-random_hex : (n : _) (t : String) (b : Bool) → Keeps (Is t b) (random_hex r n)
  unfolding random_hex
  Keeps-random_hex n t b = search (keeps_rules, Keeps-in_world)

  pub Keeps-get_secret_data :
      (name ns key t : String) (b : Bool) → Keeps (Is t b) (get_secret_data r name ns key)
  unfolding get_secret_data
  Keeps-get_secret_data name ns key t b = search (keeps_rules, Keeps-in_world)

  pub Keeps-stateful_set_ready :
      (ns name t : String) (b : Bool) → Keeps (Is t b) (stateful_set_ready r ns name)
  unfolding stateful_set_ready
  Keeps-stateful_set_ready ns name t b = search (keeps_rules, Keeps-in_world)

  pub Keeps-deployment_ready :
      (ns name t : String) (b : Bool) → Keeps (Is t b) (deployment_ready r ns name)
  unfolding deployment_ready
  Keeps-deployment_ready ns name t b = search (keeps_rules, Keeps-in_world)

  module _ (dp : DataPlatform) where
    pub Keeps-apply :
        {Obj : Type 0} (store : Store W Obj) (ns name : String) (mutate : Obj → Result Obj)
        (t : String) (b : Bool)
        → Keeps (Is t b) (apply r dp store ns name mutate)
    unfolding apply
    Keeps-apply store ns name mutate t b = Keeps-in_world _ t b

    pub Keeps-ensure_generated_secret :
        (name ns component : String) (contents : _) (t : String) (b : Bool)
        → Keeps (Is t b) (ensure_generated_secret r dp name ns component contents)
    unfolding ensure_generated_secret
    Keeps-ensure_generated_secret name ns component contents t b =
        search (keeps_rules, Keeps-in_world)

    pub Keeps-ensure_namespace :
        (name component t : String) (b : Bool)
        → Keeps (Is t b) (ensure_namespace r dp name component)
    unfolding ensure_namespace
    Keeps-ensure_namespace name component t b = search (keeps_rules, Keeps-in_world)

    module _ (laws : ConditionLaws r.condition_api) where
      -- a condition of another type
      pub Keeps-set_condition :
          (c : String) (status : Bool) (reason message t : String) (b : Bool)
          → (c == t) ≡ false
          → Keeps (Is t b) (set_condition r dp c status reason message)
      unfolding set_condition set_status
      Keeps-set_condition c status reason message t b other = record {
        at = λ s h. laws.set_lem s.status.conditions _ t ∙ rw other h;
      }

      pub Keeps-marking :
          {A : Type 0} (c reason : String) (m : Exec (State W C) A) (t : String) (b : Bool)
          → (c == t) ≡ false
          → Keeps (Is t b) m
          → Keeps (Is t b) (marking r dp c reason m)
      unfolding marking
      Keeps-marking c reason m t b other km =
          Keeps-branch m _ _ km (λ a. Keeps-pure a)
            λ e.
              Keeps-bind _ _ (Keeps-set_condition c false reason e.message t b other)
                λ _. Keeps-raise e
