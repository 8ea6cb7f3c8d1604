-- ===== src/SampleData/Ready.antt =====
-- What the sample data's component owes the controller.
use data_platform_operator.Base.{Bool, true, false, not, String, ◌==◌, ◌≡◌}
use data_platform_operator.Base.Exec.{ok}
use data_platform_operator.Base.Exec.Keeps.{
  Keeps, Keeps-pure, Keeps-bind, Keeps-if, Keeps-if_missing, keeps_rules,
}
use data_platform_operator.Base.Exec.Ends.{Ends, Ends_of, Ends-ok, Ends-pure, Ends-if, Ends-bind}
use data_platform_operator.Api.Platform.{DataPlatform}
use data_platform_operator.Config.{OidcConfig}
use data_platform_operator.Kube.{ConditionLaws}
use data_platform_operator.Kube.Objects.{Job}
use data_platform_operator.Reconciler.{Reconciler, State}
use data_platform_operator.Cluster.Frame.{
  Is, Keeps-in_world, Keeps-marking, Keeps-get_secret_data, Keeps-set_condition, Keeps-apply,
  Keeps-condition_true,
}
use data_platform_operator.Controller.Parts.{Owns}
use data_platform_operator.Controller.Known.{AnythingAfter}
use data_platform_operator.Controller.Ready.{Ends-set_condition}
use data_platform_operator.SampleData.{
  seed_job_found, ensure_sample_data_oidc_secret, ensure_sample_data_job, seeded, waiting, finished,
  seed_disabled, seed_unauthenticated, seed_stack, reconcile_sample_data,
}

module _ {W C : Type 0} (r : Reconciler W C) (dp : DataPlatform) where
  seed_job_found-Keeps :
      (namespace hash : String) (job : Job) (t : String) (b : Bool)
      → Keeps (Is r t b) (seed_job_found r dp namespace hash job)
  unfolding seed_job_found
  seed_job_found-Keeps namespace hash job t b = search (keeps_rules, Keeps-in_world)

  ensure_sample_data_job-Keeps :
      (namespace hash : String) (oidc : OidcConfig) (needs_oauth : Bool) (t : String) (b : Bool)
      → Keeps (Is r t b) (ensure_sample_data_job r dp namespace hash oidc needs_oauth)
  unfolding ensure_sample_data_job ensure_sample_data_oidc_secret
  ensure_sample_data_job-Keeps namespace hash oidc needs_oauth t b =
      Keeps-if_missing _ _ _ (Keeps-in_world r _ t b)
        (λ job. seed_job_found-Keeps namespace hash job t b)
        (Keeps-bind _ _
          (Keeps-if _ _ _
            (Keeps-bind _ _ (Keeps-get_secret_data r _ _ _ t b)
              λ password. Keeps-apply r dp _ _ _ _ t b)
            (Keeps-pure _))
          λ u. Keeps-bind _ _ (Keeps-apply r dp _ _ _ _ t b) λ u. Keeps-pure _)

  module _ (laws : ConditionLaws r.condition_api) where
    waiting-Owns : (message : String) → Owns r "SampleDataReady" (waiting r dp message)
    unfolding waiting
    waiting-Owns message t b other =
        Keeps-bind _ _ (Keeps-set_condition r dp laws _ _ _ _ t b other) λ u. Keeps-pure _

    finished-Owns :
        (reason message : String) → Owns r "SampleDataReady" (finished r dp reason message)
    unfolding finished
    finished-Owns reason message t b other =
        Keeps-bind _ _ (Keeps-set_condition r dp laws _ _ _ _ t b other) λ u. Keeps-pure _

    seed_stack-Owns : (oidc : OidcConfig) → Owns r "SampleDataReady" (seed_stack r dp oidc)
    unfolding seed_stack seeded
    seed_stack-Owns oidc t b other =
        Keeps-bind _ _
          (Keeps-marking r dp laws _ _ _ t b other (
            Keeps-bind _ _ (Keeps-apply r dp _ _ _ _ t b)
              λ u. ensure_sample_data_job-Keeps _ _ oidc _ t b))
          λ ready. Keeps-if _ _ _ (finished-Owns _ _ t b other) (waiting-Owns _ t b other)

    pub reconcile_sample_data-Owns :
        (oidc : OidcConfig) → Owns r "SampleDataReady" (reconcile_sample_data r dp oidc)
    unfolding reconcile_sample_data
    reconcile_sample_data-Owns oidc t b other =
        Keeps-if (seed_disabled dp) _ _ (finished-Owns _ _ t b other) (
          Keeps-if (seed_unauthenticated dp) _ _ (finished-Owns _ _ t b other) (
            Keeps-bind _ _ (Keeps-condition_true r _ t b) λ warehouse.
              Keeps-if _ _ _ (waiting-Owns _ t b other) (
                Keeps-bind _ _ (Keeps-condition_true r _ t b) λ trino.
                  Keeps-if _ _ _ (waiting-Owns _ t b other) (seed_stack-Owns oidc t b other))))

    -- the condition is true exactly where nothing is progressing
    Agrees : Bool → State W C → Type 0
    Agrees progressing s = Is r "SampleDataReady" (not progressing) s

    waiting_ends :
        {P : State W C → Type 0} (message : String)
        → Ends P (waiting r dp message) Agrees AnythingAfter
    unfolding waiting Agrees
    waiting_ends message =
        Ends-bind _ _ (Ends-set_condition r laws dp "SampleDataReady" false _ _)
          λ u. Ends-pure _ (λ s h. h)

    finished_ends :
        {P : State W C → Type 0} (reason message : String)
        → Ends P (finished r dp reason message) Agrees AnythingAfter
    unfolding finished Agrees
    finished_ends reason message =
        Ends-bind _ _ (Ends-set_condition r laws dp "SampleDataReady" true _ _)
          λ u. Ends-pure _ (λ s h. h)

    seed_stack_ends :
        {P : State W C → Type 0} (oidc : OidcConfig)
        → Ends P (seed_stack r dp oidc) Agrees AnythingAfter
    unfolding seed_stack
    seed_stack_ends oidc =
        Ends-bind {M = λ x s. Unit {0}} _ _ (Ends_of _ (λ s a p h. tt) (λ e s. tt))
          λ ready. Ends-if ready _ _ (finished_ends _ _) (waiting_ends _)

    -- Where the sample data's component ends without an error, its condition SampleDataReady is
    -- true exactly when it reports that it is not progressing any more.
    pub reconcile_sample_data-SampleDataReady :
        (oidc : OidcConfig) (s : State W C) (progressing : Bool)
        → (reconcile_sample_data r dp oidc s).0 ≡ ok progressing
        → r.condition_api.is_status_true
            (reconcile_sample_data r dp oidc s).1.status.conditions
            "SampleDataReady"
          ≡ not progressing
    unfolding reconcile_sample_data Agrees
    reconcile_sample_data-SampleDataReady oidc s progressing h =
        Ends-ok {P = λ s. Unit {0}} {G = Agrees} {B = AnythingAfter} _
          (Ends-if (seed_disabled dp) _ _ (finished_ends _ _) (
            Ends-if (seed_unauthenticated dp) _ _ (finished_ends _ _) (
              Ends-bind {M = λ x s. Unit {0}} _ _ (Ends_of _ (λ s a p h. tt) (λ e s. tt))
                λ warehouse. Ends-if _ _ _ (waiting_ends _) (
                  Ends-bind {M = λ x s. Unit {0}} _ _ (Ends_of _ (λ s a p h. tt) (λ e s. tt))
                    λ trino. Ends-if _ _ _ (waiting_ends _) (seed_stack_ends oidc)))))
          s tt h

    -- Whatever the cluster answers, every condition but SampleDataReady is true after the sample
    -- data's component where it was, and is not where it was not.
    reconcile_sample_data_frame :
        (oidc : OidcConfig) (t : String) (b : Bool) (s : State W C)
        → ("SampleDataReady" == t) ≡ false
        → r.condition_api.is_status_true s.status.conditions t ≡ b
        → r.condition_api.is_status_true (reconcile_sample_data r dp oidc s).1.status.conditions t
          ≡ b
    reconcile_sample_data_frame oidc t b s other h =
        (reconcile_sample_data-Owns oidc t b other).at s h
