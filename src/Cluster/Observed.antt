-- ===== src/Cluster/Observed.antt =====
-- What a readiness check has seen of a workload, and what a condition that is true tells of it.
use data_platform_operator.Base.{Bool, true, false, String, ◌≡◌, refl, sym, ◌∙◌, ◌<◌, ltb, arith}
use data_platform_operator.Base.Exec.{Result, ok, err, Exec, continue, branch, ◌>>=◌, pure, raise}
use data_platform_operator.Base.Exec.Ends.{Ends, Ends_after, Outcome}
use data_platform_operator.Api.Platform.{DataPlatform}
use data_platform_operator.Kube.{ConditionLaws}
use data_platform_operator.Kube.Objects.{Deployment, StatefulSet}
use data_platform_operator.Reconciler.{Reconciler, State, in_world, set_status}
use data_platform_operator.Cluster.{marking, set_condition, deployment_ready, stateful_set_ready}
use data_platform_operator.Cluster.Rollout.{rollout_after}
use data_platform_operator.Cluster.Workloads.{became_ready, report_ready, rollout}

module _ {W C : Type 0} (r : Reconciler W C) where
  -- Reading the Deployment took the world from the one to the other, and it had a ready replica.
  abbrev pub SeesDeployment : String → String → W → W → Type 0
  SeesDeployment ns name w w' =
      (d : Deployment) × (r.kube.deployments.get ns name w ≡ (ok d, w')) × (0 < d.ready_replicas)

  -- and so for a StatefulSet
  abbrev pub SeesStatefulSet : String → String → W → W → Type 0
  SeesStatefulSet ns name w w' =
      (d : StatefulSet) × (r.kube.stateful_sets.get ns name w ≡ (ok d, w')) × (0 < d.ready_replicas)

  module _ (Q : W → Type 0) (ns name : String) where
    abbrev pub AfterDeployment : Bool → State W C → Type 0
    AfterDeployment ready s = ready ≡ true → (w : W) × Q w × SeesDeployment ns name w s.world

    abbrev pub AfterStatefulSet : Bool → State W C → Type 0
    AfterStatefulSet ready s = ready ≡ true → (w : W) × Q w × SeesStatefulSet ns name w s.world

    sees_deployment :
        (s : State W C) (x : Result Deployment) (w' : W)
        → Q s.world
        → r.kube.deployments.get ns name s.world ≡ (x, w')
        → let end =
            continue x (λ d. pure (ltb 0 d.ready_replicas)) raise (record s { world = w' }) in
          Outcome AfterDeployment (λ e s. Unit {0}) end.0 end.1
    unfolding pure raise
    sees_deployment s (ok d) w' q h = λ ready. (s.world, q, (d, h, ground (arith, ready)))
    sees_deployment s (err e) w' q h = tt

    pub Ends-deployment_ready :
        Ends (λ s. Q s.world) (deployment_ready r ns name) AfterDeployment (λ e s. Unit {0})
    unfolding deployment_ready in_world ◌>>=◌ branch
    Ends-deployment_ready = record {
      at = λ s q.
          sees_deployment s (r.kube.deployments.get ns name s.world).0
            (r.kube.deployments.get ns name s.world).1 q refl;
    }

    sees_stateful_set :
        (s : State W C) (x : Result StatefulSet) (w' : W)
        → Q s.world
        → r.kube.stateful_sets.get ns name s.world ≡ (x, w')
        → let end =
            continue x (λ d. pure (ltb 0 d.ready_replicas)) raise (record s { world = w' }) in
          Outcome AfterStatefulSet (λ e s. Unit {0}) end.0 end.1
    unfolding pure raise
    sees_stateful_set s (ok d) w' q h = λ ready. (s.world, q, (d, h, ground (arith, ready)))
    sees_stateful_set s (err e) w' q h = tt

    pub Ends-stateful_set_ready :
        Ends (λ s. Q s.world) (stateful_set_ready r ns name) AfterStatefulSet (λ e s. Unit {0})
    unfolding stateful_set_ready in_world ◌>>=◌ branch
    Ends-stateful_set_ready = record {
      at = λ s q.
          sees_stateful_set s (r.kube.stateful_sets.get ns name s.world).0
            (r.kube.stateful_sets.get ns name s.world).1 q refl;
    }

  module _ (ns name : String) where
    -- Reading the Deployment was the last thing that was done, and it had a ready replica.
    abbrev pub LastSeesDeployment : W → Type 0
    LastSeesDeployment w' = (w : W) × SeesDeployment ns name w w'

    abbrev pub LastSeesStatefulSet : W → Type 0
    LastSeesStatefulSet w' = (w : W) × SeesStatefulSet ns name w w'

    pub Ends-last_deployment :
        Ends
          (λ s. Unit {0})
          (deployment_ready r ns name)
          (λ ready s. ready ≡ true → LastSeesDeployment s.world)
          (λ e s. Unit {0})
    Ends-last_deployment =
        Ends_after _ (Ends-deployment_ready (λ w. Unit {0}) ns name)
          λ ready s seen h. let (w, u, sees) = seen h in (w, sees)

    pub Ends-last_stateful_set :
        Ends
          (λ s. Unit {0})
          (stateful_set_ready r ns name)
          (λ ready s. ready ≡ true → LastSeesStatefulSet s.world)
          (λ e s. Unit {0})
    Ends-last_stateful_set =
        Ends_after _ (Ends-stateful_set_ready (λ w. Unit {0}) ns name)
          λ ready s seen h. let (w, u, sees) = seen h in (w, sees)

  module _ (dp : DataPlatform) (laws : ConditionLaws r.condition_api) (Q : W → Type 0) where
    rollout_seen :
        (own message waiting : String) (x : Result Bool) (end start : State W C)
        → Outcome (λ ready s. ready ≡ true → Q s.world) (λ e s. Unit {0}) x end
        → r.condition_api.is_status_true
            (rollout r dp own message waiting (λ s. (x, end)) start).1.status.conditions
            own
          ≡ true
        → Q (rollout r dp own message waiting (λ s. (x, end)) start).1.world
    unfolding rollout marking report_ready set_condition set_status ◌>>=◌ branch pure raise
        became_ready
    rollout_seen own message waiting (ok true) end start q h = q refl
    rollout_seen own message waiting (ok false) end start q h =
        let told = sym (rollout_after r dp laws own message waiting (ok false) end start) ∙ h in
        absurd (ground (arith, told))
    rollout_seen own message waiting (err e) end start q h =
        let told = sym (rollout_after r dp laws own message waiting (err e) end start) ∙ h in
        absurd (ground (arith, told))

    -- If the condition of a rollout is true after it, then what the steps end with where they report
    -- readiness holds of the world that is left.
    pub rollout_observed :
        (own message waiting : String) (m : Exec (State W C) Bool) (s : State W C)
        → Ends (λ s. Unit {0}) m (λ ready s. ready ≡ true → Q s.world) (λ e s. Unit {0})
        → r.condition_api.is_status_true
            (rollout r dp own message waiting m s).1.status.conditions
            own
          ≡ true
        → Q (rollout r dp own message waiting m s).1.world
    unfolding rollout marking ◌>>=◌ branch
    rollout_observed own message waiting m s em =
        unfold rollout marking ◌>>=◌ branch in
        rollout_seen own message waiting (m s).0 (m s).1 s (em.at s tt)
