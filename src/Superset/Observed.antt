-- ===== src/Superset/Observed.antt =====
-- What a condition of Superset that is true tells of its three workloads.
use data_platform_operator.Base.{
  Bool, true, false, Option, none, some, String, ◌≡◌, refl, sym, ◌∙◌, arith, not, if◌then◌else◌,
}
use data_platform_operator.Base.Exec.{Result, ok, err, Exec, branch, pure, raise, ◌>>=◌}
use data_platform_operator.Base.Exec.Ends.{Ends, Ends_any, Ends-bind, Ends-pure, Outcome}
use data_platform_operator.Api.Engines.{superset_namespace_or_default}
use data_platform_operator.Api.Platform.{DataPlatform}
use data_platform_operator.Config.{OidcConfig}
use data_platform_operator.Kube.{ConditionLaws}
use data_platform_operator.Reconciler.{Reconciler, State, set_status}
use data_platform_operator.Cluster.{marking, set_condition, deployment_ready}
use data_platform_operator.Cluster.Observed.{
  SeesDeployment, AfterDeployment, LastSeesStatefulSet, Ends-deployment_ready,
  Ends-last_stateful_set,
}
use data_platform_operator.Superset.{
  superset_waiting, superset_rolled_out, superset_concluded, announce_endpoint, reconcile_superset,
}

module _ {W C : Type 0} (r : Reconciler W C) (dp : DataPlatform) where
  abbrev ns : String
  ns = superset_namespace_or_default dp.spec.superset

  abbrev SeesPostgres : W → Type 0
  SeesPostgres w = LastSeesStatefulSet r ns "postgres" w

  abbrev SeesRedis : W → Type 0
  SeesRedis w = (v : W) × SeesPostgres v × SeesDeployment r ns "superset-redis" v w

  -- Reading Superset's PostgreSQL, its Redis and its own Deployment, one after the other, was the
  -- last that was done, and each had a ready replica.
  abbrev pub SeesAll : W → Type 0
  SeesAll w = (v : W) × SeesRedis v × SeesDeployment r ns "superset" v w

  -- the end of the checks, where no workload is waited for
  abbrev Settled : Option String → State W C → Type 0
  Settled o s = o ≡ none → SeesAll s.world

  abbrev after_redis : Bool → Exec (State W C) (Option String)
  after_redis redis = if not redis then pure (some "Superset Redis is not ready") else do
    ready ← deployment_ready r ns "superset"
    pure (if ready then none else some "Superset Deployment is not ready")

  after_redis-Settled :
      (redis : Bool)
      → Ends
          (AfterDeployment r SeesPostgres ns "superset-redis" redis)
          (after_redis redis)
          Settled
          (λ e s. Unit {0})
  after_redis-Settled false = Ends-pure _ (λ s h q. ground (arith, q))
  after_redis-Settled true = record {
    at = λ s h.
        (Ends-bind {P = λ s. SeesRedis s.world} _ _
            (Ends-deployment_ready r SeesRedis ns "superset") settled).at
          s (h refl);
  }
    where
      settled :
          (ready : Bool)
          → Ends
              (AfterDeployment r SeesRedis ns "superset" ready)
              (pure (if ready then none else some "Superset Deployment is not ready"))
              Settled
              (λ e s. Unit {0})
      settled true = Ends-pure _ (λ s h q. h refl)
      settled false = Ends-pure _ (λ s h q. ground (arith, q))

  abbrev after_postgres : Bool → Exec (State W C) (Option String)
  after_postgres postgres =
      if not postgres
      then pure (some "Superset Postgres is not ready")
      else do redis ← deployment_ready r ns "superset-redis"; after_redis redis

  after_postgres-Settled :
      (postgres : Bool)
      → Ends
          (λ s. postgres ≡ true → SeesPostgres s.world)
          (after_postgres postgres)
          Settled
          (λ e s. Unit {0})
  after_postgres-Settled false = Ends-pure _ (λ s h q. ground (arith, q))
  after_postgres-Settled true = record {
    at = λ s h.
        (Ends-bind {P = λ s. SeesPostgres s.world} _ _
            (Ends-deployment_ready r SeesPostgres ns "superset-redis") after_redis-Settled).at
          s (h refl);
  }

  superset_waiting-Settled : Ends (λ s. Unit {0}) (superset_waiting r dp) Settled (λ e s. Unit {0})
  unfolding superset_waiting
  superset_waiting-Settled =
      Ends-bind _ _ (Ends-last_stateful_set r ns "postgres") after_postgres-Settled

  superset_rolled_out-Settled :
      (oidc : OidcConfig)
      → Ends (λ s. Unit {0}) (superset_rolled_out r dp oidc) Settled (λ e s. Unit {0})
  unfolding superset_rolled_out
  superset_rolled_out-Settled oidc = Ends_any _ _ λ u. Ends_any _ _ λ u. Ends_any _ _ λ u.
      Ends_any _ _
        λ cfg. Ends_any _ _ λ u. Ends_any _ _ λ u. Ends_any _ _ λ u. superset_waiting-Settled

  module _ (laws : ConditionLaws r.condition_api) where
    Settled-after :
        (x : Result (Option String)) (start end : State W C)
        → Outcome Settled (λ e s. Unit {0}) x end
        → let left =
            ((marking r dp "SupersetReady" "Error" (λ s. (x, end)) >>= superset_concluded r dp)
              start).1 in
          r.condition_api.is_status_true left.status.conditions "SupersetReady" ≡ true
          → SeesAll left.world
    unfolding marking superset_concluded set_condition set_status ◌>>=◌ branch pure raise
    Settled-after (ok none) start end q h = q refl
    Settled-after (ok (some w)) start end q h =
        let told = sym (laws.set_lem end.status.conditions _ "SupersetReady") ∙ h in
        absurd (ground (arith, told))
    Settled-after (err e) start end q h =
        let told = sym (laws.set_lem end.status.conditions _ "SupersetReady") ∙ h in
        absurd (ground (arith, told))

    -- If the condition SupersetReady is true after Superset's component, then the last that the
    -- component did was to read the StatefulSet of its PostgreSQL, the Deployment of its Redis and
    -- its own, one after the other, and each had a ready replica.
    pub reconcile_superset_observed :
        (oidc : OidcConfig) (s : State W C)
        → r.condition_api.is_status_true
            (reconcile_superset r dp oidc s).1.status.conditions
            "SupersetReady"
          ≡ true
        → SeesAll (reconcile_superset r dp oidc s).1.world
    unfolding reconcile_superset announce_endpoint set_status marking ◌>>=◌ branch
    reconcile_superset_observed oidc s =
        let (x, end) = superset_rolled_out r dp oidc (announce_endpoint r dp s).1 in
        unfold marking ◌>>=◌ branch in
        Settled-after x s end
          ((superset_rolled_out-Settled oidc).at (announce_endpoint r dp s).1 tt)
