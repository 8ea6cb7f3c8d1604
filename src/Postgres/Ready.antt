-- ===== src/Postgres/Ready.antt =====
-- What the component of LakeKeeper's database owes the controller, and when its condition is true.
use data_platform_operator.Base.{Bool, true, Option, none, some, String, ◌≡◌, sym, subst}
use data_platform_operator.Base.Exec.Keeps.{Keeps, Keeps-if, Keeps-bind, Keeps-pure, Keeps-raise}
use data_platform_operator.Api.Engines.{lakekeeper_namespace_or_default}
use data_platform_operator.Api.Platform.{DataPlatform}
use data_platform_operator.Api.Database.{PostgresCredentialsSecretRef, postgres_is_embedded}
use data_platform_operator.Kube.{ConditionLaws}
use data_platform_operator.Reconciler.{Reconciler, State}
use data_platform_operator.Cluster.Frame.{
  Is, Keeps-marking, Keeps-get_secret_data, Keeps-set_condition,
}
use data_platform_operator.Base.Exec.Ends.{Ends, Ends_any}
use data_platform_operator.Cluster.Observed.{
  LastSeesStatefulSet, Ends-last_stateful_set, rollout_observed,
}
use data_platform_operator.Cluster.Rollout.{
  frame_rules, Keeps-unless_secret, rollout-Owns, then-pure,
}
use data_platform_operator.Controller.Parts.{Owns}
use data_platform_operator.Postgres.{
  postgres_missing, credential, external_from, external_with, external_postgres,
  ensure_postgres_secret, apply_postgres_service, apply_postgres_stateful_set, postgres_rolled_out,
  reconcile_postgres,
}

module _ {W C : Type 0} (r : Reconciler W C) (dp : DataPlatform) where
  postgres_rolled_out-Keeps : (t : String) (b : Bool) → Keeps (Is r t b) (postgres_rolled_out r dp)
  unfolding postgres_rolled_out ensure_postgres_secret apply_postgres_service
      apply_postgres_stateful_set
  postgres_rolled_out-Keeps t b = search (frame_rules, Keeps-unless_secret)

  postgres_rolled_out_seen :
      Ends
        (λ s. Unit {0})
        (postgres_rolled_out r dp)
        (λ ready s.
          ready ≡ true
          → LastSeesStatefulSet r
              (lakekeeper_namespace_or_default dp.spec.lakekeeper)
              "postgres"
              s.world)
        (λ e s. Unit {0})
  unfolding postgres_rolled_out
  postgres_rolled_out_seen = Ends_any _ _ λ u. Ends_any _ _ λ u.
      Ends_any _ _ λ u.
        Ends-last_stateful_set r (lakekeeper_namespace_or_default dp.spec.lakekeeper) "postgres"

  module _ (laws : ConditionLaws r.condition_api) where
    postgres_missing-Owns :
        (message : String) → Owns r "PostgresReady" (postgres_missing r dp message)
    unfolding postgres_missing
    postgres_missing-Owns message t b other =
        Keeps-bind _ _ (Keeps-set_condition r dp laws _ _ _ _ t b other) λ u. Keeps-raise _

    credential-Owns :
        (ref : PostgresCredentialsSecretRef) (key : String)
        → Owns r "PostgresReady" (credential r dp ref key)
    unfolding credential
    credential-Owns ref key t b other =
        Keeps-marking r dp laws _ _ _ t b other (Keeps-get_secret_data r _ _ _ t b)

    external_with-Owns :
        (ref : Option PostgresCredentialsSecretRef)
        → Owns r "PostgresReady" (external_with r dp ref)
    unfolding external_with external_from
    external_with-Owns none t b other = postgres_missing-Owns _ t b other
    external_with-Owns (some ref) t b other =
        Keeps-bind _ _ (credential-Owns ref _ t b other) λ user.
          Keeps-bind _ _ (credential-Owns ref _ t b other) λ pass.
            Keeps-bind _ _ (Keeps-set_condition r dp laws _ _ _ _ t b other) λ u. Keeps-pure _

    pub reconcile_postgres-Owns : Owns r "PostgresReady" (reconcile_postgres r dp)
    unfolding reconcile_postgres external_postgres
    reconcile_postgres-Owns t b other =
        Keeps-if _ _ _
          (Keeps-bind _ _ (rollout-Owns r dp laws _ _ _ _ postgres_rolled_out-Keeps t b other)
            λ u. Keeps-pure _)
          (Keeps-if _ _ _ (postgres_missing-Owns _ t b other) (external_with-Owns _ t b other))

    -- If Postgres runs in the cluster and PostgresReady is true after its component, then the last
    -- thing that the component did was to read its StatefulSet, and it had a ready replica.
    pub reconcile_postgres_observed :
        (s : State W C)
        → postgres_is_embedded dp.spec.lakekeeper.postgres ≡ true
        → r.condition_api.is_status_true
            (reconcile_postgres r dp s).1.status.conditions
            "PostgresReady"
          ≡ true
        → LastSeesStatefulSet r
            (lakekeeper_namespace_or_default dp.spec.lakekeeper)
            "postgres"
            (reconcile_postgres r dp s).1.world
    unfolding reconcile_postgres
    reconcile_postgres_observed s embedded = rw embedded (
        subst
          (λ e.
            r.condition_api.is_status_true e.status.conditions "PostgresReady" ≡ true
            → LastSeesStatefulSet r (lakekeeper_namespace_or_default dp.spec.lakekeeper) "postgres"
                e.world)
          (sym (then-pure _ _ s))
          (rollout_observed r dp laws
            (LastSeesStatefulSet r (lakekeeper_namespace_or_default dp.spec.lakekeeper) "postgres")
            _ _ _ (postgres_rolled_out r dp) s postgres_rolled_out_seen))
