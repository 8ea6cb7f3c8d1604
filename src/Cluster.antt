-- ===== src/Cluster.antt =====
-- internal/controller/apply.go, namespace.go: what every component of the platform is built with.
pub mod Names
pub mod Frame
pub mod Workloads
pub mod Rollout
pub mod Observed
pub mod Environment
use data_platform_operator.Base.{
  ℕ, Bool, true, false, Option, none, some, List, [], ◌∷◌, String, ◌<>◌, ltb, lookup, if◌then◌else◌,
}
use data_platform_operator.Base.Exec.{
  Error, Result, ok, err, Exec, pure, raise, lift, gets, errorf, branch, ◌>>=◌, ◌>>◌, if_missing,
}
use data_platform_operator.Api.Platform.{DataPlatform, DataPlatformStatus}
use data_platform_operator.Kube.Objects.{
  ObjectMeta, Namespace, Secret, PodSecurityContext, SecurityContext,
}
use data_platform_operator.Kube.{Store}
use data_platform_operator.Reconciler.{Reconciler, State, in_world, set_status}
use Names.{labels_for, hex_encode}

abbrev pub new_meta : String → String → List (String × String) → ObjectMeta
new_meta name namespace labels = record {
  name = name;
  namespace = namespace;
  labels = labels;
  annotations = [];
  created = false;
  deleting = false;
}

abbrev pub bind_result : {A B : Type 0} → Result A → (A → Result B) → Result B
bind_result (ok a) f = f a
bind_result (err e) f = err e

abbrev positive : ℕ → Option ℕ
positive n = if ltb 0 n then some n else none

unfoldable pub restricted_pod_security : ℕ → ℕ → PodSecurityContext
restricted_pod_security uid gid = record {
  run_as_non_root = true;
  seccomp_profile = "RuntimeDefault";
  run_as_user = positive uid;
  run_as_group = positive gid;
  fs_group = positive gid;
  fs_group_change_policy = if ltb 0 gid then some "OnRootMismatch" else none;
}

unfoldable pub restricted_container_security : ℕ → ℕ → SecurityContext
restricted_container_security uid gid = record {
  allow_privilege_escalation = false;
  drop_capabilities = "ALL" ∷ [];
  run_as_non_root = true;
  run_as_user = positive uid;
  run_as_group = positive gid;
}

-- a value under a key of a Secret that was read
unfoldable pub secret_value : String → String → String → Secret → Result String
secret_value name namespace key secret = elim (lookup key secret.contents) [
  | none ↦ err (errorf ("secret " <> namespace <> "/" <> name <> " is missing key " <> key))
  | some v ↦ ok v
]

module _ {W C : Type 0} (r : Reconciler W C) where
  -- `hashData`
  unfoldable pub hash_data : List String → String
  hash_data = r.kube.sha256_prefix

  unfoldable pub random_hex : ℕ → Exec (State W C) String
  random_hex n = do bytes ← in_world (r.kube.random n); pure (hex_encode bytes)

  unfoldable pub get_secret_data : String → String → String → Exec (State W C) String
  get_secret_data name namespace key = do
    secret ← in_world (r.kube.secrets.get namespace name)
    lift (secret_value name namespace key secret)

  -- `statefulSetReady`
  unfoldable pub stateful_set_ready : String → String → Exec (State W C) Bool
  stateful_set_ready namespace name = do
    sts ← in_world (r.kube.stateful_sets.get namespace name)
    pure (ltb 0 sts.ready_replicas)

  -- `deploymentReady`
  unfoldable pub deployment_ready : String → String → Exec (State W C) Bool
  deployment_ready namespace name = do
    deploy ← in_world (r.kube.deployments.get namespace name)
    pure (ltb 0 deploy.ready_replicas)

  unfoldable pub condition_true : String → Exec (State W C) Bool
  condition_true t = gets (λ s. r.condition_api.is_status_true s.status.conditions t)

  module _ (dp : DataPlatform) where
    unfoldable pub set_condition : String → Bool → String → String → Exec (State W C) (Unit {0})
    set_condition type status reason message = set_status λ st. record st {
      conditions = r.condition_api.set_status st.conditions (record {
        type = type;
        status = status;
        reason = reason;
        message = message;
        observed_generation = dp.generation;
      });
    }

    -- An error of `m` marks the condition with the error's text, and is returned.
    unfoldable pub marking :
        {A : Type 0} → String → String → Exec (State W C) A → Exec (State W C) A
    marking type reason m = branch m pure λ e. set_condition type false reason e.message >> raise e

    -- `apply`: create or update, with the owner reference set behind the mutation
    unfoldable pub apply :
        {Obj : Type 0}
        → Store W Obj
        → String
        → String
        → (Obj → Result Obj)
        → Exec (State W C) (Unit {0})
    apply store namespace name mutate = in_world (
        store.create_or_update namespace name
          λ obj. bind_result (mutate obj) (store.owned_by dp.name))

    unfoldable pub ensure_generated_secret :
        String → String → String → List (String × String) → Exec (State W C) (Unit {0})
    ensure_generated_secret name namespace component contents =
        if_missing (λ secret. pure tt)
          (do
            owned ← lift (
                r.kube.secrets.owned_by dp.name (record {
                  meta = new_meta name namespace (labels_for dp component);
                  type = "Opaque";
                  contents = contents;
                }))
            in_world (r.kube.secrets.create owned))
          (in_world (r.kube.secrets.get namespace name))

    unfoldable pub ensure_namespace : String → String → Exec (State W C) (Unit {0})
    ensure_namespace name component =
        if_missing (λ ns. pure tt)
          (do
            owned ← lift (
                r.kube.namespaces.owned_by dp.name
                  (record { meta = new_meta name "" (labels_for dp component) }))
            in_world (r.kube.namespaces.create owned))
          (in_world (r.kube.namespaces.get "" name))

    -- `patchStatus`: the status goes onto the latest object, whose spec and metadata stay
    unfoldable pub patch_status : Exec (State W C) (Unit {0})
    patch_status = do
      latest ← in_world (r.get_platform dp.name)
      st ← gets (λ s. s.status)
      in_world (r.update_status latest.0.name st)
