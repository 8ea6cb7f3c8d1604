-- ===== src/Kube.antt =====
-- What the program uses of the Kubernetes libraries. None of it is code of the repository, so a
-- record of operations stands for it, an argument of everything that uses it.
pub mod Objects
use data_platform_operator.Base.{ℕ, Bool, List, String, ◌≡◌, ◌==◌, if◌then◌else◌}
use data_platform_operator.Base.Exec.{Exec, Result}
use Objects.{Namespace, Secret, ConfigMap, Service, Deployment, StatefulSet, Job}

-- The client for one kind of object. `create_or_update` is controllerutil.CreateOrUpdate, its
-- function applied to the object that was found or to a blank one, and `owned_by` is
-- controllerutil.SetControllerReference.
pub record Store (W Obj : Type 0) : Type 0 where
  pub get : String → String → Exec W Obj
  pub create : Obj → Exec W (Unit {0})
  pub update : Obj → Exec W (Unit {0})
  pub delete : String → String → Exec W (Unit {0})
  pub create_or_update : String → String → (Obj → Result Obj) → Exec W (Unit {0})
  pub owned_by : String → Obj → Result Obj

-- The API server, the random source of the process, and the pure helpers of other libraries.
pub record Kube (W : Type 0) : Type 0 where
  pub namespaces : Store W Namespace
  pub secrets : Store W Secret
  pub config_maps : Store W ConfigMap
  pub services : Store W Service
  pub deployments : Store W Deployment
  pub stateful_sets : Store W StatefulSet
  pub jobs : Store W Job
  -- `rand.Read` of the number of bytes
  pub random : ℕ → Exec W (List ℕ)
  -- the first 8 bytes of `sha256`, of the parts each followed by a zero byte, in hexadecimal
  pub sha256_prefix : List String → String
  -- `resource.ParseQuantity`, and the text of the quantity
  pub parse_quantity : String → Result String
  -- `url.QueryEscape` and `url.PathEscape`
  pub query_escape : String → String
  pub path_escape : String → String

-- metav1.Condition
pub record Condition : Type 0 where
  pub type : String
  pub status : Bool
  pub reason : String
  pub message : String
  pub observed_generation : ℕ

-- meta.SetStatusCondition and meta.IsStatusConditionTrue
pub record ConditionApi (C : Type 0) : Type 0 where
  pub set_status : C → Condition → C
  pub is_status_true : C → String → Bool

-- Their documented behaviour: a condition that is set has its new status, and the conditions of
-- other types keep theirs.
pub record ConditionLaws {C : Type 0} (api : ConditionApi C) : Type 0 where
  pub set_lem :
      (cs : C) (c : Condition) (t : String)
      → api.is_status_true (api.set_status cs c) t
        ≡ (if c.type == t then c.status else api.is_status_true cs t)
