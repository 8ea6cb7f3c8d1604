-- ===== src/Kube/Objects.antt =====
-- The objects of the Kubernetes API, as far as the program reads or writes them. These types are
-- the API's; a byte string of a Secret is a text, and a map is an association list.
use data_platform_operator.Base.{ℕ, ℤ, Bool, Option, List, String}
use data_platform_operator.Api.Defaults.{EnvVar, ResourceRequirements}

-- `created` and `deleting`: the creation and deletion timestamps are not zero.
pub record ObjectMeta : Type 0 where
  pub name : String
  pub namespace : String
  pub labels : List (String × String)
  pub annotations : List (String × String)
  pub created : Bool
  pub deleting : Bool

pub record Namespace : Type 0 where
  pub meta : ObjectMeta

pub record Secret : Type 0 where
  pub meta : ObjectMeta
  pub type : String
  pub contents : List (String × String)

pub record ConfigMap : Type 0 where
  pub meta : ObjectMeta
  pub contents : List (String × String)

pub record ServicePort : Type 0 where
  pub name : String
  pub port : ℕ
  pub target_port : ℕ

pub record Service : Type 0 where
  pub meta : ObjectMeta
  pub type : String
  pub selector : List (String × String)
  pub ports : List ServicePort

pub record PodSecurityContext : Type 0 where
  pub run_as_non_root : Bool
  pub seccomp_profile : String
  pub run_as_user : Option ℕ
  pub run_as_group : Option ℕ
  pub fs_group : Option ℕ
  pub fs_group_change_policy : Option String

pub record SecurityContext : Type 0 where
  pub allow_privilege_escalation : Bool
  pub drop_capabilities : List String
  pub run_as_non_root : Bool
  pub run_as_user : Option ℕ
  pub run_as_group : Option ℕ

pub data Probe : Type 0 where
  http_get : String → ℕ → ℕ → ℕ → Probe
  tcp_socket : ℕ → ℕ → Probe

pub record ContainerPort : Type 0 where
  pub name : String
  pub container_port : ℕ

pub record VolumeMount : Type 0 where
  pub name : String
  pub mount_path : String
  pub sub_path : String
  pub read_only : Bool

pub record Container : Type 0 where
  pub name : String
  pub image : String
  pub image_pull_policy : String
  pub command : List String
  pub args : List String
  pub ports : List ContainerPort
  pub env : List EnvVar
  pub volume_mounts : List VolumeMount
  pub readiness_probe : Option Probe
  pub resources : Option ResourceRequirements
  pub security_context : SecurityContext

pub data VolumeSource : Type 0 where
  empty_dir : VolumeSource
  config_map : String → Option ℕ → VolumeSource
  secret : String → VolumeSource

pub record Volume : Type 0 where
  pub name : String
  pub source : VolumeSource

pub record PodSpec : Type 0 where
  pub restart_policy : String
  pub security_context : Option PodSecurityContext
  pub init_containers : List Container
  pub containers : List Container
  pub volumes : List Volume

pub record PodTemplate : Type 0 where
  pub labels : List (String × String)
  pub annotations : List (String × String)
  pub spec : PodSpec

pub record Deployment : Type 0 where
  pub meta : ObjectMeta
  pub selector : List (String × String)
  pub replicas : Option ℤ
  pub template : PodTemplate
  pub ready_replicas : ℕ

-- `storage`: the requested size of the one claim template named `data`
pub record StatefulSet : Type 0 where
  pub meta : ObjectMeta
  pub selector : List (String × String)
  pub service_name : String
  pub storage : Option String
  pub replicas : Option ℤ
  pub template : PodTemplate
  pub ready_replicas : ℕ

-- a condition of a Job or a Pod, by its type and whether its status is "True"
pub record StatusCondition : Type 0 where
  pub type : String
  pub is_true : Bool

pub record Job : Type 0 where
  pub meta : ObjectMeta
  pub backoff_limit : Option ℕ
  pub template : PodTemplate
  pub conditions : List StatusCondition
  pub succeeded : ℕ
