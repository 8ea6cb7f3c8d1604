-- ===== src/Api/Defaults.antt =====
-- api/v1alpha1/defaults.go: the three rules by which a field that is left out gets its value. A
-- pointer field is an `Option`, a field with `omitempty` is empty where it is left out.
use data_platform_operator.Base.{
  Bool, true, ℤ, List, String, Option, none, some, ◌==◌, if◌then◌else◌,
}

unfoldable pub bool_default_true : Option Bool → Bool
bool_default_true none = true
bool_default_true (some v) = v

unfoldable pub int32_or_default : Option ℤ → ℤ → ℤ
int32_or_default none d = d
int32_or_default (some v) d = v

unfoldable pub string_or_default : String → String → String
string_or_default v d = if v == "" then d else v

-- Types of the Kubernetes API that the specification passes through: `corev1.SecretKeySelector`,
-- `corev1.EnvVar` and `corev1.ResourceRequirements`.
pub record SecretKeySelector : Type 0 where
  pub name : String
  pub key : String
  pub optional : Option Bool

pub record EnvVar : Type 0 where
  pub name : String
  pub value : String
  pub value_from : Option SecretKeySelector

pub record ResourceRequirements : Type 0 where
  pub limits : List (String × String)
  pub requests : List (String × String)
