-- ===== src/Api.antt =====
-- src/api/v1/ibmsecurityverifydirectory_types.go: the custom resource. Values of Kubernetes types
-- that the operator only passes on or compares as a whole (resource requirements, the security
-- context, pull secrets) stand as texts.
use verify_directory_operato.Base.{ℕ, Bool, Option, none, some, String, List, []}
use verify_directory_operato.Base.Int.{ℤ}
use verify_directory_operato.Base.Dict.{Dict}

-- map[string]string
abbrev pub Labels : Type 0
Labels = Dict String

-- metav1.ObjectMeta, as far as it is read or written.
pub record Meta : Type 0 where
  pub name : String
  pub namespace : String
  pub labels : Labels
  pub owners : List String

-- A slice of a document: nil, or the elements of one that was made, which may be none.
abbrev pub Slice {ℓ} : Type ℓ → Type ℓ
Slice A = Option (List A)

-- What a range over a slice meets.
abbrev pub elements {ℓ} : {A : Type ℓ} → Slice A → List A
elements none = []
elements (some xs) = xs

-- corev1.EnvVar; its source as a whole is a text.
pub record EnvVar : Type 0 where
  pub name : String
  pub value : String
  pub value_from : Option String

-- The ConfigMapRef or SecretRef of a corev1.EnvFromSource.
pub record SourceRef : Type 0 where
  pub name : String
  pub optional : Option Bool

-- corev1.EnvFromSource
pub record EnvFromSource : Type 0 where
  pub prefix : String
  pub config_map_ref : Option SourceRef
  pub secret_ref : Option SourceRef

pub record ImageSpec : Type 0 where
  pub repo : String
  pub label : String
  pub pull_policy : String
  pub pull_secrets : Slice String

pub record ProxySpec : Type 0 where
  pub pvc : String
  pub replicas : ℤ

pub record ConfigMapEntry : Type 0 where
  pub name : String
  pub key : String

pub record ConfigMapSpec : Type 0 where
  pub proxy : ConfigMapEntry
  pub server : ConfigMapEntry

pub record PodsSpec : Type 0 where
  pub image : ImageSpec
  pub proxy : ProxySpec
  pub config_map : ConfigMapSpec
  pub resources : String
  pub env_from : Slice EnvFromSource
  pub env : Slice EnvVar
  pub service_account_name : String
  pub security_context : Option String

pub record Spec : Type 0 where
  pub pvcs : List String
  pub pods : PodsSpec

-- metav1.ConditionStatus
pub data ConditionStatus : Type 0 where
  status_true status_false status_unknown : ConditionStatus

-- metav1.Condition, without its times.
pub record Condition : Type 0 where
  pub kind : String
  pub status : ConditionStatus
  pub reason : String
  pub message : String

-- IBMSecurityVerifyDirectory
pub record Directory : Type 0 where
  pub name : String
  pub namespace : String
  pub generation : ℕ
  pub spec : Spec
  pub conditions : List Condition
