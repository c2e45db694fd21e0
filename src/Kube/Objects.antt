-- ===== src/Kube/Objects.antt =====
-- The Kubernetes objects that the operator reads and writes.
use verify_directory_operato.Base.{ℕ, Bool, Option, String, List}
use verify_directory_operato.Base.Int.{ℤ}
use verify_directory_operato.Base.Dict.{Dict}
use verify_directory_operato.Api.{Labels, Meta, EnvVar, EnvFromSource, Slice}

-- An error of Go. `message` is err.Error(); the kinds are what k8serrors distinguishes.
pub data ErrorKind : Type 0 where
  not_found already_exists other : ErrorKind

pub record Error : Type 0 where
  pub kind : ErrorKind
  pub message : String

pub record ConfigMap : Type 0 where
  pub meta : Meta
  pub entries : Dict String

pub data VolumeSource : Type 0 where
  config_map_source : String → String → VolumeSource
  claim_source : String → Bool → VolumeSource

pub record Volume : Type 0 where
  pub name : String
  pub source : VolumeSource

pub record VolumeMount : Type 0 where
  pub name : String
  pub mount_path : String

pub record Probe : Type 0 where
  pub initial_delay : ℕ
  pub period : ℕ
  pub command : List String

pub record Container : Type 0 where
  pub name : String
  pub image : String
  pub pull_policy : String
  pub env : List EnvVar
  pub env_from : Slice EnvFromSource
  pub ports : List ℤ
  pub liveness : Option Probe
  pub readiness : Option Probe
  pub resources : String
  pub mounts : List VolumeMount

pub record PodSpec : Type 0 where
  pub volumes : List Volume
  pub pull_secrets : Slice String
  pub service_account_name : String
  pub security_context : Option String
  pub hostname : String
  pub never_restart : Bool
  pub containers : List Container

pub record PodTemplate : Type 0 where
  pub name : String
  pub labels : Labels
  pub annotations : Dict String
  pub spec : PodSpec

pub record Job : Type 0 where
  pub meta : Meta
  pub completions : ℕ
  pub ttl : ℕ
  pub backoff_limit : ℕ
  pub template : PodTemplate

-- appsv1.ReplicaSet, and appsv1.Deployment, which has the same fields here.
pub record ReplicaSet : Type 0 where
  pub meta : Meta
  pub replicas : ℤ
  pub selector : Labels
  pub template : PodTemplate

pub record Service : Type 0 where
  pub meta : Meta
  pub cluster_ip : String
  pub selector : Labels
  pub port_name : String
  pub port : ℤ
  pub target_port : ℤ

pub data Object : Type 0 where
  config_map : ConfigMap → Object
  job : Job → Object
  replica_set : ReplicaSet → Object
  deployment : ReplicaSet → Object
  service : Service → Object

-- What a deletion names: a kind, a namespace and a name.
pub data Kind : Type 0 where
  config_maps replica_sets services : Kind

-- corev1.PodPhase
pub data Phase : Type 0 where
  pending running succeeded failed unknown : Phase

pub record ContainerStatus : Type 0 where
  pub ready : Bool
  pub restart_count : ℕ

-- A running pod: its name, labels, the names of its containers, and its status.
pub record Pod : Type 0 where
  pub name : String
  pub labels : Labels
  pub containers : List String
  pub phase : Phase
  pub statuses : List ContainerStatus

-- batchv1.JobStatus
pub record JobStatus : Type 0 where
  pub failures : ℕ
  pub successes : ℕ

-- ldap.Entry and ldap.EntryAttribute
pub record LdapAttribute : Type 0 where
  pub name : String
  pub values : List String

pub record LdapEntry : Type 0 where
  pub dn : String
  pub attributes : List LdapAttribute
