-- ===== src/Kube/Objects/Pod.antt =====
-- Pod templates: k8s.io/api/core/v1, by the fields that the operator sets or compares.
use questdb_operator.Prelude.{ℕ, String, Option, List, String-discrete, ℕ_discrete}
use questdb_operator.Prelude.Int.{ℤ}
use questdb_operator.Kube.Meta.{Blob, Blob-discrete, StringMap}

-- A value and a source of the value, of which the operator's own entries have the first.
pub record EnvVar : Type 0 where
  pub name : String
  pub value : String
  pub value_from : Option Blob

pub record ContainerPort : Type 0 where
  pub name : String
  pub container_port : ℕ
  pub protocol : String

-- An HTTP probe.
pub record Probe : Type 0 where
  pub failure_threshold : ℕ
  pub initial_delay_seconds : ℕ
  pub period_seconds : ℕ
  pub timeout_seconds : ℕ
  pub success_threshold : ℕ
  pub path : String
  pub port : ℕ
  pub scheme : String

-- `options` stands for the fields that only extra mounts set.
pub record VolumeMount : Type 0 where
  pub name : String
  pub mount_path : String
  pub options : Option Blob

pub data VolumeSource : Type 0 where
  persistent_volume_claim : String → VolumeSource
  config_map : String → ℕ → VolumeSource
  secret : String → VolumeSource
  other_source : Blob → VolumeSource

pub record Volume : Type 0 where
  pub name : String
  pub source : VolumeSource

-- `env_from` holds the names of secrets, the only source that the operator uses.
pub record Container : Type 0 where
  pub name : String
  pub image : String
  pub image_pull_policy : String
  pub command : List String
  pub env : List EnvVar
  pub env_from : List String
  pub ports : List ContainerPort
  pub resources : Option Blob
  pub liveness_probe : Option Probe
  pub readiness_probe : Option Probe
  pub termination_message_path : String
  pub termination_message_policy : String
  pub volume_mounts : List VolumeMount

pub record PodSecurityContext : Type 0 where
  pub fs_group : Option ℤ
  pub rest : Blob

pub record PodSpec : Type 0 where
  pub affinity : Option Blob
  pub containers : List Container
  pub image_pull_secrets : Blob
  pub node_selector : StringMap
  pub restart_policy : String
  pub security_context : Option PodSecurityContext
  pub tolerations : Blob
  pub volumes : List Volume

pub record TemplateMeta : Type 0 where
  pub name : String
  pub namespace : String
  pub labels : StringMap
  pub annotations : StringMap

pub record PodTemplateSpec : Type 0 where
  pub meta : TemplateMeta
  pub spec : PodSpec

ℤ-discrete : Discrete ℤ
ℤ-discrete = hlevel ℕ_discrete

pub StringMap-discrete : Discrete StringMap
StringMap-discrete = hlevel String-discrete

pub TemplateMeta-discrete : Discrete TemplateMeta
TemplateMeta-discrete = hlevel (String-discrete, StringMap-discrete)

pub Containers-discrete : Discrete (List Container)
Containers-discrete = hlevel (String-discrete, ℕ_discrete, Blob-discrete)

pub Volumes-discrete : Discrete (List Volume)
Volumes-discrete = hlevel (String-discrete, ℕ_discrete, Blob-discrete)

pub SecurityContext-discrete : Discrete (Option PodSecurityContext)
SecurityContext-discrete = hlevel (ℤ-discrete, Blob-discrete)
