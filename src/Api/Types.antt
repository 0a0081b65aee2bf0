-- ===== src/Api/Types.antt =====
-- api/v1beta1: questdb_types.go, questdbsnapshot_types.go, questdbsnapshotschedule_types.go.
use questdb_operator.Prelude.{ℕ, String, Bool, true, false, Option, List, String-discrete}
use questdb_operator.Prelude.Int.{ℤ}
use questdb_operator.Kube.Meta.{Blob, StringMap, ObjectMeta}
use questdb_operator.Kube.Objects.Pod.{EnvVar, VolumeMount, Volume, PodSecurityContext}
use questdb_operator.Kube.Objects.Storage.{Quantity}

abbrev pub annotation_questdb_name : String
annotation_questdb_name = "questdb.crd.questdb.io/name"

abbrev pub annotation_questdb_secret_type : String
annotation_questdb_secret_type = "questdb.crd.questdb.io/secret-type"

pub record QuestDbVolumeSpec : Type 0 where
  pub selector : Option Blob
  pub size : Quantity
  pub volume_name : String
  pub storage_class_name : Option String
  pub snapshot_name : String

-- The texts are bytes.
pub record QuestDbConfigSpec : Type 0 where
  pub server_config : List ℕ
  pub log_config : List ℕ

pub record QuestDbSpec : Type 0 where
  pub volume : QuestDbVolumeSpec
  pub config : QuestDbConfigSpec
  pub image : String
  pub affinity : Option Blob
  pub extra_env : List EnvVar
  pub extra_volume_mounts : List VolumeMount
  pub extra_volumes : List Volume
  pub image_pull_policy : String
  pub image_pull_secrets : Blob
  pub node_selector : StringMap
  pub pod_annotations : StringMap
  pub pod_security_context : PodSecurityContext
  pub resources : Blob
  pub stateful_set_annotations : StringMap
  pub tolerations : Blob

pub record QuestDbStatus : Type 0 where
  pub stateful_set_ready_replicas : ℤ

pub record QuestDb : Type 0 where
  pub meta : ObjectMeta
  pub spec : QuestDbSpec
  pub status : QuestDbStatus

-- `QuestDBSnapshotPhase` is a text: the empty one, the five constants, and any other.
pub data SnapshotPhase : Type 0 where
  empty pending running finalizing failed succeeded : SnapshotPhase
  unknown : String → SnapshotPhase

pub SnapshotPhase-discrete : Discrete SnapshotPhase
SnapshotPhase-discrete = hlevel String-discrete

abbrev pub snapshot_complete_finalizer : String
snapshot_complete_finalizer = "questdbsnapshot.crd.questdb.io/snapshot-complete-finalizer"

-- `job_backoff_limit` is an `int32`.
pub record QuestDbSnapshotSpec : Type 0 where
  pub questdb_name : String
  pub volume_snapshot_class_name : Option String
  pub job_backoff_limit : ℤ

pub record QuestDbSnapshot : Type 0 where
  pub meta : ObjectMeta
  pub spec : QuestDbSnapshotSpec
  pub phase : SnapshotPhase

is_final : SnapshotPhase → Bool
is_final succeeded = true
is_final failed = true
is_final _ = false

-- `IsComplete`
unfoldable pub is_complete : QuestDbSnapshot → Bool
unfolding is_final
is_complete s = is_final s.phase

-- `retention` is an `int32`.
pub record QuestDbSnapshotScheduleSpec : Type 0 where
  pub schedule : String
  pub retention : ℤ
  pub snapshot : QuestDbSnapshotSpec

-- `last_snapshot` is 0 if it is not set.
pub record QuestDbSnapshotScheduleStatus : Type 0 where
  pub last_snapshot : ℕ
  pub snapshot_phase : SnapshotPhase

pub record QuestDbSnapshotSchedule : Type 0 where
  pub meta : ObjectMeta
  pub spec : QuestDbSnapshotScheduleSpec
  pub status : QuestDbSnapshotScheduleStatus
