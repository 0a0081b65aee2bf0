-- ===== src/Snapshot/Calls.antt =====
-- The calls that the snapshot controller makes: `client.Client` and `record.EventRecorder`.
use questdb_operator.Prelude.{String, List, ◌∷◌}
use questdb_operator.Kube.Error.{Result, ok}
use questdb_operator.Kube.Meta.{NamespacedName}
use questdb_operator.Kube.Exec.{Exec}
use questdb_operator.Kube.Objects.Workload.{Job, Secret}
use questdb_operator.Kube.Objects.Storage.{VolumeSnapshot, VolumeSnapshotClass}
use questdb_operator.Api.Types.{QuestDb, QuestDbSnapshot}

-- The API server, in a state `W`. What writes an object answers with the object as it is stored,
-- which the Go client decodes into its argument.
pub record Client (W : Type 0) : Type 0 where
  pub get_snapshot : NamespacedName → W → Result QuestDbSnapshot × W
  pub update_snapshot : QuestDbSnapshot → W → Result QuestDbSnapshot × W
  pub update_snapshot_status : QuestDbSnapshot → W → Result QuestDbSnapshot × W
  pub get_questdb : NamespacedName → W → Result QuestDb × W
  pub get_volume_snapshot_class : String → W → Result VolumeSnapshotClass × W
  pub list_secrets : String → W → Result (List Secret) × W
  pub create_job : Job → W → Result Job × W
  pub get_job : NamespacedName → W → Result Job × W
  pub delete_job : Job → W → Result (Unit {0}) × W
  pub create_volume_snapshot : VolumeSnapshot → W → Result VolumeSnapshot × W
  pub get_volume_snapshot : NamespacedName → W → Result VolumeSnapshot × W

pub data EventType : Type 0 where
  normal warning : EventType

-- A call with its arguments and its answer. Of an event the type and the reason are kept.
pub data Call : Type 0 where
  got_snapshot : NamespacedName → Result QuestDbSnapshot → Call
  updated_snapshot : QuestDbSnapshot → Result QuestDbSnapshot → Call
  updated_status : QuestDbSnapshot → Result QuestDbSnapshot → Call
  got_questdb : NamespacedName → Result QuestDb → Call
  got_class : String → Result VolumeSnapshotClass → Call
  listed_secrets : String → Result (List Secret) → Call
  created_job : Job → Result Job → Call
  got_job : NamespacedName → Result Job → Call
  deleted_job : Job → Result (Unit {0}) → Call
  created_volume_snapshot : VolumeSnapshot → Result VolumeSnapshot → Call
  got_volume_snapshot : NamespacedName → Result VolumeSnapshot → Call
  event : EventType → String → Call

-- A handler of this controller.
abbrev pub Handler : Type 0 → Type 0 → Type 0
Handler W A = Exec W Call A

-- `r.Recorder.Eventf`
abbrev pub record_event : {W : Type 0} → EventType → String → Handler W (Unit {0})
record_event type reason s = (ok tt, record s { log = event type reason ∷ s.log })
