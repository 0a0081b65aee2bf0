-- ===== src/Schedule/Calls.antt =====
-- The calls that the schedule controller makes: `client.Client`, `record.EventRecorder` and the
-- clock, and the functions of the libraries that it uses.
use questdb_operator.Prelude.{ℕ, String, Bool, Option, List, ◌∷◌}
use questdb_operator.Kube.Error.{Error, Result, ok}
use questdb_operator.Kube.Meta.{NamespacedName}
use questdb_operator.Kube.Exec.{Exec, State}
use questdb_operator.Api.Types.{QuestDbSnapshot, QuestDbSnapshotSchedule}

pub record Client (W : Type 0) : Type 0 where
  pub get_schedule : NamespacedName → W → Result QuestDbSnapshotSchedule × W
  pub update_schedule : QuestDbSnapshotSchedule → W → Result QuestDbSnapshotSchedule × W
  pub update_schedule_status : QuestDbSnapshotSchedule → W → Result QuestDbSnapshotSchedule × W
  pub list_snapshots : String → W → Result (List QuestDbSnapshot) × W
  pub create_snapshot : QuestDbSnapshot → W → Result QuestDbSnapshot × W
  pub delete_snapshot : QuestDbSnapshot → W → Result (Unit {0}) × W
  -- `TimeSource.Now()`
  pub now : W → ℕ × W

pub data EventType : Type 0 where
  normal warning : EventType

-- A call with its arguments and its answer. Of an event the type and the reason are kept.
pub data Call : Type 0 where
  got_schedule : NamespacedName → Result QuestDbSnapshotSchedule → Call
  updated_schedule : QuestDbSnapshotSchedule → Result QuestDbSnapshotSchedule → Call
  updated_status : QuestDbSnapshotSchedule → Result QuestDbSnapshotSchedule → Call
  listed_snapshots : String → Result (List QuestDbSnapshot) → Call
  created_snapshot : QuestDbSnapshot → Result QuestDbSnapshot → Call
  deleted_snapshot : QuestDbSnapshot → Result (Unit {0}) → Call
  read_clock : ℕ → Call
  event : EventType → String → Call

abbrev pub Handler : Type 0 → Type 0 → Type 0
Handler W A = Exec W Call A

-- `r.Recorder.Event`
abbrev pub record_event : {W : Type 0} → EventType → String → Handler W (Unit {0})
record_event type reason s = (ok tt, record s { log = event type reason ∷ s.log })

-- One call of a closure that returns an error and may change the snapshot that it captures.
abbrev pub Attempt : Type 0 → Type 0
Attempt W = QuestDbSnapshot → State W Call → (Option Error × QuestDbSnapshot) × State W Call

-- `sort.Slice`, `time.Time.Format` with the layout of the snapshots' names, and
-- `retry.RetryOnConflict` with `retry.DefaultRetry`.
pub record GoLib (W : Type 0) : Type 0 where
  pub sort_slice :
      (QuestDbSnapshot → QuestDbSnapshot → Bool) → List QuestDbSnapshot → List QuestDbSnapshot
  pub format_time : ℕ → String
  pub retry_on_conflict : Attempt W → Attempt W
