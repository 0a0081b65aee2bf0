-- ===== src/Api/Validation.antt =====
-- What the webhooks return: no error, or an error for the check that failed. And what they get.
pub mod Checks
use questdb_operator.Prelude.{Bool, true, false, List, ℕ, Option, none, some}
use questdb_operator.Api.Types.{QuestDb, QuestDbSnapshot, QuestDbSnapshotSchedule}

pub data ValidationError : Type 0 where
  -- questdb_webhook.go
  reserved_key : List ℕ → ValidationError
  volume_size_zero snapshot_and_selector not_a_questdb volume_shrunk : ValidationError
  snapshot_name_changed selector_changed volume_name_changed : ValidationError
  storage_class_changed pull_policy_empty : ValidationError
  -- questdbsnapshot_webhook.go
  questdb_name_missing backoff_limit_not_positive class_name_empty : ValidationError
  questdb_name_changed class_name_changed backoff_limit_changed not_a_snapshot : ValidationError
  -- questdbsnapshotschedule_webhook.go
  invalid_schedule not_a_schedule : ValidationError

-- `nil`, or an error
abbrev pub Verdict : Type 0
Verdict = Option ValidationError

-- One check after another: the first error is returned.
infixr 5 ◌and_then◌
abbrev pub ◌and_then◌ : Verdict → Verdict → Verdict
none and_then v = v
some e and_then v = some e

-- runtime.Object, as far as the type assertions of the webhooks tell it apart.
pub data RuntimeObject : Type 0 where
  questdb_object : QuestDb → RuntimeObject
  snapshot_object : QuestDbSnapshot → RuntimeObject
  schedule_object : QuestDbSnapshotSchedule → RuntimeObject
  foreign_object : RuntimeObject

-- `if test { return err }`
abbrev pub fail_if : Bool → ValidationError → Verdict
fail_if true e = some e
fail_if false e = none

-- `p != nil`
abbrev pub is_some {ℓ} : {A : Type ℓ} → Option A → Bool
is_some none = false
is_some (some a) = true
