-- ===== src/Api/SnapshotWebhook.antt =====
-- api/v1beta1/questdbsnapshot_webhook.go.
pub mod Laws
use questdb_operator.Prelude.{
  String, Bool, true, false, not, Option, none, some, ◌==◌, if◌then◌else◌, deep_equal,
}
use questdb_operator.Prelude.Int.{ℤ, pos, eq_ℤ, leb_ℤ}
use questdb_operator.Api.Types.{QuestDbSnapshot, QuestDbSnapshotSpec}
use questdb_operator.Api.Validation
use questdb_operator.Api.Validation.{Verdict, RuntimeObject, ◌and_then◌, fail_if}
use questdb_operator.Api.QuestDbWebhook.{ClassName-discrete}

abbrev pub job_backoff_limit_default : ℤ
job_backoff_limit_default = pos 5

-- `if x == 0 { x = d }`
abbrev pub or_if_zero : ℤ → ℤ → ℤ
or_if_zero x d = if eq_ℤ x (pos 0) then d else x

unfoldable pub default : QuestDbSnapshot → QuestDbSnapshot
default r = record r {
  spec = record r.spec {
    job_backoff_limit = or_if_zero r.spec.job_backoff_limit job_backoff_limit_default;
  };
}

-- `p != nil && *p == ""`
abbrev pub is_empty_name : Option String → Bool
is_empty_name none = false
is_empty_name (some name) = name == ""

unfoldable pub validate_snapshot_create : QuestDbSnapshotSpec → Verdict
validate_snapshot_create spec =
    fail_if (spec.questdb_name == "") Validation.questdb_name_missing
    and_then fail_if (leb_ℤ spec.job_backoff_limit (pos 0)) Validation.backoff_limit_not_positive
    and_then fail_if (is_empty_name spec.volume_snapshot_class_name) Validation.class_name_empty

pub validate_snapshot_update : QuestDbSnapshotSpec → QuestDbSnapshotSpec → Verdict
validate_snapshot_update old new =
    fail_if (not (new.questdb_name == old.questdb_name)) Validation.questdb_name_changed
    and_then fail_if
        (not (
          deep_equal ClassName-discrete new.volume_snapshot_class_name
            old.volume_snapshot_class_name))
        Validation.class_name_changed
    and_then fail_if (not (eq_ℤ new.job_backoff_limit old.job_backoff_limit))
        Validation.backoff_limit_changed

unfoldable pub validate_create : QuestDbSnapshot → Verdict
validate_create r = validate_snapshot_create r.spec

pub validate_update : RuntimeObject → QuestDbSnapshot → Verdict
validate_update (Validation.snapshot_object old) r = validate_snapshot_update old.spec r.spec
validate_update (Validation.questdb_object _) r = some Validation.not_a_snapshot
validate_update (Validation.schedule_object _) r = some Validation.not_a_snapshot
validate_update Validation.foreign_object r = some Validation.not_a_snapshot

-- Nothing is checked: finalizers handle the deletion.
pub validate_delete : QuestDbSnapshot → Verdict
validate_delete r = none
