-- ===== src/Api/ScheduleWebhook.antt =====
-- api/v1beta1/questdbsnapshotschedule_webhook.go.
pub mod Laws
use questdb_operator.Prelude.{String, Option, none, some}
use questdb_operator.Prelude.Int.{ℤ, pos}
use questdb_operator.Cron.{Cron}
use questdb_operator.Api.Types.{QuestDbSnapshotSchedule}
use questdb_operator.Api.Validation
use questdb_operator.Api.Validation.{Verdict, RuntimeObject, ◌and_then◌}
use questdb_operator.Api.SnapshotWebhook.{
  job_backoff_limit_default, or_if_zero, validate_snapshot_create, validate_snapshot_update,
}

abbrev pub schedule_retention_default : ℤ
schedule_retention_default = pos 7

unfoldable pub default : QuestDbSnapshotSchedule → QuestDbSnapshotSchedule
default r = record r {
  spec = record spec {
    snapshot = record spec.snapshot {
      job_backoff_limit = or_if_zero spec.snapshot.job_backoff_limit job_backoff_limit_default;
    };
    retention = or_if_zero spec.retention schedule_retention_default;
  };
}
  where
    open r use {spec}

module _ (cron : Cron) where
  open cron use {Crontab, parse}

  abbrev parsed : Option Crontab → Verdict
  parsed none = some Validation.invalid_schedule
  parsed (some crontab) = none

  unfoldable pub validate_create : QuestDbSnapshotSchedule → Verdict
  validate_create r =
      parsed (parse r.spec.schedule) and_then validate_snapshot_create r.spec.snapshot

  against : RuntimeObject → QuestDbSnapshotSchedule → Verdict
  against (Validation.schedule_object old) r =
      validate_snapshot_update old.spec.snapshot r.spec.snapshot
  against (Validation.questdb_object _) r = some Validation.not_a_schedule
  against (Validation.snapshot_object _) r = some Validation.not_a_schedule
  against Validation.foreign_object r = some Validation.not_a_schedule

  pub validate_update : RuntimeObject → QuestDbSnapshotSchedule → Verdict
  unfolding against
  validate_update old r = parsed (parse r.spec.schedule) and_then against old r

pub validate_delete : QuestDbSnapshotSchedule → Verdict
validate_delete r = none
