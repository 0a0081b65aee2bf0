-- ===== src/Api/ScheduleWebhook/Laws.antt =====
-- What the webhooks of QuestDBSnapshotSchedule accept.
use questdb_operator.Prelude.{◌≡◌, refl, ◌≢◌, ◌↔◌, Option, none, some}
use questdb_operator.Cron.{Cron}
use questdb_operator.Api.Types.{QuestDbSnapshotSchedule}
use questdb_operator.Api.Validation.{schedule_object}
use questdb_operator.Api.Validation.Checks.{Decides, Decides-and_then}
use questdb_operator.Api.SnapshotWebhook.Laws.{
  IsCreatable, validate_snapshot_create_iff, validate_snapshot_update_iff,
}
use questdb_operator.Api.ScheduleWebhook.{parsed, validate_create, validate_update}

module _ (cron : Cron) where
  parsed-Decides : (o : Option (Cron.Crontab cron)) → Decides (parsed cron o) (o ≢ none)
  parsed-Decides none = (λ e. cc, λ f. absurd (f refl))
  parsed-Decides (some crontab) = (λ _ e. cc, λ _. refl)

  -- A schedule may be created exactly when its cron text parses and the snapshots that it asks for
  -- may be created.
  pub validate_schedule_create_iff :
      (r : QuestDbSnapshotSchedule)
      → (validate_create cron r ≡ none)
        ↔ ((Cron.parse cron r.spec.schedule ≢ none) × IsCreatable r.spec.snapshot)
  unfolding validate_create
  validate_schedule_create_iff r =
      Decides-and_then _ _ (parsed-Decides (Cron.parse cron r.spec.schedule))
        (validate_snapshot_create_iff r.spec.snapshot)

  -- A schedule may be updated exactly when its cron text parses and the snapshots that it asks for
  -- stay the same.
  pub validate_schedule_update_iff :
      (old r : QuestDbSnapshotSchedule)
      → (validate_update cron (schedule_object old) r ≡ none)
        ↔ ((Cron.parse cron r.spec.schedule ≢ none) × (r.spec.snapshot ≡ old.spec.snapshot))
  unfolding validate_update
  validate_schedule_update_iff old r =
      Decides-and_then _ _ (parsed-Decides (Cron.parse cron r.spec.schedule))
        (validate_snapshot_update_iff old.spec.snapshot r.spec.snapshot)
