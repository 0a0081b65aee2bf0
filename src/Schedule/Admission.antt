-- ===== src/Schedule/Admission.antt =====
-- The webhooks of schedules and of snapshots together with the controller of the schedules.
use questdb_operator.Prelude.{◌≡◌, ◌≢◌, sym, subst, ℕ, none, arith}
use questdb_operator.Cron.{Cron}
use questdb_operator.Kube.Error.{ok}
use questdb_operator.Kube.Meta.{MetaLib}
use questdb_operator.Api.Types.{QuestDbSnapshot, QuestDbSnapshotSchedule}
use questdb_operator.Api.Validation.{schedule_object}
use questdb_operator.Api.SnapshotWebhook
use questdb_operator.Api.SnapshotWebhook.Laws.{IsCreatable, validate_snapshot_create_iff}
use questdb_operator.Api.ScheduleWebhook.{default, validate_create, validate_update}
use questdb_operator.Api.ScheduleWebhook.Laws.{
  validate_schedule_create_iff, validate_schedule_update_iff,
}
use questdb_operator.Schedule.Calls.{GoLib}
use questdb_operator.Schedule.Children.{scheduled_snapshot, build_snapshot}

-- A schedule as the server may hold it: each creation and each update has had its defaults set and was
-- accepted, and other changes are of the metadata and the status.
pub data Admitted (cron : Cron) : QuestDbSnapshotSchedule → Type 0 where
  created :
      (r : QuestDbSnapshotSchedule)
      → validate_create cron (default r) ≡ none
      → Admitted cron (default r)
  updated :
      (old r : QuestDbSnapshotSchedule)
      → Admitted cron old
      → validate_update cron (schedule_object old) (default r) ≡ none
      → Admitted cron (default r)
  kept : (old r : QuestDbSnapshotSchedule) → Admitted cron old → r.spec ≡ old.spec → Admitted cron r

module _ (cron : Cron) where
  pub Admitted-IsCreatable :
      (sched : QuestDbSnapshotSchedule)
      → Admitted cron sched
      → (Cron.parse cron sched.spec.schedule ≢ none) × IsCreatable sched.spec.snapshot
  Admitted-IsCreatable sched (created r accepted) =
      (validate_schedule_create_iff cron (default r)).0 accepted
  Admitted-IsCreatable sched (updated old r held accepted) =
      let (parses, same) = (validate_schedule_update_iff cron old (default r)).0 accepted in
      (parses, subst IsCreatable (sym same) (Admitted-IsCreatable old held).1)
  Admitted-IsCreatable sched (kept old r held same) =
      subst (λ spec. (Cron.parse cron spec.schedule ≢ none) × IsCreatable spec.snapshot) (sym same)
        (Admitted-IsCreatable old held)

pub build_snapshot-spec :
    {W : Type 0} (lib : MetaLib) (go : GoLib W) (sched : QuestDbSnapshotSchedule) (t : ℕ)
    (snap : QuestDbSnapshot)
    → build_snapshot lib go sched t ≡ ok snap
    → snap.spec ≡ sched.spec.snapshot
unfolding build_snapshot scheduled_snapshot
build_snapshot-spec lib go sched t snap built = ground (arith, built)

-- The defaults leave a specification alone that may be created.
default-IsCreatable :
    (snap : QuestDbSnapshot) → IsCreatable snap.spec → SnapshotWebhook.default snap ≡ snap
unfolding SnapshotWebhook.default
default-IsCreatable snap fit = ground (arith, fit.positive)

-- The snapshot that the controller builds for a schedule whose every creation and update was
-- accepted is as the webhook of the snapshots leaves it and accepts it, and the cron text of the
-- schedule parses.
pub build_snapshot-validate_create :
    {W : Type 0} (cron : Cron) (lib : MetaLib) (go : GoLib W) (sched : QuestDbSnapshotSchedule)
    (t : ℕ) (snap : QuestDbSnapshot)
    → Admitted cron sched
    → build_snapshot lib go sched t ≡ ok snap
    → (SnapshotWebhook.default snap ≡ snap)
      × (SnapshotWebhook.validate_create (SnapshotWebhook.default snap) ≡ none)
      × (Cron.parse cron sched.spec.schedule ≢ none)
unfolding SnapshotWebhook.validate_create
build_snapshot-validate_create cron lib go sched t snap held built =
    let (parses, fit) = Admitted-IsCreatable cron sched held in
    let spec = build_snapshot-spec lib go sched t snap built in
    let fit' : IsCreatable snap.spec = subst IsCreatable (sym spec) fit in
    let same = default-IsCreatable snap fit' in
    (same, rw same ((validate_snapshot_create_iff snap.spec).1 fit'), parses)
