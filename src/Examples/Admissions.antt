-- ===== src/Examples/Admissions.antt =====
-- A schedule that was created and then had its status written.
use questdb_operator.Prelude.{String, ◌≡◌, ◌≢◌, refl, none, [], ◌∷◌, true}
use questdb_operator.Kube.Error.{ok}
use questdb_operator.Cron.{Cron}
use questdb_operator.Kube.Meta.{new_meta}
use questdb_operator.Api.Types.{QuestDbSnapshot, QuestDbSnapshotSchedule, empty, running}
use questdb_operator.Api.SnapshotWebhook
use questdb_operator.Api.SnapshotWebhook.{validate_snapshot_create}
use questdb_operator.Api.ScheduleWebhook.{default, validate_create}
use questdb_operator.Schedule.Children.{build_snapshot, scheduled_snapshot}
use questdb_operator.Schedule.Admission.{Admitted, created, kept, build_snapshot-validate_create}
use questdb_operator.Schedule.Completion.{scheduled-succeeds}
use questdb_operator.Snapshot.Reconcile.Success.{run, SucceedsWithin}
use questdb_operator.Examples.Snapshots.{
  memory, memory-Cooperates, meta_lib-Owns, meta_lib-AddsOnly, work, work-Works, bare, key_of,
  bare-IsSettled,
}
use questdb_operator.Examples.Data.{meta_lib, schedule_of, snapshot_spec}
use questdb_operator.Examples.Schedules.{go_lib, cron}

abbrev ran : QuestDbSnapshotSchedule
ran = record schedule_of { status = record { last_snapshot = 25; snapshot_phase = running } }

admitted : Admitted cron ran
unfolding default validate_create validate_snapshot_create
admitted = kept (default schedule_of) ran (created schedule_of refl) refl

abbrev taken : QuestDbSnapshot
taken = record {
  meta = record (new_meta "nightly-20240101000000" "prod" none) {
    owner_references = record { uid = "u"; controller = true } ∷ [];
  };
  spec = snapshot_spec;
  phase = empty;
}

built : build_snapshot meta_lib go_lib ran 40 ≡ ok taken
unfolding build_snapshot scheduled_snapshot
built = refl

build_snapshot-validate_create_example :
    (SnapshotWebhook.default taken ≡ taken)
    × (SnapshotWebhook.validate_create (SnapshotWebhook.default taken) ≡ none)
    × (Cron.parse cron "0 0 * * *" ≢ none)
build_snapshot-validate_create_example =
    build_snapshot-validate_create cron meta_lib go_lib ran 40 taken admitted built

abbrev name : String
name = "nightly-20240101000000"

scheduled-succeeds_example :
    SucceedsWithin (λ c. c) (λ c. work (run (memory name) meta_lib (key_of name) c)) 7 (bare taken)
scheduled-succeeds_example =
    scheduled-succeeds cron meta_lib go_lib ran 40 taken (memory name) (key_of name) (λ c. c)
      (memory-Cooperates name refl refl) meta_lib-Owns meta_lib-AddsOnly work work-Works
      (bare taken) admitted built refl refl refl refl (bare-IsSettled taken)
