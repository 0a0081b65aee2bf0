-- ===== src/Schedule/Children.antt =====
-- The snapshots of a schedule: `getOrderedChildSnapshots` and `buildSnapshot`, and the times of a
-- schedule: `getLastSnapshotTime` and `buildCrontab`.
use questdb_operator.Prelude.{ℕ, Bool, not, ltb, nat_eq, Option, List, keep, if◌then◌else◌}
use questdb_operator.Prelude.Text.{dashed}
use questdb_operator.Cron.{Cron}
use questdb_operator.Kube.Error.{Result, ok, err, panicked}
use questdb_operator.Kube.Meta.{MetaLib, new_meta}
use questdb_operator.Kube.Exec.{pure, call!, ◌>>=◌}
use questdb_operator.Api.Types.{QuestDbSnapshot, QuestDbSnapshotSchedule, empty}
use questdb_operator.Schedule.Calls
use questdb_operator.Schedule.Calls.{Client, Handler, GoLib}

-- The order of the sort: `!a.CreationTimestamp.Before(&b.CreationTimestamp)`
abbrev pub not_before : QuestDbSnapshot → QuestDbSnapshot → Bool
not_before a b = not (ltb a.meta.creation_timestamp b.meta.creation_timestamp)

unfoldable pub owned_snapshots :
    {W : Type 0}
    → MetaLib
    → GoLib W
    → QuestDbSnapshotSchedule
    → List QuestDbSnapshot
    → List QuestDbSnapshot
owned_snapshots lib go sched items =
    keep (λ s. lib.is_controlled_by s.meta sched.meta) (go.sort_slice not_before items)

unfoldable pub get_ordered_child_snapshots :
    {W : Type 0}
    → Client W
    → MetaLib
    → GoLib W
    → QuestDbSnapshotSchedule
    → Handler W (List QuestDbSnapshot)
get_ordered_child_snapshots client lib go sched = do
  items ←
      call! (Calls.listed_snapshots sched.meta.namespace)
        (client.list_snapshots sched.meta.namespace)
  pure (owned_snapshots lib go sched items)

-- The snapshot before it has an owner.
unfoldable pub scheduled_snapshot :
    {W : Type 0} → GoLib W → QuestDbSnapshotSchedule → ℕ → QuestDbSnapshot
scheduled_snapshot go sched t = record {
  meta =
      new_meta (dashed sched.meta.name (go.format_time t)) sched.meta.namespace sched.meta.labels;
  spec = sched.spec.snapshot;
  phase = empty;
}

unfoldable pub build_snapshot :
    {W : Type 0} → MetaLib → GoLib W → QuestDbSnapshotSchedule → ℕ → Result QuestDbSnapshot
build_snapshot lib go sched t =
    let snap = scheduled_snapshot go sched t in
    elim (lib.set_controller_reference sched.meta snap.meta) [
      | ok meta ↦ ok (record snap { meta = meta })
      | err e ↦ err panicked
    ]

abbrev pub build_crontab : (cron : Cron) → QuestDbSnapshotSchedule → Option (Cron.Crontab cron)
build_crontab cron sched = Cron.parse cron sched.spec.schedule

unfoldable pub get_last_snapshot_time : QuestDbSnapshotSchedule → ℕ
get_last_snapshot_time sched =
    if nat_eq sched.status.last_snapshot 0
    then sched.meta.creation_timestamp
    else sched.status.last_snapshot
