-- ===== src/Examples/Runs.antt =====
-- A server that keeps a schedule by its versions: at first its last time is 10, and behind its first
-- run, which the clock puts at 25, it is 25. Its cache stays with the first version.
use questdb_operator.Prelude.{
  ℕ, ◌≡◌, ◌≤◌, ◌⊎◌, inl, inr, refl, sym, ap, Bool, Bool-cases, true, false, not, ◌&&◌, ◌==◌, eq_iff,
  nat_eq, String, [], if◌then◌else◌, and_true, arith,
}
use questdb_operator.Cron.{Cron}
use questdb_operator.Kube.Error.{Result, ok, err, conflict}
use questdb_operator.Kube.Meta.{object_key}
use questdb_operator.Api.Types.{QuestDbSnapshotSchedule}
use questdb_operator.Schedule.Calls.{Client, GoLib}
use questdb_operator.Schedule.Children.{get_last_snapshot_time}
use questdb_operator.Schedule.Reconcile.{reconcile}
use questdb_operator.Schedule.Reconcile.Timing.{creations}
use questdb_operator.Schedule.Reconcile.Regular.{IsSpaced, IsVersion, Versioned, Setting}
use questdb_operator.Schedule.Reconcile.Regular.Laws.{reconcile-Regular}
use questdb_operator.Examples.Data.{meta_lib, schedule_of}
use questdb_operator.Examples.Schedules.{cron, cron-NextIsLater, key}

abbrev last : Bool → ℕ
last has_run = if has_run then 25 else 10

last_of : String → ℕ
last_of version = if version == "second" then 25 else 10

abbrev old_schedule : QuestDbSnapshotSchedule
old_schedule = record schedule_of { meta = record schedule_of.meta { resource_version = "first" } }

abbrev write : QuestDbSnapshotSchedule → Bool → Result QuestDbSnapshotSchedule × Bool
write sched has_run =
    if sched.meta.resource_version == "first"
      && nat_eq (get_last_snapshot_time sched) 25
      && not has_run
    then (ok (record sched { meta = record sched.meta { resource_version = "second" } }), true)
    else (err conflict, has_run)

abbrev versions : Client Bool
versions = record {
  get_schedule = λ ns w. (ok old_schedule, w);
  update_schedule = λ s w. (err conflict, w);
  update_schedule_status = λ s w. write s w;
  list_snapshots = λ ns w. (ok [], w);
  create_snapshot = λ s w. (ok s, w);
  delete_snapshot = λ s w. (ok tt, w);
  now = λ w. (25, w);
}

abbrev go_lib : GoLib Bool
go_lib = record {
  sort_slice = λ less items. items;
  format_time = λ t. "20240101000000";
  retry_on_conflict = λ f. f;
}

old_schedule-IsVersion : IsVersion cron tt key last_of old_schedule
unfolding last_of get_last_snapshot_time
old_schedule-IsVersion = (refl, refl, refl)

-- A write is refused, or it is the first run.
write-cases :
    (sched : QuestDbSnapshotSchedule) (w : Bool)
    → (write sched w ≡ (err conflict, w))
      ⊎ ((last_of sched.meta.resource_version ≡ 10)
          × (get_last_snapshot_time sched ≡ 25)
          × (w ≡ false)
          × (write sched w ≡ (
            ok (record sched { meta = record sched.meta { resource_version = "second" } }),
            true,
          )))
unfolding last_of
write-cases sched w =
    elim (Bool-cases (
      sched.meta.resource_version == "first"
      && nat_eq (get_last_snapshot_time sched) 25
      && not w)) [
        | inr refused ↦ inl (rw refused)
        | inl taken ↦
            let (both, unrun) = and_true _ (not w) taken in
            let (named, at) = and_true _ (nat_eq (get_last_snapshot_time sched) 25) both in
            inr (
              ap last_of ((eq_iff sched.meta.resource_version "first").0 named),
              ground (arith, at),
              ground (arith, unrun),
              rw taken,
            )
      ]

-- The second version is behind the run.
stored-IsVersion :
    (sched : QuestDbSnapshotSchedule)
    → object_key sched.meta ≡ key
    → get_last_snapshot_time sched ≡ 25
    → IsVersion cron tt key last_of
        (record sched { meta = record sched.meta { resource_version = "second" } })
unfolding last_of get_last_snapshot_time
stored-IsVersion sched named at = (named, sym at, refl)

versions-Versioned : Versioned versions cron tt key last last_of
versions-Versioned = record {
  read = λ w sched e. ground (arith, e, old_schedule-IsVersion);
  update = λ sched r w ours e. ground (arith, e);
  status = λ sched r w named parsed e. elim (write-cases sched w) [
    | inl refused ↦ ground (arith, e, refused)
    | inr (first, at, unrun, taken) ↦
        ground (arith, e, first, at, unrun, taken, stored-IsVersion sched named at)
  ];
  status_moves = λ sched w named. ground (arith, write-cases sched w);
  update_moves = λ sched w named. inl refl;
  read_moves = λ w. inl refl;
  list_moves = λ ns w. inl refl;
  create_moves = λ snap w. inl refl;
  delete_moves = λ snap w. inl refl;
  now_moves = λ w. inl refl;
}

abbrev setting : Setting versions cron
setting = record {
  crontab = tt;
  key = key;
  last = last;
  last_of = last_of;
  server = versions-Versioned;
  later = cron-NextIsLater;
}

reconcile-Regular_example :
    let s' = (reconcile versions meta_lib go_lib cron key (record { world = true; log = [] })).1 in
    IsSpaced cron tt 25 (last s'.world)
    × ((creations s'.log ≡ []) ⊎ (Cron.next cron tt 25 ≤ last s'.world))
reconcile-Regular_example =
    reconcile-Regular setting meta_lib go_lib (λ P f keeps. keeps)
      (record { world = true; log = [] })
