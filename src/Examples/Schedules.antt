-- ===== src/Examples/Schedules.antt =====
-- A schedule with two snapshots that succeeded, on a server that takes every request.
use questdb_operator.Prelude.{◌+◌, ◌-◌, ◌≡◌, refl, true, some, List, [], ◌∷◌, arith, none}
use questdb_operator.Prelude.Int.{add_int32, pos, ltb_ℤ, ◌≤ℤ◌}
use questdb_operator.Cron.{Cron, NextIsLater}
use questdb_operator.Kube.Error.{ok}
use questdb_operator.Kube.Meta.{NamespacedName}
use questdb_operator.Kube.Exec.{State}
use questdb_operator.Api.Types.{QuestDbSnapshot, succeeded, running, failed}
use questdb_operator.Schedule.Calls.{Client, Call, GoLib}
use questdb_operator.Schedule.Children.{get_last_snapshot_time}
use questdb_operator.Schedule.Gc.{collect, garbage_collect, has_succeeded}
use questdb_operator.Schedule.Gc.Laws.{deletions, deletions-garbage_collect}
use questdb_operator.Schedule.Reconcile.{
  Answer, run_schedule, reconcile, is_due, time_sub, collect_and_requeue,
}
use questdb_operator.Schedule.Reconcile.Laws.{creations_prepared, reconcile-creations_prepared}
use questdb_operator.Schedule.Reconcile.Timing.{run_schedule-requeue}
use questdb_operator.Schedule.Reconcile.Guard.{creations_guarded}
use questdb_operator.Schedule.Reconcile.Overlap.{KeepsPhase, is_free, reconcile-creations_free}
use questdb_operator.Examples.Data.{meta_lib, meta_lib-OwnerLaws, schedule_of, snapshot_in}

abbrev pub World : Type 0
World = Unit {0}

abbrev pub server : Client World
server = record {
  get_schedule = λ ns w. (ok schedule_of, w);
  update_schedule = λ s w. (ok s, w);
  update_schedule_status = λ s w. (ok s, w);
  list_snapshots = λ ns w. (ok (snapshot_in succeeded ∷ []), w);
  create_snapshot = λ s w. (ok s, w);
  delete_snapshot = λ s w. (ok tt, w);
  now = λ w. (25, w);
}

-- The sort leaves the list alone, and the retry runs its closure once.
abbrev pub go_lib : GoLib World
go_lib = record {
  sort_slice = λ less items. items;
  format_time = λ t. "20240101000000";
  retry_on_conflict = λ f. f;
}

abbrev pub cron : Cron
cron = record { Crontab = Unit {0}; parse = λ text. some tt; next = λ c now. now + 10 }

pub cron-NextIsLater : NextIsLater cron
cron-NextIsLater c now = omega arith

abbrev pub start : State World Call
start = record { world = tt; log = [] }

abbrev children : List QuestDbSnapshot
children =
    snapshot_in running ∷ snapshot_in succeeded ∷ snapshot_in failed ∷ snapshot_in succeeded ∷ []

deletions-garbage_collect_example :
    deletions (garbage_collect server (pos 1) children start).1.log ≡ snapshot_in succeeded ∷ []
unfolding garbage_collect has_succeeded
deletions-garbage_collect_example =
    deletions-garbage_collect server (λ snap w. refl) 1 children start (omega arith)

abbrev pub key : NamespacedName
key = record { namespace = "prod"; name = "nightly" }

reconcile-creations_prepared_example :
    creations_prepared (reconcile server meta_lib go_lib cron key start).1.log ≡ true
reconcile-creations_prepared_example =
    reconcile-creations_prepared server meta_lib go_lib cron (λ P f keeps. keeps) key tt

abbrev requeued : Answer
requeued = record { requeue_after = pos 10; error = none }

run_early : (run_schedule server meta_lib go_lib cron schedule_of 15 children start).0 ≡ ok requeued
unfolding run_schedule collect_and_requeue is_due get_last_snapshot_time garbage_collect time_sub
    has_succeeded collect add_int32
run_early = refl

run_schedule-requeue_example :
    (ltb_ℤ (pos 0) requeued.requeue_after ≡ true)
    × (requeued.requeue_after ≤ℤ pos (Cron.next cron tt 15 - 15))
run_schedule-requeue_example =
    run_schedule-requeue server meta_lib go_lib cron schedule_of 15 children start cron-NextIsLater
      tt requeued refl run_early

server-KeepsPhase : KeepsPhase server
server-KeepsPhase sched stored w e = ground (arith, e)

reconcile-creations_free_example :
    creations_guarded
      (is_free meta_lib go_lib)
      (reconcile server meta_lib go_lib cron key start).1.log
    ≡ true
reconcile-creations_free_example =
    reconcile-creations_free server server-KeepsPhase meta_lib meta_lib-OwnerLaws go_lib cron
      (λ P f keeps. keeps) key tt
