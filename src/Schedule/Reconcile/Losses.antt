-- ===== src/Schedule/Reconcile/Losses.antt =====
-- What a run whose snapshot could not be created answers.
use questdb_operator.Prelude.{ℕ, ◌≡◌, true, false, some, List, ◌∷◌, arith}
use questdb_operator.Cron.{Cron}
use questdb_operator.Kube.Error.{error_of, Error, ok}
use questdb_operator.Kube.Meta.{MetaLib}
use questdb_operator.Kube.Exec.{State}
use questdb_operator.Api.Types.{QuestDbSnapshot, QuestDbSnapshotSchedule}
use questdb_operator.Schedule.Calls
use questdb_operator.Schedule.Calls.{Client, Call, GoLib}
use questdb_operator.Schedule.Children.{build_crontab, build_snapshot}
use questdb_operator.Schedule.Gc.{garbage_collect}
use questdb_operator.Schedule.Reconcile.{
  is_busy, is_due, latest_of, create_attempt, take_snapshot, unless_busy, run_due,
  collect_and_requeue, run_schedule, time_sub,
}

module _ {W : Type 0} (client : Client W) (lib : MetaLib) (go : GoLib W) (cron : Cron)
    (sched : QuestDbSnapshotSchedule) (now : ℕ) (children : List QuestDbSnapshot)
    (s : State W Call) where
  abbrev pub stamped : QuestDbSnapshotSchedule
  stamped = record sched { status = record sched.status { last_snapshot = now } }

  -- The state behind a status that was taken.
  abbrev pub behind_status : State W Call
  behind_status =
      let (r, w) = client.update_schedule_status stamped s.world in
      record { world = w; log = Calls.updated_status stamped r ∷ s.log }

  take_snapshot-failed :
      (stored : QuestDbSnapshotSchedule) (snap : QuestDbSnapshot) (e : Error) (s1 : State W Call)
      → build_snapshot lib go stored now ≡ ok snap
      → (go.retry_on_conflict (create_attempt client) snap s1).0.0 ≡ some e
      → (take_snapshot client lib go stored now children s1).0 ≡ ok children
  unfolding take_snapshot
  take_snapshot-failed stored snap e s1 built failed = ground (arith, built, failed)

  run_due-failed :
      (stored : QuestDbSnapshotSchedule) (snap : QuestDbSnapshot) (e : Error)
      → (client.update_schedule_status stamped s.world).0 ≡ ok stored
      → is_busy stored (latest_of children) ≡ false
      → build_snapshot lib go stored now ≡ ok snap
      → (go.retry_on_conflict (create_attempt client) snap behind_status).0.0 ≡ some e
      → (run_due client lib go sched now children s).0 ≡ ok (stored, children)
  unfolding run_due unless_busy
  run_due-failed stored snap e taken free built failed =
      ground (arith, taken, free, take_snapshot-failed stored snap e behind_status built failed)

  -- The failure of a creation is not answered: if the cron text of a schedule is valid, its run is
  -- due, the server takes the status, no snapshot is under way, the snapshot is built and the retried
  -- creation of it ends with an error, then the run answers with the error of the garbage collector
  -- alone, which has got the children as they were, and asks for no wake-up but the one for the next
  -- time of the cron text.
  pub run_schedule-failed :
      (crontab : Cron.Crontab cron)
      → (stored : QuestDbSnapshotSchedule) (snap : QuestDbSnapshot) (e : Error)
      → build_crontab cron sched ≡ some crontab
      → is_due cron crontab sched now ≡ true
      → (client.update_schedule_status stamped s.world).0 ≡ ok stored
      → is_busy stored (latest_of children) ≡ false
      → build_snapshot lib go stored now ≡ ok snap
      → (go.retry_on_conflict (create_attempt client) snap behind_status).0.0 ≡ some e
      → (run_schedule client lib go cron sched now children s).0
        ≡ ok (record {
          requeue_after = time_sub (Cron.next cron crontab now) now;
          error =
              error_of
                (garbage_collect client stored.spec.retention children
                  (run_due client lib go sched now children s).1).0;
        })
  unfolding run_schedule collect_and_requeue
  run_schedule-failed crontab stored snap e parsed due taken free built failed =
      let run = run_due-failed stored snap e taken free built failed in
      rw (parsed) (rw (due) (ground (arith, run)))
