-- ===== src/Schedule/Reconcile/Regular/Steps.antt =====
-- The calls of a reconciliation, and the runs that it records.
use questdb_operator.Prelude.{◌≤◌, ◌≡◌, inl, inr, refl, String, some, List, ◌∷◌}
use questdb_operator.Cron.{Cron}
use questdb_operator.Kube.Error.{Result, ok}
use questdb_operator.Kube.Meta.{object_key}
use questdb_operator.Kube.Exec.{State, call! }
use questdb_operator.Kube.Exec.Moves.{Moves, Moves-call! }
use questdb_operator.Api.Types.{QuestDbSnapshotSchedule}
use questdb_operator.Schedule.Calls as Calls
use questdb_operator.Schedule.Calls.{Client, Call, GoLib, Handler, EventType, record_event}
use questdb_operator.Schedule.Children.{build_crontab, get_last_snapshot_time}
use questdb_operator.Schedule.Reconcile.{write_status}
use questdb_operator.Schedule.Reconcile.Timing.{creations}
use questdb_operator.Schedule.Reconcile.Regular.{
  IsVersion, Setting, Spaced, Spaced-trans, HasRun, Regular, next-before, next-after, order,
}

abbrev pub Any : {A : Type 0} → A → Type 0
Any a = Unit {0}

module _ {W : Type 0} {client : Client W} {cron : Cron} (set : Setting client cron) where
  open set use {crontab, key, last, last_of, server}

  abbrev pub IsOurs : QuestDbSnapshotSchedule → Type 0
  IsOurs = IsVersion cron crontab key last_of

  pub event-Moves :
      (type : EventType) (reason : String)
      → Moves (Regular set) Any (record_event {W = W} type reason)
  event-Moves type reason = record { at = λ s. (inl refl, inl refl); gives = λ s a e. tt }

  -- A call that neither writes a schedule nor creates a snapshot.
  pub other-Moves! :
      {A : Type 0} (entry : Result A → Call) (op : W → Result A × W)
      → ((w : W) → Spaced set (last w) (last (op w).1))
      → ((r : Result A) (calls : List Call) → creations (entry r ∷ calls) ≡ creations calls)
      → Moves (Regular set) Any (call! entry op)
  other-Moves! entry op moves silent =
      Moves-call! (order set) entry op (λ s. (moves s.world, inl (silent _ s.log))) (λ w a e. tt)

  -- A status with a last time that is spaced from that of the version that it is written from.
  pub write_status-Moves :
      (sched : QuestDbSnapshotSchedule)
      → object_key sched.meta ≡ key
      → build_crontab cron sched ≡ some crontab
      → Spaced set (last_of sched.meta.resource_version) (get_last_snapshot_time sched)
      → Moves (Regular set) IsOurs (write_status client sched)
  write_status-Moves sched named parsed spaced =
      Moves-call! (order set) (Calls.updated_status sched) (client.update_schedule_status sched)
        (λ s. (
          elim (server.status_moves sched s.world named) [
            | inl moved ↦ moved
            | inr (before, after) ↦
                Spaced-trans set _ _ _ before (Spaced-trans set _ _ _ spaced after)
          ],
          inl refl,
        ))
        (λ w r e. (server.status sched r w named parsed e).0)

  -- An answer tells that the status was taken, and the run is recorded.
  pub write_status-HasRun :
      (sched stored : QuestDbSnapshotSchedule) (s : State W Call)
      → object_key sched.meta ≡ key
      → build_crontab cron sched ≡ some crontab
      → Cron.next cron crontab (last_of sched.meta.resource_version) ≤ get_last_snapshot_time sched
      → (write_status client sched s).0 ≡ ok stored
      → HasRun set s (write_status client sched s).1
  write_status-HasRun sched stored s named parsed due e =
      let (_, before, after) = server.status sched stored s.world named parsed e in
      next-after set _ _ _ (next-before set _ _ _ before due) after
