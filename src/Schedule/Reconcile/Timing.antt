-- ===== src/Schedule/Reconcile/Timing.antt =====
-- That nothing is created before its time, and when the next run is.
use questdb_operator.Prelude.{
  ℕ, ◌-◌, ◌<◌, ◌≡◌, refl, true, false, inl, inr, Bool-cases, some, List, [], ◌∷◌, arith,
}
use questdb_operator.Prelude.Int.{ℤ, pos, ltb_ℤ, ◌≤ℤ◌}
use questdb_operator.Cron.{Cron, NextIsLater}
use questdb_operator.Kube.Error.{Result-cases, ok}
use questdb_operator.Kube.Meta.{MetaLib}
use questdb_operator.Kube.Exec.{State}
use questdb_operator.Api.Types.{QuestDbSnapshot, QuestDbSnapshotSchedule}
use questdb_operator.Schedule.Calls.{
  Client, Call, GoLib, created_snapshot, deleted_snapshot, event, normal,
}
use questdb_operator.Schedule.Gc.{collect, count_success, garbage_collect}
use questdb_operator.Schedule.Children.{build_crontab}
use questdb_operator.Schedule.Reconcile.{
  Answer, time_sub, run_due, collect_and_requeue, is_due, run_schedule,
}

-- The snapshots whose creation was asked for, the last first.
abbrev pub creations : List Call → List QuestDbSnapshot
creations [] = []
creations (created_snapshot snap _ ∷ calls) = snap ∷ creations calls
creations (_ ∷ calls) = creations calls

module _ {W : Type 0} (client : Client W) (retention : ℤ) where
  creations-collect :
      (count : ℤ) (snaps : List QuestDbSnapshot) (s : State W Call)
      → creations (collect client retention count snaps s).1.log ≡ creations s.log
  unfolding collect
  creations-collect count [] s = refl
  creations-collect count (snap ∷ snaps) s =
      let answer = client.delete_snapshot snap s.world in
      ground (
        arith,
        creations-collect (count_success snap count) snaps s,
        creations-collect (count_success snap count) snaps (record {
          world = answer.1;
          log = event normal "SnapshotDeleted" ∷ deleted_snapshot snap answer.0 ∷ s.log;
        }),
      )

-- The time until a later one is positive and not longer than it is.
time_sub-later :
    (a b : ℕ) → b < a → (ltb_ℤ (pos 0) (time_sub a b) ≡ true) × (time_sub a b ≤ℤ pos (a - b))
unfolding time_sub
time_sub-later a b h = (ground arith, ground arith)

module _ {W : Type 0} (client : Client W) (lib : MetaLib) (go : GoLib W) (cron : Cron)
    (sched : QuestDbSnapshotSchedule) (now : ℕ) (children : List QuestDbSnapshot)
    (s : State W Call) where
  abbrev stamped : QuestDbSnapshotSchedule
  stamped = record sched { status = record sched.status { last_snapshot = now } }

  -- A schedule with a valid cron text whose next time lies after the present creates no snapshot.
  pub run_schedule-not_due :
      (crontab : Cron.Crontab cron)
      → build_crontab cron sched ≡ some crontab
      → is_due cron crontab sched now ≡ false
      → creations (run_schedule client lib go cron sched now children s).1.log ≡ creations s.log
  unfolding run_schedule collect_and_requeue garbage_collect
  run_schedule-not_due crontab parsed early =
      rw (parsed) (rw (early) (creations-collect client sched.spec.retention (pos 0) children s))

  requeue_after-collect_and_requeue :
      (crontab : Cron.Crontab cron) (answer : Answer)
      → (current : QuestDbSnapshotSchedule × List QuestDbSnapshot) (s' : State W Call)
      → (collect_and_requeue client cron crontab now current s').0 ≡ ok answer
      → answer.requeue_after ≡ time_sub (Cron.next cron crontab now) now
  unfolding collect_and_requeue
  requeue_after-collect_and_requeue crontab answer (current, snaps) s' done = ground (arith, done)

  requeue_after-run_schedule :
      (crontab : Cron.Crontab cron) (answer : Answer)
      → build_crontab cron sched ≡ some crontab
      → (run_schedule client lib go cron sched now children s).0 ≡ ok answer
      → answer.requeue_after ≡ time_sub (Cron.next cron crontab now) now
  unfolding run_schedule
  requeue_after-run_schedule crontab answer parsed done =
      let run = run_due client lib go sched now children s in
      let rest = rw (parsed, run_schedule) at done in
      elim (Bool-cases (is_due cron crontab sched now)) [
        | inr early ↦
            requeue_after-collect_and_requeue crontab answer (sched, children) s
              (rw (early) at rest)
        | inl due ↦ elim (Result-cases run.0) [
          | inr (e, bad) ↦ cc (rw (due, bad) at rest)
          | inl (current, good) ↦
              requeue_after-collect_and_requeue crontab answer current run.1
                (rw (due, good) at rest)
        ]
      ]

  -- If the next time of a cron text lies after the present, then a schedule with a valid cron text
  -- whose run returns asks to be run again in a positive time that does not reach past the next
  -- time of its cron text.
  pub run_schedule-requeue :
      NextIsLater cron
      → (crontab : Cron.Crontab cron) (answer : Answer) → build_crontab cron sched ≡ some crontab
      → (run_schedule client lib go cron sched now children s).0 ≡ ok answer
      → (ltb_ℤ (pos 0) answer.requeue_after ≡ true)
        × (answer.requeue_after ≤ℤ pos (Cron.next cron crontab now - now))
  run_schedule-requeue later crontab answer parsed done =
      rw (requeue_after-run_schedule crontab answer parsed done)
        (time_sub-later (Cron.next cron crontab now) now (later crontab now))
