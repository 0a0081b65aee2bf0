-- ===== src/Schedule/Reconcile/Regular/Laws.antt =====
-- A whole reconciliation beside others that write the schedule, and on an old version of it.
use questdb_operator.Prelude.{
  ℕ, ◌≤◌, ◌≡◌, inl, refl, ◌⊎◌, sym, subst, none, some, List, [], ◌∷◌, leb, Bool-cases, ◌&&◌, inr,
  deep_equal, if◌then◌else◌, arith,
}
use questdb_operator.Prelude.Int.{ℤ, pos, eq_ℤ, ltb_ℤ}
use questdb_operator.Cron.{Cron}
use questdb_operator.Kube.Error.{Result, Result-cases, ok, err, ignore_not_found}
use questdb_operator.Kube.Meta.{MetaLib}
use questdb_operator.Kube.Exec.{State, pure, raise}
use questdb_operator.Kube.Exec.Moves.{
  Moves, Moves-pure, Moves-call, Moves-call!, Moves-bind, Moves-if,
}
use questdb_operator.Api.Types.{QuestDbSnapshot, QuestDbSnapshotSchedule, SnapshotPhase-discrete}
use questdb_operator.Api.ScheduleWebhook.{schedule_retention_default}
use questdb_operator.Schedule.Calls as Calls
use questdb_operator.Schedule.Calls.{Client, Call, GoLib, Handler, normal, warning}
use questdb_operator.Schedule.Gc.{collect, garbage_collect, count_success, has_succeeded}
use questdb_operator.Schedule.Children.{
  get_last_snapshot_time, get_ordered_child_snapshots, owned_snapshots,
}
use questdb_operator.Schedule.Reconcile.{
  Answer, ensure_retention, copy_phase, is_due, run_due, with_crontab, collect_and_requeue,
  run_schedule, reconcile_schedule, after_get, reconcile, no_requeue, latest_of,
}
use questdb_operator.Schedule.Reconcile.Guard.{RetryRuns}
use questdb_operator.Schedule.Reconcile.Timing.{creations}
use questdb_operator.Schedule.Reconcile.Regular.{IsSpaced, Setting, Regular, order}
use questdb_operator.Schedule.Reconcile.Regular.Steps.{
  Any, IsOurs, event-Moves, other-Moves!, write_status-Moves,
}
use questdb_operator.Schedule.Reconcile.Regular.Runs.{run_due-Moves}

module _ {W : Type 0} {client : Client W} {cron : Cron} (set : Setting client cron) (lib : MetaLib)
    (go : GoLib W) (runs : RetryRuns go) where
  open set use {crontab, key, last, last_of, server}

  ensure_retention-Moves :
      (sched : QuestDbSnapshotSchedule)
      → IsOurs set sched
      → Moves (Regular set) (IsOurs set) (ensure_retention client sched)
  unfolding ensure_retention get_last_snapshot_time
  ensure_retention-Moves sched ours =
      let defaulted : QuestDbSnapshotSchedule = record sched {
        spec = record sched.spec { retention = schedule_retention_default };
      } in
      Moves-if (order set) (eq_ℤ sched.spec.retention (pos 0))
        (Moves-call! (order set) (Calls.updated_schedule defaulted)
          (client.update_schedule defaulted)
          (λ s. (server.update_moves defaulted s.world ours.0, inl refl))
          (λ w r e. server.update defaulted r w ours e))
        (Moves-pure (order set) sched ours)

  children-Moves :
      (sched : QuestDbSnapshotSchedule)
      → Moves (Regular set) Any (get_ordered_child_snapshots client lib go sched)
  unfolding get_ordered_child_snapshots
  children-Moves sched =
      let ns = sched.meta.namespace in
      Moves-bind (order set)
        (other-Moves! set (Calls.listed_snapshots ns) (client.list_snapshots ns)
          (server.list_moves ns) (λ r calls. refl))
        (λ items _. Moves-pure (order set) (owned_snapshots lib go sched items) tt)

  copy_phase-Moves :
      (latest : QuestDbSnapshot) (sched : QuestDbSnapshotSchedule)
      → IsOurs set sched
      → Moves (Regular set) (IsOurs set) (copy_phase client latest sched)
  unfolding copy_phase get_last_snapshot_time
  copy_phase-Moves latest sched (named, version, parsed) =
      Moves-if (order set)
        (deep_equal SnapshotPhase-discrete latest.phase sched.status.snapshot_phase)
        (Moves-pure (order set) sched (named, version, parsed))
        (write_status-Moves set _ named parsed (inl version))

  now-Moves : Moves {A = ℕ} (Regular set) Any (λ s.
      let (t, w) = client.now s.world in
      (ok t, record { world = w; log = Calls.read_clock t ∷ s.log }))
  now-Moves = record { at = λ s. (server.now_moves s.world, inl refl); gives = λ s a e. tt }

  collect-Moves :
      (retention count : ℤ) (snaps : List QuestDbSnapshot)
      → Moves (Regular set) Any (collect client retention count snaps)
  unfolding collect
  collect-Moves retention count [] = Moves-pure (order set) tt tt
  collect-Moves retention count (snap ∷ snaps) =
      let rest = collect-Moves retention (count_success snap count) snaps in
      Moves-if (order set) (ltb_ℤ retention (count_success snap count) && has_succeeded snap)
        (Moves-bind (order set)
          (Moves-bind (order set)
            (other-Moves! set (Calls.deleted_snapshot snap) (client.delete_snapshot snap)
              (server.delete_moves snap) (λ r calls. refl))
            (λ _ _. event-Moves set normal "SnapshotDeleted"))
          (λ _ _. rest))
        rest

  collect_and_requeue-Moves :
      (now : ℕ) (current : QuestDbSnapshotSchedule × List QuestDbSnapshot)
      → Moves (Regular set) Any (collect_and_requeue client cron crontab now current)
  unfolding collect_and_requeue garbage_collect
  collect_and_requeue-Moves now (sched, children) = record {
    at = (collect-Moves sched.spec.retention (pos 0) children).at;
    gives = λ s a e. tt;
  }

  run_if_due-Moves :
      (sched : QuestDbSnapshotSchedule) (now : ℕ) (children : List QuestDbSnapshot)
      → IsOurs set sched
      → Moves {A = QuestDbSnapshotSchedule × List QuestDbSnapshot} (Regular set) Any (
          if is_due cron crontab sched now
          then run_due client lib go sched now children
          else pure (sched, children))
  unfolding is_due
  run_if_due-Moves sched now children ours =
      elim (Bool-cases (leb (Cron.next cron crontab (get_last_snapshot_time sched)) now)) [
        | inl due ↦
            let run = run_due-Moves set lib go runs sched now children ours (ground (arith, due)) in
            rw due (record { at = run.at; gives = λ s a e. tt })
        | inr early ↦ rw early (Moves-pure (order set) (sched, children) tt)
      ]

  run_schedule-Moves :
      (sched : QuestDbSnapshotSchedule) (now : ℕ) (children : List QuestDbSnapshot)
      → IsOurs set sched
      → Moves (Regular set) Any (run_schedule client lib go cron sched now children)
  unfolding run_schedule
  run_schedule-Moves sched now children ours =
      subst
        (λ parsed.
          Moves (Regular set) Any (with_crontab client lib go cron sched now children parsed))
        (sym ours.2)
        (Moves-bind (order set) (run_if_due-Moves sched now children ours)
          (λ current _. collect_and_requeue-Moves now current))

  reconcile_schedule-Moves :
      (found : QuestDbSnapshotSchedule)
      → IsOurs set found
      → Moves (Regular set) Any (reconcile_schedule client lib go cron found)
  unfolding reconcile_schedule
  reconcile_schedule-Moves found ours =
      let o = order set in
      Moves-bind o (ensure_retention-Moves found ours) (λ retained kept.
        Moves-bind o (children-Moves retained) (λ children _.
          Moves-bind o (copy_phase-Moves (latest_of children) retained kept) (λ sched copied.
            Moves-bind o now-Moves (λ now _. run_schedule-Moves sched now children copied))))

  -- Whatever was read.
  abbrev WasRead : Result QuestDbSnapshotSchedule → Type 0
  WasRead (ok sched) = IsOurs set sched
  WasRead (err e) = Unit {0}

  get_schedule-WasRead : (w : W) → WasRead (client.get_schedule key w).0
  get_schedule-WasRead w = elim (Result-cases (client.get_schedule key w).0) [
    | inl (sched, found) ↦ rw found (server.read w sched found)
    | inr (e, bad) ↦ rw bad tt
  ]

  after_get-Moves :
      (r : Result QuestDbSnapshotSchedule)
      → WasRead r
      → Moves (Regular set) Any (after_get client lib go cron r)
  after_get-Moves (ok sched) ours = reconcile_schedule-Moves sched ours
  after_get-Moves (err e) _ = record {
    at = λ s.
        elim (ignore_not_found e)
          as (λ x.
            Regular set s
              (elim x as (λ y. Handler W Answer) [ none ↦ pure no_requeue | some z ↦ raise z ]
                s).1) [ none ↦ (inl refl, inl refl) | some z ↦ (inl refl, inl refl) ];
    gives = λ s a b. tt;
  }

  -- Let the server tell the versions of a schedule apart: it takes a status only from the version
  -- that is there, and a read may be answered with an old one. Let others write the schedule at any
  -- time between the calls, as long as they keep its cron text and the runs that they record are
  -- spaced too. Let a retry do nothing but run its closure, and the next time of the cron text lie
  -- later. Then a reconciliation, in whatever state and however it ends, leaves the last time of the
  -- schedule as it is or past its next time, and the latter if the reconciliation asks for a
  -- snapshot.
  pub reconcile-Regular :
      (s : State W Call)
      → let s' = (reconcile client lib go cron key s).1 in
        IsSpaced cron crontab (last s.world) (last s'.world)
        × ((creations s'.log ≡ creations s.log)
            ⊎ (Cron.next cron crontab (last s.world) ≤ last s'.world))
  unfolding reconcile
  reconcile-Regular s =
      (Moves-bind (order set)
          (Moves-call (order set) (Calls.got_schedule key) (client.get_schedule key)
            (λ t. (server.read_moves t.world, inl refl)) get_schedule-WasRead)
          after_get-Moves).at
        s
