-- ===== src/Schedule/Reconcile/Regular/Runs.antt =====
-- A run that is due: the time is recorded, and then a snapshot may be created.
use questdb_operator.Prelude.{
  String, ℕ, ◌<◌, ◌≤◌, ◌≡◌, inl, inr, refl, subst, sym, Option, none, some, List, ◌∷◌, arith,
}
use questdb_operator.Cron.{Cron}
use questdb_operator.Kube.Error.{Error, ok}
use questdb_operator.Kube.Meta.{MetaLib}
use questdb_operator.Kube.Exec.{State, pure, ◌>>=◌, bind-keeps_result}
use questdb_operator.Kube.Exec.Moves.{
  IsPreorder, Moves, Moves-pure, Moves-lift, Moves-bind, Moves-if,
}
use questdb_operator.Api.Types.{QuestDbSnapshot, QuestDbSnapshotSchedule}
use questdb_operator.Schedule.Calls.{Client, Call, GoLib, EventType, record_event, normal, warning}
use questdb_operator.Schedule.Children.{get_last_snapshot_time, build_snapshot}
use questdb_operator.Schedule.Reconcile.{
  write_status, is_busy, latest_of, create_attempt, after_create, take_snapshot, unless_busy,
  run_due,
}
use questdb_operator.Schedule.Reconcile.Guard.{RetryRuns}
use questdb_operator.Schedule.Reconcile.Regular.{
  Setting, Spaced, Spaced-trans, HasRun, Regular, next-after,
}
use questdb_operator.Schedule.Reconcile.Regular.Steps.{
  Any, IsOurs, write_status-Moves, write_status-HasRun,
}

module _ {W : Type 0} {client : Client W} {cron : Cron} (set : Setting client cron) (lib : MetaLib)
    (go : GoLib W) (runs : RetryRuns go) where
  open set use {crontab, key, last, last_of, server}

  -- Whatever is created, the recorded times are spaced.
  abbrev Quiet : State W Call → State W Call → Type 0
  Quiet s s' = Spaced set (last s.world) (last s'.world)

  quiet : IsPreorder Quiet
  quiet = record { reflexive = λ s. inl refl; transitive = λ s t u. Spaced-trans set _ _ _ }

  event-Quiet :
      (type : EventType) (reason : String) → Moves Quiet Any (record_event {W = W} type reason)
  event-Quiet type reason = record { at = λ s. inl refl; gives = λ s a e. tt }

  create_attempt-Quiet :
      (snap : QuestDbSnapshot) (s t : State W Call)
      → Quiet s t
      → Quiet s (create_attempt client snap t).1
  unfolding create_attempt
  create_attempt-Quiet snap s t moved =
      Spaced-trans set _ _ _ moved (ground (arith, server.create_moves snap t.world))

  after_create-Quiet :
      (children : List QuestDbSnapshot) (r : Option Error × QuestDbSnapshot)
      → Moves Quiet Any (after_create client lib go children r)
  after_create-Quiet children (none, snap) =
      Moves-bind quiet (event-Quiet normal "SnapshotCreated")
        (λ _ _. Moves-pure quiet (snap ∷ children) tt)
  after_create-Quiet children (some e, snap) =
      Moves-bind quiet (event-Quiet warning "SnapshotFailed") (λ _ _. Moves-pure quiet children tt)

  retry-Quiet :
      (snap : QuestDbSnapshot)
      → Moves {A = Option Error × QuestDbSnapshot} Quiet Any
          (λ s. let (r, s') = go.retry_on_conflict (create_attempt client) snap s in (ok r, s'))
  retry-Quiet snap = record {
    at = λ s.
        runs (Quiet s) (create_attempt client) (λ snap' t. create_attempt-Quiet snap' s t) snap s
          (inl refl);
    gives = λ s a e. tt;
  }

  unless_busy-Quiet :
      (sched : QuestDbSnapshotSchedule) (now : ℕ) (children : List QuestDbSnapshot)
      → Moves Quiet Any (unless_busy client lib go sched now children)
  unfolding unless_busy take_snapshot
  unless_busy-Quiet sched now children =
      Moves-if quiet (is_busy sched (latest_of children))
        (Moves-bind quiet (event-Quiet warning "SnapshotSkipped")
          (λ _ _. Moves-pure quiet children tt))
        (Moves-bind quiet (Moves-lift quiet (build_snapshot lib go sched now) (λ a e. tt))
          (λ snap _. Moves-bind quiet (retry-Quiet snap) (λ r _. after_create-Quiet children r)))

  -- What follows the record of a run.
  rest-Quiet :
      (now : ℕ) (children : List QuestDbSnapshot) (stored : QuestDbSnapshotSchedule)
      → IsOurs set stored
      → Moves Quiet
          (λ (r : QuestDbSnapshotSchedule × List QuestDbSnapshot). IsOurs set r.0)
          (unless_busy client lib go stored now children >>= λ children'. pure (stored, children'))
  rest-Quiet now children stored ours =
      Moves-bind quiet (unless_busy-Quiet stored now children)
        (λ children' _. Moves-pure quiet (stored, children') ours)

  -- The time of a run that is recorded is its own.
  recorded :
      (sched : QuestDbSnapshotSchedule) (now : ℕ)
      → Cron.next cron crontab (get_last_snapshot_time sched) ≤ now
      → get_last_snapshot_time
          (record sched { status = record sched.status { last_snapshot = now } })
        ≡ now
  unfolding get_last_snapshot_time
  recorded sched now due =
      let ahead = set.later crontab (get_last_snapshot_time sched) in
      let positive : 0 < now = omega (arith, due, ahead) in ground (arith, positive)

  pub run_due-Moves :
      (sched : QuestDbSnapshotSchedule) (now : ℕ) (children : List QuestDbSnapshot)
      → IsOurs set sched
      → Cron.next cron crontab (get_last_snapshot_time sched) ≤ now
      → Moves
          (Regular set)
          (λ (r : QuestDbSnapshotSchedule × List QuestDbSnapshot). IsOurs set r.0)
          (run_due client lib go sched now children)
  unfolding run_due
  run_due-Moves sched now children (named, version, parsed) due =
      let written : QuestDbSnapshotSchedule = record sched {
        status = record sched.status { last_snapshot = now };
      } in
      let time = recorded sched now due in
      let ahead : Cron.next cron crontab (last_of sched.meta.resource_version)
          ≤ get_last_snapshot_time written =
        subst (λ t. Cron.next cron crontab (last_of sched.meta.resource_version) ≤ t) (sym time)
          (subst (λ t. Cron.next cron crontab t ≤ now) (sym version) due) in
      let writes = write_status-Moves set written named parsed (inr ahead) in
      record {
        at = λ s.
            bind-keeps_result (λ t. t ≡ (write_status client written s).1) (Regular set s)
              (write_status client written) _ s refl
              (λ t e. subst (Regular set s) (sym e) (writes.at s))
              (λ stored t answered e.
                let moved =
                  (rest-Quiet now children stored (writes.gives s stored answered)).at t in
                let run = write_status-HasRun set written stored s named parsed ahead answered in
                let run_t : HasRun set s t = subst (HasRun set s) (sym e) run in
                let run_end = next-after set _ _ _ run_t moved in (inr run_end, inr run_end));
        gives = λ s.
            (Moves-bind {R = λ s t. Unit {0}}
                (record { reflexive = λ s. tt; transitive = λ s t u _ _. tt })
                {m = write_status client written} (record { at = λ s. tt; gives = writes.gives })
                (λ stored ours. record {
                  at = λ s. tt;
                  gives = (rest-Quiet now children stored ours).gives;
                })).gives
              s;
      }
