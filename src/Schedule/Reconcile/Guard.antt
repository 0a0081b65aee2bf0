-- ===== src/Schedule/Reconcile/Guard.antt =====
-- What a reconciliation of a schedule keeps, if its creations are guarded.
use questdb_operator.Prelude.{
  ◌≡◌, refl, true, false, Bool, ◌&&◌, inl, inr, Bool-cases, Option-cases, List, [], ◌∷◌, arith, ℕ,
  ap, ◌∙◌, some,
}
use questdb_operator.Prelude.Int.{ℤ, pos}
use questdb_operator.Cron.{Cron}
use questdb_operator.Kube.Error.{Result, Result-cases, ok}
use questdb_operator.Kube.Meta.{MetaLib, NamespacedName}
use questdb_operator.Kube.Exec.{bind-keeps, bind-keeps_result, State}
use questdb_operator.Api.Types.{QuestDbSnapshot, QuestDbSnapshotSchedule}
use questdb_operator.Schedule.Calls.{
  Client, Call, Attempt, GoLib, created_snapshot, updated_status, read_clock, got_schedule, event,
  deleted_snapshot, normal,
}
use questdb_operator.Schedule.Gc.{count_success, collect, garbage_collect}
use questdb_operator.Schedule.Children.{get_ordered_child_snapshots, build_snapshot, build_crontab}
use questdb_operator.Schedule.Reconcile.{
  ensure_retention, copy_phase, create_attempt, take_snapshot, unless_busy, run_due,
  collect_and_requeue, is_due, run_schedule, reconcile_schedule, reconcile, latest_of, is_busy,
}

-- `RetryOnConflict` does nothing but run the closure: what each run keeps, it keeps.
abbrev pub RetryRuns : {W : Type 0} → GoLib W → Type 1
RetryRuns {W = W} go =
    (P : State W Call → Type 0) (f : Attempt W)
    → ((snap : QuestDbSnapshot) (s : State W Call) → P s → P (f snap s).1)
    → (snap : QuestDbSnapshot) (s : State W Call) → P s
    → P (go.retry_on_conflict f snap s).1

-- Each creation stands behind calls that pass the guard.
abbrev pub creations_guarded : (List Call → Bool) → List Call → Bool
creations_guarded guard [] = true
creations_guarded guard (created_snapshot snap r ∷ calls) =
    guard calls && creations_guarded guard calls
creations_guarded guard (_ ∷ calls) = creations_guarded guard calls

-- The schedule with the time of a run.
abbrev pub stamp : QuestDbSnapshotSchedule → ℕ → QuestDbSnapshotSchedule
stamp sched now = record sched { status = record sched.status { last_snapshot = now } }

module _ {W : Type 0} (client : Client W) (lib : MetaLib) (go : GoLib W) (cron : Cron)
    (runs : RetryRuns go) (guard : List Call → Bool)
    (ignores : (snap : QuestDbSnapshot) (r : Result QuestDbSnapshot) (calls : List Call)
      → guard (created_snapshot snap r ∷ calls) ≡ guard calls) where
  -- What the controller keeps between its calls.
  abbrev pub Good : State W Call → Type 0
  Good s = creations_guarded guard s.log ≡ true

  abbrev Prepared : State W Call → Type 0
  Prepared s = Good s × (guard s.log ≡ true)

  create_attempt-Prepared :
      (snap : QuestDbSnapshot) (s : State W Call)
      → Prepared s
      → Prepared (create_attempt client snap s).1
  unfolding create_attempt
  create_attempt-Prepared snap s h =
      ground (arith, ignores snap (client.create_snapshot snap s.world).0 s.log)

  take_snapshot-Good :
      (sched : QuestDbSnapshotSchedule) (now : ℕ) (children : List QuestDbSnapshot)
      → (s : State W Call) → Prepared s
      → Good (take_snapshot client lib go sched now children s).1
  unfolding take_snapshot
  take_snapshot-Good sched now children s h =
      elim (Result-cases (build_snapshot lib go sched now)) [
        | inr (e, bad) ↦ ground (arith, bad)
        | inl (snap, built) ↦
            ground
              (arith, built, runs Prepared (create_attempt client) create_attempt-Prepared snap s h)
      ]

  unless_busy-Good :
      (sched : QuestDbSnapshotSchedule) (now : ℕ) (children : List QuestDbSnapshot)
      → (s : State W Call) → Good s
      → (is_busy sched (latest_of children) ≡ false → guard s.log ≡ true)
      → Good (unless_busy client lib go sched now children s).1
  unfolding unless_busy
  unless_busy-Good sched now children s h passes =
      elim (Bool-cases (is_busy sched (latest_of children))) [
        | inl busy ↦ rw (busy) h
        | inr free ↦ rw (free) (take_snapshot-Good sched now children s (h, passes free))
      ]

  collect-Good :
      (retention count : ℤ) (snaps : List QuestDbSnapshot) (s : State W Call)
      → Good s
      → Good (collect client retention count snaps s).1
  unfolding collect
  collect-Good retention count [] s h = h
  collect-Good retention count (snap ∷ snaps) s h =
      let answer = client.delete_snapshot snap s.world in
      ground (
        arith,
        collect-Good retention (count_success snap count) snaps s h,
        collect-Good retention (count_success snap count) snaps
            (record {
              world = answer.1;
              log = event normal "SnapshotDeleted" ∷ deleted_snapshot snap answer.0 ∷ s.log;
            })
            h,
      )

  -- If the status is taken and the latest child is not under way, what follows is guarded.
  abbrev pub Allows : QuestDbSnapshotSchedule → List QuestDbSnapshot → ℕ → State W Call → Type 0
  Allows sched children now s =
      (stored : QuestDbSnapshotSchedule)
      → (client.update_schedule_status (stamp sched now) s.world).0 ≡ ok stored
      → is_busy stored (latest_of children) ≡ false
      → guard (updated_status (stamp sched now) (ok stored) ∷ s.log) ≡ true

  run_due-Good :
      (sched : QuestDbSnapshotSchedule) (now : ℕ) (children : List QuestDbSnapshot)
      → (s : State W Call) → Good s
      → Allows sched children now s
      → Good (run_due client lib go sched now children s).1
  unfolding run_due
  run_due-Good sched now children s h allows =
      let answer = client.update_schedule_status (stamp sched now) s.world in
      let s' : State W Call = record {
        world = answer.1;
        log = updated_status (stamp sched now) answer.0 ∷ s.log;
      } in
      elim (Result-cases answer.0) [
        | inr (e, bad) ↦ ground (arith, bad)
        | inl (sched', good) ↦
            let passes : is_busy sched' (latest_of children) ≡ false → guard s'.log ≡ true = λ free.
              ap (λ r. guard (updated_status (stamp sched now) r ∷ s.log)) good
              ∙ allows sched' good free in
            let after = unless_busy-Good sched' now children s' (ground (arith, good)) passes in
            elim (Result-cases (unless_busy client lib go sched' now children s').0) [
              | inr (e, refused) ↦ ground (arith, good, refused, after)
              | inl (children', taken) ↦ ground (arith, good, taken, after)
            ]
      ]

  collect_and_requeue-Good :
      (crontab : Cron.Crontab cron) (now : ℕ) (sched : QuestDbSnapshotSchedule)
      → (children : List QuestDbSnapshot) (s : State W Call) → Good s
      → Good (collect_and_requeue client cron crontab now (sched, children) s).1
  unfolding collect_and_requeue garbage_collect
  collect_and_requeue-Good crontab now sched children s h =
      collect-Good sched.spec.retention (pos 0) children s h

  -- If a due run is guarded.
  abbrev pub AllowsDue : QuestDbSnapshotSchedule → List QuestDbSnapshot → ℕ → State W Call → Type 0
  AllowsDue sched children now s =
      (crontab : Cron.Crontab cron)
      → build_crontab cron sched ≡ some crontab
      → is_due cron crontab sched now ≡ true
      → Allows sched children now s

  pub run_schedule-Good :
      (sched : QuestDbSnapshotSchedule) (now : ℕ) (children : List QuestDbSnapshot)
      → (s : State W Call) → Good s
      → AllowsDue sched children now s
      → Good (run_schedule client lib go cron sched now children s).1
  unfolding run_schedule
  run_schedule-Good sched now children s h allows = elim (Option-cases (build_crontab cron sched)) [
    | inl bad ↦ rw (bad) (ground arith)
    | inr (crontab, parsed) ↦ rw (parsed) (elim (Bool-cases (is_due cron crontab sched now)) [
      | inl due ↦ rw (due) (
          bind-keeps Good Good (run_due client lib go sched now children) _ s
            (run_due-Good sched now children s h (allows crontab parsed due)) (λ s' k. k)
            (λ current s' k. collect_and_requeue-Good crontab now current.0 current.1 s' k))
      | inr early ↦ rw (early) (collect_and_requeue-Good crontab now sched children s h)
    ])
  ]

  pub ensure_retention-Good :
      (sched : QuestDbSnapshotSchedule) (s : State W Call)
      → Good s
      → Good (ensure_retention client sched s).1
  unfolding ensure_retention
  ensure_retention-Good sched s h = ground arith

  get_ordered_child_snapshots-Good :
      (sched : QuestDbSnapshotSchedule) (s : State W Call)
      → Good s
      → Good (get_ordered_child_snapshots client lib go sched s).1
  unfolding get_ordered_child_snapshots
  get_ordered_child_snapshots-Good sched s h = ground arith

  copy_phase-Good :
      (latest : QuestDbSnapshot) (sched : QuestDbSnapshotSchedule) (s : State W Call)
      → Good s
      → Good (copy_phase client latest sched s).1
  unfolding copy_phase
  copy_phase-Good latest sched s h = ground arith

  -- What a schedule keeps through the two writes before the clock is read.
  pub record Keeps (Q : QuestDbSnapshotSchedule → Type 0) : Type 0 where
    pub retention :
        (sched stored : QuestDbSnapshotSchedule) (s : State W Call)
        → Q sched
        → (ensure_retention client sched s).0 ≡ ok stored
        → Q stored
    pub phase :
        (latest : QuestDbSnapshot) (sched stored : QuestDbSnapshotSchedule) (s : State W Call)
        → Q sched
        → (copy_phase client latest sched s).0 ≡ ok stored
        → Q stored
    pub clock :
        (sched : QuestDbSnapshotSchedule) (children : List QuestDbSnapshot) (now : ℕ) (w : W)
        (calls : List Call)
        → Q sched
        → AllowsDue sched children now (record { world = w; log = read_clock now ∷ calls })

  pub reconcile_schedule-Good :
      (Q : QuestDbSnapshotSchedule → Type 0) (keeps : Keeps Q) (found : QuestDbSnapshotSchedule)
      (s : State W Call)
      → Q found
      → Good s
      → Good (reconcile_schedule client lib go cron found s).1
  unfolding reconcile_schedule
  reconcile_schedule-Good Q keeps found s q h =
      bind-keeps_result Good Good (ensure_retention client found) _ s
        (ensure_retention-Good found s h) (λ s' k. k)
        (λ retained s1 was_retained h1.
          bind-keeps Good Good (get_ordered_child_snapshots client lib go retained) _ s1
            (get_ordered_child_snapshots-Good retained s1 h1) (λ s' k. k)
            (λ children s2 h2.
              bind-keeps_result Good Good (copy_phase client (latest_of children) retained) _ s2
                (copy_phase-Good (latest_of children) retained s2 h2) (λ s' k. k)
                (λ sched s3 was_copied h3.
                  let (now, w) = client.now s3.world in
                  let q1 = keeps.retention found retained s q was_retained in
                  let q2 = keeps.phase (latest_of children) retained sched s2 q1 was_copied in
                  run_schedule-Good sched now children
                    (record { world = w; log = read_clock now ∷ s3.log }) h3
                    (keeps.clock sched children now w s3.log q2))))

  pub reconcile-Good :
      (Q : QuestDbSnapshotSchedule → Type 0) (keeps : Keeps Q) (req : NamespacedName) (w : W)
      → ((found : QuestDbSnapshotSchedule) → (client.get_schedule req w).0 ≡ ok found → Q found)
      → Good (reconcile client lib go cron req (record { world = w; log = [] })).1
  unfolding reconcile
  reconcile-Good Q keeps req w reads = elim (Result-cases (client.get_schedule req w).0) [
    | inr (e, bad) ↦ ground (arith, bad)
    | inl (sched, good) ↦ ground (
      arith,
      good,
      reconcile_schedule-Good Q keeps sched
          (record {
            world = (client.get_schedule req w).1;
            log = got_schedule req (client.get_schedule req w).0 ∷ [];
          })
          (reads sched good) refl,
    )
  ]
