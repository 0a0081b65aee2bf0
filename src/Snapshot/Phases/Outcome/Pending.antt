-- ===== src/Snapshot/Phases/Outcome/Pending.antt =====
-- What the handler of a pending snapshot has written where it returns without an error.
use questdb_operator.Prelude.{
  ◌||◌, Option-cases, ◌⊎◌, ◌≡◌, inl, inr, true, false, Bool-cases, Option, none, some, List, [],
  ◌∷◌, arith, if◌then◌else◌,
}
use questdb_operator.Prelude.Int.{pos, eq_ℤ}
use questdb_operator.Kube.Error.{Result-cases, ok}
use questdb_operator.Kube.Meta.{MetaLib}
use questdb_operator.Kube.Exec.{State}
use questdb_operator.Kube.Objects.Workload.{Job}
use questdb_operator.Api.Types.{
  snapshot_complete_finalizer, QuestDbSnapshot, SnapshotPhase, running, finalizing, failed,
}
use questdb_operator.Snapshot.Calls.{got_class, Client, Call}
use questdb_operator.Snapshot.Build.{build_pre_snapshot_job}
use questdb_operator.Snapshot.Phases.{
  prepare_snapshot, handle_phase_pending, add_complete_finalizer, enter_phase, with_phase,
  start_snapshot, run_pre_snapshot_job, check_pre_snapshot_job,
}
use questdb_operator.Snapshot.Phases.Audit.{
  latest_job-run_pre_snapshot_job, no_class, job_done, job_given_up, latest_job,
}
use questdb_operator.Snapshot.Phases.Outcome.{last_written, KeepsSpec}

-- Running and finalizing are told apart by the volume snapshot; both are written as running.
abbrev pub has_begun : Option SnapshotPhase → Option SnapshotPhase
has_begun (some finalizing) = some running
has_begun o = o

-- What a pending snapshot comes to, by the calls that were made.
pub record PendingOutcome (snap : QuestDbSnapshot) (calls : List Call) : Type 0 where
  pub class_missing : no_class calls ≡ true → last_written calls ≡ some failed
  pub given_up :
      no_class calls ≡ false → job_given_up snap calls ≡ true → last_written calls ≡ some failed
  pub done :
      no_class calls ≡ false
      → job_given_up snap calls ≡ false
      → job_done calls ≡ true
      → (last_written calls ≡ some running) ⊎ (last_written calls ≡ some finalizing)
  pub waiting :
      no_class calls ≡ false
      → job_given_up snap calls ≡ false
      → job_done calls ≡ false
      → last_written calls ≡ none

module _ {W : Type 0} (client : Client W) (keeps : KeepsSpec client) (lib : MetaLib)
    (snap : QuestDbSnapshot) where
  -- No class is missing, and no status is written yet.
  abbrev IsFresh : State W Call → Type 0
  IsFresh s = (no_class s.log ≡ false) × (last_written s.log ≡ none)

  IsFresh-build_pre_snapshot_job :
      (s : State W Call) → IsFresh s → IsFresh (build_pre_snapshot_job client lib snap s).1
  unfolding build_pre_snapshot_job
  IsFresh-build_pre_snapshot_job s h = ground arith

  IsFresh-run_pre_snapshot_job :
      (job : Job) (s : State W Call) → IsFresh s → IsFresh (run_pre_snapshot_job client lib job s).1
  unfolding run_pre_snapshot_job
  IsFresh-run_pre_snapshot_job job s h = ground arith

  -- What both parts of `start_snapshot` leave in the log.
  abbrev Knows : Job → State W Call → Type 0
  Knows job s = (latest_job s.log ≡ some job) × (no_class s.log ≡ false)

  abbrev HasStarted : List Call → Type 0
  HasStarted calls = (last_written calls ≡ some running) ⊎ (last_written calls ≡ some finalizing)

  add_complete_finalizer_lem :
      (job : Job) (kept : QuestDbSnapshot) (s : State W Call)
      → Knows job s
      → (add_complete_finalizer client lib snap s).0 ≡ ok kept
      → (kept.spec ≡ snap.spec) × Knows job (add_complete_finalizer client lib snap s).1
  unfolding add_complete_finalizer
  add_complete_finalizer_lem job kept s l e = ground (
    arith,
    keeps.update (record snap { meta = lib.add_finalizer snap.meta snapshot_complete_finalizer })
        kept s.world,
  )

  enter_phase_lem :
      (job : Job) (kept current : QuestDbSnapshot) (s : State W Call)
      → Knows job s
      → (enter_phase client lib kept s).0 ≡ ok current
      → (current.spec ≡ kept.spec)
        × Knows job (enter_phase client lib kept s).1
        × HasStarted (enter_phase client lib kept s).1.log
  unfolding enter_phase
  enter_phase_lem job kept current s l e = ground (
    arith,
    keeps.update_status (with_phase kept running) current s.world,
    keeps.update_status (with_phase kept finalizing) current s.world,
  )

  start_snapshot_lem :
      (job : Job) (current : QuestDbSnapshot) (s : State W Call)
      → Knows job s
      → (start_snapshot client lib snap s).0 ≡ ok current
      → (current.spec ≡ snap.spec)
        × Knows job (start_snapshot client lib snap s).1
        × HasStarted (start_snapshot client lib snap s).1.log
  unfolding start_snapshot
  start_snapshot_lem job current s l e =
      let (r, s₁) = add_complete_finalizer client lib snap s in
      elim (Result-cases r) [
        | inr (x, bad) ↦ ground arith
        | inl (kept, good) ↦
            ground
              (arith, add_complete_finalizer_lem job kept s, enter_phase_lem job kept current s₁)
      ]

  check_pre_snapshot_job-PendingOutcome :
      (job : Job) (s : State W Call)
      → latest_job s.log ≡ some job
      → IsFresh s
      → (check_pre_snapshot_job client lib snap job s).0 ≡ ok tt
      → PendingOutcome snap (check_pre_snapshot_job client lib snap job s).1.log
  unfolding check_pre_snapshot_job
  check_pre_snapshot_job-PendingOutcome job s l h e =
      elim (Bool-cases (eq_ℤ job.status.succeeded (pos 1))) [
        | inr not_done ↦ ground arith
        | inl done ↦ elim (Result-cases (start_snapshot client lib snap s).0) [
          | inr (x, bad) ↦ ground arith
          | inl (current, good) ↦ ground (arith, start_snapshot_lem job current s)
        ]
      ]

  prepare_snapshot-PendingOutcome :
      (s : State W Call)
      → IsFresh s
      → (prepare_snapshot client lib snap s).0 ≡ ok tt
      → PendingOutcome snap (prepare_snapshot client lib snap s).1.log
  unfolding prepare_snapshot
  prepare_snapshot-PendingOutcome s h e =
      let built = build_pre_snapshot_job client lib snap s in
      let h₁ = IsFresh-build_pre_snapshot_job s h in
      elim (Result-cases built.0) [
        | inr (x, bad) ↦ ground arith
        | inl (job, good) ↦
            let ran = run_pre_snapshot_job client lib job built.1 in
            let h₂ = IsFresh-run_pre_snapshot_job job built.1 h₁ in
            elim (Result-cases ran.0) [
              | inr (x, bad) ↦ ground arith
              | inl (found, there) ↦ ground (
                arith,
                latest_job-run_pre_snapshot_job client lib snap job found built.1,
                check_pre_snapshot_job-PendingOutcome found ran.1,
              )
            ]
      ]

  abbrev pending_calls : W → List Call
  pending_calls w = (handle_phase_pending client lib snap (record { world = w; log = [] })).1.log

  handle_phase_pending-PendingOutcome :
      (w : W)
      → (handle_phase_pending client lib snap (record { world = w; log = [] })).0 ≡ ok tt
      → PendingOutcome snap (pending_calls w)
  unfolding handle_phase_pending
  handle_phase_pending-PendingOutcome w e =
      elim (Option-cases snap.spec.volume_snapshot_class_name) [
        | inl none_named ↦
            ground (arith, prepare_snapshot-PendingOutcome (record { world = w; log = [] }))
        | inr (name, named) ↦
            let (class, w₁) = client.get_volume_snapshot_class name w in
            ground (
              arith,
              prepare_snapshot-PendingOutcome
                  (record { world = w₁; log = got_class name class ∷ [] }),
            )
      ]

  -- If the server keeps the specification of a snapshot that it updates, then a pending snapshot
  -- whose handler returns without an error is last written as failed if its class does not exist
  -- or its job failed too often, done or not; else as running or finalizing if the job is done;
  -- else it is not written.
  pub outcome-pending :
      (w : W)
      → (handle_phase_pending client lib snap (record { world = w; log = [] })).0 ≡ ok tt
      → has_begun (last_written (pending_calls w)) ≡ (
          if no_class (pending_calls w) || job_given_up snap (pending_calls w)
          then some failed
          else if job_done (pending_calls w)
          then some running
          else none)
  outcome-pending w e =
      let o = handle_phase_pending-PendingOutcome w e in
      let calls = pending_calls w in
      elim (Bool-cases (no_class calls)) [
        | inl missing ↦ ground (arith, missing, o.class_missing missing)
        | inr there ↦ elim (Bool-cases (job_given_up snap calls)) [
          | inl up ↦ ground (arith, there, up, o.given_up there up)
          | inr going ↦ elim (Bool-cases (job_done calls)) [
            | inr not_yet ↦ ground (arith, there, going, not_yet, o.waiting there going not_yet)
            | inl finished ↦ elim (o.done there going finished) [
              | inl r ↦ ground (arith, there, going, finished, r)
              | inr f ↦ ground (arith, there, going, finished, f)
            ]
          ]
        ]
      ]
