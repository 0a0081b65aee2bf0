-- ===== src/Snapshot/Phases/Outcome.antt =====
-- What a handler that returns without an error has written, as a function of what it was told.
pub mod Pending
use questdb_operator.Prelude.{
  ◌||◌, Option-cases, ◌⊎◌, ◌≡◌, inl, inr, true, false, Bool-cases, Option, none, some, List, [],
  ◌∷◌, arith, if◌then◌else◌,
}
use questdb_operator.Prelude.Int.{pos, eq_ℤ}
use questdb_operator.Kube.Error.{Result-cases, ok}
use questdb_operator.Kube.Meta.{MetaLib}
use questdb_operator.Kube.Exec.{State}
use questdb_operator.Kube.Objects.Workload.{Job}
use questdb_operator.Api.Types.{
  snapshot_complete_finalizer, QuestDbSnapshot, SnapshotPhase, pending, running, finalizing, failed,
  succeeded,
}
use questdb_operator.Snapshot.Calls.{got_class, Client, Call, updated_status}
use questdb_operator.Snapshot.Build.{build_pre_snapshot_job, build_post_snapshot_job}
use questdb_operator.Snapshot.Phases.{
  prepare_snapshot, handle_phase_pending, handle_phase_empty, handle_phase_running,
  handle_phase_finalizing, add_complete_finalizer, enter_phase, with_phase, start_snapshot,
  run_pre_snapshot_job, check_pre_snapshot_job,
}
use questdb_operator.Snapshot.Phases.Audit.{
  latest_job-run_pre_snapshot_job, no_questdb, no_class, job_done, job_given_up, volume_ready,
  latest_job,
}

-- The phase of the last status that was written.
abbrev pub last_written : List Call → Option SnapshotPhase
last_written [] = none
last_written (updated_status snap _ ∷ calls) = some snap.phase
last_written (_ ∷ calls) = last_written calls

-- An update answers with a snapshot of the same specification.
pub record KeepsSpec {W : Type 0} (client : Client W) : Type 0 where
  pub update :
      (s r : QuestDbSnapshot) (w : W) → (client.update_snapshot s w).0 ≡ ok r → r.spec ≡ s.spec
  pub update_status :
      (s r : QuestDbSnapshot) (w : W)
      → (client.update_snapshot_status s w).0 ≡ ok r
      → r.spec ≡ s.spec

module _ {W : Type 0} (client : Client W) (lib : MetaLib) (snap : QuestDbSnapshot) (w : W) where
  abbrev start : State W Call
  start = record { world = w; log = [] }

  -- The handler of a new snapshot last writes it as failed if its database does not exist, and as
  -- pending otherwise, also where the server could not tell.
  pub outcome-empty :
      let (answer, s) = handle_phase_empty client lib snap start in
      last_written s.log ≡ some (if no_questdb s.log then failed else pending)
  unfolding handle_phase_empty
  outcome-empty = ground arith

  -- The handler of a running snapshot last writes it as finalizing if the volume snapshot is
  -- ready, and does not write it otherwise, whatever the server answers.
  pub outcome-running :
      let (answer, s) = handle_phase_running client lib snap start in
      last_written s.log ≡ (if volume_ready s.log then some finalizing else none)
  unfolding handle_phase_running
  outcome-running = ground arith

  -- The handler of a finalizing snapshot last writes it as succeeded if the job is done, as failed
  -- if the job is not done and failed too often, and does not write it otherwise, whatever the
  -- server answers.
  pub outcome-finalizing :
      let (answer, s) = handle_phase_finalizing client lib snap start in
      last_written s.log ≡ (
        if job_done s.log
        then some succeeded
        else if job_given_up snap s.log
        then some failed
        else none)
  unfolding handle_phase_finalizing build_post_snapshot_job
  outcome-finalizing = ground arith
