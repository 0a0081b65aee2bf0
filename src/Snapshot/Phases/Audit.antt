-- ===== src/Snapshot/Phases/Audit.antt =====
-- Why a phase may be written: the rule book of the snapshot's life, and that the handlers keep it.
use questdb_operator.Prelude.{
  ◌≡◌, inl, inr, String, Bool, true, false, Option-cases, not, ◌&&◌, ◌||◌, Option, none, some, List,
  [], ◌∷◌, arith,
}
use questdb_operator.Prelude.Int.{pos, eq_ℤ, leb_ℤ}
use questdb_operator.Kube.Error.{Result-cases, ok}
use questdb_operator.Kube.Meta.{MetaLib, NamespacedName}
use questdb_operator.Kube.Exec.{State}
use questdb_operator.Kube.Objects.Workload.{Job}
use questdb_operator.Kube.Objects.Storage.{VolumeSnapshot}
use questdb_operator.Api.Types.{
  unknown, QuestDbSnapshot, SnapshotPhase, empty, pending, running, finalizing, failed, succeeded,
}
use questdb_operator.Snapshot.Calls.{
  Client, Call, updated_status, got_questdb, got_class, created_job, got_job, deleted_job,
  created_volume_snapshot, got_volume_snapshot,
}
use questdb_operator.Snapshot.Build.{build_pre_snapshot_job, build_post_snapshot_job}
use questdb_operator.Snapshot.Phases.{
  handle_phase, is_ready, is_err_not_found, handle_phase_empty, handle_phase_pending,
  handle_phase_running, handle_phase_finalizing, start_snapshot, add_complete_finalizer,
  enter_phase, run_pre_snapshot_job, check_pre_snapshot_job, prepare_snapshot, release_snapshot,
  delete_jobs, job_names, handle_phase_failed, handle_phase_succeeded,
}

-- The last job that the server showed.
abbrev pub latest_job : List Call → Option Job
latest_job [] = none
latest_job (created_job _ (ok job) ∷ calls) = some job
latest_job (got_job _ (ok job) ∷ calls) = some job
latest_job (_ ∷ calls) = latest_job calls

abbrev pub latest_volume_snapshot : List Call → Option VolumeSnapshot
latest_volume_snapshot [] = none
latest_volume_snapshot (created_volume_snapshot _ (ok v) ∷ calls) = some v
latest_volume_snapshot (got_volume_snapshot _ (ok v) ∷ calls) = some v
latest_volume_snapshot (_ ∷ calls) = latest_volume_snapshot calls

-- The server said that the database, or the class, does not exist.
abbrev pub no_questdb : List Call → Bool
no_questdb [] = false
no_questdb (got_questdb _ answer ∷ calls) = is_err_not_found answer
no_questdb (_ ∷ calls) = no_questdb calls

abbrev pub no_class : List Call → Bool
no_class [] = false
no_class (got_class _ answer ∷ calls) = is_err_not_found answer
no_class (_ ∷ calls) = no_class calls

abbrev on {ℓ} : {A : Type ℓ} → (A → Bool) → Option A → Bool
on test none = false
on test (some a) = test a

abbrev pub job_done : List Call → Bool
job_done calls = on (λ job. eq_ℤ job.status.succeeded (pos 1)) (latest_job calls)

-- The job failed as often as the snapshot allows.
abbrev pub job_given_up : QuestDbSnapshot → List Call → Bool
job_given_up snap calls =
    on (λ job. leb_ℤ snap.spec.job_backoff_limit job.status.failed) (latest_job calls)

abbrev pub volume_ready : List Call → Bool
volume_ready calls = on is_ready (latest_volume_snapshot calls)

abbrev pub is_deleted : QuestDbSnapshot → Bool
is_deleted snap = elim snap.meta.deletion_timestamp [ none ↦ false | some t ↦ true ]

-- `allowed from snap calls`: after these calls a snapshot in phase `from` may be written as `snap`.
abbrev pub allowed : SnapshotPhase → SnapshotPhase → QuestDbSnapshot → List Call → Bool
allowed empty failed snap calls = no_questdb calls
allowed empty pending snap calls = not (no_questdb calls)
allowed pending running snap calls = job_done calls && not (is_deleted snap)
allowed pending finalizing snap calls = job_done calls && is_deleted snap
allowed pending failed snap calls = no_class calls || job_given_up snap calls
allowed running finalizing snap calls = volume_ready calls
allowed finalizing succeeded snap calls = job_done calls
allowed finalizing failed snap calls = not (job_done calls) && job_given_up snap calls
allowed _ _ snap calls = false

-- Every status that the calls, the newest first, write was allowed by the calls before it.
abbrev pub audit : SnapshotPhase → List Call → Bool
audit from [] = true
audit from (updated_status snap _ ∷ calls) = allowed from snap.phase snap calls && audit from calls
audit from (_ ∷ calls) = audit from calls

module _ {W : Type 0} (client : Client W) (lib : MetaLib) (snap : QuestDbSnapshot) where
  audit-empty :
      (s : State W Call)
      → audit empty s.log ≡ true
      → audit empty (handle_phase_empty client lib snap s).1.log ≡ true
  unfolding handle_phase_empty
  audit-empty s h = ground arith

  audit-running :
      (s : State W Call)
      → audit running s.log ≡ true
      → audit running (handle_phase_running client lib snap s).1.log ≡ true
  unfolding handle_phase_running
  audit-running s h = ground arith

  audit-finalizing :
      (s : State W Call)
      → audit finalizing s.log ≡ true
      → audit finalizing (handle_phase_finalizing client lib snap s).1.log ≡ true
  unfolding handle_phase_finalizing build_post_snapshot_job
  audit-finalizing s h = ground arith

  audit-failed :
      (s : State W Call)
      → audit failed s.log ≡ true
      → audit failed (handle_phase_failed client lib snap s).1.log ≡ true
  unfolding handle_phase_failed
  audit-failed s h = ground arith

  audit-release_snapshot :
      (s : State W Call)
      → audit succeeded s.log ≡ true
      → audit succeeded (release_snapshot client lib snap s).1.log ≡ true
  unfolding release_snapshot
  audit-release_snapshot s h = ground arith

  audit-delete_jobs :
      (namespace : String) (names : List String) (s : State W Call)
      → audit succeeded s.log ≡ true
      → audit succeeded (delete_jobs client lib namespace names s).1.log ≡ true
  unfolding delete_jobs
  audit-delete_jobs namespace [] s h = h
  audit-delete_jobs namespace (name ∷ names) s h =
      let key : NamespacedName = record { namespace = namespace; name = name } in
      let (found, w₁) = client.get_job key s.world in
      let read : State W Call = record { world = w₁; log = got_job key found ∷ s.log } in
      elim (Result-cases found) [
        | inr (e, missing) ↦ ground (arith, audit-delete_jobs namespace names read)
        | inl (job, there) ↦
            let (answer, w₂) = client.delete_job job w₁ in
            ground (
              arith,
              audit-delete_jobs namespace names
                  (record { world = w₂; log = deleted_job job answer ∷ read.log }),
            )
      ]

  audit-succeeded :
      (s : State W Call)
      → audit succeeded s.log ≡ true
      → audit succeeded (handle_phase_succeeded client lib snap s).1.log ≡ true
  unfolding handle_phase_succeeded
  audit-succeeded s h =
      let (released, s') = release_snapshot client lib snap s in
      elim (Result-cases released) [
        | inr (e, refused) ↦ ground (arith, refused, audit-release_snapshot s)
        | inl (done, good) ↦ ground (
          arith,
          good,
          audit-release_snapshot s,
          audit-delete_jobs done.meta.namespace (job_names done) s',
        )
      ]

  audit-build_pre_snapshot_job :
      (s : State W Call)
      → audit pending s.log ≡ true
      → audit pending (build_pre_snapshot_job client lib snap s).1.log ≡ true
  unfolding build_pre_snapshot_job
  audit-build_pre_snapshot_job s h = ground arith

  audit-run_pre_snapshot_job :
      (job : Job) (s : State W Call)
      → audit pending s.log ≡ true
      → audit pending (run_pre_snapshot_job client lib job s).1.log ≡ true
  unfolding run_pre_snapshot_job
  audit-run_pre_snapshot_job job s h = ground arith

  pub latest_job-run_pre_snapshot_job :
      (job found : Job) (s : State W Call)
      → (run_pre_snapshot_job client lib job s).0 ≡ ok found
      → latest_job (run_pre_snapshot_job client lib job s).1.log ≡ some found
  unfolding run_pre_snapshot_job
  latest_job-run_pre_snapshot_job job found s h = ground arith

  audit-check_pre_snapshot_job :
      (job : Job) (s : State W Call)
      → latest_job s.log ≡ some job
      → audit pending s.log ≡ true
      → audit pending (check_pre_snapshot_job client lib snap job s).1.log ≡ true
  unfolding check_pre_snapshot_job start_snapshot add_complete_finalizer enter_phase
  audit-check_pre_snapshot_job job s l h = ground arith

  audit-prepare_snapshot :
      (s : State W Call)
      → audit pending s.log ≡ true
      → audit pending (prepare_snapshot client lib snap s).1.log ≡ true
  unfolding prepare_snapshot
  audit-prepare_snapshot s h =
      let built = build_pre_snapshot_job client lib snap s in
      let h₁ = audit-build_pre_snapshot_job s h in
      elim (Result-cases built.0) [
        | inr (e, bad) ↦ ground arith
        | inl (job, good) ↦
            let ran = run_pre_snapshot_job client lib job built.1 in
            let h₂ = audit-run_pre_snapshot_job job built.1 h₁ in
            elim (Result-cases ran.0) [
              | inr (e, bad) ↦ ground arith
              | inl (found, there) ↦ ground (
                arith,
                latest_job-run_pre_snapshot_job job found built.1,
                audit-check_pre_snapshot_job found ran.1,
              )
            ]
      ]

  audit-pending :
      (s : State W Call)
      → audit pending s.log ≡ true
      → audit pending (handle_phase_pending client lib snap s).1.log ≡ true
  unfolding handle_phase_pending
  audit-pending s h = elim (Option-cases snap.spec.volume_snapshot_class_name) [
    | inl none_named ↦ ground (arith, audit-prepare_snapshot s)
    | inr (name, named) ↦
        let (class, w₁) = client.get_volume_snapshot_class name s.world in
        ground (
          arith,
          audit-prepare_snapshot (record { world = w₁; log = got_class name class ∷ s.log }),
        )
  ]

-- The same behind calls that were made before.
pub audit-handle_phase-later :
    {W : Type 0} (client : Client W) (lib : MetaLib) (snap : QuestDbSnapshot)
    → (from : SnapshotPhase) (s : State W Call) → audit from s.log ≡ true
    → audit from (handle_phase client lib from snap s).1.log ≡ true
unfolding handle_phase
audit-handle_phase-later client lib snap empty s h = audit-empty client lib snap s h
audit-handle_phase-later client lib snap pending s h = audit-pending client lib snap s h
audit-handle_phase-later client lib snap running s h = audit-running client lib snap s h
audit-handle_phase-later client lib snap finalizing s h = audit-finalizing client lib snap s h
audit-handle_phase-later client lib snap failed s h = audit-failed client lib snap s h
audit-handle_phase-later client lib snap succeeded s h = audit-succeeded client lib snap s h
audit-handle_phase-later client lib snap (unknown text) s h = h
