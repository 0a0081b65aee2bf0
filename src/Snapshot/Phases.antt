-- ===== src/Snapshot/Phases.antt =====
-- The handlers of the phases, and `Reconcile`'s switch between them.
pub mod Outcome
pub mod Finalizer
pub mod Audit
pub mod Release
pub mod Patience
pub mod Owned
pub mod Progress
pub mod Forward
pub mod Examples
use questdb_operator.Prelude.{String, Bool, false, Option, none, some, List, [], ◌∷◌, if◌then◌else◌}
use questdb_operator.Prelude.Int.{pos, eq_ℤ, leb_ℤ}
use questdb_operator.Prelude.Text.{format2}
use questdb_operator.Kube.Error.{
  Error, Result, ok, err, is_not_found, is_already_exists, ignore_not_found, unknown_phase,
}
use questdb_operator.Kube.Meta.{NamespacedName, MetaLib, object_key}
use questdb_operator.Kube.Exec.{pure, raise, lift, call, call!, ◌>>=◌, ◌>>◌}
use questdb_operator.Kube.Objects.Workload.{Job}
use questdb_operator.Kube.Objects.Storage.{
  VolumeSnapshot, VolumeSnapshotStatus, VolumeSnapshotClass,
}
use questdb_operator.Api.Types.{
  QuestDbSnapshot, SnapshotPhase, empty, pending, running, finalizing, failed, succeeded, unknown,
  snapshot_complete_finalizer,
}
use questdb_operator.Snapshot.Calls
use questdb_operator.Snapshot.Calls.{Client, Handler, normal, warning, record_event}
use questdb_operator.Snapshot.Build.{
  build_pre_snapshot_job, build_post_snapshot_job, build_volume_snapshot,
}

-- `snap.Status.Phase = phase`
abbrev pub with_phase : QuestDbSnapshot → SnapshotPhase → QuestDbSnapshot
with_phase snap phase = record snap { phase = phase }

abbrev pub is_err_not_found {ℓ} : {A : Type ℓ} → Result A → Bool
is_err_not_found (ok a) = false
is_err_not_found (err e) = is_not_found e

abbrev flag : Option Bool → Bool
flag none = false
flag (some b) = b

abbrev status_ready : Option VolumeSnapshotStatus → Bool
status_ready none = false
status_ready (some s) = flag s.ready_to_use

-- `volumeSnap.Status != nil && volumeSnap.Status.ReadyToUse != nil && *volumeSnap.Status.ReadyToUse`
abbrev pub is_ready : VolumeSnapshot → Bool
is_ready v = status_ready v.status

-- The names of the jobs that `handlePhaseSucceeded` deletes.
abbrev pub job_names : QuestDbSnapshot → List String
job_names snap =
    format2 snap.meta.name "-pre-snapshot" ∷ format2 snap.meta.name "-post-snapshot" ∷ []

module _ {W : Type 0} (client : Client W) (lib : MetaLib) where
  -- `r.Status().Update(ctx, snap)`
  abbrev update_status : QuestDbSnapshot → Handler W QuestDbSnapshot
  update_status snap = call! (Calls.updated_status snap) (client.update_snapshot_status snap)

  -- The same where the error is kept for later.
  abbrev try_update_status : QuestDbSnapshot → Handler W (Result QuestDbSnapshot)
  try_update_status snap = call (Calls.updated_status snap) (client.update_snapshot_status snap)

  -- `r.Update(ctx, snap)`
  abbrev update : QuestDbSnapshot → Handler W QuestDbSnapshot
  update snap = call! (Calls.updated_snapshot snap) (client.update_snapshot snap)

  -- `return ctrl.Result{}, err`, where `err` is that of the last status update.
  abbrev pub return_error : Result QuestDbSnapshot → Handler W (Unit {0})
  return_error (ok snap) = pure tt
  return_error (err e) = raise e

  pub handle_phase_empty : QuestDbSnapshot → Handler W (Unit {0})
  handle_phase_empty snap = do
    let key : NamespacedName = record {
      namespace = snap.meta.namespace;
      name = snap.spec.questdb_name;
    }
    qdb ← call (Calls.got_questdb key) (client.get_questdb key)
    if is_err_not_found qdb
        then (do update_status (with_phase snap failed); record_event warning "SnapshotFailed")
        else (do update_status (with_phase snap pending); pure tt)

  -- A job that is there already is read instead of created.
  abbrev pub get_existing_job : Job → Result Job → Handler W (Result Job)
  get_existing_job job (ok created) = pure (ok created)
  get_existing_job job (err e) =
      if is_already_exists e
      then call (Calls.got_job (object_key job.meta)) (client.get_job (object_key job.meta))
      else pure (err e)

  -- The events of `handlePhasePending`, which stand inside the branch of a failed `Create`.
  abbrev pub report_job : Result Job → Result Job → Handler W Job
  report_job (ok created) job = lift job
  report_job (err _) (ok job) = do record_event normal "SnapshotPending"; pure job
  report_job (err _) (err e) = do record_event warning "SnapshotPending"; raise e

  pub run_pre_snapshot_job : Job → Handler W Job
  run_pre_snapshot_job job = do
    created ← call (Calls.created_job job) (client.create_job job)
    found ← get_existing_job job created
    report_job created found

  -- "Add the SnapshotCompleteFinalizer"
  pub add_complete_finalizer : QuestDbSnapshot → Handler W QuestDbSnapshot
  add_complete_finalizer snap =
      if lib.contains_finalizer snap.meta snapshot_complete_finalizer
      then pure snap
      else update (record snap { meta = lib.add_finalizer snap.meta snapshot_complete_finalizer })

  -- "Set the phase to running, unless the snapshot is marked for deletion, in which case jump
  -- straight to finalizing"
  pub enter_phase : QuestDbSnapshot → Handler W QuestDbSnapshot
  enter_phase snap = do
    let phase : SnapshotPhase = elim snap.meta.deletion_timestamp [
      | none ↦ running
      | some t ↦ finalizing
    ]
    stored ← update_status (with_phase snap phase)
    record_event normal (elim stored.meta.deletion_timestamp [
      | none ↦ "SnapshotRunning"
      | some t ↦ "SnapshotFinalizing"
    ])
    pure stored

  pub start_snapshot : QuestDbSnapshot → Handler W QuestDbSnapshot
  start_snapshot snap = do kept ← add_complete_finalizer snap; enter_phase kept

  -- What `handlePhasePending` does once the job is known.
  pub check_pre_snapshot_job : QuestDbSnapshot → Job → Handler W (Unit {0})
  check_pre_snapshot_job snap job = do
    current ← if eq_ℤ job.status.succeeded (pos 1) then start_snapshot snap else pure snap
    if leb_ℤ current.spec.job_backoff_limit job.status.failed
        then (do
          answer ← try_update_status (with_phase current failed)
          record_event warning "SnapshotFailed"
          return_error answer)
        else pure tt

  pub prepare_snapshot : QuestDbSnapshot → Handler W (Unit {0})
  prepare_snapshot snap = do
    job ← build_pre_snapshot_job client lib snap
    found ← run_pre_snapshot_job job
    check_pre_snapshot_job snap found

  -- What follows the `Get` of the snapshot class.
  abbrev pub check_class :
      QuestDbSnapshot → Result VolumeSnapshotClass → Handler W (Unit {0}) → Handler W (Unit {0})
  check_class snap (ok class) next = next
  check_class snap (err e) next =
      if is_not_found e
      then (do
        answer ← try_update_status (with_phase snap failed)
        record_event warning "SnapshotFailed"
        return_error answer)
      else raise e

  pub handle_phase_pending : QuestDbSnapshot → Handler W (Unit {0})
  handle_phase_pending snap = elim snap.spec.volume_snapshot_class_name [
    | none ↦ prepare_snapshot snap
    | some name ↦ (do
      class ← call (Calls.got_class name) (client.get_volume_snapshot_class name)
      check_class snap class (prepare_snapshot snap))
  ]

  abbrev pub get_existing_volume_snapshot :
      VolumeSnapshot → Result VolumeSnapshot → Handler W VolumeSnapshot
  get_existing_volume_snapshot v (ok created) = pure created
  get_existing_volume_snapshot v (err e) =
      if is_already_exists e
      then call! (Calls.got_volume_snapshot (object_key v.meta))
          (client.get_volume_snapshot (object_key v.meta))
      else raise e

  pub handle_phase_running : QuestDbSnapshot → Handler W (Unit {0})
  handle_phase_running snap = do
    v ← lift (build_volume_snapshot lib snap)
    created ← call (Calls.created_volume_snapshot v) (client.create_volume_snapshot v)
    found ← get_existing_volume_snapshot v created
    if is_ready found
        then (do
          update_status (with_phase snap finalizing)
          record_event normal "SnapshotFinalizing")
        else pure tt

  -- What `handlePhaseFinalizing` does once the job is known.
  pub check_post_snapshot_job : QuestDbSnapshot → Job → Handler W (Unit {0})
  check_post_snapshot_job snap job =
      if eq_ℤ job.status.succeeded (pos 1)
      then (do update_status (with_phase snap succeeded); record_event normal "SnapshotSucceeded")
      else if leb_ℤ snap.spec.job_backoff_limit job.status.failed
      then (do update_status (with_phase snap failed); record_event warning "SnapshotFailed")
      else pure tt

  pub handle_phase_finalizing : QuestDbSnapshot → Handler W (Unit {0})
  unfolding check_post_snapshot_job
  handle_phase_finalizing snap = do
    job ← build_post_snapshot_job client lib snap
    created ← call (Calls.created_job job) (client.create_job job)
    found ← get_existing_job job created
    done ← lift found
    check_post_snapshot_job snap done

  -- `controllerutil.RemoveFinalizer`, and `Update` if it changed anything.
  pub release_snapshot : QuestDbSnapshot → Handler W QuestDbSnapshot
  release_snapshot snap =
      let (meta, updated) = lib.remove_finalizer snap.meta snapshot_complete_finalizer in
      let released : QuestDbSnapshot = record snap { meta = meta } in
      if updated then update released else pure released

  pub handle_phase_failed : QuestDbSnapshot → Handler W (Unit {0})
  unfolding release_snapshot
  handle_phase_failed snap = do release_snapshot snap; pure tt

  -- `return ctrl.Result{}, client.IgnoreNotFound(err)` ends the whole handler, with or without an
  -- error.
  abbrev pub stop_ignoring_not_found : Error → Handler W (Unit {0})
  stop_ignoring_not_found e = elim (ignore_not_found e) [ none ↦ pure tt | some x ↦ raise x ]

  -- The rest of the loop goes on, or the handler ends.
  abbrev pub after_delete : Result (Unit {0}) → Handler W (Unit {0}) → Handler W (Unit {0})
  after_delete (ok _) next = next
  after_delete (err e) next = stop_ignoring_not_found e

  abbrev pub after_get : Result Job → Handler W (Unit {0}) → Handler W (Unit {0})
  after_get (ok job) next = do
    deleted ← call (Calls.deleted_job job) (client.delete_job job)
    after_delete deleted next
  after_get (err e) next = if is_not_found e then next else raise e

  pub delete_jobs : String → List String → Handler W (Unit {0})
  delete_jobs namespace [] = pure tt
  delete_jobs namespace (name ∷ names) =
      let key : NamespacedName = record { namespace = namespace; name = name } in
      call (Calls.got_job key) (client.get_job key) >>= λ job.
      after_get job (delete_jobs namespace names)

  pub handle_phase_succeeded : QuestDbSnapshot → Handler W (Unit {0})
  handle_phase_succeeded snap = do
    released ← release_snapshot snap
    delete_jobs released.meta.namespace (job_names released)

  -- The switch of `Reconcile`.
  pub handle_phase : SnapshotPhase → QuestDbSnapshot → Handler W (Unit {0})
  handle_phase empty snap = handle_phase_empty snap
  handle_phase pending snap = handle_phase_pending snap
  handle_phase running snap = handle_phase_running snap
  handle_phase finalizing snap = handle_phase_finalizing snap
  handle_phase failed snap = handle_phase_failed snap
  handle_phase succeeded snap = handle_phase_succeeded snap
  handle_phase (unknown text) snap = raise (unknown_phase text)
