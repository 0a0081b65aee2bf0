-- ===== src/Snapshot/Phases/Forward/Pending.antt =====
-- How far the handlers of a new and of a pending snapshot take it.
use questdb_operator.Prelude.{◌≡◌, none, some, String, ◌<◌, arith, ◌∙◌, subst, sym, ap}
use questdb_operator.Prelude.Int.{eq_ℤ, leb_ℤ, pos}
use questdb_operator.Kube.Error.{Result, ok, err, is_not_found}
use questdb_operator.Kube.Meta.{NamespacedName, MetaLib}
use questdb_operator.Kube.Exec.{pure, call, ◌>>=◌}
use questdb_operator.Kube.Exec.Moves.{
  Moves, Moves-pure, Moves-raise, Moves-lift, Moves-bind, Moves-if,
}
use questdb_operator.Kube.Objects.Workload.{Job}
use questdb_operator.Kube.Objects.Storage.{VolumeSnapshotClass}
use questdb_operator.Api.Types.{
  QuestDbSnapshot, SnapshotPhase, empty, pending, running, finalizing, failed,
  snapshot_complete_finalizer,
}
use questdb_operator.Snapshot.Calls as Calls
use questdb_operator.Snapshot.Calls.{
  Client, Call, Handler, EventType, record_event, normal, warning,
}
use questdb_operator.Snapshot.Build.{build_pre_snapshot_job, pre_snapshot}
use questdb_operator.Snapshot.Phases.{
  with_phase, is_err_not_found, update_status, try_update_status, handle_phase_empty, report_job,
  run_pre_snapshot_job, add_complete_finalizer, enter_phase, start_snapshot, check_pre_snapshot_job,
  prepare_snapshot, check_class, return_error, handle_phase_pending,
}
use questdb_operator.Snapshot.Phases.Forward.{rank, IsVersion, Onward, order, IsAt, Setting}
use questdb_operator.Snapshot.Phases.Forward.Steps.{
  Any, event-Moves, written-Forward, update_status-Moves, other-Moves, build_job-Moves,
  get_existing_job-Moves, create_job-Moves, update-Moves,
}

module _ {W : Type 0} {client : Client W} {lib : MetaLib} (set : Setting client lib) where
  open set use {key, phase, phase_of, server, keeps}

  pub handle_phase_empty-Moves :
      (snap : QuestDbSnapshot)
      → IsVersion key phase_of snap
      → snap.phase ≡ empty
      → Moves (Onward set) Any (handle_phase_empty client lib snap)
  unfolding handle_phase_empty
  handle_phase_empty-Moves snap version at =
      let o = order set in
      let ns : NamespacedName = record {
        namespace = snap.meta.namespace;
        name = snap.spec.questdb_name;
      } in
      Moves-bind o
        (other-Moves set (Calls.got_questdb ns) (client.get_questdb ns) (server.questdb_moves ns))
        (λ qdb _.
          Moves-if o (is_err_not_found qdb)
            (Moves-bind o (update_status-Moves set snap failed version (ground (arith, at)))
              (λ r _. event-Moves set warning "SnapshotFailed"))
            (Moves-bind o (update_status-Moves set snap pending version (ground (arith, at)))
              (λ r _. Moves-pure o tt tt)))

  report_job-Moves :
      (created found : Result Job) → Moves (Onward set) Any (report_job client lib created found)
  report_job-Moves (ok _) found = Moves-lift (order set) found (λ a e. tt)
  report_job-Moves (err _) (ok job) =
      let o = order set in
      Moves-bind o (event-Moves set normal "SnapshotPending") (λ _ _. Moves-pure o job tt)
  report_job-Moves (err _) (err e) =
      let o = order set in
      Moves-bind o (event-Moves set warning "SnapshotPending") (λ _ _. Moves-raise o e)

  run_pre_snapshot_job-Moves :
      (job : Job) → Moves (Onward set) Any (run_pre_snapshot_job client lib job)
  unfolding run_pre_snapshot_job
  run_pre_snapshot_job-Moves job =
      let o = order set in
      Moves-bind o (create_job-Moves set job) (λ created _.
        Moves-bind o (get_existing_job-Moves set job created)
          (λ found _. report_job-Moves created found))

  add_complete_finalizer-Moves :
      (at : SnapshotPhase) (snap : QuestDbSnapshot)
      → IsAt set at snap
      → Moves (Onward set) (IsAt set at) (add_complete_finalizer client lib snap)
  unfolding add_complete_finalizer
  add_complete_finalizer-Moves at snap (version, same) =
      let o = order set in
      let (named, kept) = keeps.added snap.meta snapshot_complete_finalizer in
      Moves-if o (lib.contains_finalizer snap.meta snapshot_complete_finalizer)
        (Moves-pure o snap (version, same))
        (update-Moves set at _ ((named ∙ version.0, ap phase_of kept ∙ version.1), same))

  -- A snapshot that has started is running or finalizing.
  abbrev HasStarted : QuestDbSnapshot → Type 0
  HasStarted r = IsVersion key phase_of r × (rank r.phase < 4)

  started-Moves :
      (snap : QuestDbSnapshot) (to : SnapshotPhase) (reason : QuestDbSnapshot → String)
      → IsAt set pending snap
      → rank pending < rank to
      → rank to < 4
      → Moves (Onward set) HasStarted (
          update_status client lib (with_phase snap to) >>= λ stored.
          record_event normal (reason stored) >>= λ _. pure stored)
  started-Moves snap to reason (version, same) further unfinished =
      let o = order set in
      Moves-bind o
        (update_status-Moves set snap to version (subst (λ p. rank p < rank to) (sym same) further))
        (λ stored (v, p).
          Moves-bind o (event-Moves set normal (reason stored))
            (λ _ _. Moves-pure o stored (v, subst (λ q. rank q < 4) (sym p) unfinished)))

  enter_phase-Moves :
      (snap : QuestDbSnapshot)
      → IsAt set pending snap
      → Moves (Onward set) HasStarted (enter_phase client lib snap)
  unfolding enter_phase
  enter_phase-Moves snap at =
      let to : SnapshotPhase = elim snap.meta.deletion_timestamp [
        | none ↦ running
        | some t ↦ finalizing
      ] in
      started-Moves snap to _ at (ground arith) (ground arith)

  start_snapshot-Moves :
      (snap : QuestDbSnapshot)
      → IsAt set pending snap
      → Moves (Onward set) HasStarted (start_snapshot client lib snap)
  unfolding start_snapshot
  start_snapshot-Moves snap at =
      Moves-bind (order set) (add_complete_finalizer-Moves pending snap at)
        (λ kept at'. enter_phase-Moves kept at')

  HasStarted-pending : (snap : QuestDbSnapshot) → IsAt set pending snap → HasStarted snap
  HasStarted-pending snap (version, same) =
      (version, subst (λ p. rank p < 4) (sym same) (omega arith))

  return_error-Moves :
      (r : Result QuestDbSnapshot) → Moves (Onward set) Any (return_error client lib r)
  return_error-Moves (ok snap) = Moves-pure (order set) tt tt
  return_error-Moves (err e) = Moves-raise (order set) e

  -- The end of a pending snapshot that is given up.
  fail-Moves :
      (snap : QuestDbSnapshot)
      → HasStarted snap
      → Moves (Onward set) Any (
          try_update_status client lib (with_phase snap failed) >>= λ answer.
          record_event warning "SnapshotFailed" >>= λ _. return_error client lib answer)
  fail-Moves snap (version, unfinished) =
      let o = order set in
      Moves-bind o
        (other-Moves set (Calls.updated_status (with_phase snap failed))
          (client.update_snapshot_status (with_phase snap failed))
          (λ w. written-Forward set snap failed w version unfinished))
        (λ answer _.
          Moves-bind o (event-Moves set warning "SnapshotFailed")
            (λ _ _. return_error-Moves answer))

  check_pre_snapshot_job-Moves :
      (snap : QuestDbSnapshot) (job : Job)
      → IsAt set pending snap
      → Moves (Onward set) Any (check_pre_snapshot_job client lib snap job)
  unfolding check_pre_snapshot_job
  check_pre_snapshot_job-Moves snap job at =
      let o = order set in
      Moves-bind o
        (Moves-if o (eq_ℤ job.status.succeeded (pos 1)) (start_snapshot-Moves snap at)
          (Moves-pure o snap (HasStarted-pending snap at)))
        (λ current started.
          Moves-if o (leb_ℤ current.spec.job_backoff_limit job.status.failed)
            (fail-Moves current started) (Moves-pure o tt tt))

  prepare_snapshot-Moves :
      (snap : QuestDbSnapshot)
      → IsAt set pending snap
      → Moves (Onward set) Any (prepare_snapshot client lib snap)
  unfolding prepare_snapshot build_pre_snapshot_job
  prepare_snapshot-Moves snap at =
      let o = order set in
      Moves-bind o (build_job-Moves set snap pre_snapshot "SNAPSHOT PREPARE;") (λ job _.
        Moves-bind o (run_pre_snapshot_job-Moves job)
          (λ found _. check_pre_snapshot_job-Moves snap found at))

  check_class-Moves :
      (snap : QuestDbSnapshot) (class : Result VolumeSnapshotClass)
      → IsAt set pending snap
      → Moves
          (Onward set)
          Any
          (check_class client lib snap class (prepare_snapshot client lib snap))
  check_class-Moves snap (ok class) at = prepare_snapshot-Moves snap at
  check_class-Moves snap (err e) at =
      let o = order set in
      Moves-if o (is_not_found e) (fail-Moves snap (HasStarted-pending snap at)) (Moves-raise o e)

  class_of-Moves :
      (snap : QuestDbSnapshot) (name : String)
      → IsAt set pending snap
      → Moves (Onward set) Any (
          call (Calls.got_class name) (client.get_volume_snapshot_class name) >>= λ class.
          check_class client lib snap class (prepare_snapshot client lib snap))
  class_of-Moves snap name at =
      Moves-bind (order set)
        (other-Moves set (Calls.got_class name) (client.get_volume_snapshot_class name)
          (server.class_moves name))
        (λ class _. check_class-Moves snap class at)

  pub handle_phase_pending-Moves :
      (snap : QuestDbSnapshot)
      → IsAt set pending snap
      → Moves (Onward set) Any (handle_phase_pending client lib snap)
  unfolding handle_phase_pending
  handle_phase_pending-Moves snap at =
      elim snap.spec.volume_snapshot_class_name
        as (λ class. Moves (Onward set) Any (elim class [
          | none ↦ prepare_snapshot client lib snap
          | some name ↦
              (call (Calls.got_class name) (client.get_volume_snapshot_class name) >>= λ class.
              check_class client lib snap class (prepare_snapshot client lib snap))
        ])) [ none ↦ prepare_snapshot-Moves snap at | some name ↦ class_of-Moves snap name at ]
