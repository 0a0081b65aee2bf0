-- ===== src/Snapshot/Phases/Forward/Handlers.antt =====
-- How far each handler takes a snapshot.
use questdb_operator.Prelude.{refl, List, [], ◌∷◌, String, ◌<◌, arith, ◌∙◌, ap}
use questdb_operator.Prelude.Int.{eq_ℤ, leb_ℤ, pos}
use questdb_operator.Kube.Error.{
  Error, unknown_phase, Result, ok, err, is_already_exists, is_not_found,
}
use questdb_operator.Kube.Meta.{NamespacedName, MetaLib, object_key}
use questdb_operator.Kube.Exec.{◌>>=◌}
use questdb_operator.Kube.Exec.Moves.{
  Moves, Moves-pure, Moves-raise, Moves-lift, Moves-bind, Moves-if,
}
use questdb_operator.Kube.Objects.Workload.{Job}
use questdb_operator.Kube.Objects.Storage.{VolumeSnapshot}
use questdb_operator.Api.Types.{
  QuestDbSnapshot, SnapshotPhase, empty, pending, running, finalizing, failed, succeeded, unknown,
  snapshot_complete_finalizer,
}
use questdb_operator.Snapshot.Calls as Calls
use questdb_operator.Snapshot.Calls.{
  Client, Call, Handler, EventType, record_event, normal, warning,
}
use questdb_operator.Snapshot.Build.{post_snapshot, build_post_snapshot_job, build_volume_snapshot}
use questdb_operator.Snapshot.Phases.{
  with_phase, update_status, handle_phase_running, handle_phase_finalizing, handle_phase_failed,
  handle_phase_succeeded, handle_phase, is_ready, check_post_snapshot_job, release_snapshot,
  stop_ignoring_not_found, after_delete, after_get, delete_jobs, job_names,
  get_existing_volume_snapshot,
}
use questdb_operator.Snapshot.Phases.Forward.{rank, IsVersion, Onward, order, IsAt, Setting}
use questdb_operator.Snapshot.Phases.Forward.Steps.{
  Any, event-Moves, update_status-Moves, other-Moves, other-Moves!, build_job-Moves,
  get_existing_job-Moves, create_job-Moves, update-Moves,
}
use questdb_operator.Snapshot.Phases.Forward.Pending.{
  handle_phase_empty-Moves, handle_phase_pending-Moves,
}

module _ {W : Type 0} {client : Client W} {lib : MetaLib} (set : Setting client lib) where
  open set use {key, phase, phase_of, server, keeps}

  -- A status that is written and told of.
  told-Moves :
      (snap : QuestDbSnapshot) (to : SnapshotPhase) (type : EventType) (reason : String)
      → IsVersion key phase_of snap
      → rank snap.phase < rank to
      → Moves
          (Onward set)
          Any
          (update_status client lib (with_phase snap to) >>= λ _. record_event type reason)
  told-Moves snap to type reason version further =
      Moves-bind (order set) (update_status-Moves set snap to version further)
        (λ r _. event-Moves set type reason)

  get_existing_volume_snapshot-Moves :
      (v : VolumeSnapshot) (r : Result VolumeSnapshot)
      → Moves (Onward set) Any (get_existing_volume_snapshot client lib v r)
  get_existing_volume_snapshot-Moves v (ok created) = Moves-pure (order set) created tt
  get_existing_volume_snapshot-Moves v (err e) =
      let o = order set in
      let ns = object_key v.meta in
      Moves-if o (is_already_exists e)
        (other-Moves! set (Calls.got_volume_snapshot ns) (client.get_volume_snapshot ns)
          (server.get_volume_moves ns))
        (Moves-raise o e)

  handle_phase_running-Moves :
      (snap : QuestDbSnapshot)
      → IsAt set running snap
      → Moves (Onward set) Any (handle_phase_running client lib snap)
  unfolding handle_phase_running
  handle_phase_running-Moves snap (version, same) =
      let o = order set in
      Moves-bind o (Moves-lift o (build_volume_snapshot lib snap) (λ v e. tt)) (λ v _.
        Moves-bind o
          (other-Moves set (Calls.created_volume_snapshot v) (client.create_volume_snapshot v)
            (server.create_volume_moves v))
          (λ created _. Moves-bind o (get_existing_volume_snapshot-Moves v created) (λ found _.
            Moves-if o (is_ready found)
              (told-Moves snap finalizing normal "SnapshotFinalizing" version
                (ground (arith, same)))
              (Moves-pure o tt tt))))

  check_post_snapshot_job-Moves :
      (snap : QuestDbSnapshot) (job : Job)
      → IsAt set finalizing snap
      → Moves (Onward set) Any (check_post_snapshot_job client lib snap job)
  unfolding check_post_snapshot_job
  check_post_snapshot_job-Moves snap job (version, same) =
      let o = order set in
      Moves-if o (eq_ℤ job.status.succeeded (pos 1))
        (told-Moves snap succeeded normal "SnapshotSucceeded" version (ground (arith, same)))
        (Moves-if o (leb_ℤ snap.spec.job_backoff_limit job.status.failed)
          (told-Moves snap failed warning "SnapshotFailed" version (ground (arith, same)))
          (Moves-pure o tt tt))

  handle_phase_finalizing-Moves :
      (snap : QuestDbSnapshot)
      → IsAt set finalizing snap
      → Moves (Onward set) Any (handle_phase_finalizing client lib snap)
  unfolding handle_phase_finalizing build_post_snapshot_job check_post_snapshot_job
  handle_phase_finalizing-Moves snap at =
      let o = order set in
      Moves-bind o (build_job-Moves set snap post_snapshot "SNAPSHOT COMPLETE;") (λ job _.
        Moves-bind o (create_job-Moves set job) (λ created _.
          Moves-bind o (get_existing_job-Moves set job created) (λ found _.
            Moves-bind o (Moves-lift o found (λ a e. tt))
              (λ done _. check_post_snapshot_job-Moves snap done at))))

  release_snapshot-Moves :
      (snap : QuestDbSnapshot)
      → IsVersion key phase_of snap
      → Moves (Onward set) Any (release_snapshot client lib snap)
  unfolding release_snapshot
  release_snapshot-Moves snap version =
      let o = order set in
      let (named, kept) = keeps.removed snap.meta snapshot_complete_finalizer in
      let (meta, updated) = lib.remove_finalizer snap.meta snapshot_complete_finalizer in
      let released : QuestDbSnapshot = record snap { meta = meta } in
      let written =
        update-Moves set snap.phase released
          ((named ∙ version.0, ap phase_of kept ∙ version.1), refl) in
      Moves-if o updated (record { at = written.at; gives = λ s a b. tt })
        (Moves-pure o released tt)

  stop-Moves : (e : Error) → Moves (Onward set) Any (stop_ignoring_not_found client lib e)
  stop-Moves e = record { at = λ s. ground arith; gives = λ s a b. tt }

  after_delete-Moves :
      (r : Result (Unit {0})) (next : Handler W (Unit {0}))
      → Moves (Onward set) Any next
      → Moves (Onward set) Any (after_delete client lib r next)
  after_delete-Moves (ok _) next moves = moves
  after_delete-Moves (err e) next moves = stop-Moves e

  after_get-Moves :
      (r : Result Job) (next : Handler W (Unit {0}))
      → Moves (Onward set) Any next
      → Moves (Onward set) Any (after_get client lib r next)
  after_get-Moves (ok job) next moves =
      Moves-bind (order set)
        (other-Moves set (Calls.deleted_job job) (client.delete_job job)
          (server.delete_job_moves job))
        (λ r _. after_delete-Moves r next moves)
  after_get-Moves (err e) next moves =
      let o = order set in Moves-if o (is_not_found e) moves (Moves-raise o e)

  delete_jobs-Moves :
      (namespace : String) (names : List String)
      → Moves (Onward set) Any (delete_jobs client lib namespace names)
  unfolding delete_jobs
  delete_jobs-Moves namespace [] = Moves-pure (order set) tt tt
  delete_jobs-Moves namespace (name ∷ names) =
      let ns : NamespacedName = record { namespace = namespace; name = name } in
      Moves-bind (order set)
        (other-Moves set (Calls.got_job ns) (client.get_job ns) (server.get_job_moves ns))
        (λ job _. after_get-Moves job _ (delete_jobs-Moves namespace names))

  handle_phase_failed-Moves :
      (snap : QuestDbSnapshot)
      → IsVersion key phase_of snap
      → Moves (Onward set) Any (handle_phase_failed client lib snap)
  unfolding handle_phase_failed
  handle_phase_failed-Moves snap version =
      Moves-bind (order set) (release_snapshot-Moves snap version)
        (λ _ _. Moves-pure (order set) tt tt)

  handle_phase_succeeded-Moves :
      (snap : QuestDbSnapshot)
      → IsVersion key phase_of snap
      → Moves (Onward set) Any (handle_phase_succeeded client lib snap)
  unfolding handle_phase_succeeded
  handle_phase_succeeded-Moves snap version =
      Moves-bind (order set) (release_snapshot-Moves snap version)
        (λ released _. delete_jobs-Moves released.meta.namespace (job_names released))

  -- The switch takes a version of the snapshot no way back.
  pub handle_phase-Moves :
      (at : SnapshotPhase) (snap : QuestDbSnapshot)
      → IsAt set at snap
      → Moves (Onward set) Any (handle_phase client lib at snap)
  unfolding handle_phase
  handle_phase-Moves empty snap (version, same) = handle_phase_empty-Moves set snap version same
  handle_phase-Moves pending snap at = handle_phase_pending-Moves set snap at
  handle_phase-Moves running snap at = handle_phase_running-Moves snap at
  handle_phase-Moves finalizing snap at = handle_phase_finalizing-Moves snap at
  handle_phase-Moves failed snap at = handle_phase_failed-Moves snap at.0
  handle_phase-Moves succeeded snap at = handle_phase_succeeded-Moves snap at.0
  handle_phase-Moves (unknown text) snap at = Moves-raise (order set) (unknown_phase text)
