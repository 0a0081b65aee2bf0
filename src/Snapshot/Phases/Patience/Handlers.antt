-- ===== src/Snapshot/Phases/Patience/Handlers.antt =====
-- Each handler takes a snapshot at most one phase further.
use questdb_operator.Prelude.{◌≡◌, ◌∙◌, ap, inr, ℕ, true, String, List, [], ◌∷◌, arith}
use questdb_operator.Prelude.Int.{pos, eq_ℤ, leb_ℤ}
use questdb_operator.Kube.Error.{Error, Result, ok, err, is_not_found, is_already_exists}
use questdb_operator.Kube.Meta.{NamespacedName, MetaLib, object_key}
use questdb_operator.Kube.Exec.{◌>>=◌}
use questdb_operator.Kube.Exec.Moves.{
  Moves, Moves-pure, Moves-raise, Moves-lift, Moves-bind, Moves-if,
}
use questdb_operator.Kube.Objects.Workload.{Job}
use questdb_operator.Kube.Objects.Storage.{VolumeSnapshot}
use questdb_operator.Api.Types.{
  QuestDbSnapshot, SnapshotPhase, empty, pending, running, finalizing, failed, succeeded, unknown,
  snapshot_complete_finalizer,
}
use questdb_operator.Snapshot.Calls as Calls
use questdb_operator.Snapshot.Calls.{Client, Call, Handler, record_event, normal, warning}
use questdb_operator.Snapshot.Build.{build_post_snapshot_job, build_volume_snapshot, post_snapshot}
use questdb_operator.Snapshot.Phases.{
  with_phase, is_ready, update_status, handle_phase_running, get_existing_volume_snapshot,
  check_post_snapshot_job, handle_phase_finalizing, release_snapshot, stop_ignoring_not_found,
  after_delete, after_get, delete_jobs, job_names, handle_phase_succeeded, handle_phase,
}
use questdb_operator.Snapshot.Phases.Patience.{on_way, IsPatient, IsMild, At, Within}
use questdb_operator.Snapshot.Phases.Patience.Steps.{
  Any, Stays, order, event-Moves, other-Moves, other-Moves!, update_status-Moves, update-Moves,
  build_job-Moves, create_job-Moves, get_existing_job-Moves,
}
use questdb_operator.Snapshot.Phases.Patience.Pending.{
  KeepsDeletion, Moves-else, moved, lift_job-Moves, empty-Moves, pending-Moves,
}

module _ {W : Type 0} {client : Client W} {key : NamespacedName} {stored : W → QuestDbSnapshot}
    {n : ℕ} (patient : IsPatient client key stored n) (lib : MetaLib)
    (keeps : KeepsDeletion lib) where
  get_existing_volume_snapshot-Moves :
      (v : VolumeSnapshot) (r : Result VolumeSnapshot)
      → Moves (Stays patient lib running) Any (get_existing_volume_snapshot client lib v r)
  get_existing_volume_snapshot-Moves v (ok created) =
      Moves-pure (order patient lib running) created tt
  get_existing_volume_snapshot-Moves v (err e) =
      let o = order patient lib running in
      let ns = object_key v.meta in
      Moves-if o (is_already_exists e)
        (other-Moves! patient lib running (Calls.got_volume_snapshot ns)
          (client.get_volume_snapshot ns) (patient.got_volume_still ns))
        (Moves-raise o e)

  -- A status that is written and told of.
  told-Moves :
      (phase to : SnapshotPhase) (snap : QuestDbSnapshot) (reason : String)
      → Within n phase (with_phase snap to)
      → Moves
          (Stays patient lib phase)
          Any
          (update_status client lib (with_phase snap to) >>= λ _. record_event normal reason)
  told-Moves phase to snap reason within =
      Moves-bind (order patient lib phase) (update_status-Moves patient lib phase snap to within)
        (λ r _. event-Moves patient lib phase Calls.normal reason)

  running-Moves :
      (snap : QuestDbSnapshot)
      → At n running snap
      → Moves (Stays patient lib running) Any (handle_phase_running client lib snap)
  unfolding handle_phase_running
  running-Moves snap good =
      let o = order patient lib running in
      Moves-bind o (Moves-lift o (build_volume_snapshot lib snap) (λ v e. tt)) (λ v _.
        Moves-bind o
          (other-Moves patient lib running {P = Any} (Calls.created_volume_snapshot v)
            (client.create_volume_snapshot v) (patient.volume_still v) (λ w. tt))
          (λ created _. Moves-bind o (get_existing_volume_snapshot-Moves v created) (λ found _.
            Moves-if o (is_ready found)
              (told-Moves running finalizing snap "SnapshotFinalizing"
                (inr (moved patient lib keeps finalizing good)))
              (Moves-pure o tt tt))))

  check_post_snapshot_job-Moves :
      (snap : QuestDbSnapshot) (job : Job)
      → At n finalizing snap
      → IsMild n job
      → Moves (Stays patient lib finalizing) Any (check_post_snapshot_job client lib snap job)
  unfolding check_post_snapshot_job
  check_post_snapshot_job-Moves snap job good mild =
      let o = order patient lib finalizing in
      Moves-if o (eq_ℤ job.status.succeeded (pos 1))
        (told-Moves finalizing succeeded snap "SnapshotSucceeded"
          (inr (moved patient lib keeps succeeded good)))
        (Moves-else (leb_ℤ snap.spec.job_backoff_limit job.status.failed)
          (update_status client lib (with_phase snap failed) >>= λ _.
            record_event warning "SnapshotFailed")
          (ap (λ l. leb_ℤ l job.status.failed) good.limit ∙ mild) (Moves-pure o tt tt))

  finalizing-Moves :
      (snap : QuestDbSnapshot)
      → At n finalizing snap
      → Moves (Stays patient lib finalizing) Any (handle_phase_finalizing client lib snap)
  unfolding handle_phase_finalizing build_post_snapshot_job check_post_snapshot_job
  finalizing-Moves snap good =
      let o = order patient lib finalizing in
      Moves-bind o (build_job-Moves patient lib finalizing snap post_snapshot "SNAPSHOT COMPLETE;")
        (λ job _. Moves-bind o (create_job-Moves patient lib finalizing job) (λ created mild.
          Moves-bind o (get_existing_job-Moves patient lib finalizing job created mild)
            (λ found mild'.
              Moves-bind o (lift_job-Moves patient lib keeps finalizing found mild')
                (λ done mild''. check_post_snapshot_job-Moves snap done good mild''))))

  release_snapshot-Moves :
      (snap : QuestDbSnapshot)
      → At n succeeded snap
      → Moves (Stays patient lib succeeded) Any (release_snapshot client lib snap)
  unfolding release_snapshot
  release_snapshot-Moves snap good =
      let o = order patient lib succeeded in
      let same = keeps.removed snap.meta snapshot_complete_finalizer in
      let (meta, updated) = lib.remove_finalizer snap.meta snapshot_complete_finalizer in
      let released : QuestDbSnapshot = record snap { meta = meta } in
      let written =
        update-Moves patient lib succeeded released
          (record { at = good.at; limit = good.limit; kept = same ∙ good.kept }) in
      Moves-if o updated (record { at = written.at; gives = λ s a b. tt })
        (Moves-pure o released tt)

  stop-Moves :
      (e : Error) → Moves (Stays patient lib succeeded) Any (stop_ignoring_not_found client lib e)
  stop-Moves e = record { at = λ s. ground arith; gives = λ s a b. tt }

  after_delete-Moves :
      (r : Result (Unit {0})) (next : Handler W (Unit {0}))
      → Moves (Stays patient lib succeeded) Any next
      → Moves (Stays patient lib succeeded) Any (after_delete client lib r next)
  after_delete-Moves (ok _) next moves = moves
  after_delete-Moves (err e) next moves = stop-Moves e

  after_get-Moves :
      (r : Result Job) (next : Handler W (Unit {0}))
      → Moves (Stays patient lib succeeded) Any next
      → Moves (Stays patient lib succeeded) Any (after_get client lib r next)
  after_get-Moves (ok job) next moves =
      Moves-bind (order patient lib succeeded)
        (other-Moves patient lib succeeded {P = Any} (Calls.deleted_job job) (client.delete_job job)
          (patient.deleted_job_still job) (λ w. tt))
        (λ r _. after_delete-Moves r next moves)
  after_get-Moves (err e) next moves =
      let o = order patient lib succeeded in Moves-if o (is_not_found e) moves (Moves-raise o e)

  delete_jobs-Moves :
      (namespace : String) (names : List String)
      → Moves (Stays patient lib succeeded) Any (delete_jobs client lib namespace names)
  unfolding delete_jobs
  delete_jobs-Moves namespace [] = Moves-pure (order patient lib succeeded) tt tt
  delete_jobs-Moves namespace (name ∷ names) =
      let ns : NamespacedName = record { namespace = namespace; name = name } in
      Moves-bind (order patient lib succeeded)
        (other-Moves patient lib succeeded {P = Any} (Calls.got_job ns) (client.get_job ns)
          (patient.got_job_still ns) (λ w. tt))
        (λ job _. after_get-Moves job _ (delete_jobs-Moves namespace names))

  succeeded-Moves :
      (snap : QuestDbSnapshot)
      → At n succeeded snap
      → Moves (Stays patient lib succeeded) Any (handle_phase_succeeded client lib snap)
  unfolding handle_phase_succeeded
  succeeded-Moves snap good =
      Moves-bind (order patient lib succeeded) (release_snapshot-Moves snap good)
        (λ released _. delete_jobs-Moves released.meta.namespace (job_names released))

  -- The switch.
  pub handle_phase-Moves :
      (p : SnapshotPhase)
      → on_way p ≡ true
      → (snap : QuestDbSnapshot) → At n p snap
      → Moves (Stays patient lib p) Any (handle_phase client lib p snap)
  unfolding handle_phase
  handle_phase-Moves empty h snap good = empty-Moves patient lib keeps snap good
  handle_phase-Moves pending h snap good = pending-Moves patient lib keeps snap good
  handle_phase-Moves running h snap good = running-Moves snap good
  handle_phase-Moves finalizing h snap good = finalizing-Moves snap good
  handle_phase-Moves succeeded h snap good = succeeded-Moves snap good
  handle_phase-Moves failed h snap good = ground (arith, h)
  handle_phase-Moves (unknown text) h snap good = ground (arith, h)
