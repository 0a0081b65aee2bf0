-- ===== src/Snapshot/Phases/Examples.antt =====
-- A snapshot whose jobs are done and whose volume snapshot is ready.
use questdb_operator.Prelude.{
  ◌≤◌, ◌+◌, inl, List, ◌||◌, if◌then◌else◌, eq_iff, ◌≡◌, refl, true, none, some, [], arith,
}
use questdb_operator.Prelude.Int.{pos}
use questdb_operator.Kube.Error.{is_not_found, ok, err, not_found}
use questdb_operator.Kube.Meta.{NamespacedName, new_meta}
use questdb_operator.Kube.Exec.{State}
use questdb_operator.Api.Types.{pending, running, failed, empty}
use questdb_operator.Snapshot.Calls.{Client, Call}
use questdb_operator.Snapshot.Build.{build_pre_snapshot_job}
use questdb_operator.Snapshot.Phases.{
  prepare_snapshot, run_pre_snapshot_job, check_pre_snapshot_job, start_snapshot,
  add_complete_finalizer, enter_phase, handle_phase, handle_phase_pending, handle_phase_empty,
}
use questdb_operator.Snapshot.Phases.Audit.{no_class, job_given_up, job_done, audit}
use questdb_operator.Snapshot.Phases.Outcome.{KeepsSpec, last_written, outcome-empty}
use questdb_operator.Snapshot.Phases.Outcome.Pending.{has_begun, outcome-pending}
use questdb_operator.Snapshot.Phases.Release.{keeps_finalizer, handle_phase-keeps_finalizer}
use questdb_operator.Snapshot.Phases.Finalizer.{FinalizerLaws, all_protected, pending-AllProtected}
use questdb_operator.Secrets.Laws.{secrets_of-nil}
use questdb_operator.Snapshot.Reconcile.{reconcile, reconcile_snapshot, ensure_backoff_limit}
use questdb_operator.Snapshot.Life.{Life, begin, move, Life-bound}
use questdb_operator.Snapshot.Phases.Forward.{rank}
use questdb_operator.Snapshot.Reconcile.Laws.{reconcile-audit}
use questdb_operator.Examples.Data.{meta_lib, snapshot_in}

abbrev pub World : Type 0
World = Unit {0}

-- A server that stores what it is told, has a job that was done, and no database.
abbrev pub server : Client World
server = record {
  get_snapshot = λ ns w. (ok (snapshot_in pending), w);
  update_snapshot = λ s w. (ok s, w);
  update_snapshot_status = λ s w. (ok s, w);
  get_questdb = λ ns w. (err not_found, w);
  get_volume_snapshot_class = λ name w. (ok (record { meta = new_meta name "" none }), w);
  list_secrets = λ ns w. (ok [], w);
  create_job =
      λ job w. (ok (record job { status = record { succeeded = pos 1; failed = pos 0 } }), w);
  get_job = λ ns w. (err not_found, w);
  delete_job = λ job w. (ok tt, w);
  create_volume_snapshot =
      λ v w. (ok (record v { status = some (record { ready_to_use = some true }) }), w);
  get_volume_snapshot = λ ns w. (err not_found, w);
}

abbrev start : State World Call
start = record { world = tt; log = [] }

server-KeepsSpec : KeepsSpec server
server-KeepsSpec = record {
  update = λ s r w e. ground (arith, e);
  update_status = λ s r w e. ground (arith, e);
}

pending_done : (handle_phase_pending server meta_lib (snapshot_in pending) start).0 ≡ ok tt
unfolding handle_phase_pending prepare_snapshot build_pre_snapshot_job run_pre_snapshot_job
    check_pre_snapshot_job start_snapshot add_complete_finalizer enter_phase
pending_done = ground (arith, secrets_of-nil "snap")

abbrev pending_log : List Call
pending_log = (handle_phase_pending server meta_lib (snapshot_in pending) start).1.log

outcome-pending_example : has_begun (last_written pending_log) ≡ (
    if no_class pending_log || job_given_up (snapshot_in pending) pending_log
    then some failed
    else if job_done pending_log
    then some running
    else none)
outcome-pending_example =
    outcome-pending server server-KeepsSpec meta_lib (snapshot_in pending) tt pending_done

server-FinalizerLaws : FinalizerLaws meta_lib
server-FinalizerLaws = record { contains-add = λ m f. ground (arith, eq_iff f f) }

pending-AllProtected_example :
    all_protected meta_lib (handle_phase_pending server meta_lib (snapshot_in pending) start).1.log
    ≡ true
pending-AllProtected_example =
    pending-AllProtected server meta_lib server-FinalizerLaws (λ s r f w e. ground (arith, e))
      (snapshot_in pending) tt

handle_phase-keeps_finalizer_example :
    keeps_finalizer meta_lib
      (handle_phase server meta_lib pending (snapshot_in pending) start).1.log
    ≡ true
handle_phase-keeps_finalizer_example =
    handle_phase-keeps_finalizer server meta_lib server-FinalizerLaws (snapshot_in pending) pending
      tt (λ e. ground (arith, e)) (λ e. ground (arith, e))

abbrev key : NamespacedName
key = record { namespace = "prod"; name = "snap" }

reconcile-audit_example : audit pending (reconcile server meta_lib key start).1.log ≡ true
reconcile-audit_example =
    reconcile-audit server meta_lib (λ s r w e. ground (arith, e)) key (snapshot_in pending) tt refl

outcome-empty_example :
    last_written (handle_phase_empty server meta_lib (snapshot_in empty) start).1.log ≡ some failed
unfolding handle_phase_empty is_not_found
outcome-empty_example = outcome-empty server meta_lib (snapshot_in empty) tt

-- Without a database a new snapshot fails.
abbrev lost_server : Client World
lost_server = record server { get_snapshot = λ ns w. (ok (snapshot_in empty), w) }

lost : Life lost_server meta_lib empty 1 failed
unfolding reconcile reconcile_snapshot ensure_backoff_limit handle_phase handle_phase_empty
    is_not_found
lost = move key tt (snapshot_in empty) failed begin refl refl (inl refl)

Life-bound_example : (1 + rank empty ≤ rank failed) × (1 ≤ 4) × (rank empty ≡ 4 → failed ≡ empty)
Life-bound_example =
    Life-bound lost_server meta_lib (λ s r w e. ground (arith, e)) empty 1 failed lost
