-- ===== src/Snapshot/Phases/Forward/Steps.antt =====
-- How far a call of a handler takes a snapshot.
use questdb_operator.Prelude.{◌≡◌, refl, inl, inr, String, ◌<◌, arith, ◌∙◌, subst}
use questdb_operator.Kube.Error.{Result, ok, err, is_already_exists}
use questdb_operator.Kube.Meta.{MetaLib, object_key}
use questdb_operator.Kube.Exec.{call, call! }
use questdb_operator.Kube.Exec.Moves.{Moves, Moves-pure, Moves-call, Moves-call!, Moves-if}
use questdb_operator.Kube.Objects.Workload.{Job}
use questdb_operator.Api.Types.{QuestDbSnapshot, SnapshotPhase}
use questdb_operator.Snapshot.Calls as Calls
use questdb_operator.Snapshot.Calls.{
  Client, Call, Handler, EventType, record_event, normal, warning,
}
use questdb_operator.Snapshot.Build.{build_generic_snapshot_job}
use questdb_operator.Snapshot.Phases.{with_phase, update_status, update, get_existing_job}
use questdb_operator.Snapshot.Phases.Forward.{
  rank, Forward, Forward-trans, IsVersion, Onward, order, IsAt, Setting,
}

abbrev pub Any : {A : Type 0} → A → Type 0
Any a = Unit {0}

module _ {W : Type 0} {client : Client W} {lib : MetaLib} (set : Setting client lib) where
  open set use {key, phase, phase_of, server, keeps}

  pub event-Moves :
      (type : EventType) (reason : String)
      → Moves (Onward set) Any (record_event {W = W} type reason)
  event-Moves type reason = record { at = λ s. inl refl; gives = λ s a e. tt }

  pub written-Forward :
      (snap : QuestDbSnapshot) (to : SnapshotPhase) (w : W)
      → IsVersion key phase_of snap
      → rank snap.phase < rank to
      → Forward (phase w) (phase (client.update_snapshot_status (with_phase snap to) w).1)
  written-Forward snap to w version further =
      elim (server.status_moves (with_phase snap to) w version.0) [
        | inl moved ↦ moved
        | inr (before, after) ↦
            let from : Forward (phase w) snap.phase =
              subst (λ p. Forward (phase w) p) version.1 before in
            Forward-trans (phase w) snap.phase _ from
              (Forward-trans snap.phase to _ (inr further) after)
      ]

  pub update_status-Moves :
      (snap : QuestDbSnapshot) (to : SnapshotPhase)
      → IsVersion key phase_of snap
      → rank snap.phase < rank to
      → Moves
          (Onward set)
          (λ r. IsVersion key phase_of r × (r.phase ≡ to))
          (update_status client lib (with_phase snap to))
  update_status-Moves snap to version further =
      Moves-call! (order set) (Calls.updated_status (with_phase snap to)) _
        (λ s. written-Forward snap to s.world version further)
        (λ w r e. server.status (with_phase snap to) r w version.0 e)

  -- A call that is no write of the snapshot.
  pub other-Moves :
      {A : Type 0} (entry : Result A → Call) (op : W → Result A × W)
      → ((w : W) → Forward (phase w) (phase (op w).1))
      → Moves (Onward set) Any (call entry op)
  other-Moves entry op moves = Moves-call (order set) entry op (λ s. moves s.world) (λ w. tt)

  pub other-Moves! :
      {A : Type 0} (entry : Result A → Call) (op : W → Result A × W)
      → ((w : W) → Forward (phase w) (phase (op w).1))
      → Moves (Onward set) Any (call! entry op)
  other-Moves! entry op moves = Moves-call! (order set) entry op (λ s. moves s.world) (λ w a e. tt)

  pub build_job-Moves :
      (snap : QuestDbSnapshot) (suffix command : String)
      → Moves (Onward set) Any (build_generic_snapshot_job client lib snap suffix command)
  unfolding build_generic_snapshot_job
  build_job-Moves snap suffix command = record {
    at = λ s. ground (arith, server.secrets_moves snap.meta.namespace s.world);
    gives = λ s a e. tt;
  }

  pub get_existing_job-Moves :
      (job : Job) (r : Result Job) → Moves (Onward set) Any (get_existing_job client lib job r)
  get_existing_job-Moves job (ok created) = Moves-pure (order set) _ tt
  get_existing_job-Moves job (err e) =
      let o = order set in
      let ns = object_key job.meta in
      Moves-if o (is_already_exists e)
        (other-Moves (Calls.got_job ns) (client.get_job ns) (server.get_job_moves ns))
        (Moves-pure o (err e) tt)

  pub create_job-Moves :
      (job : Job) → Moves (Onward set) Any (call (Calls.created_job job) (client.create_job job))
  create_job-Moves job =
      other-Moves (Calls.created_job job) (client.create_job job) (server.create_job_moves job)

  pub update-Moves :
      (at : SnapshotPhase) (snap : QuestDbSnapshot)
      → IsAt set at snap
      → Moves (Onward set) (IsAt set at) (update client lib snap)
  update-Moves at snap (version, same) =
      Moves-call! (order set) (Calls.updated_snapshot snap) (client.update_snapshot snap)
        (λ s. server.update_moves snap s.world version.0)
        (λ w r e. let (v, p) = server.update snap r w version e in (v, p ∙ same))
