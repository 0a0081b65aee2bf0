-- ===== src/Snapshot/Phases/Patience/Steps.antt =====
-- What each call leaves of a snapshot that has to wait.
use questdb_operator.Prelude.{◌≡◌, sym, subst, inl, inr, ℕ, String}
use questdb_operator.Kube.Error.{Result, ok, err, is_already_exists}
use questdb_operator.Kube.Meta.{NamespacedName, MetaLib, object_key}
use questdb_operator.Kube.Exec.{State, call, call! }
use questdb_operator.Kube.Exec.Moves.{
  IsPreorder, Moves, Moves-pure, Moves-call, Moves-call!, Moves-if, Moves-bind, Moves-lift,
}
use questdb_operator.Kube.Objects.Workload.{Job}
use questdb_operator.Secrets.{get_secrets, secrets_of}
use questdb_operator.Api.Types.{QuestDbSnapshot, SnapshotPhase}
use questdb_operator.Snapshot.Calls as Calls
use questdb_operator.Snapshot.Calls.{Client, Call, Handler, EventType, record_event}
use questdb_operator.Snapshot.Build.{build_generic_snapshot_job}
use questdb_operator.Snapshot.Phases.{with_phase, update_status, update, get_existing_job}
use questdb_operator.Snapshot.Phases.Patience.{
  IsMildAnswer, IsPatient, At, Within, At-Alike, Within-Alike,
}

abbrev pub Any : {A : Type 0} → A → Type 0
Any a = Unit {0}

module _ {W : Type 0} {client : Client W} {key : NamespacedName} {stored : W → QuestDbSnapshot}
    {n : ℕ} (patient : IsPatient client key stored n) (lib : MetaLib) (phase : SnapshotPhase) where
  -- What is within a step of the phase stays so.
  abbrev pub Stays : State W Call → State W Call → Type 0
  Stays s s' = Within n phase (stored s.world) → Within n phase (stored s'.world)

  pub order : IsPreorder Stays
  order = record { reflexive = λ s h. h; transitive = λ s t u f g h. g (f h) }

  pub event-Moves :
      (type : EventType) (reason : String) → Moves Stays Any (record_event {W = W} type reason)
  event-Moves type reason = record { at = λ s h. h; gives = λ s a e. tt }

  -- A call that is no write of a snapshot.
  pub other-Moves :
      {A : Type 0} {P : Result A → Type 0} (entry : Result A → Call) (op : W → Result A × W)
      → ((w : W) → stored (op w).1 ≡ stored w)
      → ((w : W) → P (op w).0)
      → Moves Stays P (call entry op)
  other-Moves entry op still answer =
      Moves-call order entry op (λ s. subst (Within n phase) (sym (still s.world))) answer

  pub other-Moves! :
      {A : Type 0} (entry : Result A → Call) (op : W → Result A × W)
      → ((w : W) → stored (op w).1 ≡ stored w)
      → Moves Stays Any (call! entry op)
  other-Moves! entry op still =
      Moves-call! order entry op (λ s. subst (Within n phase) (sym (still s.world))) (λ w a e. tt)

  pub update_status-Moves :
      (snap : QuestDbSnapshot) (to : SnapshotPhase)
      → Within n phase (with_phase snap to)
      → Moves Stays (Within n phase) (update_status client lib (with_phase snap to))
  update_status-Moves snap to good =
      Moves-call! order (Calls.updated_status (with_phase snap to)) _
        (λ s h. elim (patient.status_moves (with_phase snap to) s.world) [
          | inl same ↦ Within-Alike n phase same h
          | inr same ↦ Within-Alike n phase same good
        ])
        (λ w r e. Within-Alike n phase (patient.status_answer (with_phase snap to) r w e) good)

  pub update-Moves :
      (snap : QuestDbSnapshot) → At n phase snap → Moves Stays (At n phase) (update client lib snap)
  update-Moves snap good =
      Moves-call! order (Calls.updated_snapshot snap) (client.update_snapshot snap)
        (λ s h. elim (patient.update_moves snap s.world) [
          | inl same ↦ Within-Alike n phase same h
          | inr same ↦ Within-Alike n phase same (inl good)
        ])
        (λ w r e. At-Alike (patient.update_answer snap r w e) good)

  pub build_job-Moves :
      (snap : QuestDbSnapshot) (suffix command : String)
      → Moves Stays Any (build_generic_snapshot_job client lib snap suffix command)
  unfolding build_generic_snapshot_job get_secrets
  build_job-Moves snap suffix command =
      Moves-bind order
        (Moves-bind order
          (other-Moves! (Calls.listed_secrets snap.meta.namespace)
            (client.list_secrets snap.meta.namespace) (patient.secrets_still snap.meta.namespace))
          (λ items _. Moves-lift order (secrets_of snap.meta.name items) (λ a e. tt)))
        (λ secrets _. Moves-lift order _ (λ a e. tt))

  pub create_job-Moves :
      (job : Job)
      → Moves Stays (IsMildAnswer n) (call (Calls.created_job job) (client.create_job job))
  create_job-Moves job =
      other-Moves (Calls.created_job job) (client.create_job job) (patient.job_still job)
        (patient.job_mild job)

  pub get_existing_job-Moves :
      (job : Job) (r : Result Job)
      → IsMildAnswer n r
      → Moves Stays (IsMildAnswer n) (get_existing_job client lib job r)
  get_existing_job-Moves job (ok created) mild = Moves-pure order (ok created) mild
  get_existing_job-Moves job (err e) _ =
      let ns = object_key job.meta in
      Moves-if order (is_already_exists e)
        (other-Moves (Calls.got_job ns) (client.get_job ns) (patient.got_job_still ns)
          (patient.got_job_mild ns))
        (Moves-pure order (err e) tt)
