-- ===== src/Snapshot/Phases/Patience/Pending.antt =====
-- A new and a pending snapshot are taken at most one phase further.
use questdb_operator.Prelude.{
  ◌≡◌, refl, ◌∙◌, ap, sym, subst, inl, inr, ℕ, Bool, false, none, some, String, if◌then◌else◌,
}
use questdb_operator.Prelude.Int.{pos, eq_ℤ, leb_ℤ}
use questdb_operator.Kube.Error.{Error, Result, ok, err, is_not_found}
use questdb_operator.Kube.Meta.{ObjectMeta, NamespacedName, MetaLib}
use questdb_operator.Kube.Exec.{State, Exec, lift, call, ◌>>=◌}
use questdb_operator.Kube.Exec.Moves.{
  Moves, Moves-pure, Moves-raise, Moves-lift, Moves-bind, Moves-if,
}
use questdb_operator.Kube.Objects.Workload.{Job}
use questdb_operator.Kube.Objects.Storage.{VolumeSnapshotClass}
use questdb_operator.Api.Types.{
  QuestDbSnapshot, SnapshotPhase, empty, pending, running, finalizing, failed,
  snapshot_complete_finalizer,
}
use questdb_operator.Snapshot.Calls as Calls
use questdb_operator.Snapshot.Calls.{Client, Call, Handler, record_event, normal, warning}
use questdb_operator.Snapshot.Build.{build_pre_snapshot_job, pre_snapshot}
use questdb_operator.Snapshot.Phases.{
  with_phase, is_err_not_found, update_status, try_update_status, return_error, handle_phase_empty,
  report_job, run_pre_snapshot_job, add_complete_finalizer, enter_phase, start_snapshot,
  check_pre_snapshot_job, prepare_snapshot, check_class, handle_phase_pending,
}
use questdb_operator.Snapshot.Phases.Patience.{IsPatient, IsMild, IsMildAnswer, At, Within}
use questdb_operator.Snapshot.Phases.Patience.Steps.{
  Any, Stays, order, event-Moves, other-Moves, update_status-Moves, update-Moves, build_job-Moves,
  create_job-Moves, get_existing_job-Moves,
}

-- Finalizers do not mark for deletion.
pub record KeepsDeletion (lib : MetaLib) : Type 0 where
  pub added :
      (m : ObjectMeta) (f : String)
      → (lib.add_finalizer m f).deletion_timestamp ≡ m.deletion_timestamp
  pub removed :
      (m : ObjectMeta) (f : String)
      → (lib.remove_finalizer m f).0.deletion_timestamp ≡ m.deletion_timestamp

-- The answer is not that nothing is there.
abbrev pub IsThere : {A : Type 0} → Result A → Type 0
IsThere r = is_err_not_found r ≡ false

pub there :
    {A : Type 0} (r : Result A) → ((e : Error) → r ≡ err e → is_not_found e ≡ false) → IsThere r
there (ok a) h = refl
there (err e) h = h e refl

-- A test that fails.
pub Moves-else :
    {W A : Type 0} {R : State W Call → State W Call → Type 0} {P : A → Type 0} (b : Bool)
    (m : Exec W Call A) {k : Exec W Call A}
    → b ≡ false
    → Moves R P k
    → Moves R P (if b then m else k)
Moves-else {R = R} {P = P} b m {k = k} e moves =
    subst (λ b. Moves R P (if b then m else k)) (sym e) moves

module _ {W : Type 0} {client : Client W} {key : NamespacedName} {stored : W → QuestDbSnapshot}
    {n : ℕ} (patient : IsPatient client key stored n) (lib : MetaLib)
    (keeps : KeepsDeletion lib) where
  -- The snapshot in another phase.
  pub moved :
      {from : SnapshotPhase} (to : SnapshotPhase) {snap : QuestDbSnapshot}
      → At n from snap
      → At n to (with_phase snap to)
  moved to good = record { at = refl; limit = good.limit; kept = good.kept }

  pub empty-Moves :
      (snap : QuestDbSnapshot)
      → At n empty snap
      → Moves (Stays patient lib empty) Any (handle_phase_empty client lib snap)
  unfolding handle_phase_empty
  empty-Moves snap good =
      let o = order patient lib empty in
      let ns : NamespacedName = record {
        namespace = snap.meta.namespace;
        name = snap.spec.questdb_name;
      } in
      Moves-bind o
        (other-Moves patient lib empty {P = IsThere} (Calls.got_questdb ns) (client.get_questdb ns)
          (patient.questdb_still ns) (λ w. there _ (patient.questdb_there ns w)))
        (λ qdb known.
          Moves-else (is_err_not_found qdb)
            (update_status client lib (with_phase snap failed) >>= λ _.
              record_event warning "SnapshotFailed")
            known
            (Moves-bind o
              (update_status-Moves patient lib empty snap pending (inr (moved pending good)))
              (λ r _. Moves-pure o tt tt)))

  pub lift_job-Moves :
      (phase : SnapshotPhase) (found : Result Job)
      → IsMildAnswer n found
      → Moves (Stays patient lib phase) (IsMild n) (lift found)
  lift_job-Moves phase found mild =
      Moves-lift (order patient lib phase) found (λ a e. subst (IsMildAnswer n) e mild)

  report_job-Moves :
      (created found : Result Job)
      → IsMildAnswer n found
      → Moves (Stays patient lib pending) (IsMild n) (report_job client lib created found)
  report_job-Moves (ok _) found mild = lift_job-Moves pending found mild
  report_job-Moves (err _) (ok job) mild =
      let o = order patient lib pending in
      Moves-bind o (event-Moves patient lib pending Calls.normal "SnapshotPending")
        (λ _ _. Moves-pure o job mild)
  report_job-Moves (err _) (err e) _ =
      let o = order patient lib pending in
      Moves-bind o (event-Moves patient lib pending Calls.warning "SnapshotPending")
        (λ _ _. Moves-raise o e)

  run_pre_snapshot_job-Moves :
      (job : Job)
      → Moves (Stays patient lib pending) (IsMild n) (run_pre_snapshot_job client lib job)
  unfolding run_pre_snapshot_job
  run_pre_snapshot_job-Moves job =
      let o = order patient lib pending in
      Moves-bind o (create_job-Moves patient lib pending job) (λ created mild.
        Moves-bind o (get_existing_job-Moves patient lib pending job created mild)
          (λ found mild'. report_job-Moves created found mild'))

  add_complete_finalizer-Moves :
      (snap : QuestDbSnapshot)
      → At n pending snap
      → Moves (Stays patient lib pending) (At n pending) (add_complete_finalizer client lib snap)
  unfolding add_complete_finalizer
  add_complete_finalizer-Moves snap good =
      let o = order patient lib pending in
      let same = keeps.added snap.meta snapshot_complete_finalizer in
      Moves-if o (lib.contains_finalizer snap.meta snapshot_complete_finalizer)
        (Moves-pure o snap good)
        (update-Moves patient lib pending _
          (record { at = good.at; limit = good.limit; kept = same ∙ good.kept }))

  enter_phase-Moves :
      (snap : QuestDbSnapshot)
      → At n pending snap
      → Moves (Stays patient lib pending) (Within n pending) (enter_phase client lib snap)
  unfolding enter_phase
  enter_phase-Moves snap good =
      let o = order patient lib pending in
      let to : SnapshotPhase = elim snap.meta.deletion_timestamp [
        | none ↦ running
        | some t ↦ finalizing
      ] in
      let runs : to ≡ running = rw (good.kept) refl in
      Moves-bind o
        (update_status-Moves patient lib pending snap to
          (subst (λ p. Within n pending (with_phase snap p)) (sym runs) (inr (moved running good))))
        (λ r within.
          Moves-bind o (event-Moves patient lib pending Calls.normal _)
            (λ _ _. Moves-pure o r within))

  Within-limit :
      (phase : SnapshotPhase) (snap : QuestDbSnapshot)
      → Within n phase snap
      → snap.spec.job_backoff_limit ≡ pos n
  Within-limit phase snap (inl good) = good.limit
  Within-limit phase snap (inr good) = good.limit

  -- The end of a pending snapshot that is given up.
  abbrev give_up : QuestDbSnapshot → Handler W (Unit {0})
  give_up snap = try_update_status client lib (with_phase snap failed) >>= λ answer.
      record_event warning "SnapshotFailed" >>= λ _. return_error client lib answer

  check_pre_snapshot_job-Moves :
      (snap : QuestDbSnapshot) (job : Job)
      → At n pending snap
      → IsMild n job
      → Moves (Stays patient lib pending) Any (check_pre_snapshot_job client lib snap job)
  unfolding check_pre_snapshot_job start_snapshot
  check_pre_snapshot_job-Moves snap job good mild =
      let o = order patient lib pending in
      Moves-bind o
        (Moves-if o (eq_ℤ job.status.succeeded (pos 1))
          (Moves-bind o (add_complete_finalizer-Moves snap good)
            (λ kept at. enter_phase-Moves kept at))
          (Moves-pure o snap (inl good)))
        (λ current within.
          Moves-else (leb_ℤ current.spec.job_backoff_limit job.status.failed) (give_up current)
            (ap (λ l. leb_ℤ l job.status.failed) (Within-limit pending current within) ∙ mild)
            (Moves-pure o tt tt))

  prepare_snapshot-Moves :
      (snap : QuestDbSnapshot)
      → At n pending snap
      → Moves (Stays patient lib pending) Any (prepare_snapshot client lib snap)
  unfolding prepare_snapshot build_pre_snapshot_job
  prepare_snapshot-Moves snap good =
      let o = order patient lib pending in
      Moves-bind o (build_job-Moves patient lib pending snap pre_snapshot "SNAPSHOT PREPARE;")
        (λ job _.
          Moves-bind o (run_pre_snapshot_job-Moves job)
            (λ found mild. check_pre_snapshot_job-Moves snap found good mild))

  check_class-Moves :
      (snap : QuestDbSnapshot) (class : Result VolumeSnapshotClass)
      → At n pending snap
      → IsThere class
      → Moves
          (Stays patient lib pending)
          Any
          (check_class client lib snap class (prepare_snapshot client lib snap))
  check_class-Moves snap (ok class) good _ = prepare_snapshot-Moves snap good
  check_class-Moves snap (err e) good known =
      Moves-else (is_not_found e) (give_up snap) known (Moves-raise (order patient lib pending) e)

  class_of-Moves :
      (snap : QuestDbSnapshot) (name : String)
      → At n pending snap
      → Moves (Stays patient lib pending) Any (
          call (Calls.got_class name) (client.get_volume_snapshot_class name) >>= λ class.
          check_class client lib snap class (prepare_snapshot client lib snap))
  class_of-Moves snap name good =
      Moves-bind (order patient lib pending)
        (other-Moves patient lib pending {P = IsThere} (Calls.got_class name)
          (client.get_volume_snapshot_class name) (patient.class_still name)
          (λ w. there _ (patient.class_there name w)))
        (λ class known. check_class-Moves snap class good known)

  pub pending-Moves :
      (snap : QuestDbSnapshot)
      → At n pending snap
      → Moves (Stays patient lib pending) Any (handle_phase_pending client lib snap)
  unfolding handle_phase_pending
  pending-Moves snap good =
      elim snap.spec.volume_snapshot_class_name
        as (λ class. Moves (Stays patient lib pending) Any (elim class [
          | none ↦ prepare_snapshot client lib snap
          | some name ↦
              (call (Calls.got_class name) (client.get_volume_snapshot_class name) >>= λ class.
              check_class client lib snap class (prepare_snapshot client lib snap))
        ])) [ none ↦ prepare_snapshot-Moves snap good | some name ↦ class_of-Moves snap name good ]
