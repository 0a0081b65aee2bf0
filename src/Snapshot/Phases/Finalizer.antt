-- ===== src/Snapshot/Phases/Finalizer.antt =====
-- The finalizer that keeps a deleted snapshot until `SNAPSHOT COMPLETE;` was run.
use questdb_operator.Prelude.{
  ◌≡◌, inl, inr, String, Bool, true, ◌&&◌, Option-cases, List, [], ◌∷◌, arith,
}
use questdb_operator.Kube.Error.{Result-cases, ok}
use questdb_operator.Kube.Meta.{ObjectMeta, MetaLib}
use questdb_operator.Kube.Exec.{State}
use questdb_operator.Kube.Objects.Workload.{Job}
use questdb_operator.Api.Types.{
  QuestDbSnapshot, SnapshotPhase, running, finalizing, snapshot_complete_finalizer,
}
use questdb_operator.Snapshot.Calls.{Client, Call, updated_status, got_class}
use questdb_operator.Snapshot.Build.{build_pre_snapshot_job}
use questdb_operator.Snapshot.Phases.{
  handle_phase_pending, run_pre_snapshot_job, check_pre_snapshot_job, prepare_snapshot,
  start_snapshot, add_complete_finalizer, enter_phase,
}

-- What controllerutil promises of AddFinalizer and RemoveFinalizer.
pub record FinalizerLaws (lib : MetaLib) : Type 0 where
  pub contains-add :
      (m : ObjectMeta) (f : String) → lib.contains_finalizer (lib.add_finalizer m f) f ≡ true

module _ {W : Type 0} (client : Client W) (lib : MetaLib) where
  -- An update answers with the finalizers that were sent.
  abbrev pub KeepsFinalizers : Type 0
  KeepsFinalizers =
      (s r : QuestDbSnapshot) (f : String) (w : W)
      → (client.update_snapshot s w).0 ≡ ok r
      → lib.contains_finalizer r.meta f ≡ lib.contains_finalizer s.meta f

-- A status that starts the snapshot is written with the finalizer in place.
abbrev pub protects : MetaLib → SnapshotPhase → QuestDbSnapshot → Bool
protects lib running snap = lib.contains_finalizer snap.meta snapshot_complete_finalizer
protects lib finalizing snap = lib.contains_finalizer snap.meta snapshot_complete_finalizer
protects lib _ snap = true

abbrev pub all_protected : MetaLib → List Call → Bool
all_protected lib [] = true
all_protected lib (updated_status snap _ ∷ calls) =
    protects lib snap.phase snap && all_protected lib calls
all_protected lib (_ ∷ calls) = all_protected lib calls

module _ {W : Type 0} (client : Client W) (lib : MetaLib) (laws : FinalizerLaws lib)
    (keeps : KeepsFinalizers client lib) (snap : QuestDbSnapshot) where
  abbrev AllProtected : State W Call → Type 0
  AllProtected s = all_protected lib s.log ≡ true

  add_complete_finalizer-contains :
      (kept : QuestDbSnapshot) (s : State W Call)
      → AllProtected s
      → (add_complete_finalizer client lib snap s).0 ≡ ok kept
      → (lib.contains_finalizer kept.meta snapshot_complete_finalizer ≡ true)
        × AllProtected (add_complete_finalizer client lib snap s).1
  unfolding add_complete_finalizer
  add_complete_finalizer-contains kept s h e = ground (
    arith,
    laws.contains-add snap.meta snapshot_complete_finalizer,
    keeps (record snap { meta = lib.add_finalizer snap.meta snapshot_complete_finalizer }) kept
        snapshot_complete_finalizer s.world,
  )

  AllProtected-add_complete_finalizer :
      (s : State W Call)
      → AllProtected s
      → AllProtected (add_complete_finalizer client lib snap s).1
  unfolding add_complete_finalizer
  AllProtected-add_complete_finalizer s h = ground arith

  AllProtected-enter_phase :
      (kept : QuestDbSnapshot) (s : State W Call)
      → lib.contains_finalizer kept.meta snapshot_complete_finalizer ≡ true
      → AllProtected s
      → AllProtected (enter_phase client lib kept s).1
  unfolding enter_phase
  AllProtected-enter_phase kept s c h = ground arith

  AllProtected-start_snapshot :
      (s : State W Call) → AllProtected s → AllProtected (start_snapshot client lib snap s).1
  unfolding start_snapshot
  AllProtected-start_snapshot s h =
      let (r, s₁) = add_complete_finalizer client lib snap s in
      elim (Result-cases r) [
        | inr (x, bad) ↦ ground (arith, AllProtected-add_complete_finalizer s)
        | inl (kept, good) ↦
            ground (arith, add_complete_finalizer-contains kept s, AllProtected-enter_phase kept s₁)
      ]

  AllProtected-check_pre_snapshot_job :
      (job : Job) (s : State W Call)
      → AllProtected s
      → AllProtected (check_pre_snapshot_job client lib snap job s).1
  unfolding check_pre_snapshot_job
  AllProtected-check_pre_snapshot_job job s h = ground (arith, AllProtected-start_snapshot s)

  AllProtected-run_pre_snapshot_job :
      (job : Job) (s : State W Call)
      → AllProtected s
      → AllProtected (run_pre_snapshot_job client lib job s).1
  unfolding run_pre_snapshot_job
  AllProtected-run_pre_snapshot_job job s h = ground arith

  AllProtected-build_pre_snapshot_job :
      (s : State W Call)
      → AllProtected s
      → AllProtected (build_pre_snapshot_job client lib snap s).1
  unfolding build_pre_snapshot_job
  AllProtected-build_pre_snapshot_job s h = ground arith

  AllProtected-prepare_snapshot :
      (s : State W Call) → AllProtected s → AllProtected (prepare_snapshot client lib snap s).1
  unfolding prepare_snapshot
  AllProtected-prepare_snapshot s h =
      let built = build_pre_snapshot_job client lib snap s in
      let h₁ = AllProtected-build_pre_snapshot_job s h in
      elim (Result-cases built.0) [
        | inr (x, bad) ↦ ground arith
        | inl (job, good) ↦
            let ran = run_pre_snapshot_job client lib job built.1 in
            let h₂ = AllProtected-run_pre_snapshot_job job built.1 h₁ in
            elim (Result-cases ran.0) [
              | inr (x, bad) ↦ ground arith
              | inl (found, there) ↦ ground (arith, AllProtected-check_pre_snapshot_job found ran.1)
            ]
      ]

  -- If `AddFinalizer` adds the finalizer and an update answers with the finalizers that were sent,
  -- then the handler of a pending snapshot never writes it as running or finalizing without the
  -- finalizer.
  pub pending-AllProtected :
      (w : W)
      → all_protected lib
          (handle_phase_pending client lib snap (record { world = w; log = [] })).1.log
        ≡ true
  unfolding handle_phase_pending
  pending-AllProtected w = elim (Option-cases snap.spec.volume_snapshot_class_name) [
    | inl none_named ↦
        ground (arith, AllProtected-prepare_snapshot (record { world = w; log = [] }))
    | inr (name, named) ↦
        let (class, w₁) = client.get_volume_snapshot_class name w in
        ground (
          arith,
          AllProtected-prepare_snapshot (record { world = w₁; log = got_class name class ∷ [] }),
        )
  ]
