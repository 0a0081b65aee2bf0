-- ===== src/Snapshot/Phases/Release.antt =====
-- When the finalizer is taken off a snapshot.
use questdb_operator.Prelude.{
  ◌≡◌, ◌≢◌, refl, inl, inr, Bool, true, ◌&&◌, Option-cases, List, [], ◌∷◌, arith,
}
use questdb_operator.Kube.Meta.{MetaLib}
use questdb_operator.Kube.Exec.{State, bind-keeps}
use questdb_operator.Kube.Objects.Workload.{Job}
use questdb_operator.Api.Types.{
  QuestDbSnapshot, SnapshotPhase, empty, pending, running, finalizing, failed, succeeded, unknown,
  snapshot_complete_finalizer,
}
use questdb_operator.Snapshot.Calls.{Client, Call, updated_snapshot, got_class}
use questdb_operator.Snapshot.Build.{build_pre_snapshot_job, build_post_snapshot_job}
use questdb_operator.Snapshot.Phases.{
  handle_phase, handle_phase_empty, handle_phase_pending, handle_phase_running,
  handle_phase_finalizing, run_pre_snapshot_job, check_pre_snapshot_job, prepare_snapshot,
  start_snapshot, add_complete_finalizer, enter_phase,
}
use questdb_operator.Snapshot.Phases.Finalizer.{FinalizerLaws}

-- No snapshot is written without the finalizer.
abbrev pub keeps_finalizer : MetaLib → List Call → Bool
keeps_finalizer lib [] = true
keeps_finalizer lib (updated_snapshot snap _ ∷ calls) =
    lib.contains_finalizer snap.meta snapshot_complete_finalizer && keeps_finalizer lib calls
keeps_finalizer lib (_ ∷ calls) = keeps_finalizer lib calls

module _ {W : Type 0} (client : Client W) (lib : MetaLib) (laws : FinalizerLaws lib)
    (snap : QuestDbSnapshot) where
  abbrev Kept : State W Call → Type 0
  Kept s = keeps_finalizer lib s.log ≡ true

  Kept-build_pre_snapshot_job :
      (s : State W Call) → Kept s → Kept (build_pre_snapshot_job client lib snap s).1
  unfolding build_pre_snapshot_job
  Kept-build_pre_snapshot_job s h = ground arith

  Kept-run_pre_snapshot_job :
      (job : Job) (s : State W Call) → Kept s → Kept (run_pre_snapshot_job client lib job s).1
  unfolding run_pre_snapshot_job
  Kept-run_pre_snapshot_job job s h = ground arith

  Kept-add_complete_finalizer :
      (s : State W Call) → Kept s → Kept (add_complete_finalizer client lib snap s).1
  unfolding add_complete_finalizer
  Kept-add_complete_finalizer s h =
      ground (arith, laws.contains-add snap.meta snapshot_complete_finalizer)

  Kept-enter_phase :
      (kept : QuestDbSnapshot) (s : State W Call) → Kept s → Kept (enter_phase client lib kept s).1
  unfolding enter_phase
  Kept-enter_phase kept s h = ground arith

  Kept-start_snapshot : (s : State W Call) → Kept s → Kept (start_snapshot client lib snap s).1
  unfolding start_snapshot
  Kept-start_snapshot s h =
      bind-keeps Kept Kept (add_complete_finalizer client lib snap) _ s
        (Kept-add_complete_finalizer s h) (λ s' k. k) Kept-enter_phase

  Kept-check_pre_snapshot_job :
      (job : Job) (s : State W Call)
      → Kept s
      → Kept (check_pre_snapshot_job client lib snap job s).1
  unfolding check_pre_snapshot_job
  Kept-check_pre_snapshot_job job s h = ground (arith, Kept-start_snapshot s)

  Kept-prepare_snapshot : (s : State W Call) → Kept s → Kept (prepare_snapshot client lib snap s).1
  unfolding prepare_snapshot
  Kept-prepare_snapshot s h =
      bind-keeps Kept Kept (build_pre_snapshot_job client lib snap) _ s
        (Kept-build_pre_snapshot_job s h) (λ s' k. k)
        (λ job s1 h1.
          bind-keeps Kept Kept (run_pre_snapshot_job client lib job) _ s1
            (Kept-run_pre_snapshot_job job s1 h1) (λ s' k. k) Kept-check_pre_snapshot_job)

  Kept-pending :
      (w : W) → Kept (handle_phase_pending client lib snap (record { world = w; log = [] })).1
  unfolding handle_phase_pending
  Kept-pending w = elim (Option-cases snap.spec.volume_snapshot_class_name) [
    | inl none_named ↦ ground (arith, Kept-prepare_snapshot (record { world = w; log = [] }))
    | inr (name, named) ↦
        let (class, w1) = client.get_volume_snapshot_class name w in
        ground
          (arith, Kept-prepare_snapshot (record { world = w1; log = got_class name class ∷ [] }))
  ]

  Kept-empty :
      (w : W) → Kept (handle_phase_empty client lib snap (record { world = w; log = [] })).1
  unfolding handle_phase_empty
  Kept-empty w = ground arith

  Kept-running :
      (w : W) → Kept (handle_phase_running client lib snap (record { world = w; log = [] })).1
  unfolding handle_phase_running
  Kept-running w = ground arith

  Kept-finalizing :
      (w : W) → Kept (handle_phase_finalizing client lib snap (record { world = w; log = [] })).1
  unfolding handle_phase_finalizing build_post_snapshot_job
  Kept-finalizing w = ground arith

  -- If `AddFinalizer` adds the finalizer, then, whatever the server answers, no handler but those of
  -- the failed and the succeeded phase writes a snapshot without it.
  pub handle_phase-keeps_finalizer :
      (from : SnapshotPhase) (w : W)
      → from ≢ failed
      → from ≢ succeeded
      → keeps_finalizer lib
          (handle_phase client lib from snap (record { world = w; log = [] })).1.log
        ≡ true
  unfolding handle_phase
  handle_phase-keeps_finalizer empty w f s = Kept-empty w
  handle_phase-keeps_finalizer pending w f s = Kept-pending w
  handle_phase-keeps_finalizer running w f s = Kept-running w
  handle_phase-keeps_finalizer finalizing w f s = Kept-finalizing w
  handle_phase-keeps_finalizer failed w f s = absurd (f refl)
  handle_phase-keeps_finalizer succeeded w f s = absurd (s refl)
  handle_phase-keeps_finalizer (unknown text) w f s = refl
