-- ===== src/Snapshot/Phases/Progress/Pending.antt =====
-- The handler of the pending phase, on a server where nothing fails.
use questdb_operator.Prelude.{
  ◌≡◌, refl, ap, sym, subst, ◌∙◌, inl, inr, ℕ, ◌<◌, some, none, Option-cases, Bool-cases, ◌∷◌,
  arith,
}
use questdb_operator.Kube.Error.{ok, is_already_exists}
use questdb_operator.Kube.Meta.{ObjectMeta, NamespacedName, MetaLib, Owns, object_key}
use questdb_operator.Kube.Exec.{State, bind-ok}
use questdb_operator.Kube.Objects.Workload.{Job}
use questdb_operator.Api.Types.{QuestDbSnapshot, pending, running, snapshot_complete_finalizer}
use questdb_operator.Snapshot.Calls.{Client, Call, got_class}
use questdb_operator.Snapshot.Build.{
  build_generic_snapshot_job, build_pre_snapshot_job, pre_snapshot,
}
use questdb_operator.Snapshot.Phases.{
  handle_phase, with_phase, handle_phase_pending, start_snapshot, add_complete_finalizer,
  enter_phase, run_pre_snapshot_job, check_pre_snapshot_job, prepare_snapshot,
}
use questdb_operator.Snapshot.Phases.Progress.{
  Scene, Cooperates, AddsOnly, Stands, IsDone, job_key, new_job,
}
use questdb_operator.Snapshot.Phases.Progress.Steps.{existing, built_job, at_build}

module _ {W : Type 0} (client : Client W) (lib : MetaLib) (key : NamespacedName) (scene : W → Scene)
    (good : Cooperates client key scene) (owns : Owns lib) (adds : AddsOnly lib) (n : ℕ)
    (positive : 0 < n) (snap : QuestDbSnapshot) where
  -- The snapshot in a state of the server.
  abbrev Holds : State W Call → Type 0
  Holds s = (scene s.world).snapshot ≡ snap

  -- The snapshot gets its finalizer, if it has none, and is running.
  start_snapshot_runs :
      (s : State W Call)
      → Holds s
      → Stands key n pending snap
      → (next : QuestDbSnapshot) × ((start_snapshot client lib snap s).0 ≡ ok next)
        × ((scene (start_snapshot client lib snap s).1.world).snapshot ≡ next)
        × Stands key n running next
  unfolding start_snapshot add_complete_finalizer enter_phase
  start_snapshot_runs s e fit =
      let protected_meta : ObjectMeta = lib.add_finalizer snap.meta snapshot_complete_finalizer in
      let protected : QuestDbSnapshot = record snap { meta = protected_meta } in
      let w1 = (client.update_snapshot protected s.world).1 in
      let (unmarked, same_key) = adds snap.meta snapshot_complete_finalizer in
      let still : protected.meta.deletion_timestamp ≡ none = unmarked ∙ fit.kept in
      let named : object_key protected.meta ≡ key = same_key ∙ fit.named in
      let kept = fit.kept in
      let stays = good.status snap running s.world e fit.named in
      let updated = good.update snap protected_meta s.world e named in
      let starts = good.status protected running w1 (ap (λ c. c.snapshot) updated.1) named in
      elim (Bool-cases (lib.contains_finalizer snap.meta snapshot_complete_finalizer)) [
        | inl there ↦ (
          with_phase snap running,
          ground (arith, there, kept, stays),
          ground (arith, there, kept, stays),
          record { at = refl; limit = fit.limit; kept = kept; named = fit.named },
        )
        | inr missing ↦ (
          with_phase protected running,
          ground (arith, missing, still, updated, starts),
          ground (arith, missing, still, updated, starts),
          record { at = refl; limit = fit.limit; kept = still; named = named },
        )
      ]

  check_pre_snapshot_job-Stands :
      (job : Job) (s : State W Call)
      → Holds s
      → Stands key n pending snap
      → IsDone job
      → Stands key n running (scene (check_pre_snapshot_job client lib snap job s).1.world).snapshot
  unfolding check_pre_snapshot_job
  check_pre_snapshot_job-Stands job s e fit (done, unfailed) =
      let (next, answer, now, stands) = start_snapshot_runs s e fit in
      let limit = stands.limit in
      let same : (scene (check_pre_snapshot_job client lib snap job s).1.world).snapshot ≡ next =
        ground (arith, answer, now, limit, positive) in
      subst (Stands key n running) (sym same) stands

  prepare_begins :
      (s : State W Call)
      → Stands key n pending snap
      → (scene s.world).pre_job ≡ none
      → (j : Job) × (scene (prepare_snapshot client lib snap s).1.world
          ≡ record (scene s.world) { pre_job = some j })
  unfolding prepare_snapshot build_pre_snapshot_job run_pre_snapshot_job check_pre_snapshot_job
  prepare_begins s fit missing =
      let (job, built, same, k) =
        built_job client lib key scene good owns snap pre_snapshot "SNAPSHOT PREPARE;" s
          fit.named in
      let s1 = at_build client lib key scene good owns snap pre_snapshot "SNAPSHOT PREPARE;" s in
      let made = good.pre_jobs.made job s1.world k (ap (λ c. c.pre_job) same ∙ missing) in
      (new_job job, ground (arith, built, same, made, fit.limit, positive))

  -- A job that was made before is read.
  run_pre_snapshot_job-existing :
      (job old : Job) (s : State W Call)
      → object_key job.meta ≡ job_key key pre_snapshot
      → (scene s.world).pre_job ≡ some old
      → ((run_pre_snapshot_job client lib job s).0 ≡ ok old)
        × (scene (run_pre_snapshot_job client lib job s).1.world ≡ scene s.world)
  unfolding run_pre_snapshot_job is_already_exists
  run_pre_snapshot_job-existing job old s k there =
      let (refused, got, same) = existing good.pre_jobs job old s.world k there in
      ground (arith, refused, got, same)

  prepare-Stands :
      (s : State W Call)
      → Holds s
      → Stands key n pending snap
      → (old : Job) → (scene s.world).pre_job ≡ some old
      → IsDone old
      → Stands key n running (scene (prepare_snapshot client lib snap s).1.world).snapshot
  unfolding prepare_snapshot build_pre_snapshot_job
  prepare-Stands s e fit old there done =
      let (job, built, same1, k) =
        built_job client lib key scene good owns snap pre_snapshot "SNAPSHOT PREPARE;" s
          fit.named in
      let s1 = at_build client lib key scene good owns snap pre_snapshot "SNAPSHOT PREPARE;" s in
      let (answer, same2) =
        run_pre_snapshot_job-existing job old s1 k (ap (λ c. c.pre_job) same1 ∙ there) in
      let s2 : State W Call = (run_pre_snapshot_job client lib job s1).1 in
      let holds : Holds s2 = ap (λ c. c.snapshot) (same2 ∙ same1) ∙ e in
      subst (λ r. Stands key n running (scene r.1.world).snapshot)
        (sym (
          bind-ok (build_generic_snapshot_job client lib snap pre_snapshot "SNAPSHOT PREPARE;") _ s
            built
          ∙ bind-ok (run_pre_snapshot_job client lib job) _ s1 answer))
        (check_pre_snapshot_job-Stands old s2 holds fit done)

  -- The class is there, if one is named.
  pending_prepares :
      (s : State W Call)
      → (s' : State W Call) × (handle_phase client lib pending snap s
          ≡ prepare_snapshot client lib snap s')
        × (scene s'.world ≡ scene s.world)
  unfolding handle_phase handle_phase_pending
  pending_prepares s = elim (Option-cases snap.spec.volume_snapshot_class_name) [
    | inl unnamed ↦ (s, ground (arith, unnamed), refl)
    | inr (name, named) ↦
        let (class, w1) = client.get_volume_snapshot_class name s.world in
        let (c, found) = good.class name s.world in
        let s' : State W Call = record { world = w1; log = got_class name class ∷ s.log } in
        (s', ground (arith, named, found), good.class_scene name s.world)
  ]

  pub pending_begins :
      (s : State W Call)
      → Stands key n pending snap
      → (scene s.world).pre_job ≡ none
      → (j : Job) × (scene (handle_phase client lib pending snap s).1.world
          ≡ record (scene s.world) { pre_job = some j })
  pending_begins s fit missing =
      let (s', run, same) = pending_prepares s in
      let (j, after) = prepare_begins s' fit (ap (λ c. c.pre_job) same ∙ missing) in
      (
        j,
        ap (λ r. scene r.1.world) run
            ∙ after
            ∙ ap {A = Scene} (λ c. record c { pre_job = some j }) same,
      )

  pub pending_to_running :
      (s : State W Call)
      → Holds s
      → Stands key n pending snap
      → (old : Job) → (scene s.world).pre_job ≡ some old
      → IsDone old
      → Stands key n running (scene (handle_phase client lib pending snap s).1.world).snapshot
  pending_to_running s e fit old there done =
      let (s', run, same) = pending_prepares s in
      subst (λ r. Stands key n running (scene r.1.world).snapshot) (sym run)
        (prepare-Stands s' (ap (λ c. c.snapshot) same ∙ e) fit old
          (ap (λ c. c.pre_job) same ∙ there) done)
