-- ===== src/Snapshot/Phases/Progress/Handlers.antt =====
-- The handlers of the other phases, on a server where nothing fails.
use questdb_operator.Prelude.{◌≡◌, true, ap, ◌∙◌, ℕ, ◌<◌, some, none, arith}
use questdb_operator.Kube.Error.{is_already_exists}
use questdb_operator.Kube.Meta.{NamespacedName, MetaLib, Owns, object_key}
use questdb_operator.Kube.Exec.{State}
use questdb_operator.Kube.Objects.Workload.{Job}
use questdb_operator.Kube.Objects.Storage.{VolumeSnapshot}
use questdb_operator.Api.Types.{
  QuestDbSnapshot, SnapshotPhase, empty, pending, running, finalizing, succeeded,
}
use questdb_operator.Snapshot.Calls.{Client, Call}
use questdb_operator.Snapshot.Build.{build_post_snapshot_job, post_snapshot}
use questdb_operator.Snapshot.Build.Laws.{built-build_volume_snapshot}
use questdb_operator.Snapshot.Phases.{
  handle_phase, with_phase, is_ready, handle_phase_empty, handle_phase_running,
  handle_phase_finalizing,
}
use questdb_operator.Snapshot.Phases.Progress.{
  Scene, Cooperates, AddsOnly, Stands, IsDone, new_job, new_volume,
}
use questdb_operator.Snapshot.Phases.Progress.Steps.{existing, built_job, at_build}

module _ {W : Type 0} (client : Client W) (lib : MetaLib) (key : NamespacedName) (scene : W → Scene)
    (good : Cooperates client key scene) (owns : Owns lib) (adds : AddsOnly lib) (n : ℕ)
    (positive : 0 < n) (snap : QuestDbSnapshot) where
  -- The snapshot in a state of the server.
  abbrev Holds : State W Call → Type 0
  Holds s = (scene s.world).snapshot ≡ snap

  abbrev to_phase : SnapshotPhase → Scene → Scene
  to_phase p c = record c { snapshot = with_phase snap p }

  pub empty_to_pending :
      (s : State W Call)
      → Holds s
      → Stands key n empty snap
      → scene (handle_phase client lib empty snap s).1.world ≡ to_phase pending (scene s.world)
  unfolding handle_phase handle_phase_empty
  empty_to_pending s e fit =
      let ns : NamespacedName = record {
        namespace = snap.meta.namespace;
        name = snap.spec.questdb_name;
      } in
      let w1 = (client.get_questdb ns s.world).1 in
      let (q, found) = good.questdb ns s.world in
      let same = good.questdb_scene ns s.world in
      let written = good.status snap pending w1 (ap (λ c. c.snapshot) same ∙ e) fit.named in
      ground (arith, found, same, written)

  -- The volume snapshot is made, and not ready yet.
  pub running_begins :
      (s : State W Call)
      → Holds s
      → Stands key n running snap
      → (scene s.world).volume ≡ none
      → (v : VolumeSnapshot) × (scene (handle_phase client lib running snap s).1.world
          ≡ record (scene s.world) { volume = some v })
  unfolding handle_phase handle_phase_running
  running_begins s e fit missing =
      let (v, built, named) = built-build_volume_snapshot lib owns snap in
      let made = good.volumes.made v s.world (named ∙ fit.named) missing in
      (new_volume v, ground (arith, built, made))

  -- A volume snapshot that was made before is read, and is ready.
  pub running_to_finalizing :
      (s : State W Call)
      → Holds s
      → Stands key n running snap
      → (old : VolumeSnapshot) → (scene s.world).volume ≡ some old
      → is_ready old ≡ true
      → scene (handle_phase client lib running snap s).1.world ≡ to_phase finalizing (scene s.world)
  unfolding handle_phase handle_phase_running is_already_exists
  running_to_finalizing s e fit old there ready =
      let (v, built, named) = built-build_volume_snapshot lib owns snap in
      let (refused, got, same) = existing good.volumes v old s.world (named ∙ fit.named) there in
      let w1 = (client.create_volume_snapshot v s.world).1 in
      let w2 = (client.get_volume_snapshot (object_key v.meta) w1).1 in
      let written = good.status snap finalizing w2 (ap (λ c. c.snapshot) same ∙ e) fit.named in
      ground (arith, built, refused, got, ready, same, written)

  pub finalizing_begins :
      (s : State W Call)
      → Stands key n finalizing snap
      → (scene s.world).post_job ≡ none
      → (j : Job) × (scene (handle_phase client lib finalizing snap s).1.world
          ≡ record (scene s.world) { post_job = some j })
  unfolding handle_phase handle_phase_finalizing build_post_snapshot_job
  finalizing_begins s fit missing =
      let (job, built, same, k) =
        built_job client lib key scene good owns snap post_snapshot "SNAPSHOT COMPLETE;" s
          fit.named in
      let s1 = at_build client lib key scene good owns snap post_snapshot "SNAPSHOT COMPLETE;" s in
      let made = good.post_jobs.made job s1.world k (ap (λ c. c.post_job) same ∙ missing) in
      (new_job job, ground (arith, built, same, made, fit.limit, positive))

  pub finalizing_to_succeeded :
      (s : State W Call)
      → Holds s
      → Stands key n finalizing snap
      → (old : Job) → (scene s.world).post_job ≡ some old
      → IsDone old
      → scene (handle_phase client lib finalizing snap s).1.world
        ≡ to_phase succeeded (scene s.world)
  unfolding handle_phase handle_phase_finalizing build_post_snapshot_job is_already_exists
  finalizing_to_succeeded s e fit old there (done, unfailed) =
      let (job, built, same1, k) =
        built_job client lib key scene good owns snap post_snapshot "SNAPSHOT COMPLETE;" s
          fit.named in
      let s1 = at_build client lib key scene good owns snap post_snapshot "SNAPSHOT COMPLETE;" s in
      let (refused, got, same2) =
        existing good.post_jobs job old s1.world k (ap (λ c. c.post_job) same1 ∙ there) in
      let w1 = (client.create_job job s1.world).1 in
      let w2 = (client.get_job (object_key job.meta) w1).1 in
      let same : scene w2 ≡ scene s.world = same2 ∙ same1 in
      let written = good.status snap succeeded w2 (ap (λ c. c.snapshot) same ∙ e) fit.named in
      ground (arith, built, refused, got, done, same, written)
