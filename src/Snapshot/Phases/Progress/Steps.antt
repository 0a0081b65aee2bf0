-- ===== src/Snapshot/Phases/Progress/Steps.antt =====
-- The steps that the handlers share, on a server where nothing fails.
use questdb_operator.Prelude.{◌≡◌, ap, ◌∙◌, String, Option, some}
use questdb_operator.Kube.Error.{Result, ok, err, already_exists}
use questdb_operator.Kube.Meta.{ObjectMeta, NamespacedName, MetaLib, Owns, object_key}
use questdb_operator.Kube.Exec.{State}
use questdb_operator.Kube.Objects.Workload.{Job}
use questdb_operator.Api.Types.{QuestDbSnapshot}
use questdb_operator.Snapshot.Calls.{Client, Call}
use questdb_operator.Snapshot.Build.{build_generic_snapshot_job}
use questdb_operator.Snapshot.Build.Laws.{built-build_generic_snapshot_job}
use questdb_operator.Snapshot.Phases.Progress.{Scene, Creates, Cooperates, job_key}

-- A creation where an object is, and the read behind it.
pub existing :
    {W T : Type 0} {create : T → W → Result T × W} {get : NamespacedName → W → Result T × W}
    {meta_of : T → ObjectMeta} {new : T → T} {scene : W → Scene} {key : NamespacedName}
    {view : Scene → Option T} {place : T → Scene → Scene}
    → Creates create get meta_of new scene key view place
    → (t old : T) (w : W) → object_key (meta_of t) ≡ key
    → view (scene w) ≡ some old
    → let (answer, w1) = create t w in
      let (read, w2) = get (object_key (meta_of t)) w1 in
      (answer ≡ err already_exists) × (read ≡ ok old) × (scene w2 ≡ scene w)
existing {create = create} {get = get} {scene = scene} {view = view} api t old w named there =
    let w1 = (create t w).1 in
    let (refused, same1) = api.refused t old w named there in
    let (got, same2) = api.got old w1 (ap view same1 ∙ there) in
    (
      refused,
      ap (λ k. (get k w1).0) named ∙ got,
      ap (λ k. scene (get k w1).1) named ∙ same2 ∙ same1,
    )

module _ {W : Type 0} (client : Client W) (lib : MetaLib) (key : NamespacedName) (scene : W → Scene)
    (good : Cooperates client key scene) (owns : Owns lib) (snap : QuestDbSnapshot) where
  -- A job of the snapshot is built, and the scene is as before.
  pub built_job :
      (suffix command : String) (s : State W Call)
      → object_key snap.meta ≡ key
      → (job : Job) × ((build_generic_snapshot_job client lib snap suffix command s).0 ≡ ok job)
        × (scene (build_generic_snapshot_job client lib snap suffix command s).1.world
            ≡ scene s.world)
        × (object_key job.meta ≡ job_key key suffix)
  built_job suffix command s named =
      let (items, secrets, listed, chosen) =
        good.secrets snap.meta.namespace snap.meta.name s.world in
      let (job, built, behind, k) =
        built-build_generic_snapshot_job client lib owns snap suffix command s items secrets listed
          chosen in
      (
        job,
        built,
        ap scene behind ∙ good.secrets_scene snap.meta.namespace s.world,
        k ∙ ap (λ x. job_key x suffix) named,
      )

  -- The state in which the job of a command is built.
  abbrev pub at_build : String → String → State W Call → State W Call
  at_build suffix command s = (build_generic_snapshot_job client lib snap suffix command s).1
