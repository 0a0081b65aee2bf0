-- ===== src/Snapshot/Phases/Progress.antt =====
-- A server that holds one snapshot with the objects that the controller creates for it, and on
-- which nothing fails. What is created is not done: jobs and volume snapshots have no status at
-- first, and get it from others.
pub mod Steps
pub mod Pending
pub mod Handlers
use questdb_operator.Prelude.{◌≡◌, ◌⊎◌, ℕ, String, true, Option, none, some, List}
use questdb_operator.Prelude.Int.{pos}
use questdb_operator.Prelude.Text.{dashed}
use questdb_operator.Kube.Error.{Result, ok, err, already_exists}
use questdb_operator.Kube.Meta.{ObjectMeta, NamespacedName, MetaLib, object_key}
use questdb_operator.Kube.Objects.Workload.{Job, Secret}
use questdb_operator.Kube.Objects.Storage.{VolumeSnapshot, VolumeSnapshotClass}
use questdb_operator.Secrets.{QuestDbSecrets, secrets_of}
use questdb_operator.Api.Types.{
  QuestDb, QuestDbSnapshot, SnapshotPhase, pending, running, finalizing,
}
use questdb_operator.Snapshot.Calls.{Client}
use questdb_operator.Snapshot.Build.{pre_snapshot, post_snapshot}
use questdb_operator.Snapshot.Phases.{with_phase, is_ready}

-- A snapshot and its three objects, where they are there.
pub record Scene : Type 0 where
  pub snapshot : QuestDbSnapshot
  pub pre_job : Option Job
  pub volume : Option VolumeSnapshot
  pub post_job : Option Job

abbrev pub job_key : NamespacedName → String → NamespacedName
job_key key suffix = record { namespace = key.namespace; name = dashed key.name suffix }

-- The status is a subresource: what a creation says of it is dropped.
abbrev pub new_job : Job → Job
new_job job = record job { status = record { succeeded = pos 0; failed = pos 0 } }

abbrev pub new_volume : VolumeSnapshot → VolumeSnapshot
new_volume v = record v { status = none }

-- Objects with one key: a creation stores the object, new, where nothing is, and is refused where
-- one is; a read tells which one is there.
pub record Creates {W T : Type 0} (create : T → W → Result T × W)
    (get : NamespacedName → W → Result T × W) (meta_of : T → ObjectMeta) (new : T → T)
    (scene : W → Scene) (key : NamespacedName) (view : Scene → Option T) (place : T → Scene → Scene)
    : Type 0 where
  pub made :
      (t : T) (w : W)
      → object_key (meta_of t) ≡ key
      → view (scene w) ≡ none
      → ((create t w).0 ≡ ok (new t)) × (scene (create t w).1 ≡ place (new t) (scene w))
  pub refused :
      (t old : T) (w : W)
      → object_key (meta_of t) ≡ key
      → view (scene w) ≡ some old
      → ((create t w).0 ≡ err already_exists) × (scene (create t w).1 ≡ scene w)
  pub got :
      (old : T) (w : W)
      → view (scene w) ≡ some old
      → ((get key w).0 ≡ ok old) × (scene (get key w).1 ≡ scene w)

-- The server keeps the snapshot with this key as it is written; the database and the classes exist
-- and the secrets are usable.
pub record Cooperates {W : Type 0} (client : Client W) (key : NamespacedName) (scene : W → Scene)
    : Type 0 where
  pub read : (w : W) → (client.get_snapshot key w).0 ≡ ok (scene w).snapshot
  pub read_scene : (w : W) → scene (client.get_snapshot key w).1 ≡ scene w
  pub update :
      (snap : QuestDbSnapshot) (m : ObjectMeta) (w : W)
      → (scene w).snapshot ≡ snap
      → object_key m ≡ key
      → let new : QuestDbSnapshot = record snap { meta = m } in
        ((client.update_snapshot new w).0 ≡ ok new)
        × (scene (client.update_snapshot new w).1 ≡ record (scene w) { snapshot = new })
  pub status :
      (snap : QuestDbSnapshot) (p : SnapshotPhase) (w : W)
      → (scene w).snapshot ≡ snap
      → object_key snap.meta ≡ key
      → ((client.update_snapshot_status (with_phase snap p) w).0 ≡ ok (with_phase snap p))
        × (scene (client.update_snapshot_status (with_phase snap p) w).1
            ≡ record (scene w) { snapshot = with_phase snap p })
  pub questdb : (ns : NamespacedName) (w : W) → (q : QuestDb) × ((client.get_questdb ns w).0 ≡ ok q)
  pub questdb_scene : (ns : NamespacedName) (w : W) → scene (client.get_questdb ns w).1 ≡ scene w
  pub class :
      (name : String) (w : W)
      → (c : VolumeSnapshotClass) × ((client.get_volume_snapshot_class name w).0 ≡ ok c)
  pub class_scene :
      (name : String) (w : W) → scene (client.get_volume_snapshot_class name w).1 ≡ scene w
  pub secrets :
      (ns name : String) (w : W)
      → (items : List Secret) × (s : QuestDbSecrets) × ((client.list_secrets ns w).0 ≡ ok items)
        × (secrets_of name items ≡ ok s)
  pub secrets_scene : (ns : String) (w : W) → scene (client.list_secrets ns w).1 ≡ scene w
  pub pre_jobs :
      Creates client.create_job client.get_job
        (λ j. j.meta)
        new_job
        scene
        (job_key key pre_snapshot)
        (λ c. c.pre_job)
        (λ j c. record c { pre_job = some j })
  pub post_jobs :
      Creates client.create_job client.get_job
        (λ j. j.meta)
        new_job
        scene
        (job_key key post_snapshot)
        (λ c. c.post_job)
        (λ j c. record c { post_job = some j })
  pub volumes :
      Creates client.create_volume_snapshot client.get_volume_snapshot
        (λ v. v.meta)
        new_volume
        scene
        key
        (λ c. c.volume)
        (λ v c. record c { volume = some v })

-- A snapshot in a phase that is not to be deleted, may fail `n` times and stands under the key.
pub record Stands (key : NamespacedName) (n : ℕ) (phase : SnapshotPhase) (snap : QuestDbSnapshot)
    : Type 0 where
  pub at : snap.phase ≡ phase
  pub limit : snap.spec.job_backoff_limit ≡ pos n
  pub kept : snap.meta.deletion_timestamp ≡ none
  pub named : object_key snap.meta ≡ key

-- A job that is done without a failure.
abbrev pub IsDone : Job → Type 0
IsDone job = (job.status.succeeded ≡ pos 1) × (job.status.failed ≡ pos 0)

-- There is an object, and it is as it is waited for.
abbrev pub Has : {T : Type 0} → (T → Type 0) → Option T → Type 0
Has {T = T} P o = (t : T) × (o ≡ some t) × P t

abbrev pub IsVolumeReady : VolumeSnapshot → Type 0
IsVolumeReady v = is_ready v ≡ true

-- The object that is waited for in a phase is not there, is there, and is done.
abbrev pub IsAbsent : SnapshotPhase → Scene → Type 0
IsAbsent pending c = c.pre_job ≡ none
IsAbsent running c = c.volume ≡ none
IsAbsent finalizing c = c.post_job ≡ none
IsAbsent phase c = ⊥

abbrev pub IsPresent : SnapshotPhase → Scene → Type 0
IsPresent pending c = Has (λ _. Unit {0}) c.pre_job
IsPresent running c = Has (λ _. Unit {0}) c.volume
IsPresent finalizing c = Has (λ _. Unit {0}) c.post_job
IsPresent phase c = Unit {0}

abbrev pub IsAwaited : SnapshotPhase → Scene → Type 0
IsAwaited pending c = Has IsDone c.pre_job
IsAwaited running c = Has IsVolumeReady c.volume
IsAwaited finalizing c = Has IsDone c.post_job
IsAwaited phase c = Unit {0}

-- Adding a finalizer neither marks for deletion nor names anew.
abbrev pub AddsOnly : MetaLib → Type 0
AddsOnly lib =
    (m : ObjectMeta) (f : String)
    → ((lib.add_finalizer m f).deletion_timestamp ≡ m.deletion_timestamp)
      × (object_key (lib.add_finalizer m f) ≡ object_key m)
