-- ===== src/Snapshot/Phases/Forward.antt =====
-- The order of the phases, and servers that know a snapshot by its resource version.
pub mod Steps
pub mod Pending
pub mod Handlers
use questdb_operator.Prelude.{ℕ, ◌<◌, ◌≡◌, refl, ◌⊎◌, inl, inr, String, arith, ◌∙◌, subst, sym}
use questdb_operator.Kube.Error.{ok}
use questdb_operator.Kube.Meta.{NamespacedName, MetaLib, ObjectMeta, object_key}
use questdb_operator.Kube.Exec.{State}
use questdb_operator.Kube.Objects.Workload.{Job}
use questdb_operator.Kube.Objects.Storage.{VolumeSnapshot}
use questdb_operator.Kube.Exec.Moves.{IsPreorder}
use questdb_operator.Api.Types.{
  QuestDbSnapshot, SnapshotPhase, empty, pending, running, finalizing, failed, succeeded, unknown,
}
use questdb_operator.Snapshot.Calls.{Client, Call}

-- How far a phase is.
abbrev pub rank : SnapshotPhase → ℕ
rank empty = 0
rank pending = 1
rank running = 2
rank finalizing = 3
rank failed = 4
rank succeeded = 4
rank (unknown text) = 4

-- The same phase, or one that is further.
abbrev pub Forward : SnapshotPhase → SnapshotPhase → Type 0
Forward p q = (p ≡ q) ⊎ (rank p < rank q)

pub Forward-trans : (p q r : SnapshotPhase) → Forward p q → Forward q r → Forward p r
Forward-trans p q r (inl e) (inl f) = inl (e ∙ f)
Forward-trans p q r (inl e) (inr l) = inr (subst (λ x. rank x < rank r) (sym e) l)
Forward-trans p q r (inr k) (inl f) = inr (subst (λ x. rank p < rank x) f k)
Forward-trans p q r (inr k) (inr l) = inr (omega (arith, k, l))

-- Metadata and phase of a version of the snapshot with this key, where `phase_of` tells which phase
-- the snapshot had at a resource version.
abbrev pub IsVersion : NamespacedName → (String → SnapshotPhase) → QuestDbSnapshot → Type 0
IsVersion key phase_of snap =
    (object_key snap.meta ≡ key) × (phase_of snap.meta.resource_version ≡ snap.phase)

-- A server on which the snapshot with this key has a phase, and which tells its versions apart.
-- Others may write the snapshot before and behind each call, and move its phase forward. A read is
-- answered with some version, perhaps an old one. A status is taken only from the version that is
-- there at that time, also where the answer does not tell that it was taken; else it is refused.
pub record Versioned {W : Type 0} (client : Client W) (key : NamespacedName)
    (phase : W → SnapshotPhase) (phase_of : String → SnapshotPhase) : Type 0 where
  pub read :
      (w : W) (snap : QuestDbSnapshot)
      → (client.get_snapshot key w).0 ≡ ok snap
      → IsVersion key phase_of snap
  pub update :
      (snap r : QuestDbSnapshot) (w : W)
      → IsVersion key phase_of snap
      → (client.update_snapshot snap w).0 ≡ ok r
      → IsVersion key phase_of r × (r.phase ≡ snap.phase)
  pub status :
      (snap r : QuestDbSnapshot) (w : W)
      → object_key snap.meta ≡ key
      → (client.update_snapshot_status snap w).0 ≡ ok r
      → IsVersion key phase_of r × (r.phase ≡ snap.phase)
  pub status_moves :
      (snap : QuestDbSnapshot) (w : W)
      → object_key snap.meta ≡ key
      → let w' = (client.update_snapshot_status snap w).1 in
        Forward (phase w) (phase w')
        ⊎ (Forward (phase w) (phase_of snap.meta.resource_version) × Forward snap.phase (phase w'))
  pub update_moves :
      (snap : QuestDbSnapshot) (w : W)
      → object_key snap.meta ≡ key
      → Forward (phase w) (phase (client.update_snapshot snap w).1)
  pub read_moves : (w : W) → Forward (phase w) (phase (client.get_snapshot key w).1)
  pub questdb_moves :
      (ns : NamespacedName) (w : W) → Forward (phase w) (phase (client.get_questdb ns w).1)
  pub class_moves :
      (name : String) (w : W)
      → Forward (phase w) (phase (client.get_volume_snapshot_class name w).1)
  pub secrets_moves : (ns : String) (w : W) → Forward (phase w) (phase (client.list_secrets ns w).1)
  pub create_job_moves : (job : Job) (w : W) → Forward (phase w) (phase (client.create_job job w).1)
  pub get_job_moves :
      (ns : NamespacedName) (w : W) → Forward (phase w) (phase (client.get_job ns w).1)
  pub delete_job_moves : (job : Job) (w : W) → Forward (phase w) (phase (client.delete_job job w).1)
  pub create_volume_moves :
      (v : VolumeSnapshot) (w : W) → Forward (phase w) (phase (client.create_volume_snapshot v w).1)
  pub get_volume_moves :
      (ns : NamespacedName) (w : W) → Forward (phase w) (phase (client.get_volume_snapshot ns w).1)

-- Finalizers change neither the key nor the version.
pub record KeepsVersion (lib : MetaLib) : Type 0 where
  pub added :
      (m : ObjectMeta) (f : String)
      → (object_key (lib.add_finalizer m f) ≡ object_key m)
        × ((lib.add_finalizer m f).resource_version ≡ m.resource_version)
  pub removed :
      (m : ObjectMeta) (f : String)
      → (object_key (lib.remove_finalizer m f).0 ≡ object_key m)
        × ((lib.remove_finalizer m f).0.resource_version ≡ m.resource_version)

-- A snapshot on such a server, and the library.
pub record Setting {W : Type 0} (client : Client W) (lib : MetaLib) : Type 0 where
  pub key : NamespacedName
  pub phase : W → SnapshotPhase
  pub phase_of : String → SnapshotPhase
  pub server : Versioned client key phase phase_of
  pub keeps : KeepsVersion lib

module _ {W : Type 0} {client : Client W} {lib : MetaLib} (set : Setting client lib) where
  -- The phase of the snapshot goes forward between two states.
  abbrev pub Onward : State W Call → State W Call → Type 0
  Onward s s' = Forward (set.phase s.world) (set.phase s'.world)

  pub order : IsPreorder Onward
  order = record {
    reflexive = λ s. inl refl;
    transitive = λ s t u. Forward-trans (set.phase s.world) (set.phase t.world) (set.phase u.world);
  }

  -- A version with the phase `at`.
  abbrev pub IsAt : SnapshotPhase → QuestDbSnapshot → Type 0
  IsAt at r = IsVersion set.key set.phase_of r × (r.phase ≡ at)
