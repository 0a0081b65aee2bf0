-- ===== src/Kube/Objects/Storage.antt =====
-- Claims on volumes, and the objects of the external snapshotter.
use questdb_operator.Prelude.{String, Bool, Option, List, ◌&&◌, ◌==◌, ◌≡◌, true, eq_iff, arith}
use questdb_operator.Prelude.Int.{ℤ, eq_ℤ}
use questdb_operator.Kube.Meta.{Blob, ObjectMeta}

-- resource.Quantity that holds a machine integer: the number that `Value()` returns, and the rest of
-- the representation (unit, precision, cached text), which Go's `==` compares too. Quantities that
-- hold a decimal of any precision, behind a pointer that `==` compares as such, are left out.
pub record Quantity : Type 0 where
  pub value : ℤ
  pub form : String

-- `==` of Go on two quantities.
unfoldable pub same_quantity : Quantity → Quantity → Bool
same_quantity a b = eq_ℤ a.value b.value && a.form == b.form

pub same_quantity_self : (a : Quantity) → same_quantity a a ≡ true
unfolding same_quantity
same_quantity_self a = ground (arith, eq_iff a.form a.form)

pub record DataSource : Type 0 where
  pub api_group : String
  pub kind : String
  pub name : String

-- `storage_request` is the entry of `spec.resources.requests` for storage.
pub record PersistentVolumeClaimSpec : Type 0 where
  pub access_modes : List String
  pub storage_class_name : Option String
  pub volume_name : String
  pub selector : Option Blob
  pub storage_request : Quantity
  pub data_source : Option DataSource

pub record PersistentVolumeClaim : Type 0 where
  pub meta : ObjectMeta
  pub spec : PersistentVolumeClaimSpec

-- `ready_to_use` is `status.readyToUse`, a pointer.
pub record VolumeSnapshotStatus : Type 0 where
  pub ready_to_use : Option Bool

pub record VolumeSnapshot : Type 0 where
  pub meta : ObjectMeta
  pub claim_name : Option String
  pub class_name : Option String
  pub status : Option VolumeSnapshotStatus

pub record VolumeSnapshotClass : Type 0 where
  pub meta : ObjectMeta
