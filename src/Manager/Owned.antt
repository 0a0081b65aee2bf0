-- ===== src/Manager/Owned.antt =====
-- What the QuestDB controller creates is what it hears of: the objects that it creates are of the
-- kinds that it registered as owned, and have the database as their controller.
pub mod Laws
pub mod Snapshots
use questdb_operator.Prelude.{
  ◌≡◌, refl, sym, ap, ◌∙◌, inl, inr, true, none, Bool, ◌&&◌, List, [], ◌∷◌, All, arith,
}
use mathlib.Core.List.{Memᴰ}
use questdb_operator.Kube.Error.{Result-cases, ok}
use questdb_operator.Kube.Meta.{OwnerLaws, ObjectMeta, NamespacedName, MetaLib, object_key}
use questdb_operator.Kube.Exec.{State, bind-keeps, bind-keeps_result, bind-result}
use questdb_operator.Kube.Objects.Workload.{StatefulSet, Service, ConfigMap}
use questdb_operator.Kube.Objects.Storage.{PersistentVolumeClaim}
use questdb_operator.Api.Types.{QuestDb}
use questdb_operator.Secrets.{QuestDbSecrets, get_secrets}
use questdb_operator.QuestDb.Calls as Calls
use questdb_operator.QuestDb.Calls.{Client, Call, Object, created}
use questdb_operator.QuestDb.Build.Pods
use questdb_operator.QuestDb.Build.Pods.{build_stateful_set, build_service}
use questdb_operator.QuestDb.Build.Volumes
use questdb_operator.QuestDb.Build.Volumes.{
  DefaultTexts, build_pvc, build_config_map, config_map_object,
}
use questdb_operator.QuestDb.Objects.{
  reconcile_config_map, reconcile_pvc, reconcile_stateful_set, reconcile_service,
  update_ready_replicas, current_stateful_set,
}
use questdb_operator.QuestDb.Reconcile.{
  secrets_for, reconcile_objects, reconcile_questdb, reconcile,
}
use questdb_operator.Manager.{Kind, stateful_set, claim, service, config_map, questdb_controller}

abbrev pub meta_of : Object → ObjectMeta
meta_of (Object.stateful_set t) = t.meta
meta_of (Object.claim t) = t.meta
meta_of (Object.service t) = t.meta
meta_of (Object.config_map t) = t.meta

abbrev kind_of : Object → Kind
kind_of (Object.stateful_set t) = stateful_set
kind_of (Object.claim t) = claim
kind_of (Object.service t) = service
kind_of (Object.config_map t) = config_map

-- Every object whose creation was asked for has the controller.
abbrev pub all_controlled : MetaLib → ObjectMeta → List Call → Bool
all_controlled lib owner [] = true
all_controlled lib owner (created obj _ ∷ calls) =
    lib.is_controlled_by (meta_of obj) owner && all_controlled lib owner calls
all_controlled lib owner (_ ∷ calls) = all_controlled lib owner calls

-- The kinds of the objects whose creation was asked for.
abbrev pub created_kinds : List Call → List Kind
created_kinds [] = []
created_kinds (created obj _ ∷ calls) = kind_of obj ∷ created_kinds calls
created_kinds (_ ∷ calls) = created_kinds calls

-- The server keeps the uid of a database whose status is written.
abbrev pub KeepsUid : {W : Type 0} → Client W → Type 0
KeepsUid {W = W} client =
    (q r : QuestDb) (w : W) → (client.update_questdb_status q w).0 ≡ ok r → r.meta.uid ≡ q.meta.uid

kind_of-owned : (obj : Object) → Memᴰ (kind_of obj) questdb_controller.owned
unfolding questdb_controller
kind_of-owned (Object.stateful_set t) = Memᴰ.head refl
kind_of-owned (Object.claim t) = Memᴰ.tail (Memᴰ.head refl)
kind_of-owned (Object.service t) = Memᴰ.tail (Memᴰ.tail (Memᴰ.head refl))
kind_of-owned (Object.config_map t) = Memᴰ.tail (Memᴰ.tail (Memᴰ.tail (Memᴰ.head refl)))

abbrev pub IsOwnedKind : Kind → Type 0
IsOwnedKind k = Memᴰ k questdb_controller.owned

pub created_kinds-IsOwnedKind : (calls : List Call) → All IsOwnedKind (created_kinds calls)
created_kinds-IsOwnedKind [] = tt
created_kinds-IsOwnedKind (created obj _ ∷ calls) =
    (kind_of-owned obj, created_kinds-IsOwnedKind calls)
created_kinds-IsOwnedKind (Calls.read x y ∷ calls) = created_kinds-IsOwnedKind calls
created_kinds-IsOwnedKind (Calls.updated x y ∷ calls) = created_kinds-IsOwnedKind calls
created_kinds-IsOwnedKind (Calls.updated_status x y ∷ calls) = created_kinds-IsOwnedKind calls
created_kinds-IsOwnedKind (Calls.listed_secrets x y ∷ calls) = created_kinds-IsOwnedKind calls
created_kinds-IsOwnedKind (Calls.event x y ∷ calls) = created_kinds-IsOwnedKind calls

module _ (lib : MetaLib) (laws : OwnerLaws lib) (q : QuestDb) where
  abbrev IsControlled : ObjectMeta → Type 0
  IsControlled m = lib.is_controlled_by m q.meta ≡ true

  pub config_map-IsControlled :
      (texts : DefaultTexts) (s : QuestDbSecrets) (t : ConfigMap)
      → build_config_map lib texts q s ≡ ok t
      → IsControlled t.meta
  unfolding build_config_map
  config_map-IsControlled texts s t built =
      elim (Result-cases (lib.set_controller_reference q.meta (config_map_object texts q s).meta)) [
        | inl (m, good) ↦ ground (arith, built, good, laws.controls q.meta _ m good)
        | inr (e, bad) ↦ ground (arith, built, bad)
      ]

  pub claim-IsControlled :
      (t : PersistentVolumeClaim) → build_pvc lib q ≡ ok t → IsControlled t.meta
  unfolding build_pvc
  claim-IsControlled t built =
      elim (Result-cases (lib.set_controller_reference q.meta (Volumes.claim q).meta)) [
        | inl (m, good) ↦ ground (arith, built, good, laws.controls q.meta _ m good)
        | inr (e, bad) ↦ ground (arith, built, bad)
      ]

  pub stateful_set-IsControlled :
      (s : QuestDbSecrets) (t : StatefulSet)
      → build_stateful_set lib q s ≡ ok t
      → IsControlled t.meta
  unfolding build_stateful_set
  stateful_set-IsControlled s t built =
      elim (Result-cases (lib.set_controller_reference q.meta (Pods.stateful_set q s).meta)) [
        | inl (m, good) ↦ ground (arith, built, good, laws.controls q.meta _ m good)
        | inr (e, bad) ↦ ground (arith, built, bad)
      ]

  pub service-IsControlled : (t : Service) → build_service lib q ≡ ok t → IsControlled t.meta
  unfolding build_service
  service-IsControlled t built =
      elim (Result-cases (lib.set_controller_reference q.meta (Pods.service_object q).meta)) [
        | inl (m, good) ↦ ground (arith, built, good, laws.controls q.meta _ m good)
        | inr (e, bad) ↦ ground (arith, built, bad)
      ]

-- Who controls is told by the uid.
pub all_controlled-uid :
    (lib : MetaLib) (laws : OwnerLaws lib) (owner owner' : ObjectMeta)
    → owner.uid ≡ owner'.uid
    → (calls : List Call) → all_controlled lib owner calls ≡ all_controlled lib owner' calls
all_controlled-uid lib laws owner owner' e [] = refl
all_controlled-uid lib laws owner owner' e (created obj _ ∷ calls) =
    cc (laws.by_uid owner owner' (meta_of obj) e, all_controlled-uid lib laws owner owner' e calls)
all_controlled-uid lib laws owner owner' e (Calls.read x y ∷ calls) =
    all_controlled-uid lib laws owner owner' e calls
all_controlled-uid lib laws owner owner' e (Calls.updated x y ∷ calls) =
    all_controlled-uid lib laws owner owner' e calls
all_controlled-uid lib laws owner owner' e (Calls.updated_status x y ∷ calls) =
    all_controlled-uid lib laws owner owner' e calls
all_controlled-uid lib laws owner owner' e (Calls.listed_secrets x y ∷ calls) =
    all_controlled-uid lib laws owner owner' e calls
all_controlled-uid lib laws owner owner' e (Calls.event x y ∷ calls) =
    all_controlled-uid lib laws owner owner' e calls
