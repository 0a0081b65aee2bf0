-- ===== src/QuestDb/Store/Settled.antt =====
-- The abstract result of a reconciliation is final: what is settled stays as it is.
use questdb_operator.Prelude.{
  ◌≡◌, refl, ◌∙◌, inl, inr, true, false, Bool-cases, Option, Option-cases, none, some, arith,
  deep_equal, deep_equal_iff,
}
use questdb_operator.Kube.Meta.{NamespacedName, object_key}
use questdb_operator.Kube.Objects.Workload.{StatefulSet, ConfigMap}
use questdb_operator.Kube.Objects.Storage.{PersistentVolumeClaim, same_quantity, same_quantity_self}
use questdb_operator.Api.Types.{QuestDb}
use questdb_operator.QuestDb.Objects.{Contents-discrete}
use questdb_operator.QuestDb.Objects.Merge.{
  merge_stateful_set, merge_stateful_set_unchanged, merge_stateful_set_self, merge_stateful_set_lem,
  object_key-merge_stateful_set,
}
use questdb_operator.QuestDb.Store.{
  settled_config_map, settled_claim, settled_stateful_set, with_ready,
}

pub settled_config_map_same :
    (desired : ConfigMap) (old : Option ConfigMap)
    → deep_equal Contents-discrete (settled_config_map desired old).contents desired.contents ≡ true
settled_config_map_same desired old =
    let self = (deep_equal_iff Contents-discrete desired.contents desired.contents).1 refl in
    elim (Option-cases old) [
      | inl missing ↦ rw missing self
      | inr (actual, there) ↦
          rw there
            (elim (Bool-cases (deep_equal Contents-discrete actual.contents desired.contents)) [
              | inl same ↦ ground (arith, same)
              | inr differ ↦ ground (arith, differ, self)
            ])
    ]

pub settled_claim_same :
    (q : QuestDb) (desired : PersistentVolumeClaim) (old : Option PersistentVolumeClaim)
    → desired.spec.storage_request ≡ q.spec.volume.size
    → same_quantity (settled_claim q desired old).spec.storage_request q.spec.volume.size ≡ true
settled_claim_same q desired old size =
    let self = same_quantity_self q.spec.volume.size in ground (arith, self)

pub settled_stateful_set_same :
    (desired : StatefulSet) (old : Option StatefulSet)
    → (merge_stateful_set desired (settled_stateful_set desired old)).1 ≡ false
settled_stateful_set_same desired none = merge_stateful_set_self desired
settled_stateful_set_same desired (some actual) =
    let (_, _, _, again) = merge_stateful_set_lem desired actual in again

pub with_ready_idem :
    (q : QuestDb) (set : StatefulSet) → with_ready (with_ready q set) set ≡ with_ready q set
with_ready_idem q set = ground arith

pub settled_claim_key :
    (q : QuestDb) (desired : PersistentVolumeClaim) (old : Option PersistentVolumeClaim)
    {key : NamespacedName}
    → object_key desired.meta ≡ key
    → ((t : PersistentVolumeClaim) → old ≡ some t → object_key t.meta ≡ key)
    → object_key (settled_claim q desired old).meta ≡ key
settled_claim_key q desired none new kept = new
settled_claim_key q desired (some actual) new kept =
    let old = kept actual refl in ground (arith, old)

pub settled_stateful_set_key :
    (desired : StatefulSet) (old : Option StatefulSet) {key : NamespacedName}
    → object_key desired.meta ≡ key
    → ((t : StatefulSet) → old ≡ some t → object_key t.meta ≡ key)
    → object_key (settled_stateful_set desired old).meta ≡ key
settled_stateful_set_key desired none new kept = new
settled_stateful_set_key desired (some actual) new kept =
    object_key-merge_stateful_set desired actual ∙ kept actual refl

pub settled_config_map_idem :
    (desired : ConfigMap) (old : Option ConfigMap)
    → settled_config_map desired (some (settled_config_map desired old))
      ≡ settled_config_map desired old
settled_config_map_idem desired old = rw (settled_config_map_same desired old) refl

pub settled_claim_idem :
    (q : QuestDb) (desired : PersistentVolumeClaim) (old : Option PersistentVolumeClaim)
    → desired.spec.storage_request ≡ q.spec.volume.size
    → settled_claim q desired (some (settled_claim q desired old)) ≡ settled_claim q desired old
settled_claim_idem q desired old size = rw (settled_claim_same q desired old size) refl

pub settled_stateful_set_idem :
    (desired : StatefulSet) (old : Option StatefulSet)
    → settled_stateful_set desired (some (settled_stateful_set desired old))
      ≡ settled_stateful_set desired old
settled_stateful_set_idem desired old =
    merge_stateful_set_unchanged desired (settled_stateful_set desired old)
      (settled_stateful_set_same desired old)
