-- ===== src/QuestDb/Store.antt =====
-- The objects of one database as an abstract state, what the controller makes of it, and what the
-- API server promises if nobody else writes and no request fails.
pub mod Settled
pub mod Steps
pub mod Converge
pub mod Quiet
pub mod Faults
use questdb_operator.Prelude.{◌≡◌, Option, none, some, List, [], if◌then◌else◌, not, deep_equal}
use questdb_operator.Prelude.Int.{eq_ℤ, to_int32}
use questdb_operator.Kube.Error.{Result, ok, err, not_found}
use questdb_operator.Kube.Meta.{ObjectMeta, NamespacedName, MetaLib, object_key}
use questdb_operator.Kube.Objects.Workload.{StatefulSet, Service, ConfigMap, Secret}
use questdb_operator.Kube.Objects.Storage.{PersistentVolumeClaim, same_quantity}
use questdb_operator.Api.Types.{QuestDb}
use questdb_operator.Secrets.{QuestDbSecrets}
use questdb_operator.QuestDb.Calls.{Client, ObjectApi}
use questdb_operator.QuestDb.Build.Pods.{build_stateful_set, build_service}
use questdb_operator.QuestDb.Build.Volumes.{DefaultTexts, build_pvc, build_config_map}
use questdb_operator.QuestDb.Objects.{Contents-discrete}
use questdb_operator.QuestDb.Objects.Merge.{merge_stateful_set}

-- A database, the secrets of its namespace, and the four objects of its name.
pub record Cluster : Type 0 where
  pub questdb : Option QuestDb
  pub secrets : List Secret
  pub config_map : Option ConfigMap
  pub claim : Option PersistentVolumeClaim
  pub stateful_set : Option StatefulSet
  pub service : Option Service

abbrev pub found : {T : Type 0} → Option T → Result T
found none = err not_found
found (some t) = ok t

-- What an API promises for the objects with one key: a read tells what is there, a creation where
-- nothing is stores the object, and so does an update where one is.
pub record Stores {W T : Type 0} (api : ObjectApi W T) (meta_of : T → ObjectMeta)
    (cluster : W → Cluster) (key : NamespacedName) (view : Cluster → Option T)
    (place : T → Cluster → Cluster) : Type 0 where
  pub get_answer : (w : W) → (api.get key w).0 ≡ found (view (cluster w))
  pub get_cluster : (w : W) → cluster (api.get key w).1 ≡ cluster w
  pub create_answer :
      (t : T) (w : W)
      → object_key (meta_of t) ≡ key
      → view (cluster w) ≡ none
      → (api.create t w).0 ≡ ok t
  pub create_cluster :
      (t : T) (w : W)
      → object_key (meta_of t) ≡ key
      → view (cluster w) ≡ none
      → cluster (api.create t w).1 ≡ place t (cluster w)
  pub update_answer :
      (t old : T) (w : W)
      → object_key (meta_of t) ≡ key
      → view (cluster w) ≡ some old
      → (api.update t w).0 ≡ ok t
  pub update_cluster :
      (t old : T) (w : W)
      → object_key (meta_of t) ≡ key
      → view (cluster w) ≡ some old
      → cluster (api.update t w).1 ≡ place t (cluster w)

-- The promises for all that the controller calls. The objects that are there have the key.
pub record IsLawful {W : Type 0} (client : Client W) (cluster : W → Cluster) (key : NamespacedName)
    : Type 0 where
  pub questdb_answer : (w : W) → (client.get_questdb key w).0 ≡ found (cluster w).questdb
  pub questdb_cluster : (w : W) → cluster (client.get_questdb key w).1 ≡ cluster w
  pub secrets_answer : (w : W) → (client.list_secrets key.namespace w).0 ≡ ok (cluster w).secrets
  pub secrets_cluster : (w : W) → cluster (client.list_secrets key.namespace w).1 ≡ cluster w
  pub status_answer :
      (q : QuestDb) (w : W) → object_key q.meta ≡ key → (client.update_questdb_status q w).0 ≡ ok q
  pub status_cluster :
      (q : QuestDb) (w : W)
      → object_key q.meta ≡ key
      → cluster (client.update_questdb_status q w).1 ≡ record (cluster w) { questdb = some q }
  pub config_maps :
      Stores client.config_maps
        (λ t. t.meta)
        cluster
        key
        (λ c. c.config_map)
        (λ t c. record c { config_map = some t })
  pub claims :
      Stores client.claims
        (λ t. t.meta)
        cluster
        key
        (λ c. c.claim)
        (λ t c. record c { claim = some t })
  pub stateful_sets :
      Stores client.stateful_sets
        (λ t. t.meta)
        cluster
        key
        (λ c. c.stateful_set)
        (λ t c. record c { stateful_set = some t })
  pub services :
      Stores client.services
        (λ t. t.meta)
        cluster
        key
        (λ c. c.service)
        (λ t c. record c { service = some t })

-- The objects of a cluster stand under the key.
pub record IsKeyed (key : NamespacedName) (c : Cluster) : Type 0 where
  pub claim_key : (t : PersistentVolumeClaim) → c.claim ≡ some t → object_key t.meta ≡ key
  pub set_key : (t : StatefulSet) → c.stateful_set ≡ some t → object_key t.meta ≡ key

-- The objects that a database asks for.
pub record Desired (lib : MetaLib) (texts : DefaultTexts) (q : QuestDb) (s : QuestDbSecrets)
    : Type 0 where
  pub config_map : ConfigMap
  pub claim : PersistentVolumeClaim
  pub stateful_set : StatefulSet
  pub service : Service
  pub built_config_map : build_config_map lib texts q s ≡ ok config_map
  pub built_claim : build_pvc lib q ≡ ok claim
  pub built_stateful_set : build_stateful_set lib q s ≡ ok stateful_set
  pub built_service : build_service lib q ≡ ok service
  pub config_map_key : object_key config_map.meta ≡ object_key q.meta
  pub claim_key : object_key claim.meta ≡ object_key q.meta
  pub stateful_set_key : object_key stateful_set.meta ≡ object_key q.meta
  pub service_key : object_key service.meta ≡ object_key q.meta
  pub claim_size : claim.spec.storage_request ≡ q.spec.volume.size

-- What becomes of each object.
abbrev pub settled_config_map : ConfigMap → Option ConfigMap → ConfigMap
settled_config_map desired none = desired
settled_config_map desired (some actual) =
    if deep_equal Contents-discrete actual.contents desired.contents then actual else desired

abbrev pub settled_claim :
    QuestDb → PersistentVolumeClaim → Option PersistentVolumeClaim → PersistentVolumeClaim
settled_claim q desired none = desired
settled_claim q desired (some actual) =
    if same_quantity actual.spec.storage_request q.spec.volume.size
    then actual
    else record actual { spec = record actual.spec { storage_request = q.spec.volume.size } }

abbrev pub settled_stateful_set : StatefulSet → Option StatefulSet → StatefulSet
settled_stateful_set desired none = desired
settled_stateful_set desired (some actual) = (merge_stateful_set desired actual).0

abbrev pub settled_service : Service → Option Service → Service
settled_service desired none = desired
settled_service desired (some actual) = actual

-- The database with the ready replicas of its stateful set.
abbrev pub with_ready : QuestDb → StatefulSet → QuestDb
with_ready q set = record q {
  status = record {
    stateful_set_ready_replicas =
        if eq_ℤ set.ready_replicas (to_int32 q.status.stateful_set_ready_replicas)
        then q.status.stateful_set_ready_replicas
        else set.ready_replicas;
  };
}

-- What one reconciliation makes of a cluster.
abbrev pub settle :
    {lib : MetaLib} {texts : DefaultTexts} (q : QuestDb) {s : QuestDbSecrets}
    → Desired lib texts q s
    → Cluster
    → Cluster
settle q d c =
    let set = settled_stateful_set d.stateful_set c.stateful_set in
    record {
      questdb = some (with_ready q set);
      secrets = c.secrets;
      config_map = some (settled_config_map d.config_map c.config_map);
      claim = some (settled_claim q d.claim c.claim);
      stateful_set = some set;
      service = some (settled_service d.service c.service);
    }

-- The same by parts, in the order of the steps. Of the stateful set's step the second half, the
-- status, may be missing.
module _ {lib : MetaLib} {texts : DefaultTexts} (q : QuestDb) {s : QuestDbSecrets}
    (d : Desired lib texts q s) (c : Cluster) where
  abbrev pub place_config_map : Cluster
  place_config_map = record c { config_map = some (settled_config_map d.config_map c.config_map) }

  abbrev pub place_claim : Cluster
  place_claim = record c { claim = some (settled_claim q d.claim c.claim) }

  abbrev pub settled_set : StatefulSet
  settled_set = settled_stateful_set d.stateful_set c.stateful_set

  abbrev pub place_set : Cluster
  place_set = record c { stateful_set = some settled_set }

  abbrev pub place_ready : Cluster
  place_ready = record c {
    stateful_set = some settled_set;
    questdb = some (with_ready q settled_set);
  }

  abbrev pub place_service : Cluster
  place_service = record c { service = some (settled_service d.service c.service) }
