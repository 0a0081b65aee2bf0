-- ===== src/QuestDb/Store/Faults.antt =====
-- An API server whose requests may fail: what it promises all the same.
pub mod Steps
pub mod Aims
pub mod Handlers
pub mod Recover
use questdb_operator.Prelude.{◌≡◌, ◌⊎◌, Option, none, some, List, true, false}
use questdb_operator.Kube.Error.{Error, Result, ok, err, is_not_found}
use questdb_operator.Kube.Meta.{ObjectMeta, NamespacedName, object_key}
use questdb_operator.Kube.Objects.Workload.{Secret}
use questdb_operator.Api.Types.{QuestDb}
use questdb_operator.QuestDb.Calls.{Client, ObjectApi}
use questdb_operator.QuestDb.Store.{Cluster}

-- How a read may end: it tells what is there, or that nothing is, or it fails in another way.
abbrev pub ReadEnds : {T : Type 0} → Result T → Option T → Type 0
ReadEnds {T = T} answer there =
    ((t : T) × (answer ≡ ok t) × (there ≡ some t))
    ⊎ ((e : Error) × (answer ≡ err e)
        × (((is_not_found e ≡ true) × (there ≡ none)) ⊎ (is_not_found e ≡ false)))

-- How a write may end: it is done and answered with the object as it was given, or it fails, and
-- then it is done or not done.
abbrev pub WriteEnds : {T : Type 0} → Result T → T → Cluster → Cluster → Cluster → Type 0
WriteEnds answer t before after placed =
    ((answer ≡ ok t) × (after ≡ placed))
    ⊎ ((e : Error) × (answer ≡ err e) × ((after ≡ before) ⊎ (after ≡ placed)))

-- What an API promises for the objects with one key when requests may fail. A creation is asked
-- for where nothing is, and an update where an object is.
pub record Honest {W T : Type 0} (api : ObjectApi W T) (meta_of : T → ObjectMeta)
    (cluster : W → Cluster) (key : NamespacedName) (view : Cluster → Option T)
    (place : T → Cluster → Cluster) : Type 0 where
  pub get_cluster : (w : W) → cluster (api.get key w).1 ≡ cluster w
  pub get_ends : (w : W) → ReadEnds (api.get key w).0 (view (cluster w))
  pub create_ends :
      (t : T) (w : W)
      → object_key (meta_of t) ≡ key
      → view (cluster w) ≡ none
      → let (answer, w') = api.create t w in
        WriteEnds answer t (cluster w) (cluster w') (place t (cluster w))
  pub update_ends :
      (t old : T) (w : W)
      → object_key (meta_of t) ≡ key
      → view (cluster w) ≡ some old
      → let (answer, w') = api.update t w in
        WriteEnds answer t (cluster w) (cluster w') (place t (cluster w))

-- The promises for all that the controller calls.
pub record IsHonest {W : Type 0} (client : Client W) (cluster : W → Cluster) (key : NamespacedName)
    : Type 0 where
  pub questdb_cluster : (w : W) → cluster (client.get_questdb key w).1 ≡ cluster w
  pub questdb_ends : (w : W) → ReadEnds (client.get_questdb key w).0 (cluster w).questdb
  pub secrets_cluster : (w : W) → cluster (client.list_secrets key.namespace w).1 ≡ cluster w
  pub secrets_answer :
      (w : W) (items : List Secret)
      → (client.list_secrets key.namespace w).0 ≡ ok items
      → (cluster w).secrets ≡ items
  pub status_ends :
      (q : QuestDb) (w : W)
      → object_key q.meta ≡ key
      → let (answer, w') = client.update_questdb_status q w in
        WriteEnds answer q (cluster w) (cluster w') (record (cluster w) { questdb = some q })
  pub config_maps :
      Honest client.config_maps
        (λ t. t.meta)
        cluster
        key
        (λ c. c.config_map)
        (λ t c. record c { config_map = some t })
  pub claims :
      Honest client.claims
        (λ t. t.meta)
        cluster
        key
        (λ c. c.claim)
        (λ t c. record c { claim = some t })
  pub stateful_sets :
      Honest client.stateful_sets
        (λ t. t.meta)
        cluster
        key
        (λ c. c.stateful_set)
        (λ t c. record c { stateful_set = some t })
  pub services :
      Honest client.services
        (λ t. t.meta)
        cluster
        key
        (λ c. c.service)
        (λ t c. record c { service = some t })
