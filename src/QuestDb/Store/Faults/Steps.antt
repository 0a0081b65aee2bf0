-- ===== src/QuestDb/Store/Faults/Steps.antt =====
-- What each of the four steps makes of the objects on a server whose requests may fail: it settles
-- its part, or leaves the objects as they are.
use questdb_operator.Prelude.{◌≡◌, ◌∙◌, ◌⊎◌, inl, inr, some, arith}
use questdb_operator.Kube.Error.{ok}
use questdb_operator.Kube.Meta.{NamespacedName, MetaLib, object_key}
use questdb_operator.Kube.Exec.{State, bind-result}
use questdb_operator.Kube.Objects.Storage.{PersistentVolumeClaim, same_quantity_self}
use questdb_operator.Kube.Objects.Workload.{StatefulSet}
use questdb_operator.Api.Types.{QuestDb}
use questdb_operator.Secrets.{QuestDbSecrets}
use questdb_operator.QuestDb.Calls.{Client, Call}
use questdb_operator.QuestDb.Build.Pods.{build_service}
use questdb_operator.QuestDb.Build.Volumes.{DefaultTexts}
use questdb_operator.QuestDb.Objects.{
  reconcile_config_map, reconcile_pvc, current_stateful_set, update_ready_replicas,
  reconcile_stateful_set, reconcile_service,
}
use questdb_operator.QuestDb.Objects.Merge.{
  merge_stateful_set, merge_stateful_set_self, merge_stateful_set_unchanged,
  object_key-merge_stateful_set,
}
use questdb_operator.QuestDb.Store.{
  Cluster, Desired, place_config_map, place_claim, place_set, place_ready, place_service,
}
use questdb_operator.QuestDb.Store.Faults.{IsHonest}

module _ {W : Type 0} (client : Client W) (lib : MetaLib) (texts : DefaultTexts) (q : QuestDb)
    (secrets : QuestDbSecrets) (d : Desired lib texts q secrets) (cluster : W → Cluster)
    (honest : IsHonest client cluster (object_key q.meta)) where
  abbrev key : NamespacedName
  key = object_key q.meta

  -- The state behind a step, by the state before it and by the settled part.
  abbrev pub Outcome : (Cluster → Cluster) → State W Call → State W Call → Type 0
  Outcome place s s' =
      (cluster s'.world ≡ cluster s.world) ⊎ (cluster s'.world ≡ place (cluster s.world))

  pub config_map-Outcome :
      (s : State W Call)
      → Outcome (place_config_map q d) s (reconcile_config_map client lib texts q secrets s).1
  unfolding reconcile_config_map
  config_map-Outcome s =
      let w1 : W = (client.config_maps.get key s.world).1 in
      let same = honest.config_maps.get_cluster s.world in
      let built = d.built_config_map in
      elim (honest.config_maps.get_ends s.world) [
        | inl (actual, read, there) ↦
            let update = honest.config_maps.update_ends d.config_map actual w1 in
            ground (arith, read, same, there, built, update, d.config_map_key)
        | inr (e, failed, inl (missing, gone)) ↦
            let create = honest.config_maps.create_ends d.config_map w1 in
            ground (arith, failed, missing, same, gone, built, create, d.config_map_key)
        | inr (e, failed, inr other) ↦ ground (arith, failed, other, same, built)
      ]

  pub pvc-Outcome :
      (s : State W Call)
      → ((t : PersistentVolumeClaim) → (cluster s.world).claim ≡ some t → object_key t.meta ≡ key)
      → Outcome (place_claim q d) s (reconcile_pvc client lib q s).1
  unfolding reconcile_pvc
  pvc-Outcome s keyed =
      let w1 : W = (client.claims.get key s.world).1 in
      let same = honest.claims.get_cluster s.world in
      elim (honest.claims.get_ends s.world) [
        | inl (actual, read, there) ↦
            let wanted : PersistentVolumeClaim = record actual {
              spec = record actual.spec { storage_request = q.spec.volume.size };
            } in
            let update = honest.claims.update_ends wanted actual w1 in
            ground (arith, read, same, there, keyed actual there, update)
        | inr (e, failed, inl (missing, gone)) ↦
            let create = honest.claims.create_ends d.claim w1 in
            let size = same_quantity_self q.spec.volume.size in
            ground (
              arith, failed, missing, same, gone, create, d.built_claim, d.claim_key, d.claim_size,
              size,
            )
        | inr (e, failed, inr other) ↦ ground (arith, failed, other, same)
      ]

  pub service-Outcome :
      (q' : QuestDb) (s : State W Call)
      → object_key q'.meta ≡ key
      → build_service lib q' ≡ ok d.service
      → Outcome (place_service q d) s (reconcile_service client lib q' s).1
  unfolding reconcile_service
  service-Outcome q' s k built =
      let w1 : W = (client.services.get key s.world).1 in
      let same = honest.services.get_cluster s.world in
      rw k (elim (honest.services.get_ends s.world) [
        | inl (actual, read, there) ↦ ground (arith, read, same, there, built)
        | inr (e, failed, inl (missing, gone)) ↦
            let create = honest.services.create_ends d.service w1 in
            ground (arith, failed, missing, same, gone, built, create, d.service_key)
        | inr (e, failed, inr other) ↦ ground (arith, failed, other, same, built)
      ])

  pub stateful_set-Outcome :
      (s : State W Call)
      → (cluster s.world).questdb ≡ some q
      → ((t : StatefulSet) → (cluster s.world).stateful_set ≡ some t → object_key t.meta ≡ key)
      → let s' = (reconcile_stateful_set client lib q secrets s).1 in
        (cluster s'.world ≡ cluster s.world)
        ⊎ ((cluster s'.world ≡ place_set q d (cluster s.world))
            ⊎ (cluster s'.world ≡ place_ready q d (cluster s.world)))
  unfolding reconcile_stateful_set
  stateful_set-Outcome s known keyed =
      let w1 : W = (client.stateful_sets.get key s.world).1 in
      let same = honest.stateful_sets.get_cluster s.world in
      let built = d.built_stateful_set in
      elim (honest.stateful_sets.get_ends s.world) [
        | inl (actual, read, there) ↦
            let merged = (merge_stateful_set d.stateful_set actual).0 in
            let merged_key : object_key merged.meta ≡ key =
              object_key-merge_stateful_set d.stateful_set actual ∙ keyed actual there in
            let w2 : W = (client.stateful_sets.update merged w1).1 in
            let q' : QuestDb = record q {
              status = record { stateful_set_ready_replicas = merged.ready_replicas };
            } in
            ground (
              arith,
              read,
              same,
              there,
              known,
              built,
              merged_key,
              honest.stateful_sets.update_ends merged actual w1,
              merge_stateful_set_unchanged d.stateful_set actual,
              honest.status_ends q' w1,
              honest.status_ends q' w2,
            )
        | inr (e, failed, inl (missing, gone)) ↦
            let new = d.stateful_set in
            let w2 : W = (client.stateful_sets.create new w1).1 in
            let q' : QuestDb = record q {
              status = record { stateful_set_ready_replicas = new.ready_replicas };
            } in
            ground (
              arith,
              failed,
              missing,
              same,
              gone,
              known,
              built,
              d.stateful_set_key,
              honest.stateful_sets.create_ends new w1,
              merge_stateful_set_self new,
              merge_stateful_set_unchanged new new,
              honest.status_ends q' w2,
            )
        | inr (e, failed, inr other) ↦ ground (arith, failed, other, same, built)
      ]

  -- The database that the step hands on differs in nothing but its status.
  pub stateful_set-status :
      (s : State W Call) (q' : QuestDb)
      → (reconcile_stateful_set client lib q secrets s).0 ≡ ok q'
      → q' ≡ record q { status = q'.status }
  unfolding reconcile_stateful_set
  stateful_set-status =
      bind-result (current_stateful_set client lib q secrets) (update_ready_replicas client lib q)
        (λ q'. q' ≡ record q { status = q'.status })
        (λ set s q' e.
          let stored : QuestDb = record q {
            status = record { stateful_set_ready_replicas = set.ready_replicas };
          } in
          ground (arith, e, honest.status_ends stored s.world))
