-- ===== src/QuestDb/Store/Steps.antt =====
-- What each of the four steps makes of the objects, on a lawful server.
use questdb_operator.Prelude.{◌≡◌, ◌∙◌, inl, inr, Option-cases, some, arith}
use questdb_operator.Kube.Error.{ok, is_not_found}
use questdb_operator.Kube.Meta.{NamespacedName, MetaLib, object_key}
use questdb_operator.Kube.Exec.{State}
use questdb_operator.Kube.Objects.Storage.{PersistentVolumeClaim, same_quantity_self}
use questdb_operator.QuestDb.Build.Pods.{build_service}
use questdb_operator.Kube.Objects.Workload.{StatefulSet}
use questdb_operator.Api.Types.{QuestDb}
use questdb_operator.Secrets.{QuestDbSecrets}
use questdb_operator.QuestDb.Calls.{Client, Call}
use questdb_operator.QuestDb.Build.Volumes.{DefaultTexts}
use questdb_operator.QuestDb.Objects.{
  reconcile_config_map, reconcile_pvc, reconcile_stateful_set, reconcile_service,
}
use questdb_operator.QuestDb.Objects.Merge.{
  merge_stateful_set, merge_stateful_set_self, merge_stateful_set_unchanged,
  object_key-merge_stateful_set,
}
use questdb_operator.QuestDb.Store.{
  Cluster, IsLawful, Desired, settled_config_map, settled_claim, settled_stateful_set,
  settled_service, with_ready,
}

module _ {W : Type 0} (client : Client W) (lib : MetaLib) (texts : DefaultTexts) (q : QuestDb)
    (secrets : QuestDbSecrets) (d : Desired lib texts q secrets) (cluster : W → Cluster)
    (lawful : IsLawful client cluster (object_key q.meta)) where
  abbrev key : NamespacedName
  key = object_key q.meta

  pub config_map_settles :
      (s : State W Call)
      → let (answer, s') = reconcile_config_map client lib texts q secrets s in
        (answer ≡ ok tt)
        × (cluster s'.world ≡ record (cluster s.world) {
          config_map = some (settled_config_map d.config_map (cluster s.world).config_map);
        })
  unfolding reconcile_config_map is_not_found
  config_map_settles s =
      let w1 : W = (client.config_maps.get key s.world).1 in
      let got = lawful.config_maps.get_answer s.world in
      let same = lawful.config_maps.get_cluster s.world in
      elim (Option-cases (cluster s.world).config_map) [
        | inl missing ↦ ground (
          arith,
          got,
          same,
          missing,
          d.built_config_map,
          lawful.config_maps.create_answer d.config_map w1,
          lawful.config_maps.create_cluster d.config_map w1,
          d.config_map_key,
        )
        | inr (actual, there) ↦ ground (
          arith,
          got,
          same,
          there,
          d.built_config_map,
          lawful.config_maps.update_answer d.config_map actual w1,
          lawful.config_maps.update_cluster d.config_map actual w1,
          d.config_map_key,
        )
      ]

  pub pvc_settles :
      (s : State W Call)
      → ((t : PersistentVolumeClaim) → (cluster s.world).claim ≡ some t → object_key t.meta ≡ key)
      → let (answer, s') = reconcile_pvc client lib q s in
        (answer ≡ ok tt)
        × (cluster s'.world ≡ record (cluster s.world) {
          claim = some (settled_claim q d.claim (cluster s.world).claim);
        })
  unfolding reconcile_pvc is_not_found
  pvc_settles s keyed =
      let w1 : W = (client.claims.get key s.world).1 in
      let got = lawful.claims.get_answer s.world in
      let same = lawful.claims.get_cluster s.world in
      elim (Option-cases (cluster s.world).claim) [
        | inl missing ↦ ground (
          arith,
          got,
          same,
          missing,
          d.built_claim,
          d.claim_size,
          same_quantity_self q.spec.volume.size,
          lawful.claims.create_answer d.claim w1,
          lawful.claims.create_cluster d.claim w1,
          d.claim_key,
        )
        | inr (actual, there) ↦
            let wanted : PersistentVolumeClaim = record actual {
              spec = record actual.spec { storage_request = q.spec.volume.size };
            } in
            ground (
              arith,
              got,
              same,
              there,
              keyed actual there,
              lawful.claims.update_answer wanted actual w1,
              lawful.claims.update_cluster wanted actual w1,
            )
      ]

  pub service_settles :
      (q' : QuestDb) (s : State W Call)
      → object_key q'.meta ≡ key
      → build_service lib q' ≡ ok d.service
      → let (answer, s') = reconcile_service client lib q' s in
        (answer ≡ ok tt)
        × (cluster s'.world ≡ record (cluster s.world) {
          service = some (settled_service d.service (cluster s.world).service);
        })
  unfolding reconcile_service is_not_found
  service_settles q' s k b =
      let w1 : W = (client.services.get key s.world).1 in
      let got = lawful.services.get_answer s.world in
      let same = lawful.services.get_cluster s.world in
      rw k (elim (Option-cases (cluster s.world).service) [
        | inl missing ↦ ground (
          arith,
          got,
          same,
          missing,
          b,
          lawful.services.create_answer d.service w1,
          lawful.services.create_cluster d.service w1,
          d.service_key,
        )
        | inr (actual, there) ↦ ground (arith, got, same, there, b)
      ])

  pub stateful_set_settles :
      (s : State W Call)
      → (cluster s.world).questdb ≡ some q
      → ((t : StatefulSet) → (cluster s.world).stateful_set ≡ some t → object_key t.meta ≡ key)
      → let (answer, s') = reconcile_stateful_set client lib q secrets s in
        let set = settled_stateful_set d.stateful_set (cluster s.world).stateful_set in
        (answer ≡ ok (with_ready q set))
        × (cluster s'.world ≡ record (cluster s.world) {
          stateful_set = some set;
          questdb = some (with_ready q set);
        })
  unfolding reconcile_stateful_set is_not_found
  stateful_set_settles s known keyed =
      let w1 : W = (client.stateful_sets.get key s.world).1 in
      let got = lawful.stateful_sets.get_answer s.world in
      let same = lawful.stateful_sets.get_cluster s.world in
      elim (Option-cases (cluster s.world).stateful_set) [
        | inl missing ↦
            let w2 : W = (client.stateful_sets.create d.stateful_set w1).1 in
            let new = d.stateful_set in
            let q' : QuestDb = record q {
              status = record { stateful_set_ready_replicas = new.ready_replicas };
            } in
            ground (
              arith,
              got,
              same,
              missing,
              known,
              d.built_stateful_set,
              d.stateful_set_key,
              lawful.stateful_sets.create_answer new w1,
              lawful.stateful_sets.create_cluster new w1,
              merge_stateful_set_self new,
              merge_stateful_set_unchanged new new,
              lawful.status_answer q' w2,
              lawful.status_cluster q' w2,
            )
        | inr (actual, there) ↦
            let merged = (merge_stateful_set d.stateful_set actual).0 in
            let merged_key : object_key merged.meta ≡ key =
              object_key-merge_stateful_set d.stateful_set actual ∙ keyed actual there in
            let w2 : W = (client.stateful_sets.update merged w1).1 in
            let q' : QuestDb = record q {
              status = record { stateful_set_ready_replicas = merged.ready_replicas };
            } in
            ground (
              arith,
              got,
              same,
              there,
              known,
              d.built_stateful_set,
              merged_key,
              lawful.stateful_sets.update_answer merged actual w1,
              lawful.stateful_sets.update_cluster merged actual w1,
              merge_stateful_set_unchanged d.stateful_set actual,
              lawful.status_answer q' w1,
              lawful.status_cluster q' w1,
              lawful.status_answer q' w2,
              lawful.status_cluster q' w2,
            )
      ]
