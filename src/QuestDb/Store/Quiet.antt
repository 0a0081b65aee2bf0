-- ===== src/QuestDb/Store/Quiet.antt =====
-- What a reconciliation has settled stays: the next one writes nothing.
use questdb_operator.Prelude.{
  true, false, arith, deep_equal, ◌≡◌, refl, ap, sym, subst, ◌∙◌, some, [],
}
use questdb_operator.Kube.Error.{ok}
use questdb_operator.Kube.Meta.{NamespacedName, MetaLib, object_key}
use questdb_operator.Kube.Exec.{State}
use questdb_operator.Kube.Objects.Workload.{StatefulSet, ConfigMap, Service}
use questdb_operator.Kube.Objects.Storage.{PersistentVolumeClaim, same_quantity}
use questdb_operator.Api.Types.{QuestDb}
use questdb_operator.Secrets.{QuestDbSecrets, secrets_of}
use questdb_operator.QuestDb.Calls.{Client, Call}
use questdb_operator.QuestDb.Build.Volumes.{DefaultTexts}
use questdb_operator.QuestDb.Build.Pods.{build_service}
use questdb_operator.QuestDb.Build.Pods.Laws.{build_service_status}
use questdb_operator.QuestDb.Objects.Writes.{writes}
use questdb_operator.QuestDb.Objects.Merge.{merge_stateful_set}
use questdb_operator.QuestDb.Objects.{
  Contents-discrete, reconcile_config_map, reconcile_pvc, reconcile_stateful_set, reconcile_service,
}
use questdb_operator.QuestDb.Reconcile.{reconcile_objects, reconcile}
use questdb_operator.QuestDb.Store.{
  Cluster, IsLawful, IsKeyed, Desired, settle, settled_config_map, settled_claim,
  settled_stateful_set, settled_service, with_ready,
}
use questdb_operator.QuestDb.Store.Settled.{
  settled_config_map_idem, settled_claim_idem, settled_stateful_set_idem, with_ready_idem,
  settled_claim_key, settled_stateful_set_key, settled_config_map_same, settled_claim_same,
  settled_stateful_set_same,
}
use questdb_operator.QuestDb.Store.Converge.{
  Desired-with_status, at1, at2, at3, reconcile_objects-run, reconcile-run, reconcile-settles,
}

module _ {W : Type 0} (client : Client W) (lib : MetaLib) (texts : DefaultTexts) (q : QuestDb)
    (secrets : QuestDbSecrets) (d : Desired lib texts q secrets) (cluster : W → Cluster)
    (lawful : IsLawful client cluster (object_key q.meta)) where
  -- A step that finds its object as it wants it writes nothing.
  config_map_quiet :
      (actual : ConfigMap) (s : State W Call)
      → (cluster s.world).config_map ≡ some actual
      → deep_equal Contents-discrete actual.contents d.config_map.contents ≡ true
      → writes (reconcile_config_map client lib texts q secrets s).1.log ≡ writes s.log
  unfolding reconcile_config_map
  config_map_quiet actual s there same =
      ground (arith, lawful.config_maps.get_answer s.world, d.built_config_map)

  pvc_quiet :
      (actual : PersistentVolumeClaim) (s : State W Call)
      → (cluster s.world).claim ≡ some actual
      → same_quantity actual.spec.storage_request q.spec.volume.size ≡ true
      → writes (reconcile_pvc client lib q s).1.log ≡ writes s.log
  unfolding reconcile_pvc
  pvc_quiet actual s there same = ground (arith, lawful.claims.get_answer s.world)

  stateful_set_quiet :
      (actual : StatefulSet) (s : State W Call)
      → (cluster s.world).stateful_set ≡ some actual
      → (merge_stateful_set d.stateful_set actual).1 ≡ false
      → writes (reconcile_stateful_set client lib q secrets s).1.log ≡ writes s.log
  unfolding reconcile_stateful_set
  stateful_set_quiet actual s there same =
      ground (arith, lawful.stateful_sets.get_answer s.world, d.built_stateful_set)

  service_quiet :
      (q' : QuestDb) (actual : Service) (s : State W Call)
      → object_key q'.meta ≡ object_key q.meta
      → build_service lib q' ≡ ok d.service
      → (cluster s.world).service ≡ some actual
      → writes (reconcile_service client lib q' s).1.log ≡ writes s.log
  unfolding reconcile_service
  service_quiet q' actual s k b there = rw k (ground (arith, lawful.services.get_answer s.world, b))

module _ {W : Type 0} (client : Client W) (lib : MetaLib) (texts : DefaultTexts) (q : QuestDb)
    (secrets : QuestDbSecrets) (d : Desired lib texts q secrets) (cluster : W → Cluster)
    (lawful : IsLawful client cluster (object_key q.meta)) where
  abbrev key : NamespacedName
  key = object_key q.meta

  settle-IsKeyed : (c : Cluster) → IsKeyed key c → IsKeyed key (settle q d c)
  settle-IsKeyed c keyed = record {
    claim_key = λ t e.
        let same = settled_claim_key q d.claim c.claim d.claim_key keyed.claim_key in cc (e, same);
    set_key = λ t e.
        let same =
          settled_stateful_set_key d.stateful_set c.stateful_set d.stateful_set_key keyed.set_key in
        cc (e, same);
  }

  -- What is settled stays as it is.
  settle_idem :
      (c : Cluster)
      → let q' = with_ready q (settled_stateful_set d.stateful_set c.stateful_set) in
        settle q' (Desired-with_status lib texts q secrets q'.status d) (settle q d c)
        ≡ settle q d c
  settle_idem c =
      let config_map : ConfigMap = settled_config_map d.config_map c.config_map in
      let set : StatefulSet = settled_stateful_set d.stateful_set c.stateful_set in
      let claim : PersistentVolumeClaim = settled_claim q d.claim c.claim in
      let config_map_same = settled_config_map_idem d.config_map c.config_map in
      let claim_same = settled_claim_idem q d.claim c.claim d.claim_size in
      let set_same = settled_stateful_set_idem d.stateful_set c.stateful_set in
      let ready_same : with_ready (with_ready q set)
            (settled_stateful_set d.stateful_set (some set))
          ≡ with_ready q set =
        ap (with_ready (with_ready q set)) set_same ∙ with_ready_idem q set in
      λ i. record (settle q d c) {
        questdb = some (ready_same i);
        config_map = some (config_map_same i);
        claim = some (claim_same i);
        stateful_set = some (set_same i);
      }

  reconcile_objects_quiet :
      (c : Cluster)
      → IsKeyed key c
      → let q' = with_ready q (settled_stateful_set d.stateful_set c.stateful_set) in
        (s : State W Call)
        → cluster s.world ≡ settle q d c
        → writes (reconcile_objects client lib texts q' secrets s).1.log ≡ writes s.log
  reconcile_objects_quiet c keyed s e =
      let q' = with_ready q (settled_stateful_set d.stateful_set c.stateful_set) in
      let d' = Desired-with_status lib texts q secrets q'.status d in
      let (first, second, third, run) =
        reconcile_objects-run client lib texts q' secrets d' cluster lawful s
          (ap (λ c. c.questdb) e) (subst (IsKeyed key) (sym e) (settle-IsKeyed c keyed)) in
      let quiet1 =
        config_map_quiet client lib texts q' secrets d' cluster lawful
          (settled_config_map d.config_map c.config_map) s (ap (λ c. c.config_map) e)
          (settled_config_map_same d.config_map c.config_map) in
      let quiet2 =
        pvc_quiet client lib texts q' secrets d' cluster lawful (settled_claim q d.claim c.claim)
          (at1 client lib texts q' secrets d' cluster lawful s)
          (ap (λ c. c.claim) first ∙ ap (λ c. c.claim) e)
          (settled_claim_same q d.claim c.claim d.claim_size) in
      let s2 = at2 client lib texts q' secrets d' cluster lawful s in
      let s3 = at3 client lib texts q' secrets d' cluster lawful s in
      let set = settled_stateful_set d.stateful_set c.stateful_set in
      let quiet3 =
        stateful_set_quiet client lib texts q' secrets d' cluster lawful set s2
          (ap (λ c. c.stateful_set) second ∙ ap (λ c. c.stateful_set) e)
          (settled_stateful_set_same d.stateful_set c.stateful_set) in
      let quiet4 =
        service_quiet client lib texts q' secrets d' cluster lawful
          (with_ready q' (settled_stateful_set d.stateful_set (cluster s.world).stateful_set))
          (settled_service d.service c.service) s3 refl
          (build_service_status lib q' secrets _ ∙ d'.built_service)
          (ap (λ c. c.service) third ∙ ap (λ c. c.service) e) in
      ap (λ r. writes r.1.log) run ∙ quiet4 ∙ quiet3 ∙ quiet2 ∙ quiet1

  -- On a server that stores each object as it is given and that nobody else writes to, with
  -- objects of that name where there are any, a database that is there, usable secrets and built
  -- objects: once the database has been reconciled, reconciling it again succeeds, writes nothing
  -- and leaves the database and its objects as they are.
  pub reconcile-converges :
      (s : State W Call)
      → (cluster s.world).questdb ≡ some q
      → secrets_of q.meta.name (cluster s.world).secrets ≡ ok secrets
      → IsKeyed key (cluster s.world)
      → let settled : State W Call = record {
        world = (reconcile client lib texts key s).1.world;
        log = [];
      } in
        let (answer, s') = reconcile client lib texts key settled in
        (answer ≡ ok tt) × (writes s'.log ≡ []) × (cluster s'.world ≡ cluster settled.world)
  reconcile-converges s known chosen keyed =
      let c = cluster s.world in
      let s' : State W Call = record {
        world = (reconcile client lib texts key s).1.world;
        log = [];
      } in
      let set = settled_stateful_set d.stateful_set c.stateful_set in
      let q' : QuestDb = with_ready q set in
      let d' = Desired-with_status lib texts q secrets q'.status d in
      let (_, settled) =
        reconcile-settles client lib texts q secrets d cluster lawful s known chosen keyed in
      let known' : (cluster s'.world).questdb ≡ some q' = ap (λ c. c.questdb) settled in
      let chosen' : secrets_of q.meta.name (cluster s'.world).secrets ≡ ok secrets =
        ap (λ c. secrets_of q.meta.name c.secrets) settled ∙ chosen in
      let (s1, run, same, unwritten) =
        reconcile-run client lib texts q' secrets d' cluster lawful s' known' chosen' in
      let (answer, again) =
        reconcile-settles client lib texts q' secrets d' cluster lawful s' known' chosen'
          (subst (IsKeyed key) (sym settled) (settle-IsKeyed c keyed)) in
      (
        answer,
        ap (λ r. writes r.1.log) run
            ∙ reconcile_objects_quiet c keyed s1 (same ∙ settled)
            ∙ unwritten,
        again ∙ ap (settle q' d') settled ∙ settle_idem c ∙ sym settled,
      )
