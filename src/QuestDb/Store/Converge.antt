-- ===== src/QuestDb/Store/Converge.antt =====
-- A reconciliation on a lawful server makes the objects what the database asks for, and the next
-- one has nothing left to do.
use questdb_operator.Prelude.{◌≡◌, refl, ap, sym, subst, ◌∙◌, some, ◌∷◌, arith}
use questdb_operator.Kube.Error.{error_of, ok}
use questdb_operator.Kube.Meta.{MetaLib, Owns, object_key}
use questdb_operator.Kube.Exec.{State, bind-ok}
use questdb_operator.Api.Types.{QuestDb, QuestDbStatus}
use questdb_operator.Secrets.{QuestDbSecrets, secrets_of, get_secrets}
use questdb_operator.QuestDb.Calls
use questdb_operator.QuestDb.Calls.{Client, Call}
use questdb_operator.QuestDb.Build.Volumes.{DefaultTexts, claim}
use questdb_operator.QuestDb.Build.Pods.Laws.{
  build_stateful_set_status, build_service_status, build_stateful_set_owned, build_service_owned,
}
use questdb_operator.QuestDb.Build.Volumes.Laws.{
  build_pvc_status, build_config_map_status, build_pvc_owned, build_config_map_owned,
}
use questdb_operator.QuestDb.Objects.{
  reconcile_config_map, reconcile_pvc, reconcile_stateful_set, reconcile_service,
}
use questdb_operator.QuestDb.Objects.Writes.{writes}
use questdb_operator.QuestDb.Reconcile.{
  secrets_for, reconcile_objects, reconcile_questdb, reconcile,
}
use questdb_operator.QuestDb.Store.{
  Cluster, IsLawful, IsKeyed, Desired, settle, settled_stateful_set, with_ready, place_config_map,
  place_claim, place_ready, place_service,
}
use questdb_operator.QuestDb.Store.Steps.{
  config_map_settles, pvc_settles, stateful_set_settles, service_settles,
}

-- The desired objects do not depend on the status of the database.
abbrev pub Desired-with_status :
    (lib : MetaLib) (texts : DefaultTexts) (q : QuestDb) (s : QuestDbSecrets)
    (status : QuestDbStatus)
    → Desired lib texts q s
    → Desired lib texts (record q { status = status }) s
Desired-with_status lib texts q s status d = record {
  config_map = d.config_map;
  claim = d.claim;
  stateful_set = d.stateful_set;
  service = d.service;
  built_config_map = build_config_map_status lib q texts s status ∙ d.built_config_map;
  built_claim = build_pvc_status lib q status ∙ d.built_claim;
  built_stateful_set = build_stateful_set_status lib q s status ∙ d.built_stateful_set;
  built_service = build_service_status lib q s status ∙ d.built_service;
  config_map_key = d.config_map_key;
  claim_key = d.claim_key;
  stateful_set_key = d.stateful_set_key;
  service_key = d.service_key;
  claim_size = d.claim_size;
}

-- Every database has desired objects, if they can be owned.
pub desired :
    (lib : MetaLib)
    → Owns lib
    → (texts : DefaultTexts) (q : QuestDb) (s : QuestDbSecrets) → Desired lib texts q s
desired lib owns texts q s =
    let (config_map, built_config_map, config_map_key) =
      build_config_map_owned lib q texts s owns in
    let (claim, built_claim, claim_key, claim_size) = build_pvc_owned lib q owns in
    let (set, built_set, set_key) = build_stateful_set_owned lib q s owns in
    let (service, built_service, service_key) = build_service_owned lib q s owns in
    record {
      config_map = config_map;
      claim = claim;
      stateful_set = set;
      service = service;
      built_config_map = built_config_map;
      built_claim = built_claim;
      built_stateful_set = built_set;
      built_service = built_service;
      config_map_key = config_map_key;
      claim_key = claim_key;
      stateful_set_key = set_key;
      service_key = service_key;
      claim_size = claim_size;
    }

-- The state behind the reads of the database and of the secrets.
abbrev pub behind_reads : {W : Type 0} → Client W → QuestDb → State W Call → State W Call
behind_reads client q s =
    let (found, w1) = client.get_questdb (object_key q.meta) s.world in
    let (listed, w2) = client.list_secrets q.meta.namespace w1 in
    record {
      world = w2;
      log =
          Calls.listed_secrets q.meta.namespace (error_of listed)
          ∷ Calls.read (object_key q.meta) (error_of found)
          ∷ s.log;
    }

module _ {W : Type 0} (client : Client W) (lib : MetaLib) (texts : DefaultTexts) (q : QuestDb)
    (secrets : QuestDbSecrets) (d : Desired lib texts q secrets) (cluster : W → Cluster)
    (lawful : IsLawful client cluster (object_key q.meta)) where
  abbrev ready : Cluster → QuestDb
  ready c = with_ready q (settled_stateful_set d.stateful_set c.stateful_set)

  -- The states behind the first three steps.
  abbrev pub at1 : State W Call → State W Call
  at1 s = (reconcile_config_map client lib texts q secrets s).1

  abbrev pub at2 : State W Call → State W Call
  at2 s = (reconcile_pvc client lib q (at1 s)).1

  abbrev pub at3 : State W Call → State W Call
  at3 s = (reconcile_stateful_set client lib q secrets (at2 s)).1

  pub reconcile_objects-run :
      (s : State W Call)
      → (cluster s.world).questdb ≡ some q
      → IsKeyed (object_key q.meta) (cluster s.world)
      → let c = cluster s.world in
        (cluster (at1 s).world ≡ place_config_map q d c)
        × (cluster (at2 s).world ≡ place_claim q d (place_config_map q d c))
        × (cluster (at3 s).world ≡ place_ready q d (place_claim q d (place_config_map q d c)))
        × (reconcile_objects client lib texts q secrets s
            ≡ reconcile_service client lib (ready c) (at3 s))
  unfolding reconcile_objects
  reconcile_objects-run s known keyed =
      let first = config_map_settles client lib texts q secrets d cluster lawful s in
      let second =
        pvc_settles client lib texts q secrets d cluster lawful (at1 s)
          (λ t e. keyed.claim_key t (sym (ap (λ c. c.claim) first.1) ∙ e)) in
      let behind : cluster (at2 s).world
          ≡ place_claim q d (place_config_map q d (cluster s.world)) =
        second.1 ∙ ap (place_claim q d) first.1 in
      let third =
        stateful_set_settles client lib texts q secrets d cluster lawful (at2 s)
          (ap (λ c. c.questdb) behind ∙ known)
          (λ t e. keyed.set_key t (sym (ap (λ c. c.stateful_set) behind) ∙ e)) in
      (
        first.1,
        behind,
        third.1 ∙ ap (place_ready q d) behind,
        bind-ok (reconcile_config_map client lib texts q secrets) _ s first.0
            ∙ bind-ok (reconcile_pvc client lib q) _ (at1 s) second.0
            ∙ bind-ok (reconcile_stateful_set client lib q secrets) _ (at2 s)
                (third.0 ∙ ap (λ c. ok (ready c)) behind),
      )

  reconcile_objects_settles :
      (s : State W Call)
      → (cluster s.world).questdb ≡ some q
      → IsKeyed (object_key q.meta) (cluster s.world)
      → ((reconcile_objects client lib texts q secrets s).0 ≡ ok tt)
        × (cluster (reconcile_objects client lib texts q secrets s).1.world
            ≡ settle q d (cluster s.world))
  reconcile_objects_settles s known keyed =
      let q' : QuestDb = ready (cluster s.world) in
      let (_, _, third, run) = reconcile_objects-run s known keyed in
      let fourth =
        service_settles client lib texts q secrets d cluster lawful q' (at3 s) refl
          (build_service_status lib q secrets q'.status ∙ d.built_service) in
      (
        ap (λ r. r.0) run ∙ fourth.0,
        ap (λ r. cluster r.1.world) run ∙ fourth.1 ∙ ap (place_service q d) third,
      )

  pub reconcile-run :
      (s : State W Call)
      → (cluster s.world).questdb ≡ some q
      → secrets_of q.meta.name (cluster s.world).secrets ≡ ok secrets
      → (s' : State W Call) × (reconcile client lib texts (object_key q.meta) s
          ≡ reconcile_objects client lib texts q secrets s')
        × (cluster s'.world ≡ cluster s.world)
        × (writes s'.log ≡ writes s.log)
  unfolding reconcile reconcile_questdb secrets_for get_secrets
  reconcile-run s known chosen =
      let w1 : W = (client.get_questdb (object_key q.meta) s.world).1 in
      let got = lawful.questdb_answer s.world in
      let same = lawful.questdb_cluster s.world in
      let listed = lawful.secrets_answer w1 in
      (
        behind_reads client q s,
        ground (arith, got, same, listed),
        lawful.secrets_cluster w1 ∙ same,
        ground (arith, got, same, listed),
      )

  -- On a server that stores each object as it is given and that nobody else writes to, with
  -- objects of that name where there are any, a database that is there, usable secrets and built
  -- objects: reconciling the database succeeds and leaves exactly the abstract result, in which a
  -- missing object is as built, the config map has the built contents, the claim the size of the
  -- volume, the stateful set the managed parts as built, the service is as it was, and the
  -- database's status shows the ready replicas of the stateful set.
  pub reconcile-settles :
      (s : State W Call)
      → (cluster s.world).questdb ≡ some q
      → secrets_of q.meta.name (cluster s.world).secrets ≡ ok secrets
      → IsKeyed (object_key q.meta) (cluster s.world)
      → let (answer, s') = reconcile client lib texts (object_key q.meta) s in
        (answer ≡ ok tt) × (cluster s'.world ≡ settle q d (cluster s.world))
  reconcile-settles s known chosen keyed =
      let (s1, run, same, _) = reconcile-run s known chosen in
      let (done, settled) =
        reconcile_objects_settles s1 (ap (λ c. c.questdb) same ∙ known)
          (subst (IsKeyed (object_key q.meta)) (sym same) keyed) in
      (ap (λ r. r.0) run ∙ done, ap (λ r. cluster r.1.world) run ∙ settled ∙ ap (settle q d) same)
