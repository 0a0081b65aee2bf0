-- ===== src/QuestDb/Store/Faults/Aims.antt =====
-- What a reconciliation aims at, and that none of its steps changes it.
use questdb_operator.Prelude.{◌≡◌, refl, ap, ◌∙◌, some}
use questdb_operator.Kube.Error.{ok}
use questdb_operator.Kube.Meta.{MetaLib, object_key}
use questdb_operator.Kube.Objects.Workload.{StatefulSet}
use questdb_operator.Api.Types.{QuestDb, QuestDbStatus}
use questdb_operator.Secrets.{QuestDbSecrets, secrets_of}
use questdb_operator.QuestDb.Build.Volumes.{DefaultTexts}
use questdb_operator.QuestDb.Store.{
  Cluster, IsKeyed, Desired, settle, settled_stateful_set, with_ready, place_config_map,
  place_claim, place_set, place_ready, place_service,
}
use questdb_operator.QuestDb.Store.Converge.{Desired-with_status}
use questdb_operator.QuestDb.Store.Settled.{
  settled_config_map_idem, settled_claim_idem, settled_stateful_set_idem, with_ready_idem,
  settled_claim_key, settled_stateful_set_key,
}

-- The database is there with some status, its secrets are usable, and a reconciliation in which no
-- request fails would end at `goal`.
pub record Aims {lib : MetaLib} {texts : DefaultTexts} (q : QuestDb) {s : QuestDbSecrets}
    (d : Desired lib texts q s) (goal : Cluster) (status : QuestDbStatus) (c : Cluster)
    : Type 0 where
  pub known : c.questdb ≡ some (record q { status = status })
  pub target :
      settle (record q { status = status }) (Desired-with_status lib texts q s status d) c ≡ goal
  pub chosen : secrets_of q.meta.name c.secrets ≡ ok s
  pub keyed : IsKeyed (object_key q.meta) c

module _ {lib : MetaLib} {texts : DefaultTexts} (q : QuestDb) {s : QuestDbSecrets}
    (d : Desired lib texts q s) (status : QuestDbStatus) where
  abbrev now : QuestDb
  now = record q { status = status }

  abbrev wanted : Desired lib texts now s
  wanted = Desired-with_status lib texts q s status d

  -- The status that the stateful set's step writes.
  abbrev pub next_status : Cluster → QuestDbStatus
  next_status c = (with_ready now (settled_stateful_set d.stateful_set c.stateful_set)).status

  module _ {goal : Cluster} (c : Cluster) where
    pub Aims-config_map :
        Aims q d goal status c → Aims q d goal status (place_config_map now wanted c)
    Aims-config_map aims = record {
      known = aims.known;
      target =
          (λ i. record (settle now wanted c) {
            config_map = some (settled_config_map_idem d.config_map c.config_map i);
          })
          ∙ aims.target;
      chosen = aims.chosen;
      keyed = record { claim_key = aims.keyed.claim_key; set_key = aims.keyed.set_key };
    }

    pub Aims-claim : Aims q d goal status c → Aims q d goal status (place_claim now wanted c)
    Aims-claim aims = record {
      known = aims.known;
      target =
          (λ i. record (settle now wanted c) {
            claim = some (settled_claim_idem now d.claim c.claim d.claim_size i);
          })
          ∙ aims.target;
      chosen = aims.chosen;
      keyed = record {
        claim_key = λ t e.
            let same = settled_claim_key now d.claim c.claim d.claim_key aims.keyed.claim_key in
            cc (e, same);
        set_key = aims.keyed.set_key;
      };
    }

    pub Aims-set : Aims q d goal status c → Aims q d goal status (place_set now wanted c)
    Aims-set aims = record {
      known = aims.known;
      target =
          (λ i. record (settle now wanted c) {
            questdb =
                some (with_ready now (settled_stateful_set_idem d.stateful_set c.stateful_set i));
            stateful_set = some (settled_stateful_set_idem d.stateful_set c.stateful_set i);
          })
          ∙ aims.target;
      chosen = aims.chosen;
      keyed = record {
        claim_key = aims.keyed.claim_key;
        set_key = λ t e.
            let same =
              settled_stateful_set_key d.stateful_set c.stateful_set d.stateful_set_key
                aims.keyed.set_key in
            cc (e, same);
      };
    }

    pub Aims-ready :
        Aims q d goal status c → Aims q d goal (next_status c) (place_ready now wanted c)
    Aims-ready aims =
        let set : StatefulSet = settled_stateful_set d.stateful_set c.stateful_set in
        let same = settled_stateful_set_idem d.stateful_set c.stateful_set in
        let behind = Aims-set aims in
        record {
          known = refl;
          target =
              (λ i. record (settle now wanted c) {
                questdb =
                    some ((ap (with_ready (with_ready now set)) same ∙ with_ready_idem now set) i);
                stateful_set = some (same i);
              })
              ∙ aims.target;
          chosen = aims.chosen;
          keyed = record { claim_key = behind.keyed.claim_key; set_key = behind.keyed.set_key };
        }

    pub Aims-service : Aims q d goal status c → Aims q d goal status (place_service now wanted c)
    Aims-service aims = record {
      known = aims.known;
      target = aims.target;
      chosen = aims.chosen;
      keyed = record { claim_key = aims.keyed.claim_key; set_key = aims.keyed.set_key };
    }
