-- ===== src/QuestDb/Store/Faults/Handlers.antt =====
-- A reconciliation in which requests fail changes nothing at what the next one aims at.
use questdb_operator.Prelude.{◌≡◌, ◌⊎◌, inl, inr, ap, sym, subst, ◌∙◌, arith}
use questdb_operator.Kube.Error.{Result-cases}
use questdb_operator.Kube.Meta.{NamespacedName, MetaLib, object_key}
use questdb_operator.Kube.Exec.{State, bind-keeps, bind-keeps_result}
use questdb_operator.Api.Types.{QuestDb, QuestDbStatus}
use questdb_operator.Secrets.{QuestDbSecrets, get_secrets}
use questdb_operator.QuestDb.Calls.{Client, Call}
use questdb_operator.QuestDb.Build.Volumes.{DefaultTexts}
use questdb_operator.QuestDb.Build.Pods.{build_service}
use questdb_operator.QuestDb.Build.Pods.Laws.{build_service_status}
use questdb_operator.QuestDb.Objects.{
  reconcile_config_map, reconcile_pvc, reconcile_stateful_set, reconcile_service,
}
use questdb_operator.QuestDb.Reconcile.{
  secrets_for, reconcile_objects, reconcile_questdb, reconcile,
}
use questdb_operator.QuestDb.Store.{Cluster, Desired}
use questdb_operator.QuestDb.Store.Converge.{Desired-with_status, behind_reads}
use questdb_operator.QuestDb.Store.Faults.{IsHonest}
use questdb_operator.QuestDb.Store.Faults.Steps.{
  config_map-Outcome, pvc-Outcome, stateful_set-Outcome, stateful_set-status, service-Outcome,
}
use questdb_operator.QuestDb.Store.Faults.Aims.{
  Aims, next_status, Aims-config_map, Aims-claim, Aims-set, Aims-ready, Aims-service,
}

module _ {W : Type 0} (lib : MetaLib) (texts : DefaultTexts) (q : QuestDb)
    (secrets : QuestDbSecrets) (d : Desired lib texts q secrets) (cluster : W → Cluster)
    (goal : Cluster) where
  abbrev key : NamespacedName
  key = object_key q.meta

  abbrev at : QuestDbStatus → QuestDb
  at status = record q { status = status }

  abbrev wants : (status : QuestDbStatus) → Desired lib texts (at status) secrets
  wants status = Desired-with_status lib texts q secrets status d

  abbrev AimsAt : QuestDbStatus → State W Call → Type 0
  AimsAt status s = Aims q d goal status (cluster s.world)

  abbrev pub AimsStill : W → Type 0
  AimsStill w = (status : QuestDbStatus) × Aims q d goal status (cluster w)

  module _ (client : Client W) (honest : IsHonest client cluster key) where
    config_map-AimsAt :
        (status : QuestDbStatus) (s : State W Call)
        → AimsAt status s
        → AimsAt status (reconcile_config_map client lib texts (at status) secrets s).1
    config_map-AimsAt status s aims =
        elim (config_map-Outcome client lib texts (at status) secrets (wants status) cluster honest
          s) [
            | inl same ↦ subst (Aims q d goal status) (sym same) aims
            | inr placed ↦
                subst (Aims q d goal status) (sym placed)
                  (Aims-config_map q d status (cluster s.world) aims)
          ]

    pvc-AimsAt :
        (status : QuestDbStatus) (s : State W Call)
        → AimsAt status s
        → AimsAt status (reconcile_pvc client lib (at status) s).1
    pvc-AimsAt status s aims =
        elim (pvc-Outcome client lib texts (at status) secrets (wants status) cluster honest s
          aims.keyed.claim_key) [
            | inl same ↦ subst (Aims q d goal status) (sym same) aims
            | inr placed ↦
                subst (Aims q d goal status) (sym placed)
                  (Aims-claim q d status (cluster s.world) aims)
          ]

    stateful_set-AimsStill :
        (status : QuestDbStatus) (s : State W Call)
        → AimsAt status s
        → AimsStill (reconcile_stateful_set client lib (at status) secrets s).1.world
    stateful_set-AimsStill status s aims =
        elim (stateful_set-Outcome client lib texts (at status) secrets (wants status) cluster
          honest s aims.known aims.keyed.set_key) [
            | inl same ↦ (status, subst (Aims q d goal status) (sym same) aims)
            | inr (inl placed) ↦ (
              status,
              subst (Aims q d goal status) (sym placed)
                  (Aims-set q d status (cluster s.world) aims),
            )
            | inr (inr placed) ↦ (
              next_status q d status (cluster s.world),
              subst (Aims q d goal (next_status q d status (cluster s.world))) (sym placed)
                  (Aims-ready q d status (cluster s.world) aims),
            )
          ]

    service-AimsStill :
        (status : QuestDbStatus) (q' : QuestDb) (s : State W Call)
        → q' ≡ at q'.status
        → AimsAt status s
        → AimsStill (reconcile_service client lib q' s).1.world
    service-AimsStill status q' s e aims =
        elim (service-Outcome client lib texts (at status) secrets (wants status) cluster honest q'
          s (ap (λ x. object_key x.meta) e)
          (ap (build_service lib) e
            ∙ build_service_status lib q secrets q'.status
            ∙ d.built_service)) [
              | inl same ↦ (status, subst (Aims q d goal status) (sym same) aims)
              | inr placed ↦ (
                status,
                subst (Aims q d goal status) (sym placed)
                    (Aims-service q d status (cluster s.world) aims),
              )
            ]

    reconcile_objects-AimsStill :
        (status : QuestDbStatus) (s : State W Call)
        → AimsAt status s
        → AimsStill (reconcile_objects client lib texts (at status) secrets s).1.world
    unfolding reconcile_objects
    reconcile_objects-AimsStill status s aims =
        let still : State W Call → Type 0 = λ s. AimsStill s.world in
        let given : (s : State W Call) → AimsAt status s → still s = λ s a. (status, a) in
        bind-keeps (AimsAt status) still (reconcile_config_map client lib texts (at status) secrets)
          _ s (config_map-AimsAt status s aims) given
          (λ _ s1 a1.
            bind-keeps (AimsAt status) still (reconcile_pvc client lib (at status)) _ s1
              (pvc-AimsAt status s1 a1) given
              (λ _ s2 a2.
                bind-keeps_result still still
                  (reconcile_stateful_set client lib (at status) secrets) _ s2
                  (stateful_set-AimsStill status s2 a2) (λ s3 a3. a3)
                  (λ q' s3 e a3.
                    service-AimsStill a3.0 q' s3
                      (stateful_set-status client lib texts (at status) secrets (wants status)
                        cluster honest s2 q' e)
                      a3.1)))

    -- A reconciliation gets as far as the objects, or it leaves the cluster alone.
    reconcile-cases :
        (status : QuestDbStatus) (s : State W Call)
        → AimsAt status s
        → let s1 = behind_reads client (at status) s in
          (cluster (reconcile client lib texts key s).1.world ≡ cluster s.world)
          ⊎ ((reconcile client lib texts key s
                ≡ reconcile_objects client lib texts (at status) secrets s1)
              × (cluster s1.world ≡ cluster s.world))
    unfolding reconcile reconcile_questdb secrets_for get_secrets
    reconcile-cases status s aims =
        let w1 : W = (client.get_questdb key s.world).1 in
        let same = honest.questdb_cluster s.world in
        let same2 = honest.secrets_cluster w1 in
        elim (honest.questdb_ends s.world) [
          | inl (q', read, there) ↦
              let known : q' ≡ at status = cc (there, aims.known) in
              elim (Result-cases (client.list_secrets key.namespace w1).0) [
                | inl (items, listed) ↦
                    let all = honest.secrets_answer w1 items listed in
                    let chosen = aims.chosen in
                    inr (ground (arith, read, known, listed, all, same, chosen), same2 ∙ same)
                | inr (e, failed) ↦ inl (ground (arith, read, known, failed, same, same2))
              ]
          | inr (e, failed, _) ↦ inl (ground (arith, failed, same))
        ]

    pub reconcile-AimsStill :
        (s : State W Call)
        → AimsStill s.world
        → AimsStill (reconcile client lib texts key s).1.world
    reconcile-AimsStill s (status, aims) = elim (reconcile-cases status s aims) [
      | inl same ↦ (status, subst (Aims q d goal status) (sym same) aims)
      | inr (run, same) ↦
          let s1 = behind_reads client (at status) s in
          subst (λ r. AimsStill r.1.world) (sym run)
            (reconcile_objects-AimsStill status s1 (subst (Aims q d goal status) (sym same) aims))
    ]
