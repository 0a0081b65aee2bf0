-- ===== src/Manager/Owned/Laws.antt =====
-- What a reconciliation of a database creates, one handler after another.
use questdb_operator.Prelude.{◌≡◌, sym, ◌∙◌, inl, inr, true, none, [], ◌∷◌, All, arith}
use questdb_operator.Kube.Error.{Result-cases, ok}
use questdb_operator.Kube.Meta.{OwnerLaws, NamespacedName, MetaLib, object_key}
use questdb_operator.Kube.Exec.{State, bind-keeps, bind-keeps_result, bind-result}
use questdb_operator.Kube.Objects.Workload.{StatefulSet}
use questdb_operator.Api.Types.{QuestDb}
use questdb_operator.Secrets.{QuestDbSecrets, get_secrets}
use questdb_operator.QuestDb.Calls as Calls
use questdb_operator.QuestDb.Calls.{Client, Call, Object, created}
use questdb_operator.QuestDb.Build.Pods.{build_stateful_set, build_service}
use questdb_operator.QuestDb.Build.Volumes.{DefaultTexts, build_pvc, build_config_map}
use questdb_operator.QuestDb.Objects.{
  reconcile_config_map, reconcile_pvc, reconcile_stateful_set, reconcile_service,
  update_ready_replicas, current_stateful_set,
}
use questdb_operator.QuestDb.Reconcile.{
  secrets_for, reconcile_objects, reconcile_questdb, reconcile,
}
use questdb_operator.Manager.Owned.{
  all_controlled, all_controlled-uid, created_kinds, KeepsUid, IsOwnedKind,
  created_kinds-IsOwnedKind, config_map-IsControlled, claim-IsControlled, stateful_set-IsControlled,
  service-IsControlled,
}

module _ {W : Type 0} (client : Client W) (lib : MetaLib) (laws : OwnerLaws lib) (q : QuestDb) where
  abbrev Controlled : State W Call → Type 0
  Controlled s = all_controlled lib q.meta s.log ≡ true

  reconcile_config_map-Controlled :
      (texts : DefaultTexts) (secrets : QuestDbSecrets) (s : State W Call)
      → Controlled s
      → Controlled (reconcile_config_map client lib texts q secrets s).1
  unfolding reconcile_config_map
  reconcile_config_map-Controlled texts secrets s h =
      elim (Result-cases (build_config_map lib texts q secrets)) [
        | inl (t, good) ↦
            ground (arith, good, config_map-IsControlled lib laws q texts secrets t good)
        | inr (e, bad) ↦ ground (arith, bad)
      ]

  reconcile_pvc-Controlled :
      (s : State W Call) → Controlled s → Controlled (reconcile_pvc client lib q s).1
  unfolding reconcile_pvc
  reconcile_pvc-Controlled s h = elim (Result-cases (build_pvc lib q)) [
    | inl (t, good) ↦ ground (arith, good, claim-IsControlled lib laws q t good)
    | inr (e, bad) ↦ ground (arith, bad)
  ]

  reconcile_stateful_set-Controlled :
      (secrets : QuestDbSecrets) (s : State W Call)
      → Controlled s
      → Controlled (reconcile_stateful_set client lib q secrets s).1
  unfolding reconcile_stateful_set
  reconcile_stateful_set-Controlled secrets s h =
      elim (Result-cases (build_stateful_set lib q secrets)) [
        | inl (t, good) ↦ ground (arith, good, stateful_set-IsControlled lib laws q secrets t good)
        | inr (e, bad) ↦ ground (arith, bad)
      ]

  reconcile_service-Controlled :
      (s : State W Call) → Controlled s → Controlled (reconcile_service client lib q s).1
  unfolding reconcile_service
  reconcile_service-Controlled s h = elim (Result-cases (build_service lib q)) [
    | inl (t, good) ↦ ground (arith, good, service-IsControlled lib laws q t good)
    | inr (e, bad) ↦ ground (arith, bad)
  ]

  update_ready_replicas-uid :
      (keeps : KeepsUid client) (t : StatefulSet) (s : State W Call) (q' : QuestDb)
      → (update_ready_replicas client lib q t s).0 ≡ ok q'
      → q'.meta.uid ≡ q.meta.uid
  unfolding update_ready_replicas
  update_ready_replicas-uid keeps t s q' e = ground (
    arith,
    keeps (record q { status = record { stateful_set_ready_replicas = t.ready_replicas } }) q'
        s.world,
  )

  reconcile_stateful_set-uid :
      (keeps : KeepsUid client) (secrets : QuestDbSecrets) (s : State W Call) (q' : QuestDb)
      → (reconcile_stateful_set client lib q secrets s).0 ≡ ok q'
      → q'.meta.uid ≡ q.meta.uid
  unfolding reconcile_stateful_set
  reconcile_stateful_set-uid keeps secrets =
      bind-result (current_stateful_set client lib q secrets) (update_ready_replicas client lib q)
        (λ q'. q'.meta.uid ≡ q.meta.uid) (update_ready_replicas-uid keeps)

module _ {W : Type 0} (client : Client W) (lib : MetaLib) (texts : DefaultTexts)
    (laws : OwnerLaws lib) (keeps : KeepsUid client) where
  service_of-Controlled :
      (q q' : QuestDb) (s : State W Call)
      → q'.meta.uid ≡ q.meta.uid
      → Controlled client lib laws q s
      → Controlled client lib laws q (reconcile_service client lib q' s).1
  service_of-Controlled q q' s same h =
      sym
        (all_controlled-uid lib laws q'.meta q.meta same (reconcile_service client lib q' s).1.log)
      ∙ reconcile_service-Controlled client lib laws q' s
          (all_controlled-uid lib laws q'.meta q.meta same s.log ∙ h)

  reconcile_objects-Controlled :
      (q : QuestDb) (secrets : QuestDbSecrets) (s : State W Call)
      → Controlled client lib laws q s
      → Controlled client lib laws q (reconcile_objects client lib texts q secrets s).1
  unfolding reconcile_objects
  reconcile_objects-Controlled q secrets s h =
      bind-keeps Good Good (reconcile_config_map client lib texts q secrets) _ s
        (reconcile_config_map-Controlled client lib laws q texts secrets s h) (λ _ g. g)
        (λ _ s1 h1.
          bind-keeps Good Good (reconcile_pvc client lib q) _ s1
            (reconcile_pvc-Controlled client lib laws q s1 h1) (λ _ g. g)
            (λ _ s2 h2.
              bind-keeps_result Good Good (reconcile_stateful_set client lib q secrets) _ s2
                (reconcile_stateful_set-Controlled client lib laws q secrets s2 h2) (λ _ g. g)
                (λ q' s3 e h3.
                  service_of-Controlled q q' s3
                    (reconcile_stateful_set-uid client lib laws q keeps secrets s2 q' e) h3)))
    where
      Good : State W Call → Type 0
      Good = Controlled client lib laws q

  secrets_for-Controlled :
      (q : QuestDb) (ns : NamespacedName) (s : State W Call)
      → Controlled client lib laws q s
      → Controlled client lib laws q (secrets_for client lib texts ns s).1
  unfolding secrets_for get_secrets
  secrets_for-Controlled q ns s h = ground arith

  reconcile_questdb-Controlled :
      (q : QuestDb) (s : State W Call)
      → Controlled client lib laws q s
      → Controlled client lib laws q (reconcile_questdb client lib texts q s).1
  unfolding reconcile_questdb
  reconcile_questdb-Controlled q s h =
      bind-keeps (Controlled client lib laws q) (Controlled client lib laws q)
        (secrets_for client lib texts (object_key q.meta)) _ s
        (secrets_for-Controlled q (object_key q.meta) s h) (λ _ g. g)
        (λ secrets. reconcile_objects-Controlled q secrets)

  -- Let `SetControllerReference` make the owner the controller, told by its uid, and let the server
  -- keep the uid of a database whose status it stores. Then a reconciliation of a database that is
  -- there, with no call before, asks only for the creation of objects that have that database as
  -- their controller and are of a kind that the controller registered as owned.
  pub reconcile-IsOwned :
      (req : NamespacedName) (s : State W Call) (q : QuestDb) (w : W)
      → client.get_questdb req s.world ≡ (ok q, w)
      → s.log ≡ []
      → (all_controlled lib q.meta (reconcile client lib texts req s).1.log ≡ true)
        × All IsOwnedKind (created_kinds (reconcile client lib texts req s).1.log)
  unfolding reconcile
  reconcile-IsOwned req s q w found fresh = (
    ground (
      arith,
      found,
      fresh,
      reconcile_questdb-Controlled q (record { world = w; log = Calls.read req none ∷ s.log })
          (ground (arith, fresh)),
    ),
    created_kinds-IsOwnedKind (reconcile client lib texts req s).1.log,
  )
