-- ===== src/QuestDb/Reconcile/Order.antt =====
-- In which order the objects are written, and that bad secrets stop everything.
use questdb_operator.Prelude.{ℕ, ◌≤◌, ◌≡◌, inl, inr, none, List, [], ◌∷◌, arith}
use questdb_operator.Kube.Error.{Error, Result-cases, ok, err}
use questdb_operator.Kube.Meta.{NamespacedName, MetaLib, object_key}
use questdb_operator.Kube.Exec.{bind-keeps, State}
use questdb_operator.Kube.Objects.Workload.{Secret}
use questdb_operator.Api.Types.{QuestDb}
use questdb_operator.Secrets.{QuestDbSecrets, secrets_of, get_secrets}
use questdb_operator.QuestDb.Calls
use questdb_operator.QuestDb.Calls.{
  Client, Call, Handler, Object, created, updated, config_map, claim, stateful_set, service,
}
use questdb_operator.QuestDb.Build.Volumes.{DefaultTexts}
use questdb_operator.QuestDb.Objects.{
  reconcile_config_map, reconcile_pvc, reconcile_stateful_set, reconcile_service,
}
use questdb_operator.QuestDb.Objects.Writes.{writes}
use questdb_operator.QuestDb.Reconcile.{
  secrets_for, reconcile_objects, reconcile_questdb, reconcile,
}

-- The place of an object in the order.
abbrev pub rank : Object → ℕ
rank (config_map _) = 0
rank (claim _) = 1
rank (stateful_set _) = 2
rank (service _) = 3

-- The objects, the last first, stand in order, and the last is not past `k`.
abbrev pub InOrder : ℕ → List Object → Type 0
InOrder k [] = Unit {0}
InOrder k (obj ∷ objs) = (rank obj ≤ k) × InOrder (rank obj) objs

InOrder-mono : {j k : ℕ} (objs : List Object) → j ≤ k → InOrder j objs → InOrder k objs
InOrder-mono [] h o = tt
InOrder-mono (obj ∷ objs) h o = (omega arith, o.1)

abbrev At : {W : Type 0} → ℕ → State W Call → Type 0
At k s = InOrder k (writes s.log)

later : {W : Type 0} {j k : ℕ} → j ≤ k → (s : State W Call) → At j s → At k s
later le s h = InOrder-mono (writes s.log) le h

module _ {W : Type 0} (client : Client W) (lib : MetaLib) (texts : DefaultTexts) where
  config_map-InOrder :
      (q : QuestDb) (secrets : QuestDbSecrets) (s : State W Call)
      → InOrder 0 (writes s.log)
      → InOrder 0 (writes (reconcile_config_map client lib texts q secrets s).1.log)
  unfolding reconcile_config_map
  config_map-InOrder q secrets s h = ground arith

  pvc-InOrder :
      (q : QuestDb) (s : State W Call)
      → InOrder 1 (writes s.log)
      → InOrder 1 (writes (reconcile_pvc client lib q s).1.log)
  unfolding reconcile_pvc
  pvc-InOrder q s h = ground arith

  stateful_set-InOrder :
      (q : QuestDb) (secrets : QuestDbSecrets) (s : State W Call)
      → InOrder 2 (writes s.log)
      → InOrder 2 (writes (reconcile_stateful_set client lib q secrets s).1.log)
  unfolding reconcile_stateful_set
  stateful_set-InOrder q secrets s h = ground arith

  service-InOrder :
      (q : QuestDb) (s : State W Call)
      → InOrder 3 (writes s.log)
      → InOrder 3 (writes (reconcile_service client lib q s).1.log)
  unfolding reconcile_service
  service-InOrder q s h = ground arith

  reconcile_objects-InOrder :
      (q : QuestDb) (secrets : QuestDbSecrets) (s : State W Call)
      → InOrder 0 (writes s.log)
      → InOrder 3 (writes (reconcile_objects client lib texts q secrets s).1.log)
  unfolding reconcile_objects
  reconcile_objects-InOrder q secrets s h =
      bind-keeps (At 0) (At 3) (reconcile_config_map client lib texts q secrets) _ s
        (config_map-InOrder q secrets s h) (later {j = 0} (omega arith))
        (λ _ s1 h1.
          bind-keeps (At 1) (At 3) (reconcile_pvc client lib q) _ s1
            (pvc-InOrder q s1 (later {j = 0} (omega arith) s1 h1)) (later {j = 1} (omega arith))
            (λ _ s2 h2.
              bind-keeps (At 2) (At 3) (reconcile_stateful_set client lib q secrets) _ s2
                (stateful_set-InOrder q secrets s2 (later {j = 1} (omega arith) s2 h2))
                (later {j = 2} (omega arith))
                (λ q' s3 h3. service-InOrder q' s3 (later {j = 2} (omega arith) s3 h3))))

  secrets_for-writes :
      (ns : NamespacedName) (s : State W Call)
      → writes (secrets_for client lib texts ns s).1.log ≡ writes s.log
  unfolding secrets_for get_secrets
  secrets_for-writes ns s = ground arith

  reconcile_questdb-InOrder :
      (q : QuestDb) (s : State W Call)
      → writes s.log ≡ []
      → InOrder 3 (writes (reconcile_questdb client lib texts q s).1.log)
  unfolding reconcile_questdb
  reconcile_questdb-InOrder q s h =
      let same : writes (secrets_for client lib texts (object_key q.meta) s).1.log ≡ [] =
        cc (secrets_for-writes (object_key q.meta) s) in
      bind-keeps (At 0) (At 3) (secrets_for client lib texts (object_key q.meta)) _ s
        (ground (arith, same)) (later {j = 0} (omega arith))
        (λ secrets. reconcile_objects-InOrder q secrets)

  -- Whatever the server answers, a reconciliation that starts with nothing written writes in this
  -- order only: the config map, the claim, the stateful set, the service.
  pub reconcile-InOrder :
      (req : NamespacedName) (s : State W Call)
      → writes s.log ≡ []
      → InOrder 3 (writes (reconcile client lib texts req s).1.log)
  unfolding reconcile reconcile_questdb
  reconcile-InOrder req s h = elim (Result-cases (client.get_questdb req s.world).0) [
    | inr (e, bad) ↦ ground (arith, bad)
    | inl (q, good) ↦ ground (
      arith,
      good,
      reconcile_questdb-InOrder q
          (record { world = (client.get_questdb req s.world).1; log = Calls.read req none ∷ s.log })
          h,
    )
  ]

  -- If the database is found, the secrets of its namespace are listed, and `GetSecrets` refuses
  -- them, then the reconciliation ends with that error and has written nothing.
  pub reconcile-bad_secrets :
      (req : NamespacedName) (s : State W Call) (q : QuestDb) (items : List Secret) (e : Error)
      (w1 w2 : W)
      → client.get_questdb req s.world ≡ (ok q, w1)
      → client.list_secrets q.meta.namespace w1 ≡ (ok items, w2)
      → secrets_of q.meta.name items ≡ err e
      → ((reconcile client lib texts req s).0 ≡ err e)
        × (writes (reconcile client lib texts req s).1.log ≡ writes s.log)
  unfolding reconcile reconcile_questdb secrets_for get_secrets
  reconcile-bad_secrets req s q items e w1 w2 found listed bad = ground arith
