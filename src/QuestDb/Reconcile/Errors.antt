-- ===== src/QuestDb/Reconcile/Errors.antt =====
-- Which answers a reconciliation that succeeds has had.
use questdb_operator.Prelude.{
  ◌≡◌, refl, inl, inr, Bool, true, false, ◌&&◌, Option, none, some, List, [], ◌∷◌, arith,
}
use questdb_operator.Kube.Error.{Error, Result-cases, is_not_found, ok, ignore_not_found}
use questdb_operator.Kube.Meta.{NamespacedName, MetaLib, object_key}
use questdb_operator.Kube.Exec.{State, bind-succeeds}
use questdb_operator.Api.Types.{QuestDb}
use questdb_operator.Secrets.{QuestDbSecrets, get_secrets}
use questdb_operator.QuestDb.Calls.{
  Client, Call, read, created, updated, updated_status, listed_secrets, event,
}
use questdb_operator.QuestDb.Build.Volumes.{DefaultTexts}
use questdb_operator.QuestDb.Objects.{
  reconcile_config_map, reconcile_pvc, reconcile_stateful_set, reconcile_service,
}
use questdb_operator.QuestDb.Reconcile.{
  secrets_for, reconcile_objects, reconcile_questdb, reconcile,
}

-- There was no error, or none but that nothing was found.
abbrev pub is_missing_at_most : Option Error → Bool
is_missing_at_most none = true
is_missing_at_most (some e) = is_not_found e

abbrev pub is_none : Option Error → Bool
is_none none = true
is_none (some e) = false

-- Nothing went wrong: a read may have found nothing, all else was answered without an error.
abbrev pub is_clean : List Call → Bool
is_clean [] = true
is_clean (read key e ∷ calls) = is_missing_at_most e && is_clean calls
is_clean (created obj e ∷ calls) = is_none e && is_clean calls
is_clean (updated obj e ∷ calls) = is_none e && is_clean calls
is_clean (updated_status q e ∷ calls) = is_none e && is_clean calls
is_clean (listed_secrets ns e ∷ calls) = is_none e && is_clean calls
is_clean (event type reason ∷ calls) = is_clean calls

module _ {W : Type 0} (client : Client W) (lib : MetaLib) (texts : DefaultTexts) where
  abbrev Clean : State W Call → Type 0
  Clean s = is_clean s.log ≡ true

  config_map-Clean :
      (q : QuestDb) (secrets : QuestDbSecrets) (s : State W Call)
      → Clean s
      → (u : Unit {0}) → (reconcile_config_map client lib texts q secrets s).0 ≡ ok u
      → Clean (reconcile_config_map client lib texts q secrets s).1
  unfolding reconcile_config_map
  config_map-Clean q secrets s h u e = ground arith

  pvc-Clean :
      (q : QuestDb) (s : State W Call)
      → Clean s
      → (u : Unit {0}) → (reconcile_pvc client lib q s).0 ≡ ok u
      → Clean (reconcile_pvc client lib q s).1
  unfolding reconcile_pvc
  pvc-Clean q s h u e = ground arith

  stateful_set-Clean :
      (q : QuestDb) (secrets : QuestDbSecrets) (s : State W Call)
      → Clean s
      → (q' : QuestDb) → (reconcile_stateful_set client lib q secrets s).0 ≡ ok q'
      → Clean (reconcile_stateful_set client lib q secrets s).1
  unfolding reconcile_stateful_set
  stateful_set-Clean q secrets s h q' e = ground arith

  service-Clean :
      (q : QuestDb) (s : State W Call)
      → Clean s
      → (u : Unit {0}) → (reconcile_service client lib q s).0 ≡ ok u
      → Clean (reconcile_service client lib q s).1
  unfolding reconcile_service
  service-Clean q s h u e = ground arith

  reconcile_objects-Clean :
      (q : QuestDb) (secrets : QuestDbSecrets) (s : State W Call)
      → Clean s
      → (u : Unit {0}) → (reconcile_objects client lib texts q secrets s).0 ≡ ok u
      → Clean (reconcile_objects client lib texts q secrets s).1
  unfolding reconcile_objects
  reconcile_objects-Clean q secrets s h =
      bind-succeeds (reconcile_config_map client lib texts q secrets) _ Clean s
        (config_map-Clean q secrets s h)
        (λ _ s1 h1.
          bind-succeeds (reconcile_pvc client lib q) _ Clean s1 (pvc-Clean q s1 h1) (λ _ s2 h2.
            bind-succeeds (reconcile_stateful_set client lib q secrets) _ Clean s2
              (stateful_set-Clean q secrets s2 h2) (λ q' s3 h3. service-Clean q' s3 h3)))

  secrets_for-Clean :
      (ns : NamespacedName) (s : State W Call)
      → Clean s
      → (secrets : QuestDbSecrets) → (secrets_for client lib texts ns s).0 ≡ ok secrets
      → Clean (secrets_for client lib texts ns s).1
  unfolding secrets_for get_secrets
  secrets_for-Clean ns s h secrets e = ground arith

  reconcile_questdb-Clean :
      (q : QuestDb) (s : State W Call)
      → Clean s
      → (u : Unit {0}) → (reconcile_questdb client lib texts q s).0 ≡ ok u
      → Clean (reconcile_questdb client lib texts q s).1
  unfolding reconcile_questdb
  reconcile_questdb-Clean q s h =
      bind-succeeds (secrets_for client lib texts (object_key q.meta)) _ Clean s
        (secrets_for-Clean (object_key q.meta) s h)
        (λ secrets s1 h1. reconcile_objects-Clean q secrets s1 h1)

  -- No error is lost: if a reconciliation that starts with no calls ends without an error, then every
  -- write, every write of the status and the listing of the secrets was answered without one, and
  -- every read too, or with the answer that nothing was found.
  pub reconcile-Clean :
      (req : NamespacedName) (w : W)
      → (reconcile client lib texts req (record { world = w; log = [] })).0 ≡ ok tt
      → is_clean (reconcile client lib texts req (record { world = w; log = [] })).1.log ≡ true
  unfolding reconcile ignore_not_found is_not_found
  reconcile-Clean req w e = elim (Result-cases (client.get_questdb req w).0) [
    | inr (x, bad) ↦ ground (arith, bad)
    | inl (q, good) ↦
        let s1 : State W Call = record {
          world = (client.get_questdb req w).1;
          log = read req none ∷ [];
        } in
        ground (arith, good, reconcile_questdb-Clean q s1 refl tt)
  ]
