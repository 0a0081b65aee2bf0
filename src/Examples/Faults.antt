-- ===== src/Examples/Faults.antt =====
-- A server that stores what is created and answers with a timeout, and that refuses every update.
use questdb_operator.Prelude.{◌≡◌, refl, inl, inr, Option, none, some, [], ◌∷◌, arith}
use questdb_operator.Kube.Error.{ok, err, api_failure, conflict, is_not_found, not_found}
use questdb_operator.Kube.Meta.{ObjectMeta}
use questdb_operator.Kube.Exec.{State}
use questdb_operator.Secrets.{no_secrets}
use questdb_operator.Secrets.Laws.{secrets_of-nil}
use questdb_operator.QuestDb.Calls.{Client, ObjectApi, Call}
use questdb_operator.QuestDb.Reconcile.{reconcile}
use questdb_operator.QuestDb.Store.{Cluster, found, settle}
use questdb_operator.QuestDb.Store.Faults.{Honest, IsHonest, ReadEnds}
use questdb_operator.QuestDb.Store.Faults.Recover.{attempts, reconcile-recovers}
use questdb_operator.Examples.Clusters.{
  memory, memory-IsLawful, texts, small, small-IsKeyed, wanted, key,
}
use questdb_operator.Examples.Data.{meta_lib, questdb_of}

abbrev lossy : {T : Type 0} → (Cluster → Option T) → (T → Cluster → Cluster) → ObjectApi Cluster T
lossy view place = record {
  get = λ ns c. (found (view c), c);
  create = λ t c. (err (api_failure "timeout"), place t c);
  update = λ t c. (err conflict, c);
}

abbrev flaky : Client Cluster
flaky = record {
  get_questdb = λ ns c. (found c.questdb, c);
  update_questdb_status = λ q c. (err conflict, c);
  list_secrets = λ ns c. (ok c.secrets, c);
  stateful_sets = lossy (λ c. c.stateful_set) (λ t c. record c { stateful_set = some t });
  claims = lossy (λ c. c.claim) (λ t c. record c { claim = some t });
  services = lossy (λ c. c.service) (λ t c. record c { service = some t });
  config_maps = lossy (λ c. c.config_map) (λ t c. record c { config_map = some t });
}

found-ReadEnds : {T : Type 0} (there : Option T) → ReadEnds (found there) there
unfolding is_not_found
found-ReadEnds none = inr (not_found, refl, inl (refl, refl))
found-ReadEnds (some t) = inl (t, refl, refl)

lossy-Honest :
    {T : Type 0} (meta_of : T → ObjectMeta) (view : Cluster → Option T)
    (place : T → Cluster → Cluster)
    → Honest (lossy view place) meta_of (λ c. c) key view place
lossy-Honest meta_of view place = record {
  get_cluster = λ w. refl;
  get_ends = λ w. found-ReadEnds (view w);
  create_ends = λ t w k e. inr (api_failure "timeout", refl, inr refl);
  update_ends = λ t old w k e. inr (conflict, refl, inl refl);
}

flaky-IsHonest : IsHonest flaky (λ c. c) key
flaky-IsHonest = record {
  questdb_cluster = λ w. refl;
  questdb_ends = λ w. found-ReadEnds w.questdb;
  secrets_cluster = λ w. refl;
  secrets_answer = λ w items e. ground (arith, e);
  status_ends = λ q w k. inr (conflict, refl, inl refl);
  config_maps =
      lossy-Honest (λ t. t.meta) (λ c. c.config_map) (λ t c. record c { config_map = some t });
  claims = lossy-Honest (λ t. t.meta) (λ c. c.claim) (λ t c. record c { claim = some t });
  stateful_sets =
      lossy-Honest (λ t. t.meta) (λ c. c.stateful_set) (λ t c. record c { stateful_set = some t });
  services = lossy-Honest (λ t. t.meta) (λ c. c.service) (λ t c. record c { service = some t });
}

reconcile-recovers_example :
    let s : State Cluster Call = record {
      world = attempts meta_lib texts key (flaky ∷ flaky ∷ []) small;
      log = [];
    } in
    let (answer, s') = reconcile memory meta_lib texts key s in
    (answer ≡ ok tt) × (s'.world ≡ settle (questdb_of 10) wanted small)
reconcile-recovers_example =
    reconcile-recovers meta_lib texts (questdb_of 10) no_secrets wanted (λ c. c)
      (flaky ∷ flaky ∷ []) memory small (flaky-IsHonest, (flaky-IsHonest, tt)) memory-IsLawful refl
      (secrets_of-nil "db") small-IsKeyed
