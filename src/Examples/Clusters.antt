-- ===== src/Examples/Clusters.antt =====
-- A server that keeps one database and its objects.
use questdb_operator.Prelude.{◌≡◌, true, refl, ap, sym, Option, none, some, [], ◌∷◌, arith}
use questdb_operator.Prelude.Int.{pos}
use questdb_operator.Kube.Error.{ok}
use questdb_operator.Kube.Meta.{ObjectMeta, NamespacedName, new_meta, object_key}
use questdb_operator.Kube.Exec.{State}
use questdb_operator.Kube.Objects.Storage.{PersistentVolumeClaim}
use questdb_operator.Secrets.{no_secrets}
use questdb_operator.Secrets.Laws.{secrets_of-nil}
use questdb_operator.QuestDb.Calls.{Client, ObjectApi, Call}
use questdb_operator.QuestDb.Build.Volumes.{DefaultTexts}
use questdb_operator.QuestDb.Objects.Writes.{writes}
use questdb_operator.QuestDb.Reconcile.{reconcile}
use questdb_operator.QuestDb.Reconcile.Errors.{is_clean, reconcile-Clean}
use questdb_operator.QuestDb.Store.{Cluster, found, Stores, IsLawful, IsKeyed, Desired, settle}
use questdb_operator.QuestDb.Store.Converge.{desired, reconcile-settles}
use questdb_operator.QuestDb.Store.Quiet.{reconcile-converges}
use questdb_operator.Examples.Snapshots.{meta_lib-Owns}
use questdb_operator.Examples.Data.{meta_lib, questdb_of}

abbrev kept : {T : Type 0} → (Cluster → Option T) → (T → Cluster → Cluster) → ObjectApi Cluster T
kept view place = record {
  get = λ ns c. (found (view c), c);
  create = λ t c. (ok t, place t c);
  update = λ t c. (ok t, place t c);
}

abbrev pub memory : Client Cluster
memory = record {
  get_questdb = λ ns c. (found c.questdb, c);
  update_questdb_status = λ q c. (ok q, record c { questdb = some q });
  list_secrets = λ ns c. (ok c.secrets, c);
  stateful_sets = kept (λ c. c.stateful_set) (λ t c. record c { stateful_set = some t });
  claims = kept (λ c. c.claim) (λ t c. record c { claim = some t });
  services = kept (λ c. c.service) (λ t c. record c { service = some t });
  config_maps = kept (λ c. c.config_map) (λ t c. record c { config_map = some t });
}

abbrev pub key : NamespacedName
key = record { namespace = "prod"; name = "db" }

kept-Stores :
    {T : Type 0} (meta_of : T → ObjectMeta) (view : Cluster → Option T)
    (place : T → Cluster → Cluster)
    → Stores (kept view place) meta_of (λ c. c) key view place
kept-Stores meta_of view place = record {
  get_answer = λ w. refl;
  get_cluster = λ w. refl;
  create_answer = λ t w k e. refl;
  create_cluster = λ t w k e. refl;
  update_answer = λ t old w k e. refl;
  update_cluster = λ t old w k e. refl;
}

pub memory-IsLawful : IsLawful memory (λ c. c) key
memory-IsLawful = record {
  questdb_answer = λ w. refl;
  questdb_cluster = λ w. refl;
  secrets_answer = λ w. refl;
  secrets_cluster = λ w. refl;
  status_answer = λ q w k. refl;
  status_cluster = λ q w k. refl;
  config_maps =
      kept-Stores (λ t. t.meta) (λ c. c.config_map) (λ t c. record c { config_map = some t });
  claims = kept-Stores (λ t. t.meta) (λ c. c.claim) (λ t c. record c { claim = some t });
  stateful_sets =
      kept-Stores (λ t. t.meta) (λ c. c.stateful_set) (λ t c. record c { stateful_set = some t });
  services = kept-Stores (λ t. t.meta) (λ c. c.service) (λ t c. record c { service = some t });
}

abbrev pub texts : DefaultTexts
texts = record { default_log_conf = []; mime_types = [] }

abbrev small_claim : PersistentVolumeClaim
small_claim = record {
  meta = new_meta "db" "prod" none;
  spec = record {
    access_modes = "ReadWriteOnce" ∷ [];
    storage_class_name = some "standard";
    volume_name = "";
    selector = none;
    storage_request = record { value = pos 5; form = "" };
    data_source = none;
  };
}

-- A database whose claim is too small, and that has no other object yet.
abbrev pub small : Cluster
small = record {
  questdb = some (questdb_of 10);
  secrets = [];
  config_map = none;
  claim = some small_claim;
  stateful_set = none;
  service = none;
}

claim_key : Option PersistentVolumeClaim → NamespacedName
claim_key none = key
claim_key (some t) = object_key t.meta

pub small-IsKeyed : IsKeyed key small
unfolding claim_key
small-IsKeyed = record {
  claim_key = λ t e. sym (ap claim_key e);
  set_key = λ t e. ground (arith, e);
}

abbrev pub wanted : Desired meta_lib texts (questdb_of 10) no_secrets
wanted = desired meta_lib meta_lib-Owns texts (questdb_of 10) no_secrets

abbrev start : State Cluster Call
start = record { world = small; log = [] }

reconcile-settles_example :
    let (answer, s') = reconcile memory meta_lib texts key start in
    (answer ≡ ok tt) × (s'.world ≡ settle (questdb_of 10) wanted small)
reconcile-settles_example =
    reconcile-settles memory meta_lib texts (questdb_of 10) no_secrets wanted (λ c. c)
      memory-IsLawful start refl (secrets_of-nil "db") small-IsKeyed

reconcile-converges_example :
    let settled : State Cluster Call = record {
      world = (reconcile memory meta_lib texts key start).1.world;
      log = [];
    } in
    let (answer, s') = reconcile memory meta_lib texts key settled in
    (answer ≡ ok tt) × (writes s'.log ≡ []) × (s'.world ≡ settled.world)
reconcile-converges_example =
    reconcile-converges memory meta_lib texts (questdb_of 10) no_secrets wanted (λ c. c)
      memory-IsLawful start refl (secrets_of-nil "db") small-IsKeyed

reconcile-Clean_example : is_clean (reconcile memory meta_lib texts key start).1.log ≡ true
reconcile-Clean_example =
    reconcile-Clean memory meta_lib texts key small (reconcile-settles_example.0)
