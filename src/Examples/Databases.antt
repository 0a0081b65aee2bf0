-- ===== src/Examples/Databases.antt =====
-- A database whose objects are missing at first.
use questdb_operator.Prelude.{arith, none, ◌≡◌, ◌↔◌, refl, true, false, some, List, [], ◌∷◌, All}
use questdb_operator.Kube.Error.{ok, err, not_found, multiple_secrets, ilp}
use questdb_operator.Kube.Meta.{NamespacedName}
use questdb_operator.Kube.Exec.{State}
use questdb_operator.Kube.Objects.Workload.{Secret, StatefulSet, ConfigMap}
use questdb_operator.Api.Types.{QuestDb}
use questdb_operator.Secrets.{no_secrets}
use questdb_operator.Secrets.Examples.{two_ilp_secrets}
use questdb_operator.QuestDb.Build.Pods
use mathlib.Core.List.{Memᴰ}
use questdb_operator.QuestDb.Calls.{Client, ObjectApi, Call}
use questdb_operator.QuestDb.Build.Pods.{service_object, build_stateful_set, volumes, volume_mounts}
use questdb_operator.QuestDb.Build.Pods.Laws.{IsBacked, volume_mounts-IsBacked}
use questdb_operator.QuestDb.Build.Volumes.{config_map_object, DefaultTexts, build_config_map}
use questdb_operator.QuestDb.Build.Volumes.Laws.{content_of, operator_lines}
use questdb_operator.QuestDb.Build.Volumes.Conf.{raw_lines-config_map_object}
use questdb_operator.Api.Config.{raw_lines, validate_db_config}
use questdb_operator.QuestDb.Objects.Merge.{
  SameManaged, SameRest, merge_stateful_set, merge_stateful_set_lem,
}
use questdb_operator.QuestDb.Objects.Writes.{writes}
use questdb_operator.QuestDb.Reconcile.{reconcile}
use questdb_operator.QuestDb.Reconcile.Order.{InOrder, reconcile-InOrder, reconcile-bad_secrets}
use questdb_operator.Examples.Data.{two_secrets, meta_lib, questdb_of}

abbrev pub World : Type 0
World = Unit {0}

-- Nothing is there, and everything is taken.
abbrev pub fresh : {T : Type 0} → ObjectApi World T
fresh = record {
  get = λ ns w. (err not_found, w);
  create = λ t w. (ok t, w);
  update = λ t w. (ok t, w);
}

abbrev pub server : List Secret → Client World
server items = record {
  get_questdb = λ ns w. (ok (questdb_of 10), w);
  update_questdb_status = λ q w. (ok q, w);
  list_secrets = λ ns w. (ok items, w);
  stateful_sets = fresh;
  claims = fresh;
  services = fresh;
  config_maps = fresh;
}

abbrev pub texts : DefaultTexts
texts = record { default_log_conf = []; mime_types = [] }

abbrev key : NamespacedName
key = record { namespace = "prod"; name = "db" }

abbrev start : State World Call
start = record { world = tt; log = [] }

reconcile-InOrder_example :
    InOrder 3 (writes (reconcile (server []) meta_lib texts key start).1.log)
reconcile-InOrder_example = reconcile-InOrder (server []) meta_lib texts key start refl

reconcile-bad_secrets_example :
    ((reconcile (server two_secrets) meta_lib texts key start).0 ≡ err (multiple_secrets ilp))
    × (writes (reconcile (server two_secrets) meta_lib texts key start).1.log ≡ [])
reconcile-bad_secrets_example =
    reconcile-bad_secrets (server two_secrets) meta_lib texts key start (questdb_of 10) two_secrets
      (multiple_secrets ilp) tt tt refl refl two_ilp_secrets

abbrev old : StatefulSet
old = Pods.stateful_set (questdb_of 10) no_secrets

abbrev annotated : QuestDb
annotated = record (questdb_of 10) {
  spec = record (questdb_of 10).spec { stateful_set_annotations = some [] };
}

merge_stateful_set_lem_example :
    let (merged, needs_update) = merge_stateful_set (Pods.stateful_set annotated no_secrets) old in
    SameManaged merged (Pods.stateful_set annotated no_secrets)
    × SameRest merged old
    × ((needs_update ≡ false) ↔ SameManaged old (Pods.stateful_set annotated no_secrets))
    × ((merge_stateful_set (Pods.stateful_set annotated no_secrets) merged).1 ≡ false)
merge_stateful_set_lem_example = merge_stateful_set_lem (Pods.stateful_set annotated no_secrets) old

abbrev wanted_map : ConfigMap
wanted_map =
    let m = config_map_object texts (questdb_of 10) no_secrets in
    record m {
      meta = record m.meta {
        owner_references = record { uid = ""; controller = true } ∷ m.meta.owner_references;
      };
    }

build_map : build_config_map meta_lib texts (questdb_of 10) no_secrets ≡ ok wanted_map
unfolding build_config_map
build_map = refl

volume_mounts-IsBacked_example :
    All (IsBacked (volumes (questdb_of 10) no_secrets)) (volume_mounts (questdb_of 10) no_secrets)
volume_mounts-IsBacked_example =
    volume_mounts-IsBacked (questdb_of 10) no_secrets (Memᴰ.tail (Memᴰ.tail (Memᴰ.head refl)), tt)

-- "a=1" without a newline.
abbrev configured : QuestDb
configured = record (questdb_of 10) {
  spec = record (questdb_of 10).spec {
    config = record { server_config = 97 ∷ 61 ∷ 49 ∷ []; log_config = [] };
  };
}

raw_lines-config_map_object_example :
    let conf = content_of "server.conf" (config_map_object texts configured no_secrets).contents in
    (raw_lines conf ≡ (97 ∷ 61 ∷ 49 ∷ []) ∷ operator_lines none)
    × ((validate_db_config conf ≡ none) ↔ (validate_db_config (97 ∷ 61 ∷ 49 ∷ []) ≡ none))
raw_lines-config_map_object_example =
    raw_lines-config_map_object texts configured no_secrets [] (97 ∷ 61 ∷ 49 ∷ []) refl tt
      (ground arith) tt (omega arith)
