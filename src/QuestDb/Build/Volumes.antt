-- ===== src/QuestDb/Build/Volumes.antt =====
-- `buildPvc`, `buildDbConfigSuffix` and `buildConfigMap`.
pub mod Laws
pub mod Conf
use questdb_operator.Prelude.{ℕ, not, Option, none, some, List, [], ◌∷◌, ◌++◌, ◌==◌, if◌then◌else◌}
use questdb_operator.Kube.Error.{Result, ok, err}
use questdb_operator.Kube.Meta.{MetaLib, new_meta}
use questdb_operator.Kube.Objects.Workload.{ConfigMap, Secret}
use questdb_operator.Kube.Objects.Storage.{PersistentVolumeClaim}
use questdb_operator.Api.Types.{QuestDb}
use questdb_operator.Api.Config.{bytes, newline}
use questdb_operator.Secrets.{QuestDbSecrets}
use questdb_operator.QuestDb.Build.Pods.{owned_meta}

-- The branches on optional fields leave the zero value, which is the empty field.
pub claim : QuestDb → PersistentVolumeClaim
claim q = record {
  meta = new_meta q.meta.name q.meta.namespace q.meta.labels;
  spec = record {
    access_modes = "ReadWriteOnce" ∷ [];
    storage_class_name = q.spec.volume.storage_class_name;
    volume_name = q.spec.volume.volume_name;
    selector = q.spec.volume.selector;
    storage_request = q.spec.volume.size;
    data_source =
        if not (q.spec.volume.snapshot_name == "")
        then some (record {
          api_group = "snapshot.storage.k8s.io";
          kind = "VolumeSnapshot";
          name = q.spec.volume.snapshot_name;
        })
        else none;
  };
}

unfoldable pub build_pvc : MetaLib → QuestDb → Result PersistentVolumeClaim
build_pvc lib q = elim (owned_meta lib q (claim q).meta) [
  | ok meta ↦ ok (record (claim q) { meta = meta })
  | err e ↦ err e
]

abbrev ilp_auth_line : Option Secret → List ℕ
ilp_auth_line none = []
ilp_auth_line (some s) = bytes "ilp.auth.file=/var/lib/questdb/auth/auth.json" ++ newline ∷ []

pub db_config_suffix : QuestDbSecrets → List ℕ
db_config_suffix s =
    newline
    ∷ (bytes "### Reserved values -- set by the operator ###"
        ++ newline ∷ ilp_auth_line s.ilp_secret)

-- The literals of const.go, which the operator copies.
pub record DefaultTexts : Type 0 where
  pub default_log_conf : List ℕ
  pub mime_types : List ℕ

abbrev or_default : List ℕ → List ℕ → List ℕ
or_default [] d = d
or_default (c ∷ text) d = c ∷ text

-- The entries stand in the order of their keys.
pub config_map_object : DefaultTexts → QuestDb → QuestDbSecrets → ConfigMap
config_map_object texts q s = record {
  meta = new_meta q.meta.name q.meta.namespace q.meta.labels;
  contents =
      ("log.conf", or_default q.spec.config.log_config texts.default_log_conf)
      ∷ ("mime.types", texts.mime_types)
      ∷ ("server.conf", q.spec.config.server_config ++ db_config_suffix s)
      ∷ [];
}

unfoldable pub build_config_map :
    MetaLib → DefaultTexts → QuestDb → QuestDbSecrets → Result ConfigMap
build_config_map lib texts q s = elim (owned_meta lib q (config_map_object texts q s).meta) [
  | ok meta ↦ ok (record (config_map_object texts q s) { meta = meta })
  | err e ↦ err e
]
