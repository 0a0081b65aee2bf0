-- ===== src/Examples/Data.antt =====
-- Objects and a metadata library that the examples share.
use questdb_operator.Prelude.{
  ℕ, String, Bool, true, not, ◌&&◌, ◌==◌, none, some, List, [], ◌∷◌, any, keep, ap, arith,
}
use questdb_operator.Prelude.Int.{pos}
use text.Mathlib.TextPositions.{eq_refl}
use questdb_operator.Kube.Error.{ok}
use questdb_operator.Kube.Meta.{Blob, MetaLib, OwnerLaws, new_meta}
use questdb_operator.Kube.Objects.Pod.{secret}
use questdb_operator.Kube.Objects.Workload.{Secret}
use questdb_operator.Api.Types.{
  QuestDb, QuestDbSpec, QuestDbVolumeSpec, QuestDbSnapshot, QuestDbSnapshotSpec, SnapshotPhase,
  QuestDbSnapshotSchedule, empty, annotation_questdb_name, annotation_questdb_secret_type,
}

abbrev pub finalizer_in : String → List String → Bool
finalizer_in f = any (λ g. g == f)

abbrev pub meta_lib : MetaLib
meta_lib = record {
  contains_finalizer = λ m f. finalizer_in f m.finalizers;
  add_finalizer = λ m f. record m { finalizers = f ∷ m.finalizers };
  remove_finalizer = λ m f. (
    record m { finalizers = keep (λ g. not (g == f)) m.finalizers },
    finalizer_in f m.finalizers,
  );
  set_controller_reference = λ owner m. ok (record m {
    owner_references = record { uid = owner.uid; controller = true } ∷ m.owner_references;
  });
  is_controlled_by = λ m owner. any (λ r. r.uid == owner.uid && r.controller) m.owner_references;
}

abbrev pub empty_blob : Blob
empty_blob = record { text = "" }

abbrev pub volume_of : ℕ → QuestDbVolumeSpec
volume_of size = record {
  selector = none;
  size = record { value = pos size; form = "" };
  volume_name = "";
  storage_class_name = some "standard";
  snapshot_name = "";
}

abbrev pub spec_of : ℕ → QuestDbSpec
spec_of size = record {
  volume = volume_of size;
  config = record { server_config = []; log_config = [] };
  image = "questdb/questdb";
  affinity = none;
  extra_env = [];
  extra_volume_mounts = record { name = "tls"; mount_path = "/tls"; options = none } ∷ [];
  extra_volumes = record { name = "tls"; source = secret "tls" } ∷ [];
  image_pull_policy = "Always";
  image_pull_secrets = empty_blob;
  node_selector = none;
  pod_annotations = none;
  pod_security_context = record { fs_group = none; rest = empty_blob };
  resources = empty_blob;
  stateful_set_annotations = none;
  tolerations = empty_blob;
}

abbrev pub questdb_of : ℕ → QuestDb
questdb_of size = record {
  meta = new_meta "db" "prod" none;
  spec = spec_of size;
  status = record { stateful_set_ready_replicas = pos 0 };
}

abbrev pub snapshot_spec : QuestDbSnapshotSpec
snapshot_spec = record {
  questdb_name = "db";
  volume_snapshot_class_name = some "csi";
  job_backoff_limit = pos 5;
}

abbrev pub snapshot_in : SnapshotPhase → QuestDbSnapshot
snapshot_in phase = record {
  meta = new_meta "snap" "prod" none;
  spec = snapshot_spec;
  phase = phase;
}

-- A secret of the database, by its type and its one key.
abbrev pub secret_of : String → String → Secret
secret_of kind key = record {
  meta = record (new_meta "credentials" "prod" none) {
    annotations =
        some ((annotation_questdb_name, "db") ∷ (annotation_questdb_secret_type, kind) ∷ []);
  };
  contents = some ((key, "value") ∷ []);
}

abbrev pub schedule_of : QuestDbSnapshotSchedule
schedule_of = record {
  meta = record (new_meta "nightly" "prod" none) { creation_timestamp = 10; uid = "u" };
  spec = record { schedule = "0 0 * * *"; retention = pos 1; snapshot = snapshot_spec };
  status = record { last_snapshot = 0; snapshot_phase = empty };
}

abbrev pub two_secrets : List Secret
two_secrets = secret_of "ilp" "auth.json" ∷ secret_of "ilp" "auth.json" ∷ []

pub meta_lib-OwnerLaws : OwnerLaws meta_lib
meta_lib-OwnerLaws = record {
  controls = λ owner m m' e. grind (arith, e, eq_refl owner.uid);
  by_uid = λ owner owner' m e. ap (λ u. any (λ r. r.uid == u && r.controller) m.owner_references) e;
}
