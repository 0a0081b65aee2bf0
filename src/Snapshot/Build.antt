-- ===== src/Snapshot/Build.antt =====
-- The objects that the snapshot controller creates: two jobs and a volume snapshot.
pub mod Laws
use questdb_operator.Prelude.{String, Option, none, some, [], ◌∷◌}
use questdb_operator.Prelude.Int.{pos, add_int32}
use questdb_operator.Prelude.Text.{format2, dashed}
use questdb_operator.Kube.Error.{Result, ok, err}
use questdb_operator.Kube.Meta.{MetaLib, new_meta, object_key, find_key}
use questdb_operator.Kube.Exec.{lift, call!, ◌>>=◌}
use questdb_operator.Kube.Objects.Pod.{EnvVar, Container, PodTemplateSpec}
use questdb_operator.Kube.Objects.Workload.{Job, Secret}
use questdb_operator.Kube.Objects.Storage.{VolumeSnapshot}
use questdb_operator.Api.Types.{QuestDbSnapshot}
use questdb_operator.Secrets.{get_secrets}
use questdb_operator.Snapshot.Calls.{Client, Handler, listed_secrets}

abbrev pub pre_snapshot : String
pre_snapshot = "pre-snapshot"

abbrev pub post_snapshot : String
post_snapshot = "post-snapshot"

abbrev or_else : Option String → String → String
or_else none d = d
or_else (some v) d = v

-- `if s.PsqlSecret != nil { if val, found := s.PsqlSecret.Data[key]; found { … } }`
abbrev pub credential : Option Secret → String → String → String
credential none key d = d
credential (some s) key d = or_else (find_key s.contents key) d

abbrev env : String → String → EnvVar
env name value = record { name = name; value = value; value_from = none }

psql_container : QuestDbSnapshot → String → String → String → Container
psql_container snap user password command = record {
  name = "psql";
  image = "postgres:13.3";
  image_pull_policy = "";
  command = "psql" ∷ "-c" ∷ command ∷ [];
  env =
      env "PGHOST" (
        format2 snap.spec.questdb_name
          (format2 "." (format2 snap.meta.namespace ".svc.cluster.local")))
      ∷ env "PGUSER" user
      ∷ env "PGPASSWORD" password
      ∷ env "PGDATABASE" "qdb"
      ∷ env "PGPORT" "8812"
      ∷ [];
  env_from = [];
  ports = [];
  resources = none;
  liveness_probe = none;
  readiness_probe = none;
  termination_message_path = "";
  termination_message_policy = "";
  volume_mounts = [];
}

job_template : QuestDbSnapshot → String → Container → PodTemplateSpec
job_template snap name container = record {
  meta = record {
    name = name;
    namespace = snap.meta.namespace;
    labels = snap.meta.labels;
    annotations = none;
  };
  spec = record {
    affinity = none;
    containers = container ∷ [];
    image_pull_secrets = record { text = "" };
    node_selector = none;
    restart_policy = "Never";
    security_context = none;
    tolerations = record { text = "" };
    volumes = [];
  };
}

-- The literal of `buildGenericSnapshotJob`. Its status is empty.
pub snapshot_job : QuestDbSnapshot → Option Secret → String → String → Job
unfolding job_template psql_container
snapshot_job snap psql name_suffix command =
    let name = dashed snap.meta.name name_suffix in
    record {
      meta = new_meta name snap.meta.namespace snap.meta.labels;
      spec = record {
        completions = pos 1;
        backoff_limit = add_int32 snap.spec.job_backoff_limit (pos 2);
        template = job_template snap name (
            psql_container snap (credential psql "QDB_PSQL_USER" "admin")
              (credential psql "QDB_PSQL_PASSWORD" "quest") command);
      };
      status = record { succeeded = pos 0; failed = pos 0 };
    }

-- `ctrl.SetControllerReference` on a job.
abbrev own_job : MetaLib → QuestDbSnapshot → Job → Result Job
own_job lib snap job = elim (MetaLib.set_controller_reference lib snap.meta job.meta) [
  | ok meta ↦ ok (record job { meta = meta })
  | err e ↦ err e
]

module _ {W : Type 0} (client : Client W) (lib : MetaLib) where
  -- The secrets are looked up by the key of the snapshot.
  unfoldable pub build_generic_snapshot_job : QuestDbSnapshot → String → String → Handler W Job
  unfolding get_secrets
  build_generic_snapshot_job snap name_suffix command = do
    s ←
        get_secrets (λ ns. call! (listed_secrets ns) (client.list_secrets ns))
          (object_key snap.meta)
    lift (own_job lib snap (snapshot_job snap s.psql_secret name_suffix command))

  unfoldable pub build_pre_snapshot_job : QuestDbSnapshot → Handler W Job
  unfolding build_generic_snapshot_job
  build_pre_snapshot_job snap = build_generic_snapshot_job snap pre_snapshot "SNAPSHOT PREPARE;"

  unfoldable pub build_post_snapshot_job : QuestDbSnapshot → Handler W Job
  unfolding build_generic_snapshot_job
  build_post_snapshot_job snap = build_generic_snapshot_job snap post_snapshot "SNAPSHOT COMPLETE;"

-- The literal of `buildVolumeSnapshot`.
pub volume_snapshot : QuestDbSnapshot → VolumeSnapshot
volume_snapshot snap = record {
  meta = new_meta snap.meta.name snap.meta.namespace snap.meta.labels;
  claim_name = some snap.spec.questdb_name;
  class_name = snap.spec.volume_snapshot_class_name;
  status = none;
}

unfoldable pub build_volume_snapshot : MetaLib → QuestDbSnapshot → Result VolumeSnapshot
build_volume_snapshot lib snap =
    let vol_snap = volume_snapshot snap in
    elim (MetaLib.set_controller_reference lib snap.meta vol_snap.meta) [
      | ok meta ↦ ok (record vol_snap { meta = meta })
      | err e ↦ err e
    ]
