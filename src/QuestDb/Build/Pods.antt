-- ===== src/QuestDb/Build/Pods.antt =====
-- `buildStatefulSet` and `buildService`.
pub mod Laws
use questdb_operator.Prelude.{
  ℕ, String, Bool, Option, none, some, List, [], ◌∷◌, ◌++◌, ◌==◌, if◌then◌else◌,
}
use questdb_operator.Prelude.Int.{ℤ, pos}
use questdb_operator.Kube.Error.{Error, Result, ok, err, panicked}
use questdb_operator.Kube.Meta.{ObjectMeta, MetaLib, new_meta}
use questdb_operator.Kube.Objects.Pod.{
  Container, ContainerPort, Probe, PodTemplateSpec, PodSpec, Volume, VolumeMount, VolumeSource,
  persistent_volume_claim, config_map, secret,
}
use questdb_operator.Kube.Objects.Workload.{StatefulSet, Service, ServicePort, Secret}
use questdb_operator.Api.Types.{QuestDb}
use questdb_operator.Api.QuestDbWebhook.{pull_if_not_present}
use questdb_operator.Secrets.{QuestDbSecrets}

abbrev tcp_port : String → ℕ → ContainerPort
tcp_port name port = record { name = name; container_port = port; protocol = "TCP" }

pub container_ports : List ContainerPort
container_ports =
    tcp_port "http" 9000 ∷ tcp_port "psql" 8812 ∷ tcp_port "ilp" 9009 ∷ tcp_port "metrics" 9003 ∷ []

-- The probes differ in the failures that they allow.
abbrev status_probe : ℕ → Probe
status_probe failure_threshold = record {
  failure_threshold = failure_threshold;
  initial_delay_seconds = 5;
  period_seconds = 10;
  timeout_seconds = 2;
  success_threshold = 1;
  path = "/status";
  port = 9003;
  scheme = "HTTP";
}

abbrev mount : String → String → VolumeMount
mount name path = record { name = name; mount_path = path; options = none }

abbrev volume : String → VolumeSource → Volume
volume name source = record { name = name; source = source }

-- What a secret adds, if it is there.
abbrev ilp_mounts : Option Secret → List VolumeMount
ilp_mounts none = []
ilp_mounts (some s) = mount "ilp" "/var/lib/questdb/auth" ∷ []

abbrev ilp_volumes : Option Secret → List Volume
ilp_volumes none = []
ilp_volumes (some s) = volume "ilp" (secret s.meta.name) ∷ []

abbrev psql_env_from : Option Secret → List String
psql_env_from none = []
psql_env_from (some s) = s.meta.name ∷ []

pub volume_mounts : QuestDb → QuestDbSecrets → List VolumeMount
volume_mounts q s =
    (mount "data" "/var/lib/questdb/db"
      ∷ mount "config" "/var/lib/questdb/conf"
      ∷ q.spec.extra_volume_mounts)
    ++ ilp_mounts s.ilp_secret

pub volumes : QuestDb → QuestDbSecrets → List Volume
volumes q s =
    (volume "data" (persistent_volume_claim q.meta.name)
      ∷ volume "config" (config_map q.meta.name 0o420)
      ∷ q.spec.extra_volumes)
    ++ ilp_volumes s.ilp_secret

questdb_container : QuestDb → QuestDbSecrets → Container
questdb_container q s = record {
  name = "questdb";
  image = q.spec.image;
  image_pull_policy =
      if q.spec.image_pull_policy == "" then pull_if_not_present else q.spec.image_pull_policy;
  command = [];
  env = q.spec.extra_env;
  env_from = psql_env_from s.psql_secret;
  ports = container_ports;
  resources = some q.spec.resources;
  liveness_probe = some (status_probe 5);
  readiness_probe = some (status_probe 3);
  termination_message_path = "/dev/termination-log";
  termination_message_policy = "File";
  volume_mounts = volume_mounts q s;
}

pod_spec : QuestDb → QuestDbSecrets → PodSpec
pod_spec q s = record {
  affinity = q.spec.affinity;
  containers = questdb_container q s ∷ [];
  image_pull_secrets = q.spec.image_pull_secrets;
  node_selector = q.spec.node_selector;
  restart_policy = "";
  security_context = some q.spec.pod_security_context;
  tolerations = q.spec.tolerations;
  volumes = volumes q s;
}

-- The object before it has an owner. Its status is empty.
pub stateful_set : QuestDb → QuestDbSecrets → StatefulSet
unfolding pod_spec questdb_container
stateful_set q s = record {
  meta = record (new_meta q.meta.name q.meta.namespace q.meta.labels) {
    annotations = q.spec.stateful_set_annotations;
  };
  spec = record {
    service_name = q.meta.name;
    replicas = pos 1;
    selector = q.meta.labels;
    template = record {
      meta = record {
        name = q.meta.name;
        namespace = q.meta.namespace;
        labels = q.meta.labels;
        annotations = q.spec.pod_annotations;
      };
      spec = pod_spec q s;
    };
  };
  ready_replicas = pos 0;
}

pub service_object : QuestDb → Service
service_object q = record {
  meta = new_meta q.meta.name q.meta.namespace q.meta.labels;
  ports =
      record { name = "http"; port = 9000 }
      ∷ record { name = "psql"; port = 8812 }
      ∷ record { name = "ilp"; port = 9009 }
      ∷ record { name = "metrics"; port = 9003 }
      ∷ [];
  selector = q.meta.labels;
}

-- `ctrl.SetControllerReference(q, &obj, r.Scheme)`, which panics where it fails.
abbrev pub owned_meta : MetaLib → QuestDb → ObjectMeta → Result ObjectMeta
owned_meta lib q meta = elim (MetaLib.set_controller_reference lib q.meta meta) [
  | ok meta' ↦ ok meta'
  | err e ↦ err panicked
]

unfoldable pub build_stateful_set : MetaLib → QuestDb → QuestDbSecrets → Result StatefulSet
build_stateful_set lib q s = elim (owned_meta lib q (stateful_set q s).meta) [
  | ok meta ↦ ok (record (stateful_set q s) { meta = meta })
  | err e ↦ err e
]

unfoldable pub build_service : MetaLib → QuestDb → Result Service
build_service lib q = elim (owned_meta lib q (service_object q).meta) [
  | ok meta ↦ ok (record (service_object q) { meta = meta })
  | err e ↦ err e
]
