-- ===== src/Manager.antt =====
-- cmd/main.go, and what the controllers and webhooks register with the manager.
pub mod Laws
pub mod Owned
mod Examples
use questdb_operator.Prelude.{ℕ, String, Bool, true, false, Option, none, some, List, [], ◌∷◌}
use questdb_operator.Kube.Error.{error_of, Error, Result, ok, err}
use questdb_operator.Kube.Meta.{NamespacedName}
use questdb_operator.Kube.Exec.{Exec, call!, ◌>>=◌, ◌>>◌}
use questdb_operator.Kube.Objects.Workload.{Secret}
use questdb_operator.Secrets.{check_secret_for_qdb}

-- The types of objects.
pub data Kind : Type 0 where
  questdb snapshot schedule stateful_set claim service config_map secret volume_snapshot job : Kind

-- `Watches`: the requests for a changed secret, and whether those are left out that have the same
-- resource version as before.
pub record SecretWatch : Type 0 where
  pub requests : Secret → List NamespacedName
  pub resource_version_changed : Bool

-- `ctrl.NewControllerManagedBy`: `For`, `Owns` and `Watches`.
pub record Controller : Type 0 where
  pub for_kind : Kind
  pub owned : List Kind
  pub watched : Option SecretWatch

-- `SetupWithManager` of the three reconcilers.
unfoldable pub questdb_controller : Controller
questdb_controller = record {
  for_kind = questdb;
  owned = stateful_set ∷ claim ∷ service ∷ config_map ∷ [];
  watched = some (record { requests = check_secret_for_qdb; resource_version_changed = true });
}

pub snapshot_controller : Controller
snapshot_controller = record {
  for_kind = snapshot;
  owned = volume_snapshot ∷ job ∷ [];
  watched = none;
}

pub schedule_controller : Controller
schedule_controller = record { for_kind = schedule; owned = snapshot ∷ []; watched = none }

-- `ctrl.NewWebhookManagedBy(mgr).For(r)`: `SetupWebhookWithManager` of the three types.
pub record Webhook : Type 0 where
  pub for_kind : Kind

pub questdb_webhook : Webhook
questdb_webhook = record { for_kind = questdb }

pub snapshot_webhook : Webhook
snapshot_webhook = record { for_kind = snapshot }

pub schedule_webhook : Webhook
schedule_webhook = record { for_kind = schedule }

-- The flags, and the options of the manager.
pub record Flags : Type 0 where
  pub metrics_addr : String
  pub probe_addr : String
  pub enable_leader_election : Bool
  pub cert_dir : String

pub default_flags : Flags
default_flags = record {
  metrics_addr = ":8080";
  probe_addr = ":8081";
  enable_leader_election = false;
  cert_dir = "/tmp/k8s-webhook-server/serving-certs";
}

pub record Options : Type 0 where
  pub metrics_bind_address : String
  pub port : ℕ
  pub health_probe_bind_address : String
  pub cert_dir : String
  pub leader_election : Bool
  pub leader_election_id : String

pub options_of : Flags → Options
options_of flags = record {
  metrics_bind_address = flags.metrics_addr;
  port = 9443;
  health_probe_bind_address = flags.probe_addr;
  cert_dir = flags.cert_dir;
  leader_election = flags.enable_leader_election;
  leader_election_id = "c6e41798.questdb.io";
}

-- The packages whose types are added to the scheme.
pub data TypePackage : Type 0 where
  client_go volume_snapshot_v1 crd_v1beta1 : TypePackage

-- What `init` and `main` ask of the libraries.
pub data Step : Type 0 where
  add_to_scheme : TypePackage → Step
  new_manager : Options → Step
  setup_controller : Controller → Step
  setup_webhook : Webhook → Step
  add_healthz_check add_readyz_check : String → Step
  start : Step

-- A step, and the error that it was answered with.
pub record Call : Type 0 where
  pub step : Step
  pub error : Option Error

-- The scheme and the manager of controller-runtime.
abbrev pub Manager : Type 0 → Type 0
Manager W = Step → W → Result (Unit {0}) × W

module _ {W : Type 0} (manager : Manager W) where
  -- `if err := …; err != nil { os.Exit(1) }`
  abbrev pub must : Step → Exec W Call (Unit {0})
  must step = call! (λ r. record { step = step; error = error_of r }) (manager step)

  -- `init`; `utilruntime.Must` panics at an error.
  pub init : Exec W Call (Unit {0})
  init = do
    must (add_to_scheme client_go)
    must (add_to_scheme volume_snapshot_v1)
    must (add_to_scheme crd_v1beta1)

  pub main : Flags → Exec W Call (Unit {0})
  main flags = do
    must (new_manager (options_of flags))
    must (setup_controller questdb_controller)
    must (setup_controller snapshot_controller)
    must (setup_controller schedule_controller)
    must (setup_webhook snapshot_webhook)
    must (setup_webhook questdb_webhook)
    must (setup_webhook schedule_webhook)
    must (add_healthz_check "healthz")
    must (add_readyz_check "readyz")
    must start

-- The whole process.
abbrev pub run_process : {W : Type 0} → Manager W → Flags → Exec W Call (Unit {0})
run_process manager flags = init manager >> main manager flags

-- The code that `main` exits with.
abbrev pub exit_code : Result (Unit {0}) → ℕ
exit_code (ok _) = 0
exit_code (err _) = 1
