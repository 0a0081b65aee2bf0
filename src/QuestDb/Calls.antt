-- ===== src/QuestDb/Calls.antt =====
-- The calls that the QuestDB controller makes.
use questdb_operator.Prelude.{String, Option, List, ◌∷◌}
use questdb_operator.Kube.Error.{Error, Result, ok}
use questdb_operator.Kube.Meta.{NamespacedName}
use questdb_operator.Kube.Exec.{Exec}
use questdb_operator.Kube.Objects.Workload.{StatefulSet, Service, ConfigMap, Secret}
use questdb_operator.Kube.Objects.Storage.{PersistentVolumeClaim}
use questdb_operator.Api.Types.{QuestDb}

-- `Get`, `Create` and `Update` for one kind of object. The last two answer with the stored object.
pub record ObjectApi (W T : Type 0) : Type 0 where
  pub get : NamespacedName → W → Result T × W
  pub create : T → W → Result T × W
  pub update : T → W → Result T × W

pub record Client (W : Type 0) : Type 0 where
  pub get_questdb : NamespacedName → W → Result QuestDb × W
  pub update_questdb_status : QuestDb → W → Result QuestDb × W
  pub list_secrets : String → W → Result (List Secret) × W
  pub stateful_sets : ObjectApi W StatefulSet
  pub claims : ObjectApi W PersistentVolumeClaim
  pub services : ObjectApi W Service
  pub config_maps : ObjectApi W ConfigMap

pub data Object : Type 0 where
  stateful_set : StatefulSet → Object
  claim : PersistentVolumeClaim → Object
  service : Service → Object
  config_map : ConfigMap → Object

pub data EventType : Type 0 where
  normal warning : EventType

-- A call, with what it wrote, and the error that it was answered with. Reads are all of the key of
-- the database.
pub data Call : Type 0 where
  read : NamespacedName → Option Error → Call
  created : Object → Option Error → Call
  updated : Object → Option Error → Call
  updated_status : QuestDb → Option Error → Call
  listed_secrets : String → Option Error → Call
  event : EventType → String → Call

abbrev pub Handler : Type 0 → Type 0 → Type 0
Handler W A = Exec W Call A

-- `r.Recorder.Event`
abbrev pub record_event : {W : Type 0} → EventType → String → Handler W (Unit {0})
record_event type reason s = (ok tt, record s { log = event type reason ∷ s.log })
