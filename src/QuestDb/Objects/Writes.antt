-- ===== src/QuestDb/Objects/Writes.antt =====
-- What the controller writes, by what it finds.
use questdb_operator.Prelude.{
  ◌≡◌, inl, inr, true, List, [], ◌∷◌, ◌++◌, arith, if◌then◌else◌, deep_equal,
}
use questdb_operator.Kube.Error.{Error, Result, Result-cases, ok, err, is_not_found}
use questdb_operator.Kube.Meta.{MetaLib, object_key}
use questdb_operator.Kube.Exec.{State}
use questdb_operator.Kube.Objects.Workload.{StatefulSet, Service, ConfigMap}
use questdb_operator.Kube.Objects.Storage.{PersistentVolumeClaim, same_quantity}
use questdb_operator.Api.Types.{QuestDb}
use questdb_operator.Secrets.{QuestDbSecrets}
use questdb_operator.QuestDb.Calls.{
  Client, Call, Object, created, updated, stateful_set, claim, service, config_map,
}
use questdb_operator.QuestDb.Build.Pods.{build_stateful_set, build_service}
use questdb_operator.QuestDb.Build.Volumes.{DefaultTexts, build_pvc, build_config_map}
use questdb_operator.QuestDb.Objects.{
  Contents-discrete, reconcile_config_map, reconcile_pvc, reconcile_stateful_set, reconcile_service,
  update_ready_replicas,
}
use questdb_operator.QuestDb.Objects.Merge.{merge_stateful_set, merge_stateful_set_self}

-- The objects that were written, the last first, whether the server took them or not.
abbrev pub writes : List Call → List Object
writes [] = []
writes (created obj _ ∷ calls) = obj ∷ writes calls
writes (updated obj _ ∷ calls) = obj ∷ writes calls
writes (_ ∷ calls) = writes calls

module _ {W : Type 0} (client : Client W) (lib : MetaLib) (q : QuestDb) (secrets : QuestDbSecrets)
    (w : W) where
  abbrev start : State W Call
  start = record { world = w; log = [] }

  abbrev run_stateful_set : List Call
  run_stateful_set = (reconcile_stateful_set client lib q secrets start).1.log

  -- What is written for a stateful set that is wanted, by what `Get` answers.
  abbrev pub stateful_set_writes : StatefulSet → Result StatefulSet → List Object
  stateful_set_writes desired (ok actual) =
      let (merged, needs_update) = merge_stateful_set desired actual in
      if needs_update then stateful_set merged ∷ [] else []
  stateful_set_writes desired (err e) = if is_not_found e then stateful_set desired ∷ [] else []

  writes-update_ready_replicas :
      (actual : StatefulSet) (s : State W Call)
      → writes (update_ready_replicas client lib q actual s).1.log ≡ writes s.log
  unfolding update_ready_replicas
  writes-update_ready_replicas actual s = ground arith

  -- If the desired stateful set can be built, it is written if there is none, the one that is
  -- there is written once, brought up to date, if that changes it, and nothing is written
  -- otherwise.
  pub writes-reconcile_stateful_set :
      (desired : StatefulSet)
      → build_stateful_set lib q secrets ≡ ok desired
      → writes run_stateful_set
        ≡ stateful_set_writes desired (client.stateful_sets.get (object_key q.meta) w).0
  unfolding reconcile_stateful_set
  writes-reconcile_stateful_set desired b =
      let (found, w₁) = client.stateful_sets.get (object_key q.meta) w in
      let (answer, w₂) = client.stateful_sets.create desired w₁ in
      elim (Result-cases answer) [
        | inr (e, refused) ↦ ground arith
        | inl (x, stored) ↦ ground (arith, merge_stateful_set_self x)
      ]

  abbrev pub config_map_writes : ConfigMap → Result ConfigMap → List Object
  config_map_writes desired (ok actual) =
      if deep_equal Contents-discrete actual.contents desired.contents
      then []
      else config_map desired ∷ []
  config_map_writes desired (err e) = if is_not_found e then config_map desired ∷ [] else []

  -- If the desired config map can be built, it is written if there is none or its contents differ
  -- from those of the one that is there, and nothing is written otherwise.
  pub writes-reconcile_config_map :
      (texts : DefaultTexts) (desired : ConfigMap)
      → build_config_map lib texts q secrets ≡ ok desired
      → writes (reconcile_config_map client lib texts q secrets start).1.log
        ≡ config_map_writes desired (client.config_maps.get (object_key q.meta) w).0
  unfolding reconcile_config_map
  writes-reconcile_config_map texts desired b = ground arith

  abbrev pub service_writes : Service → Result Service → List Object
  service_writes desired (ok actual) = []
  service_writes desired (err e) = if is_not_found e then service desired ∷ [] else []

  pub writes-reconcile_service :
      (desired : Service)
      → build_service lib q ≡ ok desired
      → writes (reconcile_service client lib q start).1.log
        ≡ service_writes desired (client.services.get (object_key q.meta) w).0
  unfolding reconcile_service
  writes-reconcile_service desired b = ground arith

  -- The claim with the size that the database asks for.
  abbrev pub resized : PersistentVolumeClaim → PersistentVolumeClaim
  resized c = record c { spec = record c.spec { storage_request = q.spec.volume.size } }

  abbrev pub resize_writes : PersistentVolumeClaim → List Object
  resize_writes c =
      if same_quantity c.spec.storage_request q.spec.volume.size then [] else claim (resized c) ∷ []

  -- For a claim that is there, nothing is written but the claim with the size of the volume for
  -- its request, and that only if the request differs.
  pub writes-reconcile_pvc-found :
      (actual : PersistentVolumeClaim)
      → (client.claims.get (object_key q.meta) w).0 ≡ ok actual
      → writes (reconcile_pvc client lib q start).1.log ≡ resize_writes actual
  unfolding reconcile_pvc
  writes-reconcile_pvc-found actual found = ground arith

  -- If no claim is there, the desired one can be built, and the server takes it, then it is
  -- created, and the claim that the server stored is written once more if its request is not the
  -- size of the volume.
  pub writes-reconcile_pvc-missing :
      (e : Error) (desired stored : PersistentVolumeClaim)
      → (client.claims.get (object_key q.meta) w).0 ≡ err e
      → is_not_found e ≡ true
      → build_pvc lib q ≡ ok desired
      → (client.claims.create desired (client.claims.get (object_key q.meta) w).1).0 ≡ ok stored
      → writes (reconcile_pvc client lib q start).1.log ≡ resize_writes stored ++ claim desired ∷ []
  unfolding reconcile_pvc
  writes-reconcile_pvc-missing e desired stored missing gone b c = ground arith
