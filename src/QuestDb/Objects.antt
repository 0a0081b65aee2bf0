-- ===== src/QuestDb/Objects.antt =====
-- `reconcileConfigMap`, `reconcilePvc`, `reconcileStatefulSet` and `reconcileService`.
pub mod Merge
pub mod Writes
use questdb_operator.Prelude.{
  ℕ, String, Bool, true, false, not, Option, none, some, List, [], ◌∷◌, if◌then◌else◌, deep_equal,
  String-discrete, ℕ_discrete,
}
use questdb_operator.Prelude.Int.{ℤ, eq_ℤ, to_int32}
use questdb_operator.Kube.Error.{error_of, Error, Result, ok, err, is_not_found}
use questdb_operator.Kube.Meta.{MetaLib, NamespacedName, object_key}
use questdb_operator.Kube.Exec.{pure, raise, lift, call, call!, ◌>>=◌, ◌>>◌}
use questdb_operator.Kube.Objects.Workload.{StatefulSet, Service, ConfigMap}
use questdb_operator.Kube.Objects.Storage.{PersistentVolumeClaim, same_quantity}
use questdb_operator.Api.Types.{QuestDb}
use questdb_operator.Secrets.{QuestDbSecrets}
use questdb_operator.QuestDb.Calls
use questdb_operator.QuestDb.Calls.{
  Client, ObjectApi, Handler, Object, normal, warning, record_event,
}
use questdb_operator.QuestDb.Build.Pods.{build_stateful_set, build_service}
use questdb_operator.QuestDb.Build.Volumes.{DefaultTexts, build_pvc, build_config_map}
use Merge.{merge_stateful_set}

pub Contents-discrete : Discrete (List (String × List ℕ))
Contents-discrete = hlevel (String-discrete, ℕ_discrete)

module _ {W T : Type 0} (api : ObjectApi W T) (tag : T → Object) where
  abbrev read_object : NamespacedName → Handler W (Result T)
  read_object key = call (λ r. Calls.read key (error_of r)) (api.get key)

  -- A write, with an event for its failure and one for its success. An empty reason is no event.
  abbrev write_object :
      (T → Option Error → Calls.Call)
      → (T → W → Result T × W)
      → T
      → Handler W (Unit {0})
      → Handler W (Unit {0})
      → Handler W T
  write_object entry op obj on_failure on_success = do
    answer ← call (λ r. entry obj (error_of r)) (op obj)
    elim answer [ err e ↦ (do on_failure; raise e) | ok stored ↦ (do on_success; pure stored) ]

  abbrev create_object : T → Handler W (Unit {0}) → Handler W (Unit {0}) → Handler W T
  create_object = write_object (λ obj. Calls.created (tag obj)) api.create

  abbrev update_object : T → Handler W (Unit {0}) → Handler W (Unit {0}) → Handler W T
  update_object = write_object (λ obj. Calls.updated (tag obj)) api.update

abbrev none_or_error : {W T : Type 0} → Result T → Handler W T → Handler W T
none_or_error (ok actual) create = pure actual
none_or_error (err e) create = if is_not_found e then create else raise e

module _ {W : Type 0} (client : Client W) (lib : MetaLib) where
  -- `Create` decodes its answer into `desired`, which then becomes `actual` too.
  unfoldable pub reconcile_config_map :
      DefaultTexts → QuestDb → QuestDbSecrets → Handler W (Unit {0})
  reconcile_config_map texts q s = do
    desired ← lift (build_config_map lib texts q s)
    found ← read_object client.config_maps Calls.config_map (object_key q.meta)
    elim found [
      | err e ↦
          if is_not_found e
          then (do
            created ←
                create_object client.config_maps Calls.config_map desired
                  (record_event warning "ConfigMapCreateFailed")
                  (record_event normal "ConfigMapCreated")
            pure tt)
          else raise e
      | ok actual ↦
          if not (deep_equal Contents-discrete actual.contents desired.contents)
          then (do
            update_object client.config_maps Calls.config_map desired
                (record_event warning "ConfigMapUpdateFailed")
                (record_event normal "ConfigMapUpdated")
            pure tt)
          else pure tt
    ]

  -- "Resize the PVC if needed"
  resize_pvc : QuestDb → PersistentVolumeClaim → Handler W (Unit {0})
  resize_pvc q actual =
      if not (same_quantity actual.spec.storage_request q.spec.volume.size)
      then (do
        update_object client.claims Calls.claim
            (record actual { spec = record actual.spec { storage_request = q.spec.volume.size } })
            (record_event warning "PVCResizeFailed") (record_event normal "PVCResized")
        pure tt)
      else pure tt

  unfoldable pub reconcile_pvc : QuestDb → Handler W (Unit {0})
  unfolding resize_pvc
  reconcile_pvc q = do
    found ← read_object client.claims Calls.claim (object_key q.meta)
    actual ← none_or_error found (do
      desired ← lift (build_pvc lib q)
      create_object client.claims Calls.claim desired (record_event warning "PVCCreateFailed")
          (record_event normal "PVCCreated"))
    resize_pvc q actual

  -- "Update the StatefulSetPodsReady status". The database comes back as the server stored it.
  unfoldable pub update_ready_replicas : QuestDb → StatefulSet → Handler W QuestDb
  update_ready_replicas q actual =
      if not (eq_ℤ actual.ready_replicas (to_int32 q.status.stateful_set_ready_replicas))
      then (let q' = record q {
        status = record { stateful_set_ready_replicas = actual.ready_replicas };
      } in
          call! (λ r. Calls.updated_status q' (error_of r)) (client.update_questdb_status q'))
      else pure q

  -- The stateful set that is there brought up to date.
  update_stateful_set : StatefulSet → StatefulSet → Handler W StatefulSet
  update_stateful_set desired actual =
      let (merged, needs_update) = merge_stateful_set desired actual in
      if needs_update
      then update_object client.stateful_sets Calls.stateful_set merged
          (record_event warning "StatefulSetUpdateFailed")
          (record_event normal "StatefulSetUpdated")
      else pure merged

  -- What `Get` finds, or `Create` stores; the answer of `Create` is `desired` and `actual` at once.
  pub current_stateful_set : QuestDb → QuestDbSecrets → Handler W StatefulSet
  unfolding update_stateful_set
  current_stateful_set q s = do
    desired ← lift (build_stateful_set lib q s)
    found ← read_object client.stateful_sets Calls.stateful_set (object_key q.meta)
    elim found [
      | ok actual ↦ update_stateful_set desired actual
      | err e ↦
          if is_not_found e
          then (do
            created ←
                create_object client.stateful_sets Calls.stateful_set desired
                  (record_event warning "StatefulSetCreateFailed")
                  (record_event normal "StatefulSetCreated")
            update_stateful_set created created)
          else raise e
    ]

  unfoldable pub reconcile_stateful_set : QuestDb → QuestDbSecrets → Handler W QuestDb
  unfolding current_stateful_set update_ready_replicas
  reconcile_stateful_set q s = do
    current ← current_stateful_set q s
    update_ready_replicas q current

  -- A service that is there is left as it is. A failed `Create` has no event.
  unfoldable pub reconcile_service : QuestDb → Handler W (Unit {0})
  reconcile_service q = do
    desired ← lift (build_service lib q)
    found ← read_object client.services Calls.service (object_key q.meta)
    none_or_error found (
        create_object client.services Calls.service desired (pure tt)
          (record_event normal "ServiceCreated"))
    pure tt
