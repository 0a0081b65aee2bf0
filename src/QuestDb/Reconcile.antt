-- ===== src/QuestDb/Reconcile.antt =====
-- `QuestDBReconciler.Reconcile`.
pub mod Order
pub mod Errors
use questdb_operator.Prelude.{Option, none, some}
use questdb_operator.Kube.Error.{error_of, Error, Result, ok, err, ignore_not_found}
use questdb_operator.Kube.Meta.{NamespacedName, MetaLib, object_key}
use questdb_operator.Kube.Exec.{pure, raise, call, call!, ◌>>=◌, ◌>>◌}
use questdb_operator.Api.Types.{QuestDb}
use questdb_operator.Secrets.{QuestDbSecrets, get_secrets}
use questdb_operator.QuestDb.Calls
use questdb_operator.QuestDb.Calls.{Client, Handler}
use questdb_operator.QuestDb.Build.Volumes.{DefaultTexts}
use questdb_operator.QuestDb.Objects.{
  reconcile_config_map, reconcile_pvc, reconcile_stateful_set, reconcile_service,
}

module _ {W : Type 0} (client : Client W) (lib : MetaLib) (texts : DefaultTexts) where
  unfoldable pub secrets_for : NamespacedName → Handler W QuestDbSecrets
  secrets_for =
      get_secrets (λ ns. call! (λ r. Calls.listed_secrets ns (error_of r)) (client.list_secrets ns))

  -- The four objects, in order. The stateful set's step may store the database anew.
  unfoldable pub reconcile_objects : QuestDb → QuestDbSecrets → Handler W (Unit {0})
  reconcile_objects q s = do
    reconcile_config_map client lib texts q s
    reconcile_pvc client lib q
    q' ← reconcile_stateful_set client lib q s
    reconcile_service client lib q'

  unfoldable pub reconcile_questdb : QuestDb → Handler W (Unit {0})
  reconcile_questdb q = do s ← secrets_for (object_key q.meta); reconcile_objects q s

  unfoldable pub reconcile : NamespacedName → Handler W (Unit {0})
  reconcile req = do
    found ← call (λ r. Calls.read req (error_of r)) (client.get_questdb req)
    elim found [
      | ok q ↦ reconcile_questdb q
      | err e ↦ elim (ignore_not_found e) [ none ↦ pure tt | some x ↦ raise x ]
    ]
