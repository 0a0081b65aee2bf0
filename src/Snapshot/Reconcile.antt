-- ===== src/Snapshot/Reconcile.antt =====
-- `QuestDBSnapshotReconciler.Reconcile`.
pub mod Laws
pub mod Success
pub mod Patience
pub mod Forward
use questdb_operator.Prelude.{none, some, if◌then◌else◌}
use questdb_operator.Prelude.Int.{pos, eq_ℤ}
use questdb_operator.Kube.Error.{Error, Result, ok, err, ignore_not_found}
use questdb_operator.Kube.Meta.{NamespacedName, MetaLib}
use questdb_operator.Kube.Exec.{pure, raise, call, call!, ◌>>=◌}
use questdb_operator.Api.Types.{QuestDbSnapshot}
use questdb_operator.Api.SnapshotWebhook.{job_backoff_limit_default}
use questdb_operator.Snapshot.Calls
use questdb_operator.Snapshot.Calls.{Client, Handler}
use questdb_operator.Snapshot.Phases.{handle_phase}

-- `return ctrl.Result{}, client.IgnoreNotFound(err)`
abbrev pub return_ignoring_not_found : {W : Type 0} → Error → Handler W (Unit {0})
return_ignoring_not_found e = elim (ignore_not_found e) [ none ↦ pure tt | some x ↦ raise x ]

module _ {W : Type 0} (client : Client W) (lib : MetaLib) where
  -- "Set default value for job backoff limit in case it is not set"
  unfoldable pub ensure_backoff_limit : QuestDbSnapshot → Handler W QuestDbSnapshot
  ensure_backoff_limit snap =
      if eq_ℤ snap.spec.job_backoff_limit (pos 0)
      then (let defaulted = record snap {
        spec = record snap.spec { job_backoff_limit = job_backoff_limit_default };
      } in
          call! (Calls.updated_snapshot defaulted) (client.update_snapshot defaulted))
      else pure snap

  -- The part behind the `Get`.
  unfoldable pub reconcile_snapshot : QuestDbSnapshot → Handler W (Unit {0})
  reconcile_snapshot snap = do
    current ← ensure_backoff_limit snap
    handle_phase client lib current.phase current

  abbrev pub after_get : Result QuestDbSnapshot → Handler W (Unit {0})
  after_get (ok snap) = reconcile_snapshot snap
  after_get (err e) = return_ignoring_not_found e

  unfoldable pub reconcile : NamespacedName → Handler W (Unit {0})
  reconcile req = do
    found ← call (Calls.got_snapshot req) (client.get_snapshot req)
    after_get found
