-- ===== src/Snapshot/Reconcile/Forward.antt =====
-- A whole reconciliation beside others that write the snapshot, and on an old version of it.
use questdb_operator.Prelude.{◌≡◌, refl, arith}
use questdb_operator.Prelude.Int.{eq_ℤ, pos}
use questdb_operator.Kube.Error.{Result, ok, err}
use questdb_operator.Kube.Meta.{MetaLib}
use questdb_operator.Kube.Exec.{State}
use questdb_operator.Kube.Exec.Moves.{Moves, Moves-pure, Moves-call, Moves-bind, Moves-if}
use questdb_operator.Api.Types.{QuestDbSnapshot}
use questdb_operator.Api.SnapshotWebhook.{job_backoff_limit_default}
use questdb_operator.Snapshot.Calls as Calls
use questdb_operator.Snapshot.Calls.{Client, Call}
use questdb_operator.Snapshot.Phases.Forward.{Forward, IsVersion, Setting, Onward, order}
use questdb_operator.Snapshot.Phases.Forward.Steps.{Any, update-Moves}
use questdb_operator.Snapshot.Phases.Forward.Handlers.{handle_phase-Moves}
use questdb_operator.Snapshot.Reconcile.{
  ensure_backoff_limit, reconcile_snapshot, reconcile, after_get,
}

module _ {W : Type 0} {client : Client W} {lib : MetaLib} (set : Setting client lib) where
  open set use {key, phase, phase_of, server}

  ensure_backoff_limit-Moves :
      (snap : QuestDbSnapshot)
      → IsVersion key phase_of snap
      → Moves (Onward set) (IsVersion key phase_of) (ensure_backoff_limit client lib snap)
  unfolding ensure_backoff_limit
  ensure_backoff_limit-Moves snap version =
      let o = order set in
      let defaulted : QuestDbSnapshot = record snap {
        spec = record snap.spec { job_backoff_limit = job_backoff_limit_default };
      } in
      let update = update-Moves set snap.phase defaulted (version, refl) in
      Moves-if o (eq_ℤ snap.spec.job_backoff_limit (pos 0))
        (record { at = update.at; gives = λ s a e. (update.gives s a e).0 })
        (Moves-pure o snap version)

  reconcile_snapshot-Moves :
      (snap : QuestDbSnapshot)
      → IsVersion key phase_of snap
      → Moves (Onward set) Any (reconcile_snapshot client lib snap)
  unfolding reconcile_snapshot
  reconcile_snapshot-Moves snap version =
      Moves-bind (order set) (ensure_backoff_limit-Moves snap version)
        (λ current v. handle_phase-Moves set current.phase current (v, refl))

  -- Whatever was read.
  abbrev WasRead : Result QuestDbSnapshot → Type 0
  WasRead (ok snap) = IsVersion key phase_of snap
  WasRead (err e) = Unit {0}

  get_snapshot-WasRead : (w : W) → WasRead (client.get_snapshot key w).0
  get_snapshot-WasRead w = go (client.get_snapshot key w).0 (λ snap e. server.read w snap e)
    where
      go :
          (r : Result QuestDbSnapshot)
          → ((snap : QuestDbSnapshot) → r ≡ ok snap → IsVersion key phase_of snap)
          → WasRead r
      go (ok snap) h = h snap refl
      go (err e) h = tt

  after_get-Moves :
      (r : Result QuestDbSnapshot) → WasRead r → Moves (Onward set) Any (after_get client lib r)
  after_get-Moves (ok snap) version = reconcile_snapshot-Moves snap version
  after_get-Moves (err e) _ = record { at = λ s. ground arith; gives = λ s a b. tt }

  -- Let the server tell the versions of a snapshot apart: it takes a status only from the version
  -- that is there, and a read may be answered with an old one. Let others write the snapshot at any
  -- time between the calls, as long as they too only move its phase forward. Then a reconciliation,
  -- in whatever state and however it ends, leaves the snapshot in the phase that it had or in one
  -- that is further along empty, pending, running, finalizing, final.
  pub reconcile-Forward :
      (s : State W Call) → Forward (phase s.world) (phase (reconcile client lib key s).1.world)
  unfolding reconcile
  reconcile-Forward s =
      (Moves-bind (order set)
          (Moves-call (order set) (Calls.got_snapshot key) (client.get_snapshot key)
            (λ t. server.read_moves t.world) get_snapshot-WasRead)
          after_get-Moves).at
        s
