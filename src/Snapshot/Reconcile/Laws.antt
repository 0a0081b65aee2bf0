-- ===== src/Snapshot/Reconcile/Laws.antt =====
-- What a whole reconciliation of a snapshot writes.
use questdb_operator.Prelude.{◌≡◌, refl, inl, inr, true, [], ◌∷◌, arith, subst, sym}
use questdb_operator.Kube.Error.{Result-cases, ok}
use questdb_operator.Kube.Meta.{NamespacedName, MetaLib}
use questdb_operator.Kube.Exec.{State}
use questdb_operator.Api.Types.{QuestDbSnapshot, SnapshotPhase}
use questdb_operator.Api.SnapshotWebhook.{job_backoff_limit_default}
use questdb_operator.Snapshot.Calls.{Client, Call, got_snapshot}
use questdb_operator.Snapshot.Phases.{handle_phase}
use questdb_operator.Snapshot.Phases.Audit.{audit, audit-handle_phase-later}
use questdb_operator.Snapshot.Reconcile.{ensure_backoff_limit, reconcile_snapshot, reconcile}

-- An update of a snapshot leaves its status alone, which is a subresource.
abbrev pub KeepsPhase : {W : Type 0} → Client W → Type 0
KeepsPhase {W = W} client =
    (s r : QuestDbSnapshot) (w : W) → (client.update_snapshot s w).0 ≡ ok r → r.phase ≡ s.phase

module _ {W : Type 0} (client : Client W) (lib : MetaLib) (keeps : KeepsPhase client) where
  ensure_backoff_limit-audit :
      (snap : QuestDbSnapshot) (from : SnapshotPhase) (s : State W Call)
      → audit from s.log ≡ true
      → audit from (ensure_backoff_limit client lib snap s).1.log ≡ true
  unfolding ensure_backoff_limit
  ensure_backoff_limit-audit snap from s h = ground arith

  ensure_backoff_limit-phase :
      (snap current : QuestDbSnapshot) (s : State W Call)
      → (ensure_backoff_limit client lib snap s).0 ≡ ok current
      → current.phase ≡ snap.phase
  unfolding ensure_backoff_limit
  ensure_backoff_limit-phase snap current s e =
      let defaulted = record snap {
        spec = record snap.spec { job_backoff_limit = job_backoff_limit_default };
      } in
      ground (arith, e, keeps defaulted current s.world)

  reconcile_snapshot-audit :
      (snap : QuestDbSnapshot) (s : State W Call)
      → audit snap.phase s.log ≡ true
      → audit snap.phase (reconcile_snapshot client lib snap s).1.log ≡ true
  unfolding reconcile_snapshot
  reconcile_snapshot-audit snap s h =
      let (r, s1) = ensure_backoff_limit client lib snap s in
      let h1 = ensure_backoff_limit-audit snap snap.phase s h in
      elim (Result-cases r) [
        | inr (e, bad) ↦ ground (arith, bad, h1)
        | inl (current, good) ↦
            let same = ensure_backoff_limit-phase snap current s good in
            let h2 : audit current.phase s1.log ≡ true =
              subst (λ p. audit p s1.log ≡ true) (sym same) h1 in
            let after = audit-handle_phase-later client lib current current.phase s1 h2 in
            rw (good) (
              subst (λ p. audit p (handle_phase client lib current.phase current s1).1.log ≡ true)
                same after)
      ]

  -- If an update keeps the phase of a snapshot, then each phase that a reconciliation of a snapshot
  -- writes is one that the rule book `allowed` has for the phase that the snapshot was read with and
  -- the calls before.
  pub reconcile-audit :
      (req : NamespacedName) (snap : QuestDbSnapshot) (w : W)
      → (client.get_snapshot req w).0 ≡ ok snap
      → audit snap.phase (reconcile client lib req (record { world = w; log = [] })).1.log ≡ true
  unfolding reconcile
  reconcile-audit req snap w found = ground (
    arith,
    found,
    reconcile_snapshot-audit snap
        (record { world = (client.get_snapshot req w).1; log = got_snapshot req (ok snap) ∷ [] })
        refl,
  )
