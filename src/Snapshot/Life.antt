-- ===== src/Snapshot/Life.antt =====
-- The life of a snapshot over many reconciliations.
use questdb_operator.Prelude.{◌≡◌, refl, ◌⊎◌, ℕ, ◌+◌, ◌≤◌, true, List, [], ◌∷◌, arith}
use questdb_operator.Kube.Error.{ok}
use questdb_operator.Kube.Meta.{NamespacedName, MetaLib}
use questdb_operator.Api.Types.{QuestDbSnapshot, SnapshotPhase}
use questdb_operator.Snapshot.Calls.{Client, Call, updated_status}
use questdb_operator.Snapshot.Phases.Audit.{audit, allowed}
use questdb_operator.Snapshot.Phases.Forward.{rank}
use questdb_operator.Snapshot.Reconcile.{reconcile}
use questdb_operator.Snapshot.Reconcile.Laws.{KeepsPhase, reconcile-audit}

rank-bound : (p : SnapshotPhase) → rank p ≤ 4
rank-bound p = ground arith

-- A status with this phase is among the calls.
abbrev pub Wrote : SnapshotPhase → List Call → Type 0
Wrote p [] = ⊥
Wrote p (updated_status snap answer ∷ calls) = (p ≡ snap.phase) ⊎ Wrote p calls
Wrote p (_ ∷ calls) = Wrote p calls

allowed-rank :
    (from to : SnapshotPhase) (snap : QuestDbSnapshot) (calls : List Call)
    → allowed from to snap calls ≡ true
    → rank from + 1 ≤ rank to
allowed-rank from to snap calls h = ground arith

Wrote-rank :
    (from p : SnapshotPhase) (calls : List Call)
    → audit from calls ≡ true
    → Wrote p calls
    → rank from + 1 ≤ rank p
Wrote-rank from p [] h m = absurd m
Wrote-rank from p (c ∷ calls) h m = ground (arith, Wrote-rank from p calls)

-- `Life client lib from n p`: a snapshot that was in the phase `from` is in the phase `p` after some
-- reconciliations, of which `n` changed its phase. Each finds the server in a state of its own and
-- reads the snapshot in its phase; afterwards the snapshot is in that phase or in one that the
-- reconciliation wrote, whatever the write was answered with.
pub data Life {W : Type 0} (client : Client W) (lib : MetaLib) (from : SnapshotPhase)
    : ℕ → SnapshotPhase → Type 0 where
  begin : Life client lib from 0 from
  stay :
      {n : ℕ} {p : SnapshotPhase} (req : NamespacedName) (w : W) (snap : QuestDbSnapshot)
      → Life client lib from n p
      → (client.get_snapshot req w).0 ≡ ok snap
      → snap.phase ≡ p
      → Life client lib from n p
  move :
      {n : ℕ} {p : SnapshotPhase} (req : NamespacedName) (w : W) (snap : QuestDbSnapshot)
      (p' : SnapshotPhase)
      → Life client lib from n p
      → (client.get_snapshot req w).0 ≡ ok snap
      → snap.phase ≡ p
      → Wrote p' (reconcile client lib req (record { world = w; log = [] })).1.log
      → Life client lib from (n + 1) p'

module _ {W : Type 0} (client : Client W) (lib : MetaLib) (keeps : KeepsPhase client)
    (from : SnapshotPhase) where
  Life-rank : {n : ℕ} {p : SnapshotPhase} → Life client lib from n p → n + rank from ≤ rank p
  Life-rank begin = omega arith
  Life-rank (stay req w snap life read same) = Life-rank life
  Life-rank (move req w snap p' life read same wrote) =
      let far = Life-rank life in
      let calls = (reconcile client lib req (record { world = w; log = [] })).1.log in
      let next =
        Wrote-rank snap.phase p' calls (reconcile-audit client lib keeps req snap w read) wrote in
      ground (arith, far, next, same)

  Life-unmoved : {n : ℕ} {p : SnapshotPhase} → Life client lib from n p → n ≡ 0 → p ≡ from
  Life-unmoved begin unmoved = refl
  Life-unmoved (stay req w snap life read same) unmoved = Life-unmoved life unmoved
  Life-unmoved (move req w snap p' life read same wrote) unmoved = absurd (omega arith)

  -- If an update keeps the phase of a snapshot, then over any number of reconciliations, whatever the
  -- server answers and also where a write's answer does not tell whether it was done: each change
  -- takes the snapshot further along empty, pending, running, finalizing, final; there are at most
  -- four changes; and a snapshot in a final or an unknown phase stays in it.
  pub Life-bound :
      (n : ℕ) (p : SnapshotPhase)
      → Life client lib from n p
      → (n + rank from ≤ rank p) × (n ≤ 4) × (rank from ≡ 4 → p ≡ from)
  Life-bound n p life =
      let far = Life-rank life in
      let bound = rank-bound p in (far, omega arith, λ final. Life-unmoved life (omega arith))
