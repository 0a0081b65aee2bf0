-- ===== src/Schedule/Gc/Order.antt =====
-- The garbage collector behind the sort of the snapshots.
use questdb_operator.Prelude.{
  ℕ, ◌≤◌, ◌<◌, ◌≡◌, ◌≢◌, Bool, true, List, [], ◌∷◌, take, drop, keep, length, All, All-mono,
  Pairwise, Pairwise-keep, Pairwise-mono, Pairwise-take, arith,
}
use questdb_operator.Prelude.Int.{pos}
use questdb_operator.Kube.Meta.{MetaLib}
use questdb_operator.Kube.Exec.{State}
use questdb_operator.Api.Types.{QuestDbSnapshot, QuestDbSnapshotSchedule}
use questdb_operator.Schedule.Calls.{Client, Call, GoLib}
use questdb_operator.Schedule.Children.{not_before, owned_snapshots}
use questdb_operator.Schedule.Gc.{has_succeeded, garbage_collect}
use questdb_operator.Schedule.Gc.Laws.{
  DeletesAll, deletions, reverse_onto, deletions-garbage_collect,
}

abbrev pub IsTransitive : (QuestDbSnapshot → QuestDbSnapshot → Bool) → Type 0
IsTransitive less = (x y z : QuestDbSnapshot) → less x y ≡ true → less y z ≡ true → less x z ≡ true

-- `sort.Slice` sorts by a transitive order that holds one way between any two entries.
abbrev pub Sorts : {W : Type 0} → GoLib W → Type 0
Sorts go =
    (less : QuestDbSnapshot → QuestDbSnapshot → Bool) (items : List QuestDbSnapshot)
    → IsTransitive less
    → Pairwise (λ x y. less x y ≢ less y x) items
    → Pairwise (λ x y. less x y ≡ true) (go.sort_slice less items)

abbrev created_at : QuestDbSnapshot → ℕ
created_at snap = snap.meta.creation_timestamp

-- `x` is at least as old as `y`.
abbrev pub IsOlder : QuestDbSnapshot → QuestDbSnapshot → Type 0
IsOlder x y = created_at x ≤ created_at y

abbrev pub HaveTimes : List QuestDbSnapshot → Type 0
HaveTimes = Pairwise (λ x y. created_at x ≢ created_at y)

All-reverse_onto :
    (P : QuestDbSnapshot → Type 0) (xs acc : List QuestDbSnapshot)
    → All P xs
    → All P acc
    → All P (reverse_onto xs acc)
All-reverse_onto P [] acc h k = k
All-reverse_onto P (x ∷ xs) acc h k = All-reverse_onto P xs (x ∷ acc) h.1 (h.0, k)

not_before-IsTransitive : IsTransitive not_before
not_before-IsTransitive x y z h k = ground arith

-- Different times are ordered one way.
not_before-differ :
    (x y : QuestDbSnapshot) → created_at x ≢ created_at y → not_before x y ≢ not_before y x
not_before-differ x y differ e = differ (ground arith)

-- The children of a schedule stand the newest first.
pub owned_snapshots-Pairwise :
    {W : Type 0} (lib : MetaLib) (go : GoLib W)
    → Sorts go
    → (sched : QuestDbSnapshotSchedule) (items : List QuestDbSnapshot) → HaveTimes items
    → Pairwise (λ x y. IsOlder y x) (owned_snapshots lib go sched items)
unfolding owned_snapshots
owned_snapshots-Pairwise lib go sorts sched items times =
    let one_way =
      Pairwise-mono (λ x y. created_at x ≢ created_at y) (λ x y. not_before x y ≢ not_before y x)
        items not_before-differ times in
    Pairwise-keep (λ x y. IsOlder y x) (λ s. lib.is_controlled_by s.meta sched.meta) _
      (Pairwise-mono (λ x y. not_before x y ≡ true) (λ x y. IsOlder y x) _ (λ x y h. ground arith)
        (sorts not_before items not_before-IsTransitive one_way))

-- If the sort sorts, the snapshots have different times of creation, the server takes every
-- deletion, the retention is a natural number `n` and there are less than 2^31 children, then
-- the garbage collector, run on the children of the schedule, deletes no snapshot that is younger
-- than one of the `n` that it retains.
pub garbage_collect-IsOlder :
    {W : Type 0} (client : Client W) (deletes : DeletesAll client) (n : ℕ) (lib : MetaLib)
    (go : GoLib W) (sorts : Sorts go) (sched : QuestDbSnapshotSchedule)
    (items : List QuestDbSnapshot) (w : W)
    → HaveTimes items
    → length (owned_snapshots lib go sched items) < 2147483648
    → let children = owned_snapshots lib go sched items in
      let s : State W Call =
        (garbage_collect client (pos n) children (record { world = w; log = [] })).1 in
      All
        (λ retained. All (λ gone. IsOlder gone retained) (deletions s.log))
        (take n (keep has_succeeded children))
garbage_collect-IsOlder client deletes n lib go sorts sched items w times bound =
    let children = owned_snapshots lib go sched items in
    let done = keep has_succeeded children in
    let ordered =
      Pairwise-keep (λ x y. IsOlder y x) has_succeeded children
        (owned_snapshots-Pairwise lib go sorts sched items times) in
    rw (deletions-garbage_collect client deletes n children (record { world = w; log = [] }) bound)
      (All-mono (λ x. All (λ y. IsOlder y x) (drop n done))
        (λ x. All (λ y. IsOlder y x) (reverse_onto (drop n done) [])) (take n done)
        (λ x h. All-reverse_onto (λ y. IsOlder y x) (drop n done) [] h tt)
        (Pairwise-take (λ x y. IsOlder y x) n done ordered))
