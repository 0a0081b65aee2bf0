-- ===== src/Examples/Sorting.antt =====
-- A sort for `sort.Slice`, and the snapshots of a schedule in its order.
use questdb_operator.Prelude.{
  ℕ, ◌≡◌, ◌≢◌, refl, Bool, true, Bool-cases, inl, inr, List, [], ◌∷◌, take, keep, length, All,
  All-mono, Pairwise, arith, if◌then◌else◌, ◌<◌,
}
use questdb_operator.Prelude.Int.{pos}
use questdb_operator.Kube.Exec.{State}
use questdb_operator.Api.Types.{QuestDbSnapshot, succeeded}
use questdb_operator.Schedule.Calls.{Call, GoLib}
use questdb_operator.Schedule.Children.{owned_snapshots}
use questdb_operator.Schedule.Gc.{has_succeeded, garbage_collect}
use questdb_operator.Schedule.Gc.Laws.{deletions}
use questdb_operator.Schedule.Gc.Order.{IsTransitive, Sorts, IsOlder, garbage_collect-IsOlder}
use questdb_operator.Examples.Data.{meta_lib, schedule_of, snapshot_in}
use questdb_operator.Examples.Schedules
use questdb_operator.Examples.Schedules.{server, go_lib}

abbrev Less : Type 0
Less = QuestDbSnapshot → QuestDbSnapshot → Bool

abbrev insert : Less → QuestDbSnapshot → List QuestDbSnapshot → List QuestDbSnapshot
insert less x [] = x ∷ []
insert less x (y ∷ ys) = let rest = insert less x ys in if less x y then x ∷ y ∷ ys else y ∷ rest

abbrev insertion_sort : Less → List QuestDbSnapshot → List QuestDbSnapshot
insertion_sort less [] = []
insertion_sort less (x ∷ xs) = insert less x (insertion_sort less xs)

module _ (less : Less) where
  All-insert :
      (P : QuestDbSnapshot → Type 0) (x : QuestDbSnapshot) (ys : List QuestDbSnapshot)
      → P x
      → All P ys
      → All P (insert less x ys)
  All-insert P x [] p h = (p, tt)
  All-insert P x (y ∷ ys) p h = elim (Bool-cases (less x y)) [
    | inl before ↦ rw before (p, h)
    | inr behind ↦ rw behind (h.0, All-insert P x ys p h.1)
  ]

  All-insertion_sort :
      (P : QuestDbSnapshot → Type 0) (xs : List QuestDbSnapshot)
      → All P xs
      → All P (insertion_sort less xs)
  All-insertion_sort P [] h = tt
  All-insertion_sort P (x ∷ xs) h =
      All-insert P x (insertion_sort less xs) h.0 (All-insertion_sort P xs h.1)

  abbrev IsBefore : QuestDbSnapshot → QuestDbSnapshot → Type 0
  IsBefore x y = less x y ≡ true

  insert-Pairwise :
      IsTransitive less
      → (x : QuestDbSnapshot) (ys : List QuestDbSnapshot) → All (λ y. less x y ≢ less y x) ys
      → Pairwise IsBefore ys
      → Pairwise IsBefore (insert less x ys)
  insert-Pairwise trans x [] d h = (tt, tt)
  insert-Pairwise trans x (y ∷ ys) d h = elim (Bool-cases (less x y)) [
    | inl before ↦
        rw before ((before, All-mono (IsBefore y) (IsBefore x) ys (λ z. trans x y z before) h.0), h)
    | inr behind ↦
        let after : IsBefore y x = elim (Bool-cases (less y x)) [
          | inl swapped ↦ swapped
          | inr neither ↦ absurd (d.0 (cc (behind, neither)))
        ] in
        rw behind (All-insert (IsBefore y) x ys after h.0, insert-Pairwise trans x ys d.1 h.1)
  ]

  insertion_sort-Pairwise :
      IsTransitive less
      → (xs : List QuestDbSnapshot) → Pairwise (λ x y. less x y ≢ less y x) xs
      → Pairwise IsBefore (insertion_sort less xs)
  insertion_sort-Pairwise trans [] d = tt
  insertion_sort-Pairwise trans (x ∷ xs) d =
      insert-Pairwise trans x (insertion_sort less xs)
        (All-insertion_sort (λ y. less x y ≢ less y x) xs d.0)
        (insertion_sort-Pairwise trans xs d.1)

abbrev sorting : GoLib Schedules.World
sorting = record go_lib { sort_slice = insertion_sort }

sorting-Sorts : Sorts sorting
sorting-Sorts less items trans d = insertion_sort-Pairwise less trans items d

-- A snapshot of the schedule that succeeded.
abbrev taken_at : ℕ → QuestDbSnapshot
taken_at t = record (snapshot_in succeeded) {
  meta = record (snapshot_in succeeded).meta {
    creation_timestamp = t;
    owner_references = record { uid = "u"; controller = true } ∷ [];
  };
}

abbrev items : List QuestDbSnapshot
items = taken_at 20 ∷ taken_at 30 ∷ taken_at 10 ∷ []

few : length (owned_snapshots meta_lib sorting schedule_of items) < 2147483648
unfolding owned_snapshots
few = omega arith

garbage_collect-IsOlder_example :
    let children = owned_snapshots meta_lib sorting schedule_of items in
    let s : State Schedules.World Call =
      (garbage_collect server (pos 1) children (record { world = tt; log = [] })).1 in
    All
      (λ retained. All (λ gone. IsOlder gone retained) (deletions s.log))
      (take 1 (keep has_succeeded children))
garbage_collect-IsOlder_example =
    garbage_collect-IsOlder server (λ snap w. refl) 1 meta_lib sorting sorting-Sorts schedule_of
      items tt (ground arith) few
