-- ===== src/Schedule/Gc/Laws.antt =====
-- Which snapshots the garbage collector deletes.
use questdb_operator.Prelude.{
  leb, zero, suc, ℕ, ◌+◌, ◌-◌, ◌<◌, ◌≡◌, refl, true, inl, inr, Bool-cases, List, [], ◌∷◌, length,
  drop, keep, All, arith,
}
use questdb_operator.Prelude.Int.{ℤ, pos, add_int32}
use questdb_operator.Kube.Error.{ok}
use questdb_operator.Kube.Exec.{State}
use questdb_operator.Api.Types.{QuestDbSnapshot}
use questdb_operator.Schedule.Calls.{Client, Call, deleted_snapshot, event, normal}
use questdb_operator.Schedule.Gc.{has_succeeded, count_success, collect, garbage_collect}

-- The snapshots whose deletion was asked for, the last first.
abbrev pub deletions : List Call → List QuestDbSnapshot
deletions [] = []
deletions (deleted_snapshot snap _ ∷ calls) = snap ∷ deletions calls
deletions (_ ∷ calls) = deletions calls

-- The entries of a list, the last first, before those of another.
abbrev pub reverse_onto {ℓ} : {A : Type ℓ} → List A → List A → List A
reverse_onto [] acc = acc
reverse_onto (x ∷ xs) acc = reverse_onto xs (x ∷ acc)

abbrev pub AllSucceeded : List QuestDbSnapshot → Type 0
AllSucceeded = All (λ snap. has_succeeded snap ≡ true)

-- The server takes every deletion.
abbrev pub DeletesAll : {W : Type 0} → Client W → Type 0
DeletesAll {W = W} client =
    (snap : QuestDbSnapshot) (w : W) → (client.delete_snapshot snap w).0 ≡ ok tt

module _ {W : Type 0} (client : Client W) (retention : ℤ) where
  collect-AllSucceeded :
      (count : ℤ) (snaps : List QuestDbSnapshot) (s : State W Call)
      → AllSucceeded (deletions s.log)
      → AllSucceeded (deletions (collect client retention count snaps s).1.log)
  unfolding collect
  collect-AllSucceeded count [] s h = h
  collect-AllSucceeded count (snap ∷ snaps) s h = elim (Bool-cases (has_succeeded snap)) [
    | inr other ↦ ground (arith, collect-AllSucceeded (count_success snap count) snaps s h)
    | inl done ↦
        let deleted : State W Call = record {
          world = (client.delete_snapshot snap s.world).1;
          log =
              event normal "SnapshotDeleted"
              ∷ deleted_snapshot snap (client.delete_snapshot snap s.world).0
              ∷ s.log;
        } in
        ground (
          arith,
          collect-AllSucceeded (count_success snap count) snaps s h,
          collect-AllSucceeded (count_success snap count) snaps deleted (done, h),
        )
  ]

-- Whatever the server answers and whatever the retention is, no snapshot is deleted that has not
-- succeeded.
pub garbage_collect-AllSucceeded :
    {W : Type 0} (client : Client W) (retention : ℤ) (snaps : List QuestDbSnapshot) (w : W)
    → AllSucceeded
        (deletions (garbage_collect client retention snaps (record { world = w; log = [] })).1.log)
unfolding garbage_collect
garbage_collect-AllSucceeded client retention snaps w =
    collect-AllSucceeded client retention (pos 0) snaps (record { world = w; log = [] }) tt

drop-nil : (n : ℕ) → drop {A = QuestDbSnapshot} n [] ≡ []
drop-nil zero = refl
drop-nil (suc n) = refl

module _ {W : Type 0} (client : Client W) (deletes : DeletesAll client) (n : ℕ) where
  deletions-collect :
      (count : ℕ) (snaps : List QuestDbSnapshot) (s : State W Call)
      → count + length snaps < 2147483648
      → deletions (collect client (pos n) (pos count) snaps s).1.log
        ≡ reverse_onto (drop (n - count) (keep has_succeeded snaps)) (deletions s.log)
  unfolding collect add_int32
  deletions-collect count [] s h = ground (arith, drop-nil (n - count))
  deletions-collect count (snap ∷ snaps) s h = elim (Bool-cases (has_succeeded snap)) [
    | inr other ↦ ground (arith, deletions-collect count snaps s)
    | inl done ↦
        let deleted : State W Call = record {
          world = (client.delete_snapshot snap s.world).1;
          log =
              event normal "SnapshotDeleted"
              ∷ deleted_snapshot snap (client.delete_snapshot snap s.world).0
              ∷ s.log;
        } in
        elim (Bool-cases (leb n count)) [
          | inl past ↦
              let none_left : n - count ≡ 0 = ground (arith, past) in
              let none_left' : n - (count + 1) ≡ 0 = ground (arith, past) in
              rw (none_left) (
                ground (
                  arith,
                  past,
                  done,
                  deletes snap s.world,
                  rw (none_left') at
                      (deletions-collect (count + 1) snaps deleted (omega (arith, h))),
                ))
          | inr early ↦
              let one_less : n - count ≡ suc (n - (count + 1)) = ground (arith, early) in
              rw (one_less) (ground (arith, early, done, deletions-collect (count + 1) snaps s))
        ]
  ]

  -- If the server takes every deletion, the retention is a natural number `n` and the list has
  -- less than 2^31 snapshots, then exactly the snapshots are deleted that succeeded and stand
  -- behind the first `n` of those, in the order of the list.
  pub deletions-garbage_collect :
      (snaps : List QuestDbSnapshot) (s : State W Call)
      → length snaps < 2147483648
      → deletions (garbage_collect client (pos n) snaps s).1.log
        ≡ reverse_onto (drop n (keep has_succeeded snaps)) (deletions s.log)
  unfolding garbage_collect
  deletions-garbage_collect snaps s h =
      let all : n - 0 ≡ n = omega arith in
      rw (all) at (deletions-collect 0 snaps s (omega (arith, h)))
