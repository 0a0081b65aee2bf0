-- ===== src/Schedule/Gc.antt =====
-- `garbageCollect`.
pub mod Laws
pub mod Order
use questdb_operator.Prelude.{Bool, true, false, ◌&&◌, List, [], ◌∷◌, if◌then◌else◌}
use questdb_operator.Prelude.Int.{ℤ, pos, ltb_ℤ, add_int32}
use questdb_operator.Kube.Exec.{pure, call!, ◌>>◌}
use questdb_operator.Api.Types.{QuestDbSnapshot, succeeded}
use questdb_operator.Schedule.Calls
use questdb_operator.Schedule.Calls.{Client, Handler, Call, normal, record_event}

-- `snap.Status.Phase == crdv1beta1.SnapshotSucceeded`
unfoldable pub has_succeeded : QuestDbSnapshot → Bool
has_succeeded snap = elim snap.phase [ succeeded ↦ true | _ ↦ false ]

-- `successCount` behind the first test of the loop.
abbrev pub count_success : QuestDbSnapshot → ℤ → ℤ
count_success snap count = if has_succeeded snap then add_int32 count (pos 1) else count

module _ {W : Type 0} (client : Client W) (retention : ℤ) where
  abbrev delete_snapshot : QuestDbSnapshot → Handler W (Unit {0})
  delete_snapshot snap = do
    call! (Calls.deleted_snapshot snap) (client.delete_snapshot snap)
    record_event normal "SnapshotDeleted"

  -- The loop, with `successCount`.
  unfoldable pub collect : ℤ → List QuestDbSnapshot → Handler W (Unit {0})
  collect count [] = pure tt
  collect count (snap ∷ snaps) =
      let count' = count_success snap count in
      let rest = collect count' snaps in
      if ltb_ℤ retention count' && has_succeeded snap then (do delete_snapshot snap; rest) else rest

  unfoldable pub garbage_collect : List QuestDbSnapshot → Handler W (Unit {0})
  garbage_collect = collect (pos 0)
