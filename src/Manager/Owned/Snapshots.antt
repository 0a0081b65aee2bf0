-- ===== src/Manager/Owned/Snapshots.antt =====
-- What a reconciliation of a snapshot creates: jobs and volume snapshots of which the snapshot
-- controller hears.
use questdb_operator.Prelude.{◌≡◌, refl, sym, true, List, [], ◌∷◌, All, arith}
use mathlib.Core.List.{Memᴰ}
use questdb_operator.Kube.Error.{ok}
use questdb_operator.Kube.Meta.{NamespacedName, MetaLib, OwnerLaws}
use questdb_operator.Kube.Exec.{State, bind-keeps_result}
use questdb_operator.Api.Types.{QuestDbSnapshot}
use questdb_operator.Api.SnapshotWebhook.{job_backoff_limit_default}
use questdb_operator.Snapshot.Calls
use questdb_operator.Snapshot.Calls.{Client, Call}
use questdb_operator.Snapshot.Phases.{handle_phase}
use questdb_operator.Snapshot.Phases.Owned.{
  all_controlled, all_controlled-uid, handle_phase-Controlled,
}
use questdb_operator.Snapshot.Reconcile.{ensure_backoff_limit, reconcile_snapshot, reconcile}
use questdb_operator.Manager.{Kind, job, volume_snapshot, snapshot_controller}

-- The kinds of the objects whose creation was asked for.
abbrev pub created_kinds : List Call → List Kind
created_kinds [] = []
created_kinds (Calls.created_job _ _ ∷ calls) = job ∷ created_kinds calls
created_kinds (Calls.created_volume_snapshot _ _ ∷ calls) = volume_snapshot ∷ created_kinds calls
created_kinds (_ ∷ calls) = created_kinds calls

-- The server keeps the uid of a snapshot that is written.
abbrev pub KeepsUid : {W : Type 0} → Client W → Type 0
KeepsUid {W = W} client =
    (snap stored : QuestDbSnapshot) (w : W)
    → (client.update_snapshot snap w).0 ≡ ok stored
    → stored.meta.uid ≡ snap.meta.uid

abbrev pub IsOwnedKind : Kind → Type 0
IsOwnedKind k = Memᴰ k snapshot_controller.owned

created_kinds-IsOwnedKind : (calls : List Call) → All IsOwnedKind (created_kinds calls)
unfolding snapshot_controller
created_kinds-IsOwnedKind [] = tt
created_kinds-IsOwnedKind (Calls.created_job x r ∷ calls) =
    (Memᴰ.tail (Memᴰ.head refl), created_kinds-IsOwnedKind calls)
created_kinds-IsOwnedKind (Calls.created_volume_snapshot x r ∷ calls) =
    (Memᴰ.head refl, created_kinds-IsOwnedKind calls)
created_kinds-IsOwnedKind (Calls.got_snapshot x r ∷ calls) = created_kinds-IsOwnedKind calls
created_kinds-IsOwnedKind (Calls.updated_snapshot x r ∷ calls) = created_kinds-IsOwnedKind calls
created_kinds-IsOwnedKind (Calls.updated_status x r ∷ calls) = created_kinds-IsOwnedKind calls
created_kinds-IsOwnedKind (Calls.got_questdb x r ∷ calls) = created_kinds-IsOwnedKind calls
created_kinds-IsOwnedKind (Calls.got_class x r ∷ calls) = created_kinds-IsOwnedKind calls
created_kinds-IsOwnedKind (Calls.listed_secrets x r ∷ calls) = created_kinds-IsOwnedKind calls
created_kinds-IsOwnedKind (Calls.got_job x r ∷ calls) = created_kinds-IsOwnedKind calls
created_kinds-IsOwnedKind (Calls.deleted_job x r ∷ calls) = created_kinds-IsOwnedKind calls
created_kinds-IsOwnedKind (Calls.got_volume_snapshot x r ∷ calls) = created_kinds-IsOwnedKind calls
created_kinds-IsOwnedKind (Calls.event x r ∷ calls) = created_kinds-IsOwnedKind calls

module _ {W : Type 0} (client : Client W) (lib : MetaLib) (laws : OwnerLaws lib)
    (keeps : KeepsUid client) where
  abbrev Controlled : QuestDbSnapshot → State W Call → Type 0
  Controlled snap s = all_controlled lib snap.meta s.log ≡ true

  ensure_backoff_limit-Controlled :
      (snap : QuestDbSnapshot) (s : State W Call)
      → Controlled snap s
      → Controlled snap (ensure_backoff_limit client lib snap s).1
  unfolding ensure_backoff_limit
  ensure_backoff_limit-Controlled snap s h = ground arith

  ensure_backoff_limit-uid :
      (snap current : QuestDbSnapshot) (s : State W Call)
      → (ensure_backoff_limit client lib snap s).0 ≡ ok current
      → current.meta.uid ≡ snap.meta.uid
  unfolding ensure_backoff_limit
  ensure_backoff_limit-uid snap current s e =
      let defaulted = record snap {
        spec = record snap.spec { job_backoff_limit = job_backoff_limit_default };
      } in
      ground (arith, e, keeps defaulted current s.world)

  reconcile_snapshot-Controlled :
      (snap : QuestDbSnapshot) (s : State W Call)
      → Controlled snap s
      → Controlled snap (reconcile_snapshot client lib snap s).1
  unfolding reconcile_snapshot
  reconcile_snapshot-Controlled snap s h =
      bind-keeps_result (Controlled snap) (Controlled snap) (ensure_backoff_limit client lib snap) _
        s (ensure_backoff_limit-Controlled snap s h) (λ _ g. g)
        (λ current s1 e h1.
          let same = ensure_backoff_limit-uid snap current s e in
          all_controlled-uid lib laws current.meta snap.meta same
            (handle_phase client lib current.phase current s1).1.log
            (handle_phase-Controlled client lib laws current current.phase s1
              (all_controlled-uid lib laws snap.meta current.meta (sym same) s1.log h1)))

  -- Let `SetControllerReference` make the owner the controller, told by its uid, and let the server
  -- keep the uid of a snapshot that it stores. Then a reconciliation of a snapshot that is there
  -- asks only for the creation of objects that have that snapshot as their controller and are of a
  -- kind that the controller registered as owned.
  pub reconcile-IsOwned_snapshot :
      (req : NamespacedName) (snap : QuestDbSnapshot) (w : W)
      → (client.get_snapshot req w).0 ≡ ok snap
      → let log = (reconcile client lib req (record { world = w; log = [] })).1.log in
        (all_controlled lib snap.meta log ≡ true) × All IsOwnedKind (created_kinds log)
  unfolding reconcile
  reconcile-IsOwned_snapshot req snap w found = (
    ground (
      arith,
      found,
      reconcile_snapshot-Controlled snap
          (record {
            world = (client.get_snapshot req w).1;
            log = Calls.got_snapshot req (ok snap) ∷ [];
          })
          refl,
    ),
    created_kinds-IsOwnedKind (reconcile client lib req (record { world = w; log = [] })).1.log,
  )
