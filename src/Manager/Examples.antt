-- ===== src/Manager/Examples.antt =====
-- A manager that does all that it is asked for, and servers for the three controllers.
use questdb_operator.Prelude.{◌≡◌, refl, true, [], ◌∷◌, All, arith}
use questdb_operator.Kube.Error.{error_of, ok}
use questdb_operator.Kube.Meta.{NamespacedName}
use questdb_operator.Kube.Exec.{State}
use questdb_operator.QuestDb.Reconcile as QuestDbReconcile
use questdb_operator.Snapshot.Reconcile as SnapshotReconcile
use questdb_operator.Manager.{init, run_process, Manager, Call, default_flags, main, start}
use questdb_operator.Manager.Laws.{registered, run_process-registered}
use questdb_operator.Manager.Owned.{all_controlled, created_kinds, KeepsUid, IsOwnedKind}
use questdb_operator.Manager.Owned.Laws.{reconcile-IsOwned}
use questdb_operator.Snapshot.Phases.Owned as SnapshotOwned
use questdb_operator.Manager.Owned.Snapshots as OwnedSnapshots
use questdb_operator.Api.Types.{pending}
use questdb_operator.Examples.Data.{meta_lib, meta_lib-OwnerLaws, questdb_of, snapshot_in}
use questdb_operator.Examples.Databases
use questdb_operator.Snapshot.Phases.Examples as Snapshots

abbrev World : Type 0
World = Unit {0}

abbrev manager : Manager World
manager = λ step w. (ok tt, w)

abbrev begin : State World Call
begin = record { world = tt; log = [] }

run_process-registered_example :
    (run_process manager default_flags begin).1.log
    ≡ record { step = start; error = error_of (run_process manager default_flags begin).0 }
      ∷ registered default_flags
unfolding init main
run_process-registered_example = run_process-registered manager default_flags tt refl

abbrev key : NamespacedName
key = record { namespace = "prod"; name = "db" }

server-KeepsUid : KeepsUid (Databases.server [])
server-KeepsUid q r w e = ground (arith, e)

reconcile-IsOwned_example :
    (all_controlled meta_lib
        (questdb_of 10).meta
        (QuestDbReconcile.reconcile
          (Databases.server [])
          meta_lib
          Databases.texts
          key
          (record { world = tt; log = [] })).1.log
      ≡ true)
    × All IsOwnedKind (
        created_kinds
          (QuestDbReconcile.reconcile
            (Databases.server [])
            meta_lib
            Databases.texts
            key
            (record { world = tt; log = [] })).1.log)
reconcile-IsOwned_example =
    reconcile-IsOwned (Databases.server []) meta_lib Databases.texts meta_lib-OwnerLaws
      server-KeepsUid key (record { world = tt; log = [] }) (questdb_of 10) tt refl refl

snapshots-KeepsUid : OwnedSnapshots.KeepsUid Snapshots.server
snapshots-KeepsUid snap stored w e = ground (arith, e)

reconcile-IsOwned_snapshot_example :
    let log =
      (SnapshotReconcile.reconcile Snapshots.server meta_lib key
        (record { world = tt; log = [] })).1.log in
    (SnapshotOwned.all_controlled meta_lib (snapshot_in pending).meta log ≡ true)
    × All OwnedSnapshots.IsOwnedKind (OwnedSnapshots.created_kinds log)
reconcile-IsOwned_snapshot_example =
    OwnedSnapshots.reconcile-IsOwned_snapshot Snapshots.server meta_lib meta_lib-OwnerLaws
      snapshots-KeepsUid key (snapshot_in pending) tt refl
