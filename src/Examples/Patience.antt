-- ===== src/Examples/Patience.antt =====
-- A server that is cut off now and then, while others do the jobs.
use questdb_operator.Prelude.{◌≡◌, refl, none, some, List, [], ◌∷◌}
use questdb_operator.Kube.Error.{err, api_failure, ignore_not_found}
use questdb_operator.Kube.Meta.{NamespacedName}
use questdb_operator.Api.Types.{QuestDbSnapshot, empty}
use questdb_operator.Snapshot.Build.{pre_snapshot, post_snapshot, snapshot_job, volume_snapshot}
use questdb_operator.Snapshot.Calls.{Client}
use questdb_operator.Snapshot.Phases.Progress.{Scene}
use questdb_operator.Snapshot.Reconcile.{reconcile}
use questdb_operator.Snapshot.Reconcile.Success.{run}
use questdb_operator.Snapshot.Reconcile.Patience.{Round, well, slow}
use questdb_operator.Examples.Data.{meta_lib, snapshot_in}
use questdb_operator.Examples.Snapshots.{memory, work, bare, key_of}

-- A snapshot named "snap".
abbrev server : Client Scene
server = memory "snap"

-- It can not be reached.
abbrev cut_off : Client Scene
cut_off = record server {
  get_snapshot = λ ns c. (err (api_failure "timeout"), c);
  get_job = λ ns c. (err (api_failure "timeout"), c);
}

abbrev key : NamespacedName
key = key_of "snap"

abbrev snap : QuestDbSnapshot
snap = snapshot_in empty

-- Others have all the objects made and done.
abbrev finish : Scene → Scene
finish c = work (record c {
  pre_job = some (snapshot_job snap none pre_snapshot "SNAPSHOT PREPARE;");
  volume = some (volume_snapshot snap);
  post_job = some (snapshot_job snap none post_snapshot "SNAPSHOT COMPLETE;");
})

cut_off-stays : (c : Scene) → run cut_off meta_lib key c ≡ c
unfolding reconcile ignore_not_found
cut_off-stays c = refl

-- The server is cut off at first, and once more when the snapshot is running.
abbrev rounds : List (Round Scene)
rounds =
    slow cut_off finish
    ∷ well server finish
    ∷ well server finish
    ∷ slow cut_off finish
    ∷ well server finish
    ∷ well server finish
    ∷ []

-- The scenes before the second, the third and the fourth good round.
abbrev scene1 : Scene
scene1 = run server meta_lib key (finish (bare snap))

abbrev scene2 : Scene
scene2 = run server meta_lib key (finish scene1)

abbrev scene3 : Scene
scene3 = run server meta_lib key (finish (finish scene2))
