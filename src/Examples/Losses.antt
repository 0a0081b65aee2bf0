-- ===== src/Examples/Losses.antt =====
-- A server that takes the status of a schedule and refuses its snapshot.
use questdb_operator.Prelude.{◌≡◌, refl, none, true, List, [], ◌∷◌, arith}
use questdb_operator.Prelude.Int.{pos, add_int32}
use questdb_operator.Kube.Error.{ok, err, api_failure, ignore_already_exists}
use questdb_operator.Api.Types.{QuestDbSnapshot, QuestDbSnapshotSchedule, succeeded, is_complete}
use questdb_operator.Schedule.Calls.{Client}
use questdb_operator.Schedule.Children.{build_snapshot, scheduled_snapshot, get_last_snapshot_time}
use questdb_operator.Schedule.Gc.{collect, garbage_collect, has_succeeded}
use questdb_operator.Schedule.Reconcile.{run_schedule, create_attempt, is_busy, is_due, time_sub}
use questdb_operator.Schedule.Reconcile.Losses.{stamped, run_schedule-failed}
use questdb_operator.Examples.Data.{meta_lib, schedule_of, snapshot_in}
use questdb_operator.Examples.Schedules.{World, server, go_lib, cron, start}

abbrev refusing : Client World
refusing = record server { create_snapshot = λ snap w. (err (api_failure "forbidden"), w) }

abbrev children : List QuestDbSnapshot
children = snapshot_in succeeded ∷ []

abbrev stored : QuestDbSnapshotSchedule
stored = stamped refusing meta_lib go_lib cron schedule_of 25 children start

abbrev snap : QuestDbSnapshot
snap =
    let built = scheduled_snapshot go_lib stored 25 in
    record built {
      meta = record built.meta { owner_references = record { uid = "u"; controller = true } ∷ [] };
    }

run_schedule-failed_example :
    (run_schedule refusing meta_lib go_lib cron schedule_of 25 children start).0
    ≡ ok (record { requeue_after = pos 10; error = none })
unfolding time_sub is_due is_busy is_complete build_snapshot create_attempt garbage_collect collect
    has_succeeded add_int32 get_last_snapshot_time ignore_already_exists scheduled_snapshot
run_schedule-failed_example =
    run_schedule-failed refusing meta_lib go_lib cron schedule_of 25 children start tt stored snap
      (api_failure "forbidden") refl refl refl (ground arith) refl refl
