-- ===== src/Schedule/Reconcile.antt =====
-- `QuestDBSnapshotScheduleReconciler.Reconcile`.
pub mod Guard
pub mod Laws
pub mod Losses
pub mod Timing
pub mod Overlap
pub mod Regular
use questdb_operator.Prelude.{
  ℕ, ◌-◌, Bool, not, leb, ltb, ◌&&◌, Option, none, some, List, [], ◌∷◌, if◌then◌else◌, deep_equal,
}
use questdb_operator.Prelude.Int.{ℤ, pos, negsuc, eq_ℤ}
use questdb_operator.Cron.{Cron}
use questdb_operator.Kube.Error.{
  error_of, Error, Result, ok, err, ignore_not_found, ignore_already_exists,
}
use questdb_operator.Kube.Meta.{NamespacedName, MetaLib, new_meta}
use questdb_operator.Kube.Exec.{State, pure, raise, lift, call, call!, ◌>>=◌, ◌>>◌}
use questdb_operator.Api.Types.{
  QuestDbSnapshot, QuestDbSnapshotSchedule, SnapshotPhase-discrete, empty, is_complete,
}
use questdb_operator.Api.ScheduleWebhook.{schedule_retention_default}
use questdb_operator.Schedule.Calls
use questdb_operator.Schedule.Calls.{
  Client, Handler, Call, Attempt, GoLib, record_event, normal, warning,
}
use questdb_operator.Schedule.Gc.{garbage_collect}
use questdb_operator.Schedule.Children.{
  get_ordered_child_snapshots, build_snapshot, build_crontab, get_last_snapshot_time,
}

-- `ctrl.Result` and the error beside it. A handler that fails stands for an empty `ctrl.Result`.
pub record Answer : Type 0 where
  pub requeue_after : ℤ
  pub error : Option Error

abbrev pub no_requeue : Answer
no_requeue = record { requeue_after = pos 0; error = none }

abbrev max_duration : ℕ
max_duration = 9223372036854775807

abbrev min_ℕ : ℕ → ℕ → ℕ
min_ℕ a b = if ltb a b then a else b

-- `a.Sub(b)`, a `time.Duration`: an `int64` that stops at its bounds.
unfoldable pub time_sub : ℕ → ℕ → ℤ
time_sub a b =
    if ltb a b then negsuc (min_ℕ (b - a - 1) max_duration) else pos (min_ℕ (a - b) max_duration)

-- `&crdv1beta1.QuestDBSnapshot{}`
abbrev zero_snapshot : QuestDbSnapshot
zero_snapshot = record {
  meta = new_meta "" "" none;
  spec = record { questdb_name = ""; volume_snapshot_class_name = none; job_backoff_limit = pos 0 };
  phase = empty;
}

abbrev pub latest_of : List QuestDbSnapshot → QuestDbSnapshot
latest_of [] = zero_snapshot
latest_of (snap ∷ snaps) = snap

-- The latest snapshot is there and neither succeeded nor failed.
unfoldable pub is_busy : QuestDbSnapshotSchedule → QuestDbSnapshot → Bool
is_busy sched latest =
    not (deep_equal SnapshotPhase-discrete sched.status.snapshot_phase empty)
    && not (is_complete latest)

-- "Check if we are due for a snapshot"
unfoldable pub is_due : (cron : Cron) → Cron.Crontab cron → QuestDbSnapshotSchedule → ℕ → Bool
is_due cron crontab sched now = leb (Cron.next cron crontab (get_last_snapshot_time sched)) now

module _ {W : Type 0} (client : Client W) where
  -- "Set retention if it is not set"
  unfoldable pub ensure_retention : QuestDbSnapshotSchedule → Handler W QuestDbSnapshotSchedule
  ensure_retention sched =
      if eq_ℤ sched.spec.retention (pos 0)
      then (let defaulted = record sched {
        spec = record sched.spec { retention = schedule_retention_default };
      } in
          call! (Calls.updated_schedule defaulted) (client.update_schedule defaulted))
      else pure sched

  abbrev pub write_status : QuestDbSnapshotSchedule → Handler W QuestDbSnapshotSchedule
  write_status sched = call! (Calls.updated_status sched) (client.update_schedule_status sched)

  -- "Update the snapshot phase status based on the latest snapshot"
  unfoldable pub copy_phase :
      QuestDbSnapshot → QuestDbSnapshotSchedule → Handler W QuestDbSnapshotSchedule
  copy_phase latest sched =
      if deep_equal SnapshotPhase-discrete latest.phase sched.status.snapshot_phase
      then pure sched
      else write_status
          (record sched { status = record sched.status { snapshot_phase = latest.phase } })

  -- The closure of the retried creation. A success leaves the stored snapshot in the variable.
  unfoldable pub create_attempt : Attempt W
  create_attempt snap s =
      let (r, w) = client.create_snapshot snap s.world in
      let s' : State W Call = record { world = w; log = Calls.created_snapshot snap r ∷ s.log } in
      elim r [
        | ok stored ↦ ((none, stored), s')
        | err e ↦ ((ignore_already_exists (some e), snap), s')
      ]

module _ {W : Type 0} (client : Client W) (lib : MetaLib) (go : GoLib W) where
  abbrev pub after_create :
      List QuestDbSnapshot → Option Error × QuestDbSnapshot → Handler W (List QuestDbSnapshot)
  after_create children (none, snap) = do
    record_event normal "SnapshotCreated"
    pure (snap ∷ children)
  after_create children (some e, snap) = do record_event warning "SnapshotFailed"; pure children

  -- "Otherwise, build the snapshot": the list of children behind it.
  unfoldable pub take_snapshot :
      QuestDbSnapshotSchedule → ℕ → List QuestDbSnapshot → Handler W (List QuestDbSnapshot)
  take_snapshot sched now children = do
    snap ← lift (build_snapshot lib go sched now)
    result ← (λ s. let (r, s') = go.retry_on_conflict (create_attempt client) snap s in (ok r, s'))
    after_create children result

  unfoldable pub unless_busy :
      QuestDbSnapshotSchedule → ℕ → List QuestDbSnapshot → Handler W (List QuestDbSnapshot)
  unless_busy sched now children =
      if is_busy sched (latest_of children)
      then (do record_event warning "SnapshotSkipped"; pure children)
      else take_snapshot sched now children

  -- The body of the `if` for a snapshot that is due: the schedule and its children behind it.
  unfoldable pub run_due :
      QuestDbSnapshotSchedule
      → ℕ
      → List QuestDbSnapshot
      → Handler W (QuestDbSnapshotSchedule × List QuestDbSnapshot)
  run_due sched now children = do
    sched' ←
        write_status client (record sched { status = record sched.status { last_snapshot = now } })
    children' ← unless_busy sched' now children
    pure (sched', children')

module _ {W : Type 0} (client : Client W) (cron : Cron) where
  -- The end of the reconciliation; the time to the next one stands also beside an error.
  unfoldable pub collect_and_requeue :
      Cron.Crontab cron
      → ℕ
      → QuestDbSnapshotSchedule × List QuestDbSnapshot
      → State W Call
      → Result Answer × State W Call
  collect_and_requeue crontab now (sched, children) s =
      let (r, s') = garbage_collect client sched.spec.retention children s in
      (
        ok (record {
          requeue_after = time_sub (Cron.next cron crontab now) now;
          error = error_of r;
        }),
        s',
      )

module _ {W : Type 0} (client : Client W) (lib : MetaLib) (go : GoLib W) (cron : Cron) where
  abbrev pub with_crontab :
      QuestDbSnapshotSchedule
      → ℕ
      → List QuestDbSnapshot
      → Option (Cron.Crontab cron)
      → Handler W Answer
  with_crontab sched now children none = do record_event warning "InvalidSchedule"; pure no_requeue
  with_crontab sched now children (some crontab) = do
    current ←
        if is_due cron crontab sched now
        then run_due client lib go sched now children
        else pure (sched, children)
    collect_and_requeue client cron crontab now current

  unfoldable pub run_schedule :
      QuestDbSnapshotSchedule → ℕ → List QuestDbSnapshot → Handler W Answer
  run_schedule sched now children = with_crontab sched now children (build_crontab cron sched)

  -- The part behind the `Get`.
  unfoldable pub reconcile_schedule : QuestDbSnapshotSchedule → Handler W Answer
  reconcile_schedule found = do
    retained ← ensure_retention client found
    children ← get_ordered_child_snapshots client lib go retained
    sched ← copy_phase client (latest_of children) retained
    now ← (λ s.
        let (t, w) = client.now s.world in
        (ok t, record { world = w; log = Calls.read_clock t ∷ s.log }))
    run_schedule sched now children

  abbrev pub after_get : Result QuestDbSnapshotSchedule → Handler W Answer
  after_get (ok sched) = reconcile_schedule sched
  after_get (err e) = elim (ignore_not_found e) [ none ↦ pure no_requeue | some x ↦ raise x ]

  unfoldable pub reconcile : NamespacedName → Handler W Answer
  reconcile req = do
    found ← call (Calls.got_schedule req) (client.get_schedule req)
    after_get found
