-- ===== src/Schedule/Completion.antt =====
-- From a schedule that the webhook accepted to a snapshot that has succeeded.
use questdb_operator.Prelude.{ℕ, ◌<◌, ◌≡◌, ◌∙◌, refl, ap, none, arith}
use questdb_operator.Prelude.Int.{ℤ, pos, negsuc, ◌≤ℤ◌}
use questdb_operator.Cron.{Cron}
use questdb_operator.Kube.Error.{ok}
use questdb_operator.Kube.Meta.{NamespacedName, MetaLib, Owns, object_key}
use questdb_operator.Api.Types.{QuestDbSnapshot, QuestDbSnapshotSchedule, empty}
use questdb_operator.Snapshot.Calls.{Client}
use questdb_operator.Snapshot.Phases.Progress.{AddsOnly, Cooperates, Scene}
use questdb_operator.Snapshot.Reconcile.Success.{
  run, Works, IsSettled, SucceedsWithin, reconcile-succeeds,
}
use questdb_operator.Schedule.Calls.{GoLib}
use questdb_operator.Schedule.Children.{build_snapshot, scheduled_snapshot}
use questdb_operator.Schedule.Admission.{Admitted, Admitted-IsCreatable, build_snapshot-spec}

-- A limit that is not at most zero is a positive number.
positive_limit : (z : ℤ) → ¬ (z ≤ℤ pos 0) → (n : ℕ) × (z ≡ pos n) × (0 < n)
positive_limit (pos n) h = (n, refl, omega (arith, h))
positive_limit (negsuc n) h = absurd (h (omega arith))

build_snapshot-phase :
    {V : Type 0} (lib : MetaLib) (go : GoLib V) (sched : QuestDbSnapshotSchedule) (t : ℕ)
    (snap : QuestDbSnapshot)
    → build_snapshot lib go sched t ≡ ok snap
    → snap.phase ≡ empty
unfolding build_snapshot scheduled_snapshot
build_snapshot-phase lib go sched t snap built = ground (arith, built)

-- Let the schedule be as the webhook accepted it, at its creation and at each update. A snapshot that
-- the schedule controller builds for it, stored under the key with its specification and its phase,
-- not marked for deletion and with none of its objects there but such as are done, has succeeded
-- after seven reconciliations of the snapshot controller at most, if nothing fails on the server,
-- which holds the snapshot as it is written, with the database, the classes and usable secrets, makes
-- an object where there is none, without a status, and refuses to where there is one, and if others do
-- the jobs and make the volume snapshot ready between two reconciliations.
pub scheduled-succeeds :
    {V W : Type 0} (cron : Cron) (lib : MetaLib) (go : GoLib V) (sched : QuestDbSnapshotSchedule)
    (t : ℕ) (snap : QuestDbSnapshot) (client : Client W) (key : NamespacedName) (scene : W → Scene)
    (good : Cooperates client key scene) (owns : Owns lib) (adds : AddsOnly lib) (work : W → W)
    (works : (w : W) → Works (scene w) (scene (work w))) (w : W)
    → Admitted cron sched
    → build_snapshot lib go sched t ≡ ok snap
    → (scene w).snapshot.spec ≡ snap.spec
    → (scene w).snapshot.phase ≡ snap.phase
    → (scene w).snapshot.meta.deletion_timestamp ≡ none
    → object_key (scene w).snapshot.meta ≡ key
    → IsSettled (scene w)
    → SucceedsWithin scene (λ w. work (run client lib key w)) 7 w
scheduled-succeeds cron lib go sched t snap client key scene good owns adds work works w held built
      spec phase kept named settled =
    let fit = (Admitted-IsCreatable cron sched held).1 in
    let (n, limit, positive) = positive_limit sched.spec.snapshot.job_backoff_limit fit.positive in
    let same = spec ∙ build_snapshot-spec lib go sched t snap built in
    reconcile-succeeds client lib key scene good owns adds n positive work works w
      (record {
        at = phase ∙ build_snapshot-phase lib go sched t snap built;
        limit = ap (λ x. x.job_backoff_limit) same ∙ limit;
        kept = kept;
        named = named;
      })
      settled
