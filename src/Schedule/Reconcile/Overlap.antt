-- ===== src/Schedule/Reconcile/Overlap.antt =====
-- `Reconcile` of the schedules: no snapshot beside one that is under way.
use questdb_operator.Prelude.{
  ℕ, ◌≡◌, refl, subst, ap, ◌∙◌, true, false, Bool, not, inl, inr, Bool-cases, Option, none, some,
  List, [], ◌∷◌, keep, deep_equal, deep_equal_iff, arith,
}
use questdb_operator.Cron.{Cron}
use questdb_operator.Kube.Error.{Result-cases, ok}
use questdb_operator.Kube.Meta.{NamespacedName, MetaLib, OwnerLaws}
use questdb_operator.Kube.Exec.{State, bind-keeps_result}
use questdb_operator.Api.Types.{
  QuestDbSnapshot, QuestDbSnapshotSchedule, SnapshotPhase, SnapshotPhase-discrete, is_complete,
  empty, pending, running, finalizing, succeeded, failed, unknown,
}
use questdb_operator.Schedule.Calls.{
  Client, Call, GoLib, updated_status, listed_snapshots, got_schedule, read_clock,
}
use questdb_operator.Schedule.Children.{owned_snapshots, get_ordered_child_snapshots}
use questdb_operator.Schedule.Reconcile.{
  ensure_retention, copy_phase, is_busy, latest_of, reconcile_schedule, reconcile,
}
use questdb_operator.Schedule.Reconcile.Guard.{
  RetryRuns, creations_guarded, stamp, run_schedule-Good, ensure_retention-Good,
}

-- Begun, and neither succeeded nor failed.
abbrev pub is_under_way : SnapshotPhase → Bool
is_under_way empty = false
is_under_way succeeded = false
is_under_way failed = false
is_under_way pending = true
is_under_way running = true
is_under_way finalizing = true
is_under_way (unknown text) = true

-- The snapshots that the server listed last.
abbrev pub latest_listing : List Call → List QuestDbSnapshot
latest_listing [] = []
latest_listing (listed_snapshots _ (ok items) ∷ calls) = items
latest_listing (_ ∷ calls) = latest_listing calls

-- The schedule as the server took its status last.
abbrev pub latest_taken : List Call → Option QuestDbSnapshotSchedule
latest_taken [] = none
latest_taken (updated_status _ (ok stored) ∷ calls) = some stored
latest_taken (_ ∷ calls) = latest_taken calls

-- The first one, if there is one, is not under way.
abbrev pub is_idle : List QuestDbSnapshot → Bool
is_idle [] = true
is_idle (snap ∷ snaps) = not (is_under_way snap.phase)

-- Of the snapshots that the server listed, the latest one of the schedule is not under way.
abbrev pub is_free : {W : Type 0} → MetaLib → GoLib W → List Call → Bool
is_free lib go calls = elim (latest_taken calls) [
  | none ↦ false
  | some sched ↦ is_idle (owned_snapshots lib go sched (latest_listing calls))
]

-- The server keeps the uid of a schedule and the phase in its status.
abbrev pub KeepsPhase : {W : Type 0} → Client W → Type 0
KeepsPhase {W = W} client =
    (sched stored : QuestDbSnapshotSchedule) (w : W)
    → (client.update_schedule_status sched w).0 ≡ ok stored
    → (stored.meta.uid ≡ sched.meta.uid)
      × (stored.status.snapshot_phase ≡ sched.status.snapshot_phase)

keep-cong :
    (p q : QuestDbSnapshot → Bool)
    → ((x : QuestDbSnapshot) → p x ≡ q x)
    → (xs : List QuestDbSnapshot) → keep p xs ≡ keep q xs
keep-cong p q same [] = refl
keep-cong p q same (x ∷ xs) = rw (same x, keep-cong p q same xs) refl

-- Two versions of a schedule own the same snapshots.
owned_snapshots-uid :
    {W : Type 0} (lib : MetaLib) (laws : OwnerLaws lib) (go : GoLib W)
    (a b : QuestDbSnapshotSchedule) (items : List QuestDbSnapshot)
    → a.meta.uid ≡ b.meta.uid
    → owned_snapshots lib go a items ≡ owned_snapshots lib go b items
unfolding owned_snapshots
owned_snapshots-uid lib laws go a b items same =
    keep-cong (λ s. lib.is_controlled_by s.meta a.meta) (λ s. lib.is_controlled_by s.meta b.meta)
      (λ s. laws.by_uid a.meta b.meta s.meta same) _

-- What is under way is not complete, and not the empty phase.
is_under_way-is_complete :
    (snap : QuestDbSnapshot) (p : SnapshotPhase)
    → snap.phase ≡ p
    → is_under_way p ≡ true
    → (is_complete snap ≡ false) × (deep_equal SnapshotPhase-discrete p empty ≡ false)
unfolding is_complete
is_under_way-is_complete snap pending at h =
    ground (arith, at, deep_equal_iff SnapshotPhase-discrete pending empty)
is_under_way-is_complete snap running at h =
    ground (arith, at, deep_equal_iff SnapshotPhase-discrete running empty)
is_under_way-is_complete snap finalizing at h =
    ground (arith, at, deep_equal_iff SnapshotPhase-discrete finalizing empty)
is_under_way-is_complete snap (unknown text) at h =
    ground (arith, at, deep_equal_iff SnapshotPhase-discrete (unknown text) empty)
is_under_way-is_complete snap empty at h = ground (arith, h)
is_under_way-is_complete snap succeeded at h = ground (arith, h)
is_under_way-is_complete snap failed at h = ground (arith, h)

is_busy-free :
    (sched : QuestDbSnapshotSchedule) (latest : QuestDbSnapshot)
    → sched.status.snapshot_phase ≡ latest.phase
    → is_busy sched latest ≡ false
    → is_under_way latest.phase ≡ false
unfolding is_busy
is_busy-free sched latest same free = elim (Bool-cases (is_under_way latest.phase)) [
  | inr idle ↦ idle
  | inl under_way ↦
      let (open_end, begun) = is_under_way-is_complete latest latest.phase refl under_way in
      ground (arith, same, open_end, begun, free)
]

latest_of-is_idle :
    (children : List QuestDbSnapshot)
    → is_under_way (latest_of children).phase ≡ false
    → is_idle children ≡ true
latest_of-is_idle [] h = refl
latest_of-is_idle (snap ∷ snaps) h = ground (arith, h)

module _ {W : Type 0} (client : Client W) (keeps : KeepsPhase client) (lib : MetaLib)
    (laws : OwnerLaws lib) (go : GoLib W) (cron : Cron) (runs : RetryRuns go) where
  abbrev Guarded : State W Call → Type 0
  Guarded s = creations_guarded (is_free lib go) s.log ≡ true

  -- The status that a run writes shows the latest child as free, unless the run skips it.
  is_free-stamp :
      (retained sched stored : QuestDbSnapshotSchedule) (items : List QuestDbSnapshot) (now : ℕ)
      (w : W) (calls : List Call)
      → latest_listing calls ≡ items
      → sched.meta.uid ≡ retained.meta.uid
      → let latest = latest_of (owned_snapshots lib go retained items) in
        sched.status.snapshot_phase ≡ latest.phase
        → (client.update_schedule_status (stamp sched now) w).0 ≡ ok stored
        → is_busy stored latest ≡ false
        → is_free lib go (updated_status (stamp sched now) (ok stored) ∷ read_clock now ∷ calls)
          ≡ true
  is_free-stamp retained sched stored items now w calls listed owner copied taken free =
      let (uid, phase) = keeps (stamp sched now) stored w taken in
      let children = owned_snapshots lib go retained items in
      let same = owned_snapshots-uid lib laws go stored retained items (uid ∙ owner) in
      let free = is_busy-free stored (latest_of children) (phase ∙ copied) free in
      rw (listed) (rw (same) (latest_of-is_idle children free))

  copy_phase_lem :
      (latest : QuestDbSnapshot) (retained sched : QuestDbSnapshotSchedule) (s : State W Call)
      → (copy_phase client latest retained s).0 ≡ ok sched
      → (sched.meta.uid ≡ retained.meta.uid) × (sched.status.snapshot_phase ≡ latest.phase)
  unfolding copy_phase
  copy_phase_lem latest retained sched s e =
      let copied : QuestDbSnapshotSchedule = record retained {
        status = record retained.status { snapshot_phase = latest.phase };
      } in
      ground (
        arith,
        e,
        keeps copied sched s.world,
        deep_equal_iff SnapshotPhase-discrete latest.phase retained.status.snapshot_phase,
      )

  -- No creation so far, and these are the snapshots that were listed.
  abbrev Listed : List QuestDbSnapshot → State W Call → Type 0
  Listed items s = Guarded s × (latest_listing s.log ≡ items)

  copy_phase-Listed :
      (latest : QuestDbSnapshot) (retained : QuestDbSnapshotSchedule) (items : List QuestDbSnapshot)
      (s : State W Call)
      → Listed items s
      → Listed items (copy_phase client latest retained s).1
  unfolding copy_phase
  copy_phase-Listed latest retained items s (h, listed) = (ground arith, ground (arith, listed))

  children-listed :
      (retained : QuestDbSnapshotSchedule) (children : List QuestDbSnapshot) (s : State W Call)
      → (get_ordered_child_snapshots client lib go retained s).0 ≡ ok children
      → children
        ≡ owned_snapshots lib go retained
            (latest_listing (get_ordered_child_snapshots client lib go retained s).1.log)
  unfolding get_ordered_child_snapshots
  children-listed retained children s e = ground (arith, e)

  children-Guarded :
      (retained : QuestDbSnapshotSchedule) (s : State W Call)
      → Guarded s
      → Guarded (get_ordered_child_snapshots client lib go retained s).1
  unfolding get_ordered_child_snapshots
  children-Guarded retained s h = ground arith

  reconcile_schedule-Guarded :
      (found : QuestDbSnapshotSchedule) (s : State W Call)
      → Guarded s
      → Guarded (reconcile_schedule client lib go cron found s).1
  unfolding reconcile_schedule
  reconcile_schedule-Guarded found s h =
      bind-keeps_result Guarded Guarded (ensure_retention client found) _ s
        (ensure_retention-Good client lib go cron runs (is_free lib go) (λ snap r calls. refl) found
          s h)
        (λ s' k. k)
        (λ retained s1 was_retained h1.
          let list = get_ordered_child_snapshots client lib go retained in
          let items = latest_listing (list s1).1.log in
          bind-keeps_result (Listed items) Guarded list _ s1 (children-Guarded retained s1 h1, refl)
            (λ s' k. k.0)
            (λ children s2 was_listed h2.
              bind-keeps_result (Listed items) Guarded
                (copy_phase client (latest_of children) retained) _ s2
                (copy_phase-Listed (latest_of children) retained items s2 h2) (λ s' k. k.0)
                (λ sched s3 was_copied h3.
                  let (now, w) = client.now s3.world in
                  let of_items = children-listed retained children s1 was_listed in
                  let same = copy_phase_lem (latest_of children) retained sched s2 was_copied in
                  run_schedule-Good client lib go cron runs (is_free lib go) (λ snap r calls. refl)
                    sched now children (record { world = w; log = read_clock now ∷ s3.log }) h3.0
                    (λ crontab parsed due stored taken free.
                      is_free-stamp retained sched stored items now w s3.log h3.1 same.0
                        (same.1 ∙ ap (λ c. (latest_of c).phase) of_items) taken
                        (subst (λ c. is_busy stored (latest_of c) ≡ false) of_items free)))))

  -- No snapshot is created beside one that is under way. Let a retry do nothing but run its closure,
  -- let the server keep the uid of a schedule and the phase in its status where a status is
  -- written, and let the owner of an object be told by the uid. Then, whatever else the server
  -- answers, a reconciliation creates a snapshot only if the first snapshot of the schedule, in the
  -- order of the sort and among those that the server listed, is not under way: there is none, or
  -- its phase is empty, succeeded or failed.
  pub reconcile-creations_free :
      (req : NamespacedName) (w : W)
      → creations_guarded
          (is_free lib go)
          (reconcile client lib go cron req (record { world = w; log = [] })).1.log
        ≡ true
  unfolding reconcile
  reconcile-creations_free req w = elim (Result-cases (client.get_schedule req w).0) [
    | inr (e, bad) ↦ ground (arith, bad)
    | inl (found, good) ↦ ground (
      arith,
      good,
      reconcile_schedule-Guarded found
          (record {
            world = (client.get_schedule req w).1;
            log = got_schedule req (client.get_schedule req w).0 ∷ [];
          })
          refl,
    )
  ]
