-- ===== src/Snapshot/Phases/Patience.antt =====
-- A server on which a snapshot may take its time: requests may fail, and jobs and volume snapshots
-- may not be done yet.
pub mod Steps
pub mod Pending
pub mod Handlers
use questdb_operator.Prelude.{
  ◌≡◌, refl, ◌∙◌, sym, subst, inl, inr, ◌⊎◌, ℕ, ◌-◌, Bool, true, false, none, String,
}
use questdb_operator.Prelude.Int.{pos, leb_ℤ}
use questdb_operator.Kube.Error.{Error, Result, ok, err, is_not_found, is_already_exists}
use questdb_operator.Kube.Meta.{NamespacedName, MetaLib, object_key}
use questdb_operator.Kube.Exec.{State, call, call! }
use questdb_operator.Kube.Exec.Moves.{
  IsPreorder, Moves, Moves-pure, Moves-call, Moves-call!, Moves-if, Moves-bind, Moves-lift,
}
use questdb_operator.Kube.Objects.Workload.{Job}
use questdb_operator.Kube.Objects.Storage.{VolumeSnapshot}
use questdb_operator.Secrets.{get_secrets, secrets_of}
use questdb_operator.Api.Types.{
  QuestDbSnapshot, SnapshotPhase, empty, pending, running, finalizing, failed, succeeded, unknown,
}
use questdb_operator.Snapshot.Calls as Calls
use questdb_operator.Snapshot.Calls.{Client, Call, Handler, EventType, record_event}
use questdb_operator.Snapshot.Build.{build_generic_snapshot_job}
use questdb_operator.Snapshot.Phases.{with_phase, update_status, update, get_existing_job}

-- The same phase, the same limit of attempts, and marked for deletion or not alike.
pub record Alike (a b : QuestDbSnapshot) : Type 0 where
  pub phase : a.phase ≡ b.phase
  pub limit : a.spec.job_backoff_limit ≡ b.spec.job_backoff_limit
  pub deletion : a.meta.deletion_timestamp ≡ b.meta.deletion_timestamp

-- A job that has not failed as often as it may.
abbrev pub IsMild : ℕ → Job → Type 0
IsMild n job = leb_ℤ (pos n) job.status.failed ≡ false

abbrev pub IsMildAnswer : ℕ → Result Job → Type 0
IsMildAnswer n (ok job) = IsMild n job
IsMildAnswer n (err e) = Unit {0}

-- Every request may fail, but no read answers that the database or a class is not there; a write of
-- a snapshot is done or not, and its answer, if it is no error, has what was written; a job that the
-- server answers with has not failed `n` times; and nothing but a write of a snapshot changes
-- `stored`, the snapshot with the key. `W` may be the states that such a server can be in.
pub record IsPatient {W : Type 0} (client : Client W) (key : NamespacedName)
    (stored : W → QuestDbSnapshot) (n : ℕ) : Type 0 where
  pub read :
      (w : W) (snap : QuestDbSnapshot) → (client.get_snapshot key w).0 ≡ ok snap → snap ≡ stored w
  pub read_still : (w : W) → stored (client.get_snapshot key w).1 ≡ stored w
  pub update_moves :
      (snap : QuestDbSnapshot) (w : W)
      → Alike (stored (client.update_snapshot snap w).1) (stored w)
        ⊎ Alike (stored (client.update_snapshot snap w).1) snap
  pub update_answer :
      (snap r : QuestDbSnapshot) (w : W) → (client.update_snapshot snap w).0 ≡ ok r → Alike r snap
  pub status_moves :
      (snap : QuestDbSnapshot) (w : W)
      → Alike (stored (client.update_snapshot_status snap w).1) (stored w)
        ⊎ Alike (stored (client.update_snapshot_status snap w).1) snap
  pub status_answer :
      (snap r : QuestDbSnapshot) (w : W)
      → (client.update_snapshot_status snap w).0 ≡ ok r
      → Alike r snap
  pub questdb_there :
      (ns : NamespacedName) (w : W) (e : Error)
      → (client.get_questdb ns w).0 ≡ err e
      → is_not_found e ≡ false
  pub class_there :
      (name : String) (w : W) (e : Error)
      → (client.get_volume_snapshot_class name w).0 ≡ err e
      → is_not_found e ≡ false
  pub job_mild : (job : Job) (w : W) → IsMildAnswer n (client.create_job job w).0
  pub got_job_mild : (ns : NamespacedName) (w : W) → IsMildAnswer n (client.get_job ns w).0
  pub questdb_still : (ns : NamespacedName) (w : W) → stored (client.get_questdb ns w).1 ≡ stored w
  pub class_still :
      (name : String) (w : W) → stored (client.get_volume_snapshot_class name w).1 ≡ stored w
  pub secrets_still : (ns : String) (w : W) → stored (client.list_secrets ns w).1 ≡ stored w
  pub job_still : (job : Job) (w : W) → stored (client.create_job job w).1 ≡ stored w
  pub got_job_still : (ns : NamespacedName) (w : W) → stored (client.get_job ns w).1 ≡ stored w
  pub deleted_job_still : (job : Job) (w : W) → stored (client.delete_job job w).1 ≡ stored w
  pub volume_still :
      (v : VolumeSnapshot) (w : W) → stored (client.create_volume_snapshot v w).1 ≡ stored w
  pub got_volume_still :
      (ns : NamespacedName) (w : W) → stored (client.get_volume_snapshot ns w).1 ≡ stored w

-- The phase that follows where all goes well.
abbrev pub next : SnapshotPhase → SnapshotPhase
next empty = pending
next pending = running
next running = finalizing
next finalizing = succeeded
next phase = phase

-- The phases on the way to success, and how many steps are left.
abbrev pub on_way : SnapshotPhase → Bool
on_way failed = false
on_way (unknown text) = false
on_way phase = true

abbrev pub left : SnapshotPhase → ℕ
left empty = 4
left pending = 3
left running = 2
left finalizing = 1
left phase = 0

pub on_way-next : (p : SnapshotPhase) → on_way p ≡ true → on_way (next p) ≡ true
on_way-next empty h = refl
on_way-next pending h = refl
on_way-next running h = refl
on_way-next finalizing h = refl
on_way-next succeeded h = refl
on_way-next failed h = h
on_way-next (unknown text) h = h

pub left-next : (p : SnapshotPhase) → left (next p) ≡ left p - 1
left-next empty = refl
left-next pending = refl
left-next running = refl
left-next finalizing = refl
left-next succeeded = refl
left-next failed = refl
left-next (unknown text) = refl

-- A snapshot in a phase that may fail `n` times and is not marked for deletion.
pub record At (n : ℕ) (phase : SnapshotPhase) (snap : QuestDbSnapshot) : Type 0 where
  pub at : snap.phase ≡ phase
  pub limit : snap.spec.job_backoff_limit ≡ pos n
  pub kept : snap.meta.deletion_timestamp ≡ none

-- At the phase, or one step further.
abbrev pub Within : ℕ → SnapshotPhase → QuestDbSnapshot → Type 0
Within n phase snap = At n phase snap ⊎ At n (next phase) snap

pub At-Alike :
    {n : ℕ} {phase : SnapshotPhase} {a b : QuestDbSnapshot}
    → Alike a b
    → At n phase b
    → At n phase a
At-Alike same good = record {
  at = same.phase ∙ good.at;
  limit = same.limit ∙ good.limit;
  kept = same.deletion ∙ good.kept;
}

pub Within-Alike :
    (n : ℕ) (phase : SnapshotPhase) {a b : QuestDbSnapshot}
    → Alike a b
    → Within n phase b
    → Within n phase a
Within-Alike n phase same (inl good) = inl (At-Alike same good)
Within-Alike n phase same (inr good) = inr (At-Alike same good)
