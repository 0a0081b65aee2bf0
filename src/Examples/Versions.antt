-- ===== src/Examples/Versions.antt =====
-- A server that keeps one snapshot by its versions, and whose cache is always the first of them.
use questdb_operator.Prelude.{
  ◌≡◌, refl, inl, inr, Bool-cases, and_true, ap, ◌∙◌, ◌⊎◌, Bool, true, false, if◌then◌else◌, ◌&&◌,
  ◌==◌, eq_iff, none, [], String, arith,
}
use questdb_operator.Kube.Error.{Result, ok, err, conflict, not_found}
use questdb_operator.Kube.Meta.{NamespacedName, new_meta}
use questdb_operator.Api.Types.{
  QuestDbSnapshot, SnapshotPhase, empty, pending, running, finalizing, failed, succeeded, unknown,
}
use questdb_operator.Snapshot.Calls.{Client}
use questdb_operator.Snapshot.Phases.Forward.{Forward, Versioned, KeepsVersion, Setting}
use questdb_operator.Snapshot.Reconcile.{reconcile}
use questdb_operator.Snapshot.Reconcile.Forward.{reconcile-Forward}
use questdb_operator.Examples.Data.{meta_lib, questdb_of, snapshot_in}

-- The resource version of the snapshot in a phase.
abbrev version_name : SnapshotPhase → String
version_name empty = "0"
version_name pending = "1"
version_name running = "2"
version_name finalizing = "3"
version_name failed = "4"
version_name succeeded = "5"
version_name (unknown text) = "6"

phase_of : String → SnapshotPhase
phase_of name =
    if name == "0"
    then empty
    else if name == "1"
    then pending
    else if name == "2"
    then running
    else if name == "3"
    then finalizing
    else if name == "4"
    then failed
    else if name == "5"
    then succeeded
    else unknown ""

abbrev is_known : SnapshotPhase → Bool
is_known (unknown text) = false
is_known _ = true

abbrev old_snapshot : QuestDbSnapshot
old_snapshot = record (snapshot_in empty) {
  meta = record (new_meta "snap" "prod" none) { resource_version = "0" };
}

-- A write is taken from the version that is there.
abbrev write :
    QuestDbSnapshot → SnapshotPhase → SnapshotPhase → Result QuestDbSnapshot × SnapshotPhase
write snap next w =
    if snap.meta.resource_version == version_name w && is_known w && is_known next
    then (
      ok (record snap {
        meta = record snap.meta { resource_version = version_name next };
        phase = next;
      }),
      next,
    )
    else (err conflict, w)

abbrev versions : Client SnapshotPhase
versions = record {
  get_snapshot = λ ns w. (ok old_snapshot, w);
  update_snapshot = λ s w. write s w w;
  update_snapshot_status = λ s w. write s s.phase w;
  get_questdb = λ ns w. (ok (questdb_of 10), w);
  get_volume_snapshot_class = λ name w. (ok (record { meta = new_meta name "" none }), w);
  list_secrets = λ ns w. (ok [], w);
  create_job = λ job w. (ok job, w);
  get_job = λ ns w. (err not_found, w);
  delete_job = λ job w. (ok tt, w);
  create_volume_snapshot = λ v w. (ok v, w);
  get_volume_snapshot = λ ns w. (err not_found, w);
}

abbrev key : NamespacedName
key = record { namespace = "prod"; name = "snap" }

phase_of-version_name : (p : SnapshotPhase) → is_known p ≡ true → phase_of (version_name p) ≡ p
unfolding phase_of
phase_of-version_name empty h = refl
phase_of-version_name pending h = refl
phase_of-version_name running h = refl
phase_of-version_name finalizing h = refl
phase_of-version_name failed h = refl
phase_of-version_name succeeded h = refl
phase_of-version_name (unknown text) h = cc

abbrev stored : QuestDbSnapshot → SnapshotPhase → QuestDbSnapshot
stored snap next = record snap {
  meta = record snap.meta { resource_version = version_name next };
  phase = next;
}

-- A write is refused, or it is taken from the version that is there.
write-cases :
    (snap : QuestDbSnapshot) (next w : SnapshotPhase)
    → (write snap next w ≡ (err conflict, w))
      ⊎ ((phase_of snap.meta.resource_version ≡ w)
          × (phase_of (version_name next) ≡ next)
          × (write snap next w ≡ (ok (stored snap next), next)))
write-cases snap next w =
    elim (Bool-cases
      (snap.meta.resource_version == version_name w && is_known w && is_known next)) [
        | inr refused ↦ inl (rw refused)
        | inl taken ↦
            let (same, known) = and_true _ _ taken in
            let (named, there) = and_true _ _ same in
            inr (
              ap phase_of ((eq_iff snap.meta.resource_version (version_name w)).0 named)
                  ∙ phase_of-version_name w there,
              phase_of-version_name next known,
              rw taken,
            )
      ]

versions-Versioned : Versioned versions key (λ w. w) phase_of
versions-Versioned = record {
  read = λ w snap e. ground (arith, e, phase_of-version_name empty refl);
  update = λ snap r w v e. ground (arith, e, write-cases snap w w);
  status = λ snap r w k e. ground (arith, e, write-cases snap snap.phase w);
  status_moves = λ snap w k. ground (arith, write-cases snap snap.phase w);
  update_moves = λ snap w k. ground (arith, write-cases snap w w);
  read_moves = λ w. inl refl;
  questdb_moves = λ ns w. inl refl;
  class_moves = λ name w. inl refl;
  secrets_moves = λ ns w. inl refl;
  create_job_moves = λ job w. inl refl;
  get_job_moves = λ ns w. inl refl;
  delete_job_moves = λ job w. inl refl;
  create_volume_moves = λ v w. inl refl;
  get_volume_moves = λ ns w. inl refl;
}

meta_lib-KeepsVersion : KeepsVersion meta_lib
meta_lib-KeepsVersion = record { added = λ m f. (refl, refl); removed = λ m f. (refl, refl) }

abbrev setting : Setting versions meta_lib
setting = record {
  key = key;
  phase = λ w. w;
  phase_of = phase_of;
  server = versions-Versioned;
  keeps = meta_lib-KeepsVersion;
}

-- A reconciliation that reads the new snapshot, though it is running, leaves it running.
reconcile-Forward_example :
    Forward running (reconcile versions meta_lib key (record { world = running; log = [] })).1.world
reconcile-Forward_example = reconcile-Forward setting (record { world = running; log = [] })
