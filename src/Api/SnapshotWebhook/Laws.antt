-- ===== src/Api/SnapshotWebhook/Laws.antt =====
-- What the webhooks of QuestDBSnapshot accept.
use questdb_operator.Prelude.{String, ◌≡◌, refl, ◌≢◌, ◌↔◌, Option, none, some, arith}
use questdb_operator.Prelude.Int.{pos, ◌≤ℤ◌}
use questdb_operator.Api.Types.{QuestDbSnapshot, QuestDbSnapshotSpec}
use questdb_operator.Api.Validation
use questdb_operator.Api.Validation.{fail_if, snapshot_object}
use questdb_operator.Api.Validation.Checks.{
  Decides, Decides-and_then, Decides-iff, fail_if-ne, fail_if-differ, fail_if-eq, fail_if-le,
  fail_if-ne_ℤ,
}
use questdb_operator.Api.QuestDbWebhook.{ClassName-discrete}
use questdb_operator.Api.SnapshotWebhook.{
  default, is_empty_name, validate_snapshot_create, validate_snapshot_update, validate_update,
}

pub record IsCreatable (spec : QuestDbSnapshotSpec) : Type 0 where
  pub named : spec.questdb_name ≢ ""
  pub positive : ¬ (spec.job_backoff_limit ≤ℤ pos 0)
  pub class_named : spec.volume_snapshot_class_name ≢ some ""

fail_if-is_empty_name :
    (o : Option String)
    → Decides (fail_if (is_empty_name o) Validation.class_name_empty) (o ≢ some "")
fail_if-is_empty_name none = (λ _ e. cc, λ _. refl)
fail_if-is_empty_name (some name) =
    let d = fail_if-eq Validation.class_name_empty name "" in
    (λ h e. d.0 h (cc), λ h. d.1 (λ e. h (cc)))

-- A snapshot may be created exactly when it names a database, its limit of attempts is positive, and
-- its class is not the empty name.
pub validate_snapshot_create_iff :
    (spec : QuestDbSnapshotSpec) → (validate_snapshot_create spec ≡ none) ↔ IsCreatable spec
unfolding validate_snapshot_create
validate_snapshot_create_iff spec =
    Decides-iff (λ p. record { named = p.0; positive = p.1.0; class_named = p.1.1 })
      (λ c. (c.named, (c.positive, c.class_named)))
      (Decides-and_then _ _ (fail_if-eq Validation.questdb_name_missing spec.questdb_name "") (
        Decides-and_then _ _
          (fail_if-le Validation.backoff_limit_not_positive spec.job_backoff_limit (pos 0))
          (fail_if-is_empty_name spec.volume_snapshot_class_name)))

-- An update of a snapshot is accepted exactly when its specification is the same.
pub validate_snapshot_update_iff :
    (old new : QuestDbSnapshotSpec) → (validate_snapshot_update old new ≡ none) ↔ (new ≡ old)
unfolding validate_snapshot_update
validate_snapshot_update_iff old new =
    Decides-iff
      (λ p. λ i. record {
        questdb_name = p.0 i;
        volume_snapshot_class_name = p.1.0 i;
        job_backoff_limit = p.1.1 i;
      })
      (λ e. (
        λ i. (e i).questdb_name,
        (λ i. (e i).volume_snapshot_class_name, λ i. (e i).job_backoff_limit),
      ))
      (Decides-and_then _ _
        (fail_if-ne Validation.questdb_name_changed new.questdb_name old.questdb_name)
        (Decides-and_then _ _
          (fail_if-differ Validation.class_name_changed ClassName-discrete
            new.volume_snapshot_class_name old.volume_snapshot_class_name)
          (fail_if-ne_ℤ Validation.backoff_limit_changed new.job_backoff_limit
            old.job_backoff_limit)))

-- A snapshot with its defaults may be updated to itself with the defaults, and its limit is not
-- zero.
pub default-IsStable :
    (r : QuestDbSnapshot)
    → (validate_update (snapshot_object (default r)) (default (default r)) ≡ none)
      × ((default r).spec.job_backoff_limit ≢ pos 0)
unfolding default validate_update
default-IsStable r = ((validate_snapshot_update_iff _ _).1 (ground arith), ground arith)
