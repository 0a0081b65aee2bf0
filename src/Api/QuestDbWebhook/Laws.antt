-- ===== src/Api/QuestDbWebhook/Laws.antt =====
-- What the webhooks of QuestDB accept, and what no sequence of updates can change.
use questdb_operator.Prelude.{
  ◌≡◌, ℕ, refl, ◌∙◌, ◌≢◌, ◌↔◌, ◌⊎◌, inl, inr, none, some, List, [], ◌∷◌, arith, eq_iff,
  Option-cases,
}
use questdb_operator.Prelude.Int.{pos, ◌≤ℤ◌}
use questdb_operator.Api.Types.{QuestDb, QuestDbVolumeSpec}
use questdb_operator.Api.Validation
use questdb_operator.Api.Validation.{questdb_object}
use questdb_operator.Api.Validation.Checks.{
  Decides, Decides-and_then, Decides-iff, fail_if-ne, fail_if-differ, fail_if-eq, fail_if-lt,
  fail_if-eq_ℤ, fail_if-both,
}
use questdb_operator.Api.Config.{validate_db_config}
use questdb_operator.Api.Config.Laws.{validate_db_config-nil}
use questdb_operator.Api.QuestDbWebhook.{
  Selector-discrete, ClassName-discrete, pull_if_not_present, default, validate_config_text,
  validate_volume_spec, validate_create, validate_change, validate_update,
}

validate_config_text_lem :
    (text : List ℕ) → Decides (validate_config_text text) (validate_db_config text ≡ none)
unfolding validate_config_text
validate_config_text_lem [] = (λ _. validate_db_config-nil, λ _. refl)
validate_config_text_lem (c ∷ text) = (λ h. h, λ h. h)

pub record IsCreatable (r : QuestDb) : Type 0 where
  pub sized : r.spec.volume.size.value ≢ pos 0
  pub free_config : validate_db_config r.spec.config.server_config ≡ none
  pub one_source : (r.spec.volume.snapshot_name ≡ "") ⊎ (r.spec.volume.selector ≡ none)

-- A QuestDB may be created exactly when its volume size is not zero, its configuration has no
-- reserved key, and it does not name both a snapshot and a selector for its volume.
pub validate_create_iff : (r : QuestDb) → (validate_create r ≡ none) ↔ IsCreatable r
unfolding validate_create validate_volume_spec
validate_create_iff r =
    let sized = fail_if-eq_ℤ Validation.volume_size_zero volume.size.value (pos 0) in
    Decides-iff (λ p. record { sized = p.0; free_config = p.1.0; one_source = p.1.1.1 })
      (λ c. (c.sized, (c.free_config, (c.sized, c.one_source))))
      (Decides-and_then _ _ sized (
        Decides-and_then _ _ (validate_config_text_lem r.spec.config.server_config) (
          Decides-and_then _ _ sized
            (fail_if-both Validation.snapshot_and_selector volume.snapshot_name volume.selector))))
  where
    open r.spec use {volume}

pub record SameVolume (a b : QuestDbVolumeSpec) : Type 0 where
  pub snapshot_name : b.snapshot_name ≡ a.snapshot_name
  pub selector : b.selector ≡ a.selector
  pub volume_name : b.volume_name ≡ a.volume_name
  pub storage_class_name : b.storage_class_name ≡ a.storage_class_name

pub record IsUpdatable (old r : QuestDb) : Type 0 where
  pub not_shrunk : old.spec.volume.size.value ≤ℤ r.spec.volume.size.value
  pub free_config : validate_db_config r.spec.config.server_config ≡ none
  pub same_volume : SameVolume old.spec.volume r.spec.volume
  pub pull_policy : r.spec.image_pull_policy ≢ ""

-- An update is accepted exactly when the volume does not shrink and is otherwise the same, the
-- configuration has no reserved key, and the image pull policy is set.
pub validate_update_iff :
    (old r : QuestDb) → (validate_update (questdb_object old) r ≡ none) ↔ IsUpdatable old r
unfolding validate_update validate_change
validate_update_iff old r =
    let selector =
      fail_if-differ Validation.selector_changed Selector-discrete u.selector v.selector in
    Decides-iff
      (λ p. record {
        not_shrunk = p.0;
        free_config = p.1.0;
        same_volume = record {
          snapshot_name = p.1.1.0;
          selector = p.1.1.1.0;
          volume_name = p.1.1.1.1.1.0;
          storage_class_name = p.1.1.1.1.1.1.0;
        };
        pull_policy = p.1.1.1.1.1.1.1;
      })
      (λ c.
        let v = c.same_volume in
        (
          c.not_shrunk,
          (
            c.free_config,
            (
              v.snapshot_name,
              (v.selector, (v.selector, (v.volume_name, (v.storage_class_name, c.pull_policy)))),
            ),
          ),
        ))
      (Decides-and_then _ _ (fail_if-lt Validation.volume_shrunk u.size.value v.size.value) (
        Decides-and_then _ _ (validate_config_text_lem r.spec.config.server_config) (
          Decides-and_then _ _
            (fail_if-ne Validation.snapshot_name_changed u.snapshot_name v.snapshot_name)
            (Decides-and_then _ _ selector (
              Decides-and_then _ _ selector (
                Decides-and_then _ _
                  (fail_if-ne Validation.volume_name_changed u.volume_name v.volume_name)
                  (Decides-and_then _ _
                    (fail_if-differ Validation.storage_class_changed ClassName-discrete
                      u.storage_class_name v.storage_class_name)
                    (fail_if-eq Validation.pull_policy_empty r.spec.image_pull_policy ""))))))))
  where
    open r.spec use {volume as u}
    open old.spec use {volume as v}

-- What the API server stores after one update request: the defaulted object if it is accepted.
abbrev pub update : QuestDb → QuestDb → QuestDb
update old r = elim (validate_update (questdb_object old) (default r)) [
  | none ↦ default r
  | some e ↦ old
]

abbrev pub update_all : QuestDb → List QuestDb → QuestDb
update_all old [] = old
update_all old (r ∷ rs) = update_all (update old r) rs

-- The volume is the same but for a size that has not shrunk.
pub record Extends (a b : QuestDbVolumeSpec) : Type 0 where
  pub same : SameVolume a b
  pub not_shrunk : a.size.value ≤ℤ b.size.value

Extends-refl : (a : QuestDbVolumeSpec) → Extends a a
Extends-refl a = record {
  same = record {
    snapshot_name = refl;
    selector = refl;
    volume_name = refl;
    storage_class_name = refl;
  };
  not_shrunk = omega arith;
}

Extends-trans : {a b c : QuestDbVolumeSpec} → Extends a b → Extends b c → Extends a c
Extends-trans p q = record {
  same = record {
    snapshot_name = q.same.snapshot_name ∙ p.same.snapshot_name;
    selector = q.same.selector ∙ p.same.selector;
    volume_name = q.same.volume_name ∙ p.same.volume_name;
    storage_class_name = q.same.storage_class_name ∙ p.same.storage_class_name;
  };
  not_shrunk = omega (arith, p.not_shrunk, q.not_shrunk);
}

update-Extends : (old r : QuestDb) → Extends old.spec.volume (update old r).spec.volume
update-Extends old r = elim (Option-cases (validate_update (questdb_object old) (default r))) [
  | inl accepted ↦
      rw (accepted, update)
        (let c = (validate_update_iff old (default r)).0 accepted in
          record { same = c.same_volume; not_shrunk = c.not_shrunk })
  | inr (e, refused) ↦ rw (refused, update) (Extends-refl old.spec.volume)
]

-- Whatever updates of a QuestDB are requested, one after the other, what is stored then has the
-- snapshot name, the selector, the volume name and the storage class of the first, and no smaller
-- volume.
pub update_all-Extends :
    (old : QuestDb) (rs : List QuestDb) → Extends old.spec.volume (update_all old rs).spec.volume
update_all-Extends old [] = Extends-refl old.spec.volume
update_all-Extends old (r ∷ rs) =
    Extends-trans (update-Extends old r) (update_all-Extends (update old r) rs)

-- Defaults are set once: a second call changes nothing, and the policy is never empty after one.
pub default_idem :
    (r : QuestDb) → (default (default r) ≡ default r) × ((default r).spec.image_pull_policy ≢ "")
unfolding default
default_idem r = (
  ground arith,
  ground (arith, eq_iff r.spec.image_pull_policy "", eq_iff pull_if_not_present ""),
)
