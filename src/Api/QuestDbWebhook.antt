-- ===== src/Api/QuestDbWebhook.antt =====
-- api/v1beta1/questdb_webhook.go: defaults, and what a create or an update must satisfy.
pub mod Laws
use questdb_operator.Prelude.{
  ℕ, String, Bool, true, false, not, ◌&&◌, Option, none, some, List, [], ◌∷◌, ◌==◌, if◌then◌else◌,
  deep_equal, String-discrete,
}
use questdb_operator.Prelude.Int.{ℤ, pos, eq_ℤ, ltb_ℤ}
use questdb_operator.Kube.Meta.{Blob, Blob-discrete}
use questdb_operator.Api.Types.{QuestDb, QuestDbVolumeSpec}
use questdb_operator.Api.Validation
use questdb_operator.Api.Validation.{
  Verdict, ValidationError, RuntimeObject, ◌and_then◌, fail_if, is_some,
}
use questdb_operator.Api.Config.{validate_db_config}

pub Selector-discrete : Discrete (Option Blob)
Selector-discrete = hlevel Blob-discrete

pub ClassName-discrete : Discrete (Option String)
ClassName-discrete = hlevel String-discrete

-- v1.PullIfNotPresent
abbrev pub pull_if_not_present : String
pull_if_not_present = "IfNotPresent"

abbrev pub default_fs_group : ℤ
default_fs_group = pos 10001

abbrev pub or_default {ℓ} : {A : Type ℓ} → Option A → A → A
or_default none d = d
or_default (some a) d = a

unfoldable pub default : QuestDb → QuestDb
default r = record r {
  spec = record spec {
    image_pull_policy =
        if spec.image_pull_policy == "" then pull_if_not_present else spec.image_pull_policy;
    pod_security_context = record spec.pod_security_context {
      fs_group = some (or_default spec.pod_security_context.fs_group default_fs_group);
    };
  };
}
  where
    open r use {spec}

validate_volume_spec : QuestDbVolumeSpec → Verdict
validate_volume_spec config =
    fail_if (eq_ℤ config.size.value (pos 0)) Validation.volume_size_zero
    and_then fail_if (not (config.snapshot_name == "") && is_some config.selector)
        Validation.snapshot_and_selector

validate_config_text : List ℕ → Verdict
validate_config_text [] = none
validate_config_text (c ∷ text) = validate_db_config (c ∷ text)

pub validate_create : QuestDb → Verdict
unfolding validate_volume_spec
validate_create r =
    fail_if (eq_ℤ r.spec.volume.size.value (pos 0)) Validation.volume_size_zero
    and_then validate_config_text r.spec.config.server_config
    and_then validate_volume_spec r.spec.volume

-- The checks against the old object, which the code makes in this order; the one of the selector
-- stands there twice.
validate_change : QuestDb → QuestDb → Verdict
validate_change old r =
    fail_if (ltb_ℤ new_volume.size.value old_volume.size.value) Validation.volume_shrunk
    and_then validate_config_text r.spec.config.server_config
    and_then fail_if (not (new_volume.snapshot_name == old_volume.snapshot_name))
        Validation.snapshot_name_changed
    and_then fail_if (not (deep_equal Selector-discrete new_volume.selector old_volume.selector))
        Validation.selector_changed
    and_then fail_if (not (deep_equal Selector-discrete new_volume.selector old_volume.selector))
        Validation.selector_changed
    and_then fail_if (not (new_volume.volume_name == old_volume.volume_name))
        Validation.volume_name_changed
    and_then fail_if
        (not (
          deep_equal ClassName-discrete new_volume.storage_class_name
            old_volume.storage_class_name))
        Validation.storage_class_changed
    and_then fail_if (r.spec.image_pull_policy == "") Validation.pull_policy_empty
  where
    open r.spec use {volume as new_volume}
    open old.spec use {volume as old_volume}

pub validate_update : RuntimeObject → QuestDb → Verdict
unfolding validate_change
validate_update (Validation.questdb_object old) r = validate_change old r
validate_update (Validation.snapshot_object _) r = some Validation.not_a_questdb
validate_update (Validation.schedule_object _) r = some Validation.not_a_questdb
validate_update Validation.foreign_object r = some Validation.not_a_questdb

unfoldable pub validate_delete : QuestDb → Verdict
validate_delete r = none
