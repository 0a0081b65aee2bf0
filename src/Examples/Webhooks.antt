-- ===== src/Examples/Webhooks.antt =====
-- Requests that the webhooks answer.
use questdb_operator.Prelude.{
  ◌≡◌, ◌↔◌, ℕ, none, List, [], ◌∷◌, ◌++◌, arith, All, replicate, length-replicate, All-replicate,
}
use questdb_operator.Api.Types.{QuestDb}
use questdb_operator.Api.Validation.{questdb_object}
use questdb_operator.Api.Config.{validate_db_config, newline}
use questdb_operator.Api.Config.Laws.{join_lines, OneLine, IsFree, validate_db_config-overlong}
use questdb_operator.Api.Config.Endings.{validate_db_config_last_iff}
use questdb_operator.Api.QuestDbWebhook
use questdb_operator.Api.QuestDbWebhook.Laws as QuestDbLaws
use questdb_operator.Api.QuestDbWebhook.Laws.{
  IsUpdatable, Extends, update_all, validate_create_iff, validate_update_iff, update_all-Extends,
  default_idem,
}
use questdb_operator.Examples.Data.{questdb_of, volume_of}

validate_create_iff_example :
    (QuestDbWebhook.validate_create (questdb_of 10) ≡ none)
    ↔ QuestDbLaws.IsCreatable (questdb_of 10)
validate_create_iff_example = validate_create_iff (questdb_of 10)

validate_update_iff_example :
    (QuestDbWebhook.validate_update (questdb_object (questdb_of 10)) (questdb_of 5) ≡ none)
    ↔ IsUpdatable (questdb_of 10) (questdb_of 5)
validate_update_iff_example = validate_update_iff (questdb_of 10) (questdb_of 5)

update_all-Extends_example :
    Extends
      (volume_of 10)
      (update_all (questdb_of 10) (questdb_of 5 ∷ questdb_of 20 ∷ [])).spec.volume
update_all-Extends_example = update_all-Extends (questdb_of 10) (questdb_of 5 ∷ questdb_of 20 ∷ [])

abbrev undefaulted : QuestDb
undefaulted = record (questdb_of 10) {
  spec = record (questdb_of 10).spec { image_pull_policy = "" };
}

-- "a=1" and a line that no key begins.
abbrev lines : List (List ℕ)
lines = (97 ∷ 61 ∷ 49 ∷ []) ∷ (35 ∷ []) ∷ []

-- A last line without a newline: `pg=`.
validate_db_config_last_iff_example :
    (validate_db_config (join_lines lines ++ (112 ∷ 103 ∷ 61 ∷ [])) ≡ none)
    ↔ All IsFree (lines ++ (112 ∷ 103 ∷ 61 ∷ []) ∷ [])
validate_db_config_last_iff_example =
    validate_db_config_last_iff lines (112 ∷ 103 ∷ 61 ∷ []) (ground arith) (ground arith)
      (ground arith) (ground arith)

-- A comment of 65536 bytes.
abbrev long_line : List ℕ
long_line = replicate 65536 35

long_line-OneLine : OneLine long_line
long_line-OneLine = All-replicate _ 65536 35 (ground arith)

validate_db_config-overlong_example :
    validate_db_config (join_lines lines ++ (long_line ++ newline ∷ (104 ∷ [])))
    ≡ validate_db_config (join_lines lines)
validate_db_config-overlong_example =
    validate_db_config-overlong lines long_line (104 ∷ []) (ground arith) (ground arith)
      long_line-OneLine (omega (arith, length-replicate {A = ℕ} 65536 35))
