-- ===== src/QuestDb/Build/Volumes/Conf.antt =====
-- What the database reads back from `server.conf`.
use questdb_operator.Prelude.{
  ℕ, ◌≡◌, refl, ◌↔◌, Option, none, some, List, [], ◌∷◌, ◌++◌, arith, All, All-append,
  All-append_split,
}
use questdb_operator.Kube.Objects.Workload.{Secret}
use questdb_operator.Api.Types.{QuestDb}
use questdb_operator.Api.Config.{raw_lines, validate_db_config}
use questdb_operator.Api.Config.Laws.{
  OneLine, Fits, IsFree, join_lines, raw_lines_of_lines, validate_db_config_iff,
}
use questdb_operator.Api.Config.Endings.{
  operator_lines-IsFree, operator_lines-OneLine, validate_db_config_last_iff,
}
use questdb_operator.Secrets.{QuestDbSecrets}
use questdb_operator.QuestDb.Build.Volumes.{DefaultTexts, config_map_object}
use questdb_operator.QuestDb.Build.Volumes.Laws.{operator_lines, content_of, server_conf-lines}

added-OneLine : (o : Option Secret) → All OneLine (operator_lines o)
added-OneLine none = (operator_lines-OneLine.0, tt)
added-OneLine (some s) = operator_lines-OneLine

added-IsFree : (o : Option Secret) → All IsFree (operator_lines o)
added-IsFree none = (operator_lines-IsFree.0, tt)
added-IsFree (some s) = operator_lines-IsFree

added-Fits : (o : Option Secret) → All Fits (operator_lines o)
added-Fits none = omega arith
added-Fits (some s) = omega arith

-- If the configuration of the user has lines shorter than 65536 bytes, of which the last may lack
-- its newline, then the lines of the server.conf that is built are those lines and behind them those
-- of the operator, and the check of the webhook accepts the file exactly if it accepts the
-- configuration: the operator sets no reserved key of its own.
pub raw_lines-config_map_object :
    (texts : DefaultTexts) (q : QuestDb) (s : QuestDbSecrets) (lines : List (List ℕ))
    (last : List ℕ)
    → q.spec.config.server_config ≡ join_lines lines ++ last
    → All OneLine lines
    → OneLine last
    → All Fits lines
    → Fits last
    → let conf = content_of "server.conf" (config_map_object texts q s).contents in
      (raw_lines conf ≡ lines ++ (last ∷ operator_lines s.ilp_secret))
      × ((validate_db_config conf ≡ none) ↔ (validate_db_config q.spec.config.server_config ≡ none))
raw_lines-config_map_object texts q s lines last e ones one fit fits =
    let added = operator_lines s.ilp_secret in
    let all = lines ++ (last ∷ added) in
    let all-OneLine : All OneLine all =
      All-append OneLine lines (last ∷ added) ones (one, added-OneLine s.ilp_secret) in
    let all-Fits : All Fits all =
      All-append Fits lines (last ∷ added) fit (fits, added-Fits s.ilp_secret) in
    let checked = validate_db_config_iff all all-OneLine all-Fits in
    let given = validate_db_config_last_iff lines last ones one fit fits in
    rw (server_conf-lines texts q s lines last e, e, raw_lines_of_lines all all-OneLine)
      (
        refl,
        (
          λ v.
              let (left, right) = All-append_split IsFree lines (last ∷ added) (checked.0 v) in
              given.1 (All-append IsFree lines (last ∷ []) left (right.0, tt)),
          λ v.
              let (left, right) = All-append_split IsFree lines (last ∷ []) (given.0 v) in
              checked.1
                (All-append IsFree lines (last ∷ added) left (right.0, added-IsFree s.ilp_secret)),
        ),
      )
