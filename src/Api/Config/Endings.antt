-- ===== src/Api/Config/Endings.antt =====
-- Configurations whose last line may have no newline.
use questdb_operator.Prelude.{
  ◌≡◌, refl, ◌↔◌, ℕ, none, List, [], ◌∷◌, ◌++◌, arith, All, All-append, All-append_split,
}
use questdb_operator.Api.Config.{
  reserved_config_keys, raw_lines, drop_cr, scan_tokens, has_prefix, check_line, check_lines,
  validate_db_config, bytes,
}
use questdb_operator.Api.Config.Laws.{
  OneLine, Fits, IsFree, join_lines, raw_lines-join_lines, check_lines_iff,
}

nil-IsFree : IsFree []
unfolding reserved_config_keys drop_cr scan_tokens has_prefix check_line check_lines
nil-IsFree = ((check_lines_iff ([] ∷ []) (omega arith, tt)).0 refl).0

-- What the operator writes behind a configuration.
abbrev pub comment_line : List ℕ
comment_line = bytes "### Reserved values -- set by the operator ###"

abbrev pub auth_line : List ℕ
auth_line = bytes "ilp.auth.file=/var/lib/questdb/auth/auth.json"

pub operator_lines-IsFree : All IsFree (comment_line ∷ auth_line ∷ [])
unfolding reserved_config_keys drop_cr scan_tokens has_prefix check_line check_lines
operator_lines-IsFree = (check_lines_iff (comment_line ∷ auth_line ∷ []) (omega arith)).0 refl

pub operator_lines-OneLine : All OneLine (comment_line ∷ auth_line ∷ [])
operator_lines-OneLine = omega arith

raw_lines-one :
    (c : ℕ) (line : List ℕ) → OneLine (c ∷ line) → raw_lines (c ∷ line) ≡ (c ∷ line) ∷ []
unfolding raw_lines
raw_lines-one c [] h = ground arith
raw_lines-one c (d ∷ line) h = ground (arith, raw_lines-one d line h.1)

-- The line behind the last newline counts as one, and the empty one does no harm.
lines-IsFree :
    (lines : List (List ℕ)) (last : List ℕ)
    → OneLine last
    → All IsFree (lines ++ raw_lines last) ↔ All IsFree (lines ++ last ∷ [])
unfolding raw_lines
lines-IsFree lines [] one = (
  λ h. All-append IsFree lines ([] ∷ []) (All-append_split IsFree lines [] h).0 (nil-IsFree, tt),
  λ h. All-append IsFree lines [] (All-append_split IsFree lines ([] ∷ []) h).0 tt,
)
lines-IsFree lines (c ∷ last) one = rw (raw_lines-one c last one) (λ h. h, λ h. h)

lines-Fits :
    (lines : List (List ℕ)) (last : List ℕ)
    → OneLine last
    → All Fits lines
    → Fits last
    → All Fits (lines ++ raw_lines last)
unfolding raw_lines
lines-Fits lines [] one fit fits = All-append Fits lines [] fit tt
lines-Fits lines (c ∷ last) one fit fits =
    rw (raw_lines-one c last one) (All-append Fits lines ((c ∷ last) ∷ []) fit (fits, tt))

-- A configuration of lines shorter than 65536 bytes, of which the last need not end with a
-- newline, is accepted exactly when no line begins with a reserved key.
pub validate_db_config_last_iff :
    (lines : List (List ℕ)) (last : List ℕ)
    → All OneLine lines
    → OneLine last
    → All Fits lines
    → Fits last
    → (validate_db_config (join_lines lines ++ last) ≡ none) ↔ All IsFree (lines ++ last ∷ [])
unfolding validate_db_config
validate_db_config_last_iff lines last ones one fit fits =
    rw (raw_lines-join_lines lines last ones) (
      let checked =
        check_lines_iff (lines ++ raw_lines last) (lines-Fits lines last one fit fits) in
      let free = lines-IsFree lines last one in
      (λ e. free.0 (checked.0 e), λ h. checked.1 (free.1 h)))
