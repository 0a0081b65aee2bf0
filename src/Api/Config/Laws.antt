-- ===== src/Api/Config/Laws.antt =====
-- Which configurations `validateDbConfig` accepts.
use questdb_operator.Prelude.{
  ℕ, ◌≤◌, ◌<◌, ◌≡◌, refl, sym, ◌∙◌, ◌≢◌, ◌↔◌, ap, true, none, some, List, [], ◌∷◌, ◌++◌, arith,
  length, All, inl, inr, Bool-cases,
}
use mathlib.Core.List.{append_assoc, append-nil}
use questdb_operator.Api.Validation.{Verdict, ◌and_then◌}
use questdb_operator.Api.Config.{
  newline, carriage_return, max_scan_token_size, reserved_config_keys, raw_lines, drop_cr,
  scan_tokens, has_prefix, check_line, check_lines, validate_db_config,
}

-- A text of lines, each ended by a newline.
abbrev pub join_lines : List (List ℕ) → List ℕ
join_lines [] = []
join_lines (line ∷ lines) = line ++ newline ∷ join_lines lines

abbrev pub OneLine : List ℕ → Type 0
OneLine = All (λ c. c ≢ newline)

-- A line that fits the buffer of the scanner.
abbrev pub Fits : List ℕ → Type 0
Fits line = length line < max_scan_token_size

abbrev pub StartsWith : List ℕ → List ℕ → Type 0
StartsWith line key = (rest : List ℕ) × (line ≡ key ++ rest)

-- No reserved key stands at the beginning of the line.
abbrev pub IsFree : List ℕ → Type 0
IsFree line = All (λ key. ¬ StartsWith line key) reserved_config_keys

raw_lines-append :
    (line rest : List ℕ) → OneLine line → raw_lines (line ++ newline ∷ rest) ≡ line ∷ raw_lines rest
unfolding raw_lines
raw_lines-append [] rest h = refl
raw_lines-append (c ∷ line) rest h = ground (arith, raw_lines-append line rest h.1)

pub raw_lines-join_lines :
    (lines : List (List ℕ)) (rest : List ℕ)
    → All OneLine lines
    → raw_lines (join_lines lines ++ rest) ≡ lines ++ raw_lines rest
raw_lines-join_lines [] rest h = refl
raw_lines-join_lines (line ∷ lines) rest h =
    rw (append_assoc line (newline ∷ join_lines lines) rest) (
      rw (raw_lines-append line (join_lines lines ++ rest) h.0)
        (ap (λ ls. line ∷ ls) (raw_lines-join_lines lines rest h.1)))

has_prefix_iff : (line key : List ℕ) → (has_prefix line key ≡ true) ↔ StartsWith line key
unfolding has_prefix
has_prefix_iff line [] = (λ _. (line, refl), λ _. refl)
has_prefix_iff [] (k ∷ key) = (λ e. cc, λ p. cc (p.1))
has_prefix_iff (c ∷ line) (k ∷ key) = (
  λ e. let (rest, p) = (has_prefix_iff line key).0 (ground arith) in (rest, ground arith),
  λ p. ground (arith, (has_prefix_iff line key).1 (p.0, ground arith)),
)

has_prefix-drop_cr :
    (line key : List ℕ)
    → All (λ k. k ≢ carriage_return) key
    → has_prefix (drop_cr line) key ≡ has_prefix line key
unfolding has_prefix drop_cr
has_prefix-drop_cr [] key h = refl
has_prefix-drop_cr (c ∷ []) [] h = ground arith
has_prefix-drop_cr (c ∷ []) (k ∷ key) h = ground arith
has_prefix-drop_cr (c ∷ d ∷ line) [] h = refl
has_prefix-drop_cr (c ∷ d ∷ line) (k ∷ key) h =
    ground (arith, has_prefix-drop_cr (d ∷ line) key h.1)

abbrev HasNoReturn : List ℕ → Type 0
HasNoReturn = All (λ k. k ≢ carriage_return)

-- One line is accepted exactly when no key is a prefix of it, its carriage return or not.
check_line_iff :
    (line : List ℕ) (keys : List (List ℕ))
    → All HasNoReturn keys
    → (check_line (drop_cr line) keys ≡ none) ↔ All (λ key. ¬ StartsWith line key) keys
unfolding check_line
check_line_iff line [] h = (λ _. tt, λ _. refl)
check_line_iff line (key ∷ keys) h = elim (Bool-cases (has_prefix line key)) [
  | inl hit ↦
      rw (has_prefix-drop_cr line key h.0, hit)
        (λ e. cc, λ f. absurd (f.0 ((has_prefix_iff line key).0 hit)))
  | inr miss ↦
      rw (has_prefix-drop_cr line key h.0, miss)
        (
          λ e. (λ p. cc (miss, (has_prefix_iff line key).1 p), (check_line_iff line keys h.1).0 e),
          λ f. (check_line_iff line keys h.1).1 f.1,
        )
]

keys-HasNoReturn : All HasNoReturn reserved_config_keys
unfolding reserved_config_keys
keys-HasNoReturn = omega arith

check_lines-scan_tokens :
    (line : List ℕ) (lines : List (List ℕ))
    → Fits line
    → check_lines (scan_tokens (line ∷ lines))
      ≡ (check_line (drop_cr line) reserved_config_keys and_then check_lines (scan_tokens lines))
unfolding check_lines scan_tokens
check_lines-scan_tokens line lines h = ground arith

and_then_iff : (u v : Verdict) → ((u and_then v) ≡ none) ↔ ((u ≡ none) × (v ≡ none))
and_then_iff none v = (λ e. (refl, e), λ p. p.1)
and_then_iff (some e) v = (λ p. cc, λ p. cc)

pub check_lines_iff :
    (lines : List (List ℕ))
    → All Fits lines
    → (check_lines (scan_tokens lines) ≡ none) ↔ All IsFree lines
unfolding check_lines scan_tokens
check_lines_iff [] h = (λ _. tt, λ _. refl)
check_lines_iff (line ∷ lines) h = rw (check_lines-scan_tokens line lines h.0) (
  λ e.
      let both = (and_then_iff _ _).0 e in
      ((check_line_iff line _ keys-HasNoReturn).0 both.0, (check_lines_iff lines h.1).0 both.1),
  λ f.
      (and_then_iff _ _).1
        ((check_line_iff line _ keys-HasNoReturn).1 f.0, (check_lines_iff lines h.1).1 f.1),
)

scan_tokens-overlong :
    (lines : List (List ℕ)) (line : List ℕ) (rest : List (List ℕ))
    → All Fits lines
    → max_scan_token_size ≤ length line
    → scan_tokens (lines ++ line ∷ rest) ≡ scan_tokens lines
unfolding scan_tokens
scan_tokens-overlong [] line rest h long = ground arith
scan_tokens-overlong (l ∷ lines) line rest h long =
    ground (arith, scan_tokens-overlong lines line rest h.1 long)

raw_lines-nil : raw_lines [] ≡ []
unfolding raw_lines
raw_lines-nil = refl

pub raw_lines_of_lines :
    (lines : List (List ℕ)) → All OneLine lines → raw_lines (join_lines lines) ≡ lines
raw_lines_of_lines lines h =
    ap raw_lines (sym (append-nil (join_lines lines)))
    ∙ raw_lines-join_lines lines [] h
    ∙ ap (λ ls. lines ++ ls) raw_lines-nil
    ∙ append-nil lines

-- A configuration of lines shorter than 65536 bytes, each ended by a newline, is accepted exactly
-- when no line begins with a reserved key.
pub validate_db_config_iff :
    (lines : List (List ℕ))
    → All OneLine lines
    → All Fits lines
    → (validate_db_config (join_lines lines) ≡ none) ↔ All IsFree lines
unfolding validate_db_config
validate_db_config_iff lines h f = rw (raw_lines_of_lines lines h) (check_lines_iff lines f)

-- Behind lines shorter than 65536 bytes, a line of 65536 bytes or more hides itself and all that
-- follows: the verdict is that of the lines before it.
pub validate_db_config-overlong :
    (lines : List (List ℕ)) (line rest : List ℕ)
    → All OneLine lines
    → All Fits lines
    → OneLine line
    → max_scan_token_size ≤ length line
    → validate_db_config (join_lines lines ++ (line ++ newline ∷ rest))
      ≡ validate_db_config (join_lines lines)
unfolding validate_db_config
validate_db_config-overlong lines line rest h f one long = rw (
  raw_lines-join_lines lines (line ++ newline ∷ rest) h,
  raw_lines-append line rest one,
  raw_lines_of_lines lines h,
  scan_tokens-overlong lines line (raw_lines rest) f long,
)

pub validate_db_config-nil : validate_db_config [] ≡ none
unfolding validate_db_config raw_lines scan_tokens check_lines
validate_db_config-nil = refl
