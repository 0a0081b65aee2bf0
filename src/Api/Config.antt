-- ===== src/Api/Config.antt =====
-- `validateDbConfig` of api/v1beta1/questdb_webhook.go, over the bytes of a configuration.
pub mod Laws
pub mod Endings
use Prim.Native.Char.{code}
use questdb_operator.Prelude.{
  ℕ, String, Bool, true, false, ◌&&◌, Option, none, some, List, [], ◌∷◌, nat_eq, leb, length,
  if◌then◌else◌,
}
use questdb_operator.Api.Validation.{Verdict, reserved_key, ◌and_then◌}

-- The bytes of an ASCII text.
abbrev pub bytes : String → List ℕ
bytes String.[] = []
bytes (String.◌∷◌ c s) = code c ∷ bytes s

abbrev pub newline : ℕ
newline = 10

abbrev pub carriage_return : ℕ
carriage_return = 13

-- bufio.MaxScanTokenSize
abbrev pub max_scan_token_size : ℕ
max_scan_token_size = 65536

pub reserved_config_keys : List (List ℕ)
reserved_config_keys =
    bytes "http.bind.to"
    ∷ bytes "line.tcp.net.bind.to"
    ∷ bytes "pg.net.bind.to"
    ∷ bytes "pg.user"
    ∷ bytes "pg.password"
    ∷ bytes "line.tcp.auth.db.path"
    ∷ []

-- A byte in front of the first line.
abbrev prepend : ℕ → List (List ℕ) → List (List ℕ)
prepend c [] = (c ∷ []) ∷ []
prepend c (line ∷ lines) = (c ∷ line) ∷ lines

-- The lines of a text; what follows the last newline is a line unless it is empty.
pub raw_lines : List ℕ → List (List ℕ)
raw_lines [] = []
raw_lines (c ∷ text) =
    let lines = raw_lines text in if nat_eq c newline then [] ∷ lines else prepend c lines

-- `dropCR` of bufio
drop_cr : List ℕ → List ℕ
drop_cr [] = []
drop_cr (c ∷ []) = if nat_eq c carriage_return then [] else c ∷ []
drop_cr (c ∷ d ∷ line) = c ∷ drop_cr (d ∷ line)

-- The tokens of a `bufio.Scanner` over lines: it stops at a line that does not fit its buffer.
pub scan_tokens : List (List ℕ) → List (List ℕ)
scan_tokens [] = []
scan_tokens (line ∷ lines) =
    let rest = scan_tokens lines in
    if leb max_scan_token_size (length line) then [] else drop_cr line ∷ rest

-- `strings.HasPrefix`
has_prefix : List ℕ → List ℕ → Bool
has_prefix text [] = true
has_prefix [] (k ∷ key) = false
has_prefix (c ∷ text) (k ∷ key) = nat_eq c k && has_prefix text key

-- The inner loop, over the reserved keys.
check_line : List ℕ → List (List ℕ) → Verdict
check_line line [] = none
check_line line (key ∷ keys) =
    let rest = check_line line keys in if has_prefix line key then some (reserved_key key) else rest

-- The outer loop, over the scanner's tokens.
pub check_lines : List (List ℕ) → Verdict
check_lines [] = none
check_lines (line ∷ lines) =
    let rest = check_lines lines in check_line line reserved_config_keys and_then rest

pub validate_db_config : List ℕ → Verdict
validate_db_config config = check_lines (scan_tokens (raw_lines config))
