-- ===== src/Go/Json/Compact.antt =====
-- How encoding/json writes a `json.RawMessage` that is not nil: checked, without the space between
-- its tokens, and with the characters of HTML and the line separators escaped.
pub mod Lines
use duro_ledger.Base.{
  ℕ, zero, suc, Bool, true, false, ◌&&◌, Option, none, some, [], ◌∷◌, ◌++◌, if◌then◌else◌, Bytes,
}
use duro_ledger.Go.Json.{Scan, in_string, begin_value, Machine, json_space, step, check_valid}
use duro_ledger.Go.Json.Encode.{Emitted, escape_html, separator?}

abbrev outside_string : Scan → Bool
outside_string in_string = false
outside_string _ = true

abbrev emit_escaped : ℕ → Option Bytes → Emitted
emit_escaped c (some escape_sequence) = (escape_sequence, 2)
emit_escaped c none = (escape_html c, 0)

abbrev emit : Scan → ℕ → Bytes → Emitted
emit state c s =
    if outside_string state && json_space c then ([], 0) else emit_escaped c (separator? c s)

-- The rest of a valid text, from the state of the scanner and the bytes already written.
unfoldable pub compact_from : Machine → ℕ → Bytes → Bytes
unfolding escape_html separator? step
compact_from m skip [] = []
compact_from (state, stack) (suc skip) (c ∷ s) = compact_from (step c state stack) skip s
compact_from (state, stack) zero (c ∷ s) =
    let e = emit state c s in e.0 ++ compact_from (step c state stack) e.1 s

-- `none` is the error of a text that is not JSON.
unfoldable pub compact : Bytes → Option Bytes
unfolding check_valid compact_from
compact s = if check_valid s then some (compact_from (begin_value, []) 0 s) else none
