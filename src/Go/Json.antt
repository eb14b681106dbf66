-- ===== src/Go/Json.antt =====
-- encoding/json's scanner, which `json.Unmarshal` runs over the whole input first, and what
-- decoding into a `map[string]json.RawMessage` makes of a valid text.
pub mod Compact
pub mod Encode
use duro_ledger.Base.{
  ℕ, ◌-◌, Bool, true, false, ◌||◌, List, [], ◌∷◌, ltb, ◌==◌, if◌then◌else◌, Bytes, str, length,
}
use duro_ledger.Go.Utf8.{between}

-- What the next byte may be. `letters` are those that a literal still needs, `hex` counts the
-- digits that a `\u` escape still needs, and `failed` is the error state.
pub data Scan : Type 0 where
  begin_value begin_value_or_empty begin_string begin_string_or_empty end_value end_top : Scan
  in_string in_escape minus zero_digit digits point fraction exponent exponent_sign : Scan
  exponent_digits failed : Scan
  hex : ℕ → Scan
  letters : Bytes → Scan

-- What the value being read is part of.
pub data Context : Type 0 where
  object_key object_value array_value : Context

abbrev pub Machine : Type 0
Machine = Scan × List Context

-- `maxNestingDepth`
abbrev pub max_nesting : ℕ
max_nesting = 10000

abbrev pub json_space : ℕ → Bool
json_space c = c == 0x20 || (c == 0x09 || (c == 0x0d || c == 0x0a))

abbrev pub digit : ℕ → Bool
digit = between b'0' b'9'

abbrev pub hex_digit : ℕ → Bool
hex_digit c = digit c || (between b'a' b'f' c || between b'A' b'F' c)

-- `pushParseState`
push : Scan → Context → List Context → Machine
push next c stack = if ltb (length stack) max_nesting then (next, c ∷ stack) else (failed, stack)

-- `popParseState`, which leaves the closed value
pop : List Context → Machine
pop [] = (end_top, [])
pop (c ∷ stack) = (end_value, c ∷ stack)

-- `stateEndValue`
scan_end : ℕ → List Context → Machine
unfolding pop
scan_end c [] = if json_space c then (end_top, []) else (failed, [])
scan_end c (object_key ∷ stack) =
    if json_space c
    then (end_value, object_key ∷ stack)
    else if c == b':'
    then (begin_value, object_value ∷ stack)
    else (failed, object_key ∷ stack)
scan_end c (object_value ∷ stack) =
    if json_space c
    then (end_value, object_value ∷ stack)
    else if c == b','
    then (begin_string, object_key ∷ stack)
    else if c == b'}'
    then pop stack
    else (failed, object_value ∷ stack)
scan_end c (array_value ∷ stack) =
    if json_space c
    then (end_value, array_value ∷ stack)
    else if c == b','
    then (begin_value, array_value ∷ stack)
    else if c == b']'
    then pop stack
    else (failed, array_value ∷ stack)

-- `stateBeginValue`
unfoldable pub scan_value : ℕ → List Context → Machine
unfolding push
scan_value c stack =
    if json_space c
    then (begin_value, stack)
    else if c == b'{'
    then push begin_string_or_empty object_key stack
    else if c == b'['
    then push begin_value_or_empty array_value stack
    else if c == b'"'
    then (in_string, stack)
    else if c == b'-'
    then (minus, stack)
    else if c == b'0'
    then (zero_digit, stack)
    else if c == b't'
    then (letters (str "rue"), stack)
    else if c == b'f'
    then (letters (str "alse"), stack)
    else if c == b'n'
    then (letters (str "ull"), stack)
    else if digit c
    then (digits, stack)
    else (failed, stack)

scan_string : ℕ → List Context → Machine
scan_string c stack =
    if json_space c
    then (begin_string, stack)
    else if c == b'"'
    then (in_string, stack)
    else (failed, stack)

-- `}` where a first key may stand closes the object.
scan_empty_object : ℕ → List Context → Machine
unfolding scan_end scan_string
scan_empty_object c (top ∷ stack) =
    if json_space c
    then (begin_string_or_empty, top ∷ stack)
    else if c == b'}'
    then scan_end c (object_value ∷ stack)
    else scan_string c (top ∷ stack)
scan_empty_object c [] = (failed, [])

escaped : ℕ → Bool
escaped c =
    c == b'b'
    || (c == b'f'
        || (c == b'n' || (c == b'r' || (c == b't' || (c == 0x5c || (c == b'/' || c == b'"'))))))

-- One byte: the scanner's `step`.
unfoldable pub step : ℕ → Scan → List Context → Machine
unfolding scan_value scan_string scan_empty_object scan_end escaped
step c begin_value stack = scan_value c stack
step c begin_value_or_empty stack =
    if json_space c
    then (begin_value_or_empty, stack)
    else if c == b']'
    then scan_end c stack
    else scan_value c stack
step c begin_string stack = scan_string c stack
step c begin_string_or_empty stack = scan_empty_object c stack
step c end_value stack = scan_end c stack
step c end_top stack = if json_space c then (end_top, stack) else (failed, stack)
step c in_string stack =
    if c == b'"'
    then (end_value, stack)
    else if c == 0x5c
    then (in_escape, stack)
    else if ltb c 0x20
    then (failed, stack)
    else (in_string, stack)
step c in_escape stack =
    if escaped c then (in_string, stack) else if c == b'u' then (hex 3, stack) else (failed, stack)
step c (hex n) stack =
    if hex_digit c then (if n == 0 then in_string else hex (n - 1), stack) else (failed, stack)
step c minus stack =
    if c == b'0' then (zero_digit, stack) else if digit c then (digits, stack) else (failed, stack)
step c digits stack =
    if digit c
    then (digits, stack)
    else if c == b'.'
    then (point, stack)
    else if c == b'e' || c == b'E'
    then (exponent, stack)
    else scan_end c stack
step c zero_digit stack =
    if c == b'.'
    then (point, stack)
    else if c == b'e' || c == b'E'
    then (exponent, stack)
    else scan_end c stack
step c point stack = if digit c then (fraction, stack) else (failed, stack)
step c fraction stack =
    if digit c
    then (fraction, stack)
    else if c == b'e' || c == b'E'
    then (exponent, stack)
    else scan_end c stack
step c exponent stack =
    if c == b'+' || c == b'-'
    then (exponent_sign, stack)
    else if digit c
    then (exponent_digits, stack)
    else (failed, stack)
step c exponent_sign stack = if digit c then (exponent_digits, stack) else (failed, stack)
step c exponent_digits stack = if digit c then (exponent_digits, stack) else scan_end c stack
step c (letters []) stack = scan_end c stack
step c (letters (l ∷ [])) stack = if c == l then (end_value, stack) else (failed, stack)
step c (letters (l ∷ m ∷ ls)) stack = if c == l then (letters (m ∷ ls), stack) else (failed, stack)
step c failed stack = (failed, stack)

unfoldable pub scan : Bytes → Machine → Machine
unfolding step
scan [] m = m
scan (c ∷ s) (state, stack) = scan s (step c state stack)

abbrev ended : Scan → Bool
ended end_top = true
ended _ = false

-- `checkValid`: at the end of the input one more space must close the value.
unfoldable pub check_valid : Bytes → Bool
unfolding scan
check_valid s = let (state, stack) = scan s (begin_value, []) in ended (step 0x20 state stack).0

-- The first byte of the value.
unfoldable pub first_byte : Bytes → ℕ
first_byte [] = 0
first_byte (c ∷ s) = if json_space c then first_byte s else c

-- What `json.Unmarshal` leaves of a text in a `map[string]json.RawMessage`.
pub data MapResult : Type 0 where
  syntax_error type_error nil_map filled_map : MapResult

unfoldable pub unmarshal_map : Bytes → MapResult
unfolding check_valid first_byte
unmarshal_map s =
    if check_valid s
    then if first_byte s == b'{'
      then filled_map
      else if first_byte s == b'n'
      then nil_map
      else type_error
    else syntax_error
