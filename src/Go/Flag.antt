-- ===== src/Go/Flag.antt =====
-- package flag: `(*FlagSet).Parse` where every flag is a text and errors are returned.
use duro_ledger.Base.{
  ℕ, Bool, true, false, ◌||◌, Option, none, some, List, [], ◌∷◌, ◌==◌, if◌then◌else◌, Bytes, str,
  beq,
}

-- How the next argument reads: as no flag, as `--`, as a flag whose name is missing, or as a flag
-- with the value behind its first `=`.
pub data Token : Type 0 where
  positional terminator bad_name : Token
  option : Bytes → Option Bytes → Token

abbrev name_longer : ℕ → Bytes × Option Bytes → Bytes × Option Bytes
name_longer c (name, value) = (c ∷ name, value)

unfoldable pub split_value : Bytes → Bytes × Option Bytes
split_value [] = ([], none)
split_value (c ∷ s) = if c == b'=' then ([], some s) else name_longer c (split_value s)

abbrev option_token : Bytes × Option Bytes → Token
option_token (name, value) = option name value

-- Behind the dashes. A name does not start with another dash or with `=`.
unfoldable pub named : Bytes → Token
named [] = bad_name
named (c ∷ s) =
    if c == b'-' || c == b'=' then bad_name else option_token (name_longer c (split_value s))

abbrev pub behind_two : Bytes → Token
behind_two [] = terminator
behind_two (c ∷ s) = named (c ∷ s)

unfoldable pub token : Bytes → Token
token [] = positional
token (c ∷ []) = positional
token (c ∷ d ∷ s) =
    if c == b'-' then if d == b'-' then behind_two s else named (d ∷ s) else positional

pub data FlagError : Type 0 where
  bad_flag_syntax not_defined needs_argument : Bytes → FlagError

-- The flags that were set, the last one first.
abbrev pub Settings : Type 0
Settings = List (Bytes × Bytes)

-- What `Parse` leaves: `ErrHelp`, another error, or the flags and the arguments behind them.
pub data Parsed : Type 0 where
  help : Parsed
  flag_error : FlagError → Parsed
  parsed : Settings → List Bytes → Parsed

unfoldable pub member : Bytes → List Bytes → Bool
member name [] = false
member name (n ∷ names) = if beq name n then true else member name names

-- `name` is not among the flags.
abbrev unknown_flag : Bytes → Parsed
unknown_flag name =
    if beq name (str "help") || beq name (str "h") then help else flag_error (not_defined name)

module _ (defined : List Bytes) where
  abbrev if_defined : Bytes → Parsed → Parsed
  if_defined name more = if member name defined then more else unknown_flag name

  -- What `parseOne` makes of an argument, by what is done with a flag that waits for its value and
  -- with one that has it.
  abbrev by_token :
      Settings → Bytes → List Bytes → (Bytes → Parsed) → (Bytes → Bytes → Parsed) → Token → Parsed
  by_token settings arg args wait set positional = parsed settings (arg ∷ args)
  by_token settings arg args wait set terminator = parsed settings args
  by_token settings arg args wait set bad_name = flag_error (bad_flag_syntax arg)
  by_token settings arg args wait set (option name none) = if_defined name (wait name)
  by_token settings arg args wait set (option name (some value)) = if_defined name (set name value)

  -- The loop over `parseOne`; the first argument is the flag that still needs its value.
  unfoldable pub parse_from : Option Bytes → Settings → List Bytes → Parsed
  parse_from none settings [] = parsed settings []
  parse_from (some name) settings [] = flag_error (needs_argument name)
  parse_from (some name) settings (value ∷ args) = parse_from none ((name, value) ∷ settings) args
  parse_from none settings (arg ∷ args) =
      by_token settings arg args (λ name. parse_from (some name) settings args)
        (λ name value. parse_from none ((name, value) ∷ settings) args) (token arg)

  -- `Parse`
  unfoldable pub parse : List Bytes → Parsed
  parse args = parse_from none [] args

-- The value of a flag whose default is the empty text.
unfoldable pub value_of : Bytes → Settings → Bytes
value_of name [] = []
value_of name ((n, value) ∷ settings) = if beq name n then value else value_of name settings

-- Whether `Visit` comes by the flag.
unfoldable pub is_set : Bytes → Settings → Bool
is_set name [] = false
is_set name ((n, value) ∷ settings) = if beq name n then true else is_set name settings
