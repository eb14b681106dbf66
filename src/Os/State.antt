-- ===== src/Os/State.antt =====
-- The state that the calls read and change, and the answers of the environment.
use duro_ledger.Base.{ℕ, Option, List, [], ◌∷◌, if◌then◌else◌, Bytes, err}
use duro_ledger.Base.Action.{Action}
use duro_ledger.Os.Path.{FilePath, path_eq}

-- The error values that a call reports; `short_write` is `io.ErrShortWrite`.
pub data Errno : Type 0 where
  not_exist exist not_directory too_many_links short_write : Errno
  other : ℕ → Errno

-- What stands at a path: a file with its bytes and mode, a directory, a symbolic link with its
-- target, or something else, such as a device.
pub data Node : Type 0 where
  regular : Bytes → ℕ → Node
  directory special : Node
  symlink : FilePath → Node

-- How the environment answers a call: it runs, it fails with no effect, a transfer breaks off after
-- some units, or an `io.Writer` takes fewer bytes without reporting an error.
pub data Answer : Type 0 where
  works : Answer
  fails : Errno → Answer
  partial : ℕ → Errno → Answer
  short : ℕ → Answer

-- `names` are the random suffixes that `os.CreateTemp` draws, `synced` the paths that were synced,
-- the last one first, and `out` what the caller's `io.Writer` has received.
pub record Os : Type 0 where
  pub nodes : FilePath → Option Node
  pub answers : List Answer
  pub names : List Bytes
  pub synced : List FilePath
  pub out : Bytes

-- When the list is used up every call runs.
abbrev pub first_answer : List Answer → Answer
first_answer [] = works
first_answer (a ∷ rest) = a

abbrev later_answers : List Answer → List Answer
later_answers [] = []
later_answers (a ∷ rest) = rest

abbrev pub update : (FilePath → Option Node) → FilePath → Option Node → FilePath → Option Node
update f p v q = if path_eq p q then v else f q

abbrev pub set_node : FilePath → Option Node → Os → Os
set_node p v s = record s { nodes = update s.nodes p v }

-- The answer that the next call gets, and the state with it drawn.
abbrev pub answer : Os → Answer
answer s = first_answer s.answers

abbrev pub drawn : Os → Os
drawn s = record s { answers = later_answers s.answers }

abbrev pub Syscall : Type 0 → Type 0
Syscall = Action Os Errno

abbrev pub answered : {A : Type 0} → Answer → Syscall A → Syscall A
answered works run s = run s
answered (short n) run s = run s
answered (fails e) run s = (err e, s)
answered (partial n e) run s = (err e, s)

-- A call that fails without effect, or runs.
abbrev pub call : {A : Type 0} → Syscall A → Syscall A
call run s = answered (answer s) run (drawn s)
