-- ===== src/Os/Stream.antt =====
-- Readers and writers: the reads that a file yields, and one `Write` call.
pub mod Transfer
use Prim.Native.Nat.{min}
use duro_ledger.Base.{
  ℕ, zero, suc, ◌+◌, ◌≡◌, refl, ap, arith, Option, none, some, List, [], ◌∷◌, ◌++◌, map, Bytes,
  length, take, leb, if◌then◌else◌,
}
use duro_ledger.Os.Path.{FilePath}
use duro_ledger.Os.State.{
  Errno, short_write, Node, regular, directory, special, symlink, Answer, works, fails, partial,
  short, Os, set_node, drawn, answer,
}

-- One `Read` call: some bytes with no error, or some bytes together with an error other than
-- `io.EOF`. Behind the last one stands `io.EOF`.
pub data Read : Type 0 where
  got : Bytes → Read
  broke : Bytes → Errno → Read

-- The size of the buffer in `hashingCopy`, less one.
abbrev pub buffer_rest : ℕ
buffer_rest = 32767

unfoldable pub push_front : ℕ → List Bytes → List Bytes
push_front b [] = (b ∷ []) ∷ []
push_front b (c ∷ cs) = (b ∷ c) ∷ cs

-- The bytes cut into pieces of 32 KiB; the number is the room left in the piece being filled.
unfoldable pub chunks : ℕ → Bytes → List Bytes
unfolding push_front
chunks room [] = []
chunks zero (b ∷ s) = [] ∷ push_front b (chunks buffer_rest s)
chunks (suc room) (b ∷ s) = push_front b (chunks room s)

-- What the reads of a file yield; the answer says whether they break off.
unfoldable pub reads_of : Answer → Bytes → List Read
unfolding chunks
reads_of works s = map got (chunks (suc buffer_rest) s)
reads_of (short n) s = map got (chunks (suc buffer_rest) s)
reads_of (fails e) s = broke [] e ∷ []
reads_of (partial n e) s = map got (take n (chunks (suc buffer_rest) s)) ++ (broke [] e ∷ [])

abbrev pub content_of : Option Node → Bytes
content_of none = []
content_of (some (regular b m)) = b
content_of (some directory) = []
content_of (some special) = []
content_of (some (symlink q)) = []

-- The reads of the file at a path, as it stands now.
abbrev pub file_reads : FilePath → Os → List Read × Os
file_reads p s = (reads_of (answer s) (content_of (s.nodes p)), drawn s)

-- `io.Discard`, an open file, or an `io.Writer` of the caller.
pub data Writer : Type 0 where
  discard sink : Writer
  file : FilePath → Writer

abbrev pub extend_node : Bytes → Option Node → Option Node
extend_node c none = none
extend_node c (some (regular b m)) = some (regular (b ++ c) m)
extend_node c (some directory) = some directory
extend_node c (some special) = some special
extend_node c (some (symlink q)) = some (symlink q)

abbrev pub accept : Writer → Bytes → Os → Os
accept discard c s = s
accept sink c s = record s { out = s.out ++ c }
accept (file p) c s = set_node p (extend_node c (s.nodes p)) s

-- The number of bytes taken and the error of a `Write` call.
abbrev pub Written : Type 0
Written = ℕ × Option Errno

-- `(*os.File).Write` reports a short write as an error; a caller's writer may not.
abbrev pub short_error : Writer → Bytes → ℕ → Option Errno
short_error discard c n = none
short_error sink c n = none
short_error (file p) c n = if leb (length c) n then none else some short_write

abbrev pub write_answered : Writer → Bytes → Answer → Os → Written × Os
write_answered w c works s = ((length c, none), accept w c s)
write_answered w c (fails e) s = ((0, some e), s)
write_answered w c (partial n e) s = ((length (take n c), some e), accept w (take n c) s)
write_answered w c (short n) s = ((length (take n c), short_error w c n), accept w (take n c) s)

-- `w.Write(c)`
unfoldable pub write : Writer → Bytes → Os → Written × Os
write discard c s = ((length c, none), s)
write sink c s = write_answered sink c (answer s) (drawn s)
write (file p) c s = write_answered (file p) c (answer s) (drawn s)
