-- ===== src/Cas/Read.antt =====
-- `Has`, `get`, `Verify`, `GetToWriter` and `GetToFile` of cas.go.
pub mod Found
pub mod Open
pub mod Live
pub mod Frame
pub mod Deliver
pub mod Touched
pub mod Saved
use duro_ledger.Base.{
  ℕ, Bool, true, false, Option, none, some, List, ◌==◌, if◌then◌else◌, Bytes, str, beq, length,
  Result, ok, err,
}
use mathlib.Core.Bool.{not}
use duro_ledger.Base.Int.{ℤ, pos, negsuc}
use duro_ledger.Base.Action.{◌>>=◌, ◌>>◌, pure, fail, map_error, reject_if, then_do}
use duro_ledger.Os.Path.{FilePath, parent}
use duro_ledger.Os.State.{
  Errno, not_exist, exist, not_directory, too_many_links, short_write, other, Node, regular,
  directory, special, symlink, Os, Syscall,
}
use duro_ledger.Os.Calls.{lstat, open_file, create_temp, close, link, remove}
use duro_ledger.Os.Stream.{Read, Writer, discard, file, file_reads}
use duro_ledger.Cas.Identity.{Sha256, valid_digest}
use duro_ledger.Cas.Types.{
  Mismatch, stored_size, size_while_reading, content_digest, CasError, invalid_digest, not_found,
  destination_exists, not_regular, corrupt, negative_size, system, Store, blob_path, Io, sys,
}
use duro_ledger.Cas.Copy.{Copied, hashing_copy}
use duro_ledger.Cas.Sync.{sync_path}

abbrev pub size_if_regular : Node → Option ℕ
size_if_regular (regular b m) = some (length b)
size_if_regular directory = none
size_if_regular special = none
size_if_regular (symlink q) = none

abbrev is_regular : Result Errno Node → Bool
is_regular (err e) = false
is_regular (ok (regular b m)) = true
is_regular (ok directory) = false
is_regular (ok special) = false
is_regular (ok (symlink q)) = false

-- `Has`
unfoldable pub has : Store → Bytes → Os → Bool × Os
has s digest os =
    if valid_digest digest
    then (let found = lstat (blob_path s digest) os in (is_regular found.0, found.1))
    else (false, os)

abbrev pub missing_or : Errno → CasError
missing_or not_exist = not_found
missing_or exist = system exist
missing_or not_directory = system not_directory
missing_or too_many_links = system too_many_links
missing_or short_write = system short_write
missing_or (other n) = system (other n)

-- A call whose `os.ErrNotExist` becomes `ErrNotFound`.
abbrev pub or_not_found : {A : Type 0} → Syscall A → Io A
or_not_found = map_error missing_or

abbrev pub regular_size : Option ℕ → Io ℕ
regular_size none = fail not_regular
regular_size (some n) = pure n

-- `get`: the path by which the handle goes on.
unfoldable pub get : Store → Bytes → Io FilePath
get s digest = do
  reject_if (not (valid_digest digest)) invalid_digest
  info ← or_not_found (lstat (blob_path s digest))
  _ ← regular_size (size_if_regular info)
  or_not_found (open_file (blob_path s digest))

-- The reads of the file behind a handle.
abbrev pub all_reads : FilePath → Io (List Read)
all_reads path os = (ok (file_reads path os).0, (file_reads path os).1)

abbrev pub Counted : Type 0
Counted = ℕ × Bytes

abbrev pub counted : Copied → Result CasError Counted
counted (n, ok sum) = ok (n, sum)
counted (n, err e) = err e

-- `hashingCopy`, whose count is dropped if it fails.
abbrev pub copy_all : Sha256 → Writer → List Read → Io Counted
copy_all H w reads os = let copied = hashing_copy H w reads os in (counted copied.0, copied.1)

-- The part of `Verify` behind `get`: the streamed bytes must have the size and the digest.
unfoldable pub verify_content : Sha256 → Bytes → ℕ → FilePath → Io (Unit {0})
verify_content H digest want f = do
  reads ← all_reads f
  (count, sum) ← copy_all H discard reads
  reject_if (not (count == want)) (corrupt size_while_reading)
  reject_if (not (beq sum digest)) (corrupt content_digest)

-- The part of `Verify` behind the tests of its arguments.
unfoldable pub verify_blob : Sha256 → Store → Bytes → ℕ → Io (Unit {0})
verify_blob H s digest want = do
  info ← or_not_found (lstat (blob_path s digest))
  n ← regular_size (size_if_regular info)
  reject_if (not (n == want)) (corrupt stored_size)
  f ← get s digest
  verify_content H digest want f

abbrev pub verify_signed : Sha256 → Store → Bytes → ℤ → Io (Unit {0})
verify_signed H s digest (negsuc n) = fail negative_size
verify_signed H s digest (pos n) = verify_blob H s digest n

-- `Verify`
unfoldable pub verify : Sha256 → Store → Bytes → ℤ → Io (Unit {0})
verify H s digest size = do
  reject_if (not (valid_digest digest)) invalid_digest
  verify_signed H s digest size

-- `GetToWriter`
unfoldable pub get_to_writer : Sha256 → Store → Bytes → Writer → Io (Unit {0})
get_to_writer H s digest w = do
  f ← get s digest
  reads ← all_reads f
  (n, sum) ← copy_all H w reads
  reject_if (not (beq sum digest)) (corrupt content_digest)

-- The `Lstat` of the destination, which must not be there.
abbrev pub absent_result : Result Errno Node → Result CasError (Unit {0})
absent_result (ok n) = err destination_exists
absent_result (err not_exist) = ok tt
absent_result (err exist) = err (system exist)
absent_result (err not_directory) = err (system not_directory)
absent_result (err too_many_links) = err (system too_many_links)
absent_result (err short_write) = err (system short_write)
absent_result (err (other n)) = err (system (other n))

abbrev pub require_absent : FilePath → Io (Unit {0})
require_absent dest os = let found = lstat dest os in (absent_result found.0, found.1)

abbrev pub link_result : Result Errno (Unit {0}) → Result CasError (Unit {0})
link_result (ok u) = ok u
link_result (err exist) = err destination_exists
link_result (err not_exist) = err (system not_exist)
link_result (err not_directory) = err (system not_directory)
link_result (err too_many_links) = err (system too_many_links)
link_result (err short_write) = err (system short_write)
link_result (err (other n)) = err (system (other n))

abbrev pub link_new : FilePath → FilePath → Io (Unit {0})
link_new tmp dest os = let linked = link tmp dest os in (link_result linked.0, linked.1)

-- `tmp.Close()` runs also after an error, and an earlier error is the one reported.
abbrev pub first_failure :
    {A : Type 0} → Result CasError A → Result CasError (Unit {0}) → Result CasError A
first_failure (ok a) (ok u) = ok a
first_failure (ok a) (err e) = err e
first_failure (err e) closed = err e

abbrev pub then_close : {A : Type 0} → Io A → Io A
then_close m os = let closed = sys close (m os).1 in (first_failure (m os).0 closed.0, closed.1)

-- `defer os.Remove(path)`, whose error is dropped.
abbrev pub then_remove : {A : Type 0} → FilePath → Io A → Io A
then_remove path = then_do (λ os. (remove path os).1)

-- `GetToFile` from the temporary file on.
unfoldable pub get_through_temp :
    Sha256 → Store → Bytes → FilePath → FilePath → FilePath → Io (Unit {0})
get_through_temp H s digest dest f tmp = do
  (n, sum) ← then_close (do
    reads ← all_reads f
    result ← copy_all H (file tmp) reads
    sys (s.sync_file tmp)
    pure result)
  reject_if (not (beq sum digest)) (corrupt content_digest)
  link_new tmp dest
  sync_path s (parent dest)

-- `GetToFile`
unfoldable pub get_to_file : Sha256 → Store → Bytes → FilePath → Io (Unit {0})
get_to_file H s digest dest = do
  require_absent dest
  f ← get s digest
  tmp ← sys (create_temp (parent dest) (str "duro-get-"))
  then_remove tmp (get_through_temp H s digest dest f tmp)
