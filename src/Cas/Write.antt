-- ===== src/Cas/Write.antt =====
-- `stageTemp`, `publish`, `Write` and `WriteFile` of cas.go.
pub mod Changes
pub mod Durable
pub mod Effect
pub mod Fetch
pub mod Fill
pub mod Safety
pub mod Receipts
pub mod Source
pub mod Stored
use mathlib.Core.Bool.{not}
use duro_ledger.Base.{
  ℕ, Bool, true, false, Option, none, some, List, [], ◌∷◌, ◌==◌, if◌then◌else◌, Bytes, str, length,
  Result, ok, err,
}
use duro_ledger.Base.Int.{ℤ, pos}
use duro_ledger.Base.Action.{◌>>=◌, ◌>>◌, pure, fail, reject_if}
use duro_ledger.Os.Path.{FilePath, parent}
use duro_ledger.Os.State.{
  Errno, not_exist, exist, not_directory, too_many_links, short_write, other, Node, regular,
  directory, special, symlink, Os,
}
use duro_ledger.Os.Calls.{fstat, open_file, create_temp, link, mkdir_all, chmod}
use duro_ledger.Os.Stream.{Read, file}
use duro_ledger.Cas.Identity.{Sha256}
use duro_ledger.Cas.Types.{
  CasError, size_mismatch, source_not_regular, system, Store, blob_path, Io, sys,
}
use duro_ledger.Cas.Sync.{sync_path, sync_chain}
use duro_ledger.Cas.Read.{Counted, copy_all, all_reads, then_close, then_remove, verify}

-- The directory of the temporary files.
abbrev pub temp_dir : Store → FilePath
temp_dir s = str ".tmp" ∷ s.root

-- `stageTemp` from the temporary file on.
unfoldable pub fill_temp : Sha256 → Store → List Read → FilePath → Io Counted
fill_temp H s reads tmp =
    then_close (do result ← copy_all H (file tmp) reads; sys (s.sync_file tmp); pure result)

-- How the `switch` of `publish` reads the result of `os.Link`.
pub data Linked : Type 0 where
  fresh taken : Linked
  link_failed : Errno → Linked

abbrev pub linked : Result Errno (Unit {0}) → Linked
linked (ok u) = fresh
linked (err exist) = taken
linked (err not_exist) = link_failed not_exist
linked (err not_directory) = link_failed not_directory
linked (err too_many_links) = link_failed too_many_links
linked (err short_write) = link_failed short_write
linked (err (other n)) = link_failed (other n)

-- 0o444
abbrev pub read_only : ℕ
read_only = 292

-- The cases of the `switch`: a fresh link, bytes that are there already, another error.
unfoldable pub publish_case : Sha256 → Store → Bytes → ℕ → Linked → Io Bool
publish_case H s digest size fresh = λ os. (ok false, (chmod (blob_path s digest) read_only os).1)
publish_case H s digest size taken = do verify H s digest (pos size); pure true
publish_case H s digest size (link_failed e) = fail (system e)

abbrev pub try_link : FilePath → FilePath → Io Linked
try_link tmp final os = let result = link tmp final os in (ok (linked result.0), result.1)

-- The syncs at the end of `publish`: the blob, then every directory up to the root.
unfoldable pub make_durable : Store → Bytes → Bool → Io Bool
make_durable s digest deduped = do
  sync_path s (blob_path s digest)
  sync_chain s (parent (blob_path s digest)) (some s.root)
  pure deduped

-- `publish`
unfoldable pub publish : Sha256 → Store → FilePath → Bytes → ℕ → Io Bool
publish H s tmp digest size = do
  sys (mkdir_all (parent (blob_path s digest)))
  result ← try_link tmp (blob_path s digest)
  deduped ← publish_case H s digest size result
  make_durable s digest deduped

-- The digest, the size, and whether the bytes were there already.
pub record Receipt : Type 0 where
  pub digest : Bytes
  pub size : ℕ
  pub deduped : Bool

-- The test between the two steps of `Write` and `WriteFile`, and what follows it.
unfoldable pub publish_checked :
    Sha256 → Store → (ℕ → Io (Unit {0})) → FilePath → Counted → Io Receipt
publish_checked H s check tmp (size, digest) = do
  check size
  deduped ← publish H s tmp digest size
  pure (record { digest = digest; size = size; deduped = deduped })

-- `Write` and `WriteFile` from the temporary file on.
unfoldable pub stage_and_publish :
    Sha256 → Store → List Read → (ℕ → Io (Unit {0})) → FilePath → Io Receipt
stage_and_publish H s reads check tmp = do
  counted ← fill_temp H s reads tmp
  publish_checked H s check tmp counted

abbrev pub through_temp : Sha256 → Store → List Read → (ℕ → Io (Unit {0})) → Io Receipt
through_temp H s reads check = do
  tmp ← sys (create_temp (temp_dir s) (str "duro-put-"))
  then_remove tmp (stage_and_publish H s reads check tmp)

-- `Write`
unfoldable pub write : Sha256 → Store → List Read → Io Receipt
write H s reads = through_temp H s reads (λ _. pure tt)

abbrev pub source_size : Node → Io ℕ
source_size (regular b m) = pure (length b)
source_size directory = fail source_not_regular
source_size special = fail source_not_regular
source_size (symlink q) = fail source_not_regular

abbrev pub run_hook : Option (Os → Os) → Io (Unit {0})
run_hook none = pure tt
run_hook (some hook) = λ os. (ok tt, hook os)

-- `WriteFile` behind the stat of the source.
unfoldable pub write_opened : Sha256 → Store → FilePath → ℕ → Io Receipt
write_opened H s f want = do
  run_hook s.after_stat
  reads ← all_reads f
  through_temp H s reads (λ size. reject_if (not (size == want)) (size_mismatch want size))

-- `WriteFile`
unfoldable pub write_file : Sha256 → Store → FilePath → Io Receipt
write_file H s path = do
  f ← sys (open_file path)
  info ← sys (fstat f)
  want ← source_size info
  write_opened H s f want
