-- ===== src/Cas/Types.antt =====
-- The errors of cas.go, `Store`, and `Path`.
pub mod Paths
use duro_ledger.Base.{
  ℕ, ◌-◌, Option, none, List, [], ◌∷◌, ◌++◌, ltb, if◌then◌else◌, Bytes, str, length, take, drop,
  Result, ok, err,
}
use duro_ledger.Base.Action.{Action, map_error}
use duro_ledger.Os.Path.{FilePath, join}
use duro_ledger.Os.Calls.{fsync}
use duro_ledger.Os.State.{Errno, Os, Syscall}

-- Which check found stored content corrupt.
pub data Mismatch : Type 0 where
  stored_size size_while_reading content_digest : Mismatch

-- The sentinel errors, those made in place, and errors passed on from the system.
pub data CasError : Type 0 where
  invalid_digest not_found destination_exists not_regular : CasError
  corrupt : Mismatch → CasError
  size_mismatch : ℕ → ℕ → CasError
  source_not_regular negative_size too_large short_copy : CasError
  system : Errno → CasError

-- `Store`: the root, the call that syncs a handle, and the hook of the tests that runs between
-- the stat of a source and the reading of it.
pub record Store : Type 0 where
  pub root : FilePath
  pub sync_file : FilePath → Syscall (Unit {0})
  pub after_stat : Option (Os → Os)

-- The store that `Open` makes, at a root that it has resolved.
abbrev pub opened_store : FilePath → Store
opened_store root = record { root = root; sync_file = fsync; after_stat = none }

-- `strings.Repeat("0", n)`
unfoldable pub zeros : ℕ → Bytes
zeros n = take n (str "0000")

abbrev pub shard_of : Bytes → Bytes
shard_of digest = if ltb (length digest) 4 then digest ++ zeros (4 - length digest) else digest

-- `Path`
unfoldable pub blob_path : Store → Bytes → FilePath
unfolding zeros
blob_path s digest =
    let shard = shard_of digest in
    join s.root (str "sha256" ∷ take 2 shard ∷ take 2 (drop 2 shard) ∷ digest ∷ [])

abbrev pub Io : Type 0 → Type 0
Io = Action Os CasError

-- `if err != nil { return err }` behind a call of the system.
abbrev pub sys : {A : Type 0} → Syscall A → Io A
sys = map_error system
