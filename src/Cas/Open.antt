-- ===== src/Cas/Open.antt =====
-- `Open` of cas.go. `filepath.Abs` is a parameter.
pub mod Ready
pub mod Silent
use duro_ledger.Base.{none, [], ◌∷◌, Bytes, str, Result, ok, err}
use duro_ledger.Base.Action.{◌>>=◌, ◌>>◌, pure, fail}
use duro_ledger.Os.Path.{FilePath, join}
use duro_ledger.Os.State.{Errno}
use duro_ledger.Os.Resolve.{mkdir_all_real, eval_symlinks}
use duro_ledger.Cas.Types.{system, Store, opened_store, Io, sys}
use duro_ledger.Cas.Sync.{sync_chain}

abbrev pub blob_dir : FilePath → FilePath
blob_dir root = str "sha256" ∷ root

abbrev pub scratch_dir : FilePath → FilePath
scratch_dir root = str ".tmp" ∷ root

-- The loop that syncs the two directories and everything above them.
unfoldable pub sync_dirs : FilePath → Io (Unit {0})
sync_dirs canonical = do
  sync_chain (opened_store canonical) (blob_dir canonical) none
  sync_chain (opened_store canonical) (scratch_dir canonical) none

-- `Open` from an absolute path.
unfoldable pub open_at : FilePath → Io Store
open_at root = do
  sys (mkdir_all_real (blob_dir root))
  sys (mkdir_all_real (scratch_dir root))
  canonical ← sys (eval_symlinks root)
  sync_dirs canonical
  pure (opened_store canonical)

abbrev pub absolute_root : Result Errno Bytes → Io Store
absolute_root (ok path) = open_at (join [] (path ∷ []))
absolute_root (err e) = fail (system e)

-- `Open`
unfoldable pub open_dir : (Bytes → Result Errno Bytes) → Bytes → Io Store
open_dir abs dir = absolute_root (abs dir)
