-- ===== src/Cas/Sync.antt =====
-- `syncPath` and `syncChain` of cas.go.
use duro_ledger.Base.{Bool, false, Option, none, some, [], ◌∷◌, if◌then◌else◌}
use duro_ledger.Base.Action.{◌>>=◌, ◌>>◌, pure}
use duro_ledger.Os.Path.{FilePath, path_eq}
use duro_ledger.Os.Calls.{open_file}
use duro_ledger.Cas.Types.{Store, Io, sys}

-- `syncPath`
unfoldable pub sync_path : Store → FilePath → Io (Unit {0})
sync_path s path = do f ← sys (open_file path); sys (s.sync_file f)

-- `dir == stopAt`, where `none` is the empty text
abbrev pub is_stop : Option FilePath → FilePath → Bool
is_stop none dir = false
is_stop (some stop_at) dir = path_eq dir stop_at

-- `syncChain`: each directory is the parent of the one before, and `/` is its own parent.
unfoldable pub sync_chain : Store → FilePath → Option FilePath → Io (Unit {0})
sync_chain s [] stop_at = sync_path s []
sync_chain s (name ∷ dir) stop_at = do
  sync_path s (name ∷ dir)
  if is_stop stop_at (name ∷ dir) then pure tt else sync_chain s dir stop_at
