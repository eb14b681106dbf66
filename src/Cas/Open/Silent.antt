-- ===== src/Cas/Open/Silent.antt =====
-- `Open` writes nothing to the caller's writer.
use duro_ledger.Base.{
  refl, none, Option, Bool, true, false, if◌then◌else◌, [], ◌∷◌, Bytes, Result, ok, err,
}
use duro_ledger.Base.Action.{pure}
use duro_ledger.Os.Path.{FilePath, join}
use duro_ledger.Os.State.{Errno}
use duro_ledger.Os.Calls.{open_file, fsync}
use duro_ledger.Os.Resolve.{mkdir_all_real, eval_symlinks}
use duro_ledger.Os.Resolve.Silent.{
  Silent, bind-Silent, open_file-Silent, fsync-Silent, mkdir_all_real-Silent, eval_symlinks-Silent,
}
use duro_ledger.Cas.Types.{Store, opened_store, Io, sys}
use duro_ledger.Cas.Sync.{is_stop, sync_path, sync_chain}
use duro_ledger.Cas.Open.{blob_dir, scratch_dir, sync_dirs, open_at, absolute_root, open_dir}

module _ (root : FilePath) where
  abbrev store : Store
  store = opened_store root

  sync_path-Silent : (p : FilePath) → Silent (sync_path store p)
  unfolding sync_path
  sync_path-Silent p =
      bind-Silent (sys (open_file p)) (λ f. sys (fsync f)) (open_file-Silent p) fsync-Silent

  if-Silent : (c : Bool) (m : Io (Unit {0})) → Silent m → Silent (if c then pure tt else m)
  if-Silent true m h s = refl
  if-Silent false m h s = h s

  sync_chain-Silent : (p : FilePath) (stop : Option FilePath) → Silent (sync_chain store p stop)
  unfolding sync_chain
  sync_chain-Silent [] stop = sync_path-Silent []
  sync_chain-Silent (name ∷ p) stop =
      let rest = sync_chain store p stop in
      let last = is_stop stop (name ∷ p) in
      bind-Silent (sync_path store (name ∷ p)) (λ u. if last then pure tt else rest)
        (sync_path-Silent (name ∷ p)) λ u. if-Silent last rest (sync_chain-Silent p stop)

  sync_dirs-Silent : Silent (sync_dirs root)
  unfolding sync_dirs
  sync_dirs-Silent =
      bind-Silent (sync_chain store (blob_dir root) none)
        (λ u. sync_chain store (scratch_dir root) none) (sync_chain-Silent (blob_dir root) none)
        (λ u. sync_chain-Silent (scratch_dir root) none)

open_at-Silent : (root : FilePath) → Silent (open_at root)
unfolding open_at
open_at-Silent root =
    bind-Silent (sys (mkdir_all_real (blob_dir root))) _ (mkdir_all_real-Silent (blob_dir root))
      λ u.
        bind-Silent (sys (mkdir_all_real (scratch_dir root))) _
          (mkdir_all_real-Silent (scratch_dir root))
          λ v. bind-Silent (sys (eval_symlinks root)) _ (eval_symlinks-Silent root) λ canonical.
            bind-Silent (sync_dirs canonical) (λ w. pure (opened_store canonical))
              (sync_dirs-Silent canonical) (λ w s. refl)

absolute_root-Silent : (r : Result Errno Bytes) → Silent (absolute_root r)
absolute_root-Silent (ok path) = open_at-Silent (join [] (path ∷ []))
absolute_root-Silent (err e) = λ s. refl

pub open_dir-Silent : (abs : Bytes → Result Errno Bytes) (dir : Bytes) → Silent (open_dir abs dir)
unfolding open_dir
open_dir-Silent abs dir = absolute_root-Silent (abs dir)
