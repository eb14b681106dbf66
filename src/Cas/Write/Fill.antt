-- ===== src/Cas/Write/Fill.antt =====
-- What filling a temporary file does, and the syncs that the store can be given.
use duro_ledger.Base.{
  ℕ, ◌≡◌, ap, subst, ◌∙◌, arith, true, false, some, List, [], length, Result, ok, err,
}
use duro_ledger.Base.Action.{◌>>=◌, ◌>>◌, pure}
use duro_ledger.Base.Action.Keeps.{bind_keeps, bind_ok}
use duro_ledger.Os.Path.{FilePath, path_eq}
use duro_ledger.Os.State.{regular, Os}
use duro_ledger.Os.Calls.Frame.{close-nodes}
use duro_ledger.Os.Stream.{Read, file}
use duro_ledger.Os.Stream.Transfer.{bytes_of, unbroken}
use duro_ledger.Cas.Identity.{Sha256, digest_of}
use duro_ledger.Cas.Types.{CasError, Store, Io, sys}
use duro_ledger.Cas.Copy.Success.{hashing_copy-ok}
use duro_ledger.Cas.Copy.Frame.{hashing_copy_frame}
use duro_ledger.Cas.Read.{Counted, copy_all, first_failure}
use duro_ledger.Cas.Read.Found.{counted-ok}
use duro_ledger.Cas.Write.{fill_temp}

-- `(*os.File).Sync`, and any stand-in for it that leaves the files as they are.
abbrev pub SyncKeeps : Store → Type 0
SyncKeeps s = (p : FilePath) (os : Os) → (s.sync_file p os).1.nodes ≡ os.nodes

-- The state of a temporary file that was filled to the end.
pub record IsFilled (H : Sha256) (reads : List Read) (tmp : FilePath) (counted : Counted) (os : Os)
    : Type 0 where
  pub whole : unbroken reads ≡ true
  pub count : counted.0 ≡ length (bytes_of reads)
  pub digest : counted.1 ≡ digest_of H (bytes_of reads)
  pub content : (mode : ℕ) × (os.nodes tmp ≡ some (regular (bytes_of reads) mode))

first_failure-ok :
    (r : Result CasError Counted) (closed : Result CasError (Unit {0})) (a : Counted)
    → first_failure r closed ≡ ok a
    → r ≡ ok a
first_failure-ok (ok a) (ok u) b h = h
first_failure-ok (ok a) (err e) b h = cc
first_failure-ok (err e) closed b h = cc

module _ (H : Sha256) (s : Store) (sync_keeps : SyncKeeps s) where
  -- The three steps of filling, before the file is closed.
  abbrev fill : List Read → FilePath → Io Counted
  fill reads tmp = do result ← copy_all H (file tmp) reads; sys (s.sync_file tmp); pure result

  fill_frame :
      (reads : List Read) (tmp q : FilePath) (os : Os)
      → path_eq tmp q ≡ false
      → (fill reads tmp os).1.nodes q ≡ os.nodes q
  fill_frame reads tmp q os apart =
      let P = λ (t : Os). t.nodes q ≡ os.nodes q in
      bind_keeps P (copy_all H (file tmp) reads) _ os
        (hashing_copy_frame H (file tmp) reads os q apart)
        λ result h.
          bind_keeps P (sys (s.sync_file tmp)) (λ _. pure result) _
            (ap (λ f. f q) (sync_keeps tmp _) ∙ h) λ _ k. k

  fill-IsFilled :
      (reads : List Read) (tmp : FilePath) (os : Os) (result : Counted)
      → os.nodes tmp ≡ some (regular [] 384)
      → (fill reads tmp os).0 ≡ ok result
      → IsFilled H reads tmp result (fill reads tmp os).1
  fill-IsFilled reads tmp os result empty h =
      let (r, copied, run) = bind_ok (copy_all H (file tmp) reads) _ os h in
      let done = copy_all H (file tmp) reads os in
      let (u, synced, run') = bind_ok (sys (s.sync_file tmp)) (λ _. pure r) done.1 (rw run at h) in
      let same : r ≡ result = ground (arith, rw run' at (rw run at h)) in
      let (whole, count, digest, holds) =
        hashing_copy-ok H (file tmp) reads os r.0 r.1 (counted-ok _ r copied) in
      let (mode, content) = holds [] (384, empty) in
      let kept : (fill reads tmp os).1.nodes ≡ done.1.nodes =
        rw (run, run') (sync_keeps tmp done.1) in
      subst (λ x. IsFilled H reads tmp x (fill reads tmp os).1) same
        (record {
          whole = whole;
          count = count;
          digest = digest;
          content = (mode, rw kept content);
        })

  pub fill_temp_frame :
      (reads : List Read) (tmp q : FilePath) (os : Os)
      → path_eq tmp q ≡ false
      → (fill_temp H s reads tmp os).1.nodes q ≡ os.nodes q
  unfolding fill_temp
  fill_temp_frame reads tmp q os apart =
      ap (λ f. f q) (close-nodes (fill reads tmp os).1) ∙ fill_frame reads tmp q os apart

  pub fill_temp-IsFilled :
      (reads : List Read) (tmp : FilePath) (os : Os) (result : Counted)
      → os.nodes tmp ≡ some (regular [] 384)
      → (fill_temp H s reads tmp os).0 ≡ ok result
      → IsFilled H reads tmp result (fill_temp H s reads tmp os).1
  unfolding fill_temp
  fill_temp-IsFilled reads tmp os result empty h =
      let filled = fill-IsFilled reads tmp os result empty (first_failure-ok _ _ result h) in
      record {
        whole = filled.whole;
        count = filled.count;
        digest = filled.digest;
        content = (
          filled.content.0,
          ap (λ f. f tmp) (close-nodes (fill reads tmp os).1) ∙ filled.content.1,
        );
      }
