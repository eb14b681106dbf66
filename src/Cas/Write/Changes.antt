-- ===== src/Cas/Write/Changes.antt =====
-- The changes that a whole `Write` or `WriteFile` makes.
use duro_ledger.Base.{
  ℕ, ◌≡◌, refl, ap, sym, subst, ◌∙◌, false, Option, none, some, List, [], ◌∷◌, ◌++◌, ◌==◌, Bytes,
  str, Result, ok, err, Result-cases, Bool-cases, inl, inr,
}
use mathlib.Core.Bool.{not}
use duro_ledger.Base.Action.{pure, reject_if}
use duro_ledger.Base.Action.Keeps.{bind_keeps, reject_if_keeps}
use duro_ledger.Os.Path.{FilePath, path_eq, path_eq_iff, path_eq_refl}
use duro_ledger.Os.State.{Errno, Node, regular, directory, special, symlink, Os, update}
use duro_ledger.Os.Calls.{open_file, fstat, create_temp}
use duro_ledger.Os.Calls.Frame.{open_file-nodes, fstat-nodes, remove_frame}
use duro_ledger.Os.Calls.Temp.{TempEffect, create_temp-TempEffect}
use duro_ledger.Os.Stream.{Read, file_reads}
use duro_ledger.Os.Stream.Transfer.{bytes_of}
use duro_ledger.Cas.Identity.{Sha256, digest_of}
use duro_ledger.Cas.Types.{Store, blob_path, Io, sys, size_mismatch}
use duro_ledger.Cas.Read.{Counted}
use duro_ledger.Cas.Write.{
  temp_dir, fill_temp, publish, publish_checked, stage_and_publish, through_temp, write, write_file,
  write_opened, source_size, run_hook,
}
use duro_ledger.Cas.Write.Effect.{Published, same, made, stored, publish-Changes}
use duro_ledger.Cas.Write.Fill.{SyncKeeps, IsFilled, fill_temp_frame, fill_temp-IsFilled}

-- How one path may have changed by a put into the store.
pub data Changed (H : Sha256) (s : Store) (before : Option Node) (q : FilePath)
    (after : Option Node) : Type 0 where
  unchanged : after ≡ before → Changed H s before q after
  made_directory : before ≡ none → after ≡ some directory → Changed H s before q after
  temporary : before ≡ none → (name : Bytes) → q ≡ name ∷ temp_dir s → Changed H s before q after
  blob :
      before ≡ none
      → (b : Bytes) (mode : ℕ) → q ≡ blob_path s (digest_of H b)
      → after ≡ some (regular b mode)
      → Changed H s before q after

Published-Changed :
    (H : Sha256) (s : Store) (b : Bytes) (before after : Option Node) (q : FilePath)
    → Published (blob_path s (digest_of H b)) b before q after
    → Changed H s before q after
Published-Changed H s b before after q (same e) = unchanged e
Published-Changed H s b before after q (made free dir) = made_directory free dir
Published-Changed H s b before after q (stored free e mode there) = blob free b mode e there

Changed-frame :
    (H : Sha256) (s : Store) (q : FilePath) (a b c d : Option Node)
    → b ≡ a
    → d ≡ c
    → Changed H s b q c
    → Changed H s a q d
Changed-frame H s q a b c d e f h = rw (sym e, f) h

module _ (dir : FilePath) (prefix : Bytes) (t : Os) (r : Result Errno FilePath) (u : Os) where
  pub temp_failed : (e : Errno) → r ≡ err e → TempEffect dir prefix t r u → u.nodes ≡ t.nodes
  temp_failed e h effect = subst (λ x. TempEffect dir prefix t x u) h effect

  pub temp_done :
      (p : FilePath)
      → r ≡ ok p
      → TempEffect dir prefix t r u
      → (x : Bytes) × (p ≡ (prefix ++ x) ∷ dir)
        × (t.nodes p ≡ none)
        × (u.nodes ≡ update t.nodes p (some (regular [] 384)))
  temp_done p h effect = subst (λ x. TempEffect dir prefix t x u) h effect

module _ (H : Sha256) (s : Store) (sync_keeps : SyncKeeps s) (reads : List Read)
    (check : ℕ → Io (Unit {0}))
    (check_keeps : (n : ℕ) (os : Os) → (check n os).1.nodes ≡ os.nodes) where
  -- From the test of the size on.
  checked-Changed :
      (tmp q : FilePath) (t u : Os) (result : Counted)
      → u.nodes q ≡ t.nodes q
      → IsFilled H reads tmp result u
      → Changed H s (t.nodes q) q ((publish_checked H s check tmp result u).1.nodes q)
  unfolding publish_checked
  checked-Changed tmp q t u result frame full =
      let P = λ (v : Os). Changed H s (t.nodes q) q (v.nodes q) in
      let v = (check result.0 u).1 in
      let b = bytes_of reads in
      let kept = check_keeps result.0 u in
      let mode = full.content.0 in
      let there : v.nodes tmp ≡ some (regular b mode) = ap (λ f. f tmp) kept ∙ full.content.1 in
      let before : v.nodes q ≡ t.nodes q = ap (λ f. f q) kept ∙ frame in
      let after = (publish H s tmp result.1 result.0 v).1.nodes q in
      let moved =
        subst (λ d. Published (blob_path s d) b (v.nodes q) q after) full.digest
          (publish-Changes H s sync_keeps result.1 b result.0 mode tmp v there q) in
      bind_keeps P (check result.0) _ u (unchanged before) λ _ _.
        bind_keeps P (publish H s tmp result.1 result.0)
          (λ deduped. pure (record { digest = result.1; size = result.0; deduped = deduped })) v
          (Published-Changed H s b _ _ q
            (subst (λ x. Published (blob_path s (digest_of H b)) b x q after) before moved))
          λ _ k. k

  stage_and_publish-Changed :
      (tmp q : FilePath) (t : Os)
      → t.nodes tmp ≡ some (regular [] 384)
      → path_eq tmp q ≡ false
      → Changed H s (t.nodes q) q ((stage_and_publish H s reads check tmp t).1.nodes q)
  unfolding stage_and_publish
  stage_and_publish-Changed tmp q t empty apart =
      let filled = fill_temp H s reads tmp t in
      let frame = fill_temp_frame H s sync_keeps reads tmp q t apart in
      elim (Result-cases filled.0) [
        | inr (e, failed) ↦ rw failed (unchanged frame)
        | inl (result, done) ↦
            let full = fill_temp-IsFilled H s sync_keeps reads tmp t result empty done in
            rw done (checked-Changed tmp q t filled.1 result frame full)
      ]

  -- The temporary file apart, which was made at a free path below `.tmp`.
  through_temp-Changed :
      (q : FilePath) (t : Os)
      → Changed H s (t.nodes q) q ((through_temp H s reads check t).1.nodes q)
  through_temp-Changed q t =
      let made = create_temp (temp_dir s) (str "duro-put-") t in
      let effect = create_temp-TempEffect (temp_dir s) (str "duro-put-") t in
      elim (Result-cases made.0) [
        | inr (e, failed) ↦ rw failed (
            unchanged (
              ap (λ f. f q)
                (temp_failed (temp_dir s) (str "duro-put-") t made.0 made.1 e failed effect)))
        | inl (tmp, done) ↦
            let (name, place, free, nodes) =
              temp_done (temp_dir s) (str "duro-put-") t made.0 made.1 tmp done effect in
            rw done (elim (Bool-cases (path_eq tmp q)) [
              | inl here ↦
                  let e = (path_eq_iff tmp q).0 here in
                  temporary (subst (λ x. t.nodes x ≡ none) e free) (str "duro-put-" ++ name)
                    (sym e ∙ place)
              | inr apart ↦
                  let empty = ap (λ f. f tmp) nodes ∙ rw path_eq_refl in
                  let frame : made.1.nodes q ≡ t.nodes q = ap (λ f. f q) nodes ∙ rw apart in
                  let change = stage_and_publish-Changed tmp q made.1 empty apart in
                  let last = (stage_and_publish H s reads check tmp made.1).1 in
                  let final = remove_frame tmp q last apart in
                  Changed-frame H s q (t.nodes q) (made.1.nodes q) (last.nodes q) _ frame final
                    change
            ])
      ]

module _ (H : Sha256) (s : Store) (sync_keeps : SyncKeeps s) where
  -- Whatever calls fail, `Write` on a store whose sync changes no file changes a path at most from free to a directory, from free to a
  -- temporary file, or from free to the blob that is named by the digest of its bytes.
  pub write-Changed :
      (reads : List Read) (q : FilePath) (os : Os)
      → Changed H s (os.nodes q) q ((write H s reads os).1.nodes q)
  unfolding write
  write-Changed reads q os =
      through_temp-Changed H s sync_keeps reads (λ _. pure tt) (λ n t. refl) q os

  source_size_keeps : (n : Node) (os : Os) → (source_size n os).1.nodes ≡ os.nodes
  source_size_keeps (regular b m) os = refl
  source_size_keeps directory os = refl
  source_size_keeps special os = refl
  source_size_keeps (symlink q) os = refl

  pub hook_keeps : (o : Option (Os → Os)) (os : Os) → o ≡ none → (run_hook o os).1.nodes ≡ os.nodes
  hook_keeps none os h = refl
  hook_keeps (some hook) os h = cc

  -- The same change, counted from an earlier state with the same files.
  since :
      (q : FilePath) (t u v : Os)
      → t.nodes ≡ u.nodes
      → Changed H s (u.nodes q) q (v.nodes q)
      → Changed H s (t.nodes q) q (v.nodes q)
  since q t u v e h = rw e h

  write_opened-Changed :
      (f q : FilePath) (want : ℕ) (os : Os)
      → s.after_stat ≡ none
      → Changed H s (os.nodes q) q ((write_opened H s f want os).1.nodes q)
  unfolding write_opened
  write_opened-Changed f q want os no_hook =
      let P = λ (t : Os). Changed H s (os.nodes q) q (t.nodes q) in
      let hooked = hook_keeps s.after_stat os no_hook in
      bind_keeps P (run_hook s.after_stat) _ os (unchanged (ap (λ g. g q) hooked)) λ u h.
        let before = (run_hook s.after_stat os).1 in
        let (reads, read) = file_reads f before in
        let check = λ (size : ℕ). reject_if (not (size == want)) (size_mismatch want size) in
        since q os read (through_temp H s reads check read).1 (sym hooked) (
          through_temp-Changed H s sync_keeps reads check
            (λ n t.
              reject_if_keeps (λ v. v.nodes ≡ t.nodes) (not (n == want)) (size_mismatch want n) t
                refl)
            q read)

  -- Where the hook of the tests is not set, and on such a store, `WriteFile` changes a path only in the ways that
  -- `Write` does.
  pub write_file-Changed :
      (path q : FilePath) (os : Os)
      → s.after_stat ≡ none
      → Changed H s (os.nodes q) q ((write_file H s path os).1.nodes q)
  unfolding write_file
  write_file-Changed path q os no_hook =
      let P = λ (t : Os). Changed H s (os.nodes q) q (t.nodes q) in
      let t = (open_file path os).1 in
      let opened = open_file-nodes path os in
      bind_keeps P (sys (open_file path)) _ os (unchanged (ap (λ g. g q) opened)) λ f _.
        let u = (fstat f t).1 in
        let stat = fstat-nodes f t ∙ opened in
        bind_keeps P (sys (fstat f)) _ t (unchanged (ap (λ g. g q) stat)) λ info _.
          let v = (source_size info u).1 in
          let sized = source_size_keeps info u ∙ stat in
          bind_keeps P (source_size info) (write_opened H s f) u (unchanged (ap (λ g. g q) sized))
            λ want _.
              since q os v (write_opened H s f want v).1 (sym sized)
                (write_opened-Changed f q want v no_hook)
