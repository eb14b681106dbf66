-- ===== src/Cas/Write/Safety.antt =====
-- What the changes of a put mean for the blobs that are stored already.
use duro_ledger.Base.{
  ℕ, suc, ◌≡◌, refl, ap, sym, subst, ◌∙◌, arith, true, Option, none, some, List, [], ◌∷◌, Bytes,
  length,
}
use duro_ledger.Os.Path.{FilePath}
use duro_ledger.Os.State.{Node, regular, Os}
use duro_ledger.Os.Stream.{Read}
use duro_ledger.Cas.Identity.{Sha256, digest_of, valid_digest}
use duro_ledger.Cas.Identity.Forms.{digest_of-valid_digest}
use duro_ledger.Cas.Types.{Store, blob_path}
use duro_ledger.Cas.Types.Paths.{blob_path-injective, blob_path_lem}
use duro_ledger.Cas.Write.{temp_dir, write, write_file}
use duro_ledger.Cas.Write.Fill.{SyncKeeps}
use duro_ledger.Cas.Write.Changes.{
  Changed, unchanged, made_directory, temporary, blob, write-Changed, write_file-Changed,
}

-- Every file at the place of a blob holds the bytes that its name promises.
abbrev pub IsIntact : Sha256 → Store → Os → Type 0
IsIntact H s os =
    (digest b : Bytes) (mode : ℕ)
    → valid_digest digest ≡ true
    → os.nodes (blob_path s digest) ≡ some (regular b mode)
    → digest_of H b ≡ digest

-- A node that is there stays as it is.
Changed-some :
    (H : Sha256) (s : Store) (before after : Option Node) (q : FilePath) (n : Node)
    → Changed H s before q after
    → before ≡ some n
    → after ≡ some n
Changed-some H s before after q n (unchanged e) h = e ∙ h
Changed-some H s before after q n (made_directory free e) h = cc
Changed-some H s before after q n (temporary free name e) h = cc
Changed-some H s before after q n (blob free b mode e f) h = cc

abbrev some_bytes : Bytes → Option Node → Bytes
some_bytes d none = d
some_bytes d (some (regular b mode)) = b
some_bytes d (some n) = d

-- No temporary file stands at the place of a blob, which is deeper.
pub temp-apart :
    (s : Store) (digest name : Bytes)
    → valid_digest digest ≡ true
    → blob_path s digest ≡ name ∷ temp_dir s
    → ⊥
temp-apart s digest name v e =
    let h : length (blob_path s digest) ≡ suc (suc (length s.root)) = ap length e in
    let k : length (blob_path s digest) ≡ suc (suc (suc (suc (length s.root)))) =
      ap length (blob_path_lem s digest v) in
    omega (arith, h, k)

Changed-intact :
    (H : Sha256) (s : Store) (before after : Option Node) (q : FilePath) (digest b : Bytes)
    (mode : ℕ)
    → valid_digest digest ≡ true
    → q ≡ blob_path s digest
    → ((c : Bytes) (m : ℕ) → before ≡ some (regular c m) → digest_of H c ≡ digest)
    → Changed H s before q after
    → after ≡ some (regular b mode)
    → digest_of H b ≡ digest
Changed-intact H s before after q digest b mode v place old (unchanged e) h = old b mode (sym e ∙ h)
Changed-intact H s before after q digest b mode v place old (made_directory free e) h = cc
Changed-intact H s before after q digest b mode v place old (temporary free name e) h =
    absurd (temp-apart s digest name v (sym place ∙ e))
Changed-intact H s before after q digest b mode v place old (blob free c m e f) h =
    let same : c ≡ b = ap (some_bytes []) (sym f ∙ h) in
    subst (λ x. digest_of H x ≡ digest) same
      (blob_path-injective s (digest_of H c) digest (digest_of-valid_digest H c) v (sym e ∙ place))

-- `Write` on a store whose sync changes no file: whatever calls fail, a store that was intact is
-- intact, and a path where a node was holds the same node.
pub write-IsIntact :
    (H : Sha256) (s : Store) (reads : List Read) (os : Os)
    → SyncKeeps s
    → IsIntact H s os
    → IsIntact H s (write H s reads os).1
      × ((q : FilePath) (n : Node) → os.nodes q ≡ some n → (write H s reads os).1.nodes q ≡ some n)
write-IsIntact H s reads os sync_keeps intact =
    let change = λ (q : FilePath). write-Changed H s sync_keeps reads q os in
    (
      (λ digest b mode v h.
          Changed-intact H s _ _ _ digest b mode v refl (λ c m. intact digest c m v)
            (change (blob_path s digest)) h),
      λ q n h. Changed-some H s _ _ q n (change q) h,
    )

-- `WriteFile` on a store whose sync changes no file, with the hook of the tests not set: whatever calls
-- fail, a store that was intact is intact, and a path where a node was holds the same node, the source
-- among them.
pub write_file-IsIntact :
    (H : Sha256) (s : Store) (path : FilePath) (os : Os)
    → SyncKeeps s
    → s.after_stat ≡ none
    → IsIntact H s os
    → IsIntact H s (write_file H s path os).1
      × ((q : FilePath) (n : Node)
          → os.nodes q ≡ some n
          → (write_file H s path os).1.nodes q ≡ some n)
write_file-IsIntact H s path os sync_keeps no_hook intact =
    let change = λ (q : FilePath). write_file-Changed H s sync_keeps path q os no_hook in
    (
      (λ digest b mode v h.
          Changed-intact H s _ _ _ digest b mode v refl (λ c m. intact digest c m v)
            (change (blob_path s digest)) h),
      λ q n h. Changed-some H s _ _ q n (change q) h,
    )
