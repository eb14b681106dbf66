-- ===== src/Cas/Read/Frame.antt =====
-- The reading operations leave the files of the system as they are.
use duro_ledger.Base.{◌≡◌, refl, ◌∙◌, Option, none, some, List, Bytes, ℕ, ◌==◌}
use mathlib.Core.Bool.{not}
use duro_ledger.Base.Int.{ℤ, pos, negsuc}
use duro_ledger.Base.Action.{reject_if}
use duro_ledger.Base.Action.Keeps.{bind_keeps, reject_if_keeps}
use duro_ledger.Os.Path.{FilePath}
use duro_ledger.Os.State.{Os}
use duro_ledger.Os.Calls.{lstat}
use duro_ledger.Os.Calls.Frame.{lstat-nodes, open_file-nodes}
use duro_ledger.Os.Stream.{Read, discard, file_reads}
use duro_ledger.Os.Stream.Transfer.{write_discard-nodes}
use duro_ledger.Cas.Copy.Frame.{hashing_copy-keeps}
use duro_ledger.Cas.Identity.{Sha256, valid_digest}
use duro_ledger.Cas.Types.{
  Store, blob_path, invalid_digest, corrupt, stored_size, size_while_reading,
}
use duro_ledger.Cas.Read.{
  or_not_found, regular_size, size_if_regular, get, verify, verify_content, verify_blob,
  verify_signed, copy_all,
}

abbrev Same : Os → Os → Type 0
Same s t = t.nodes ≡ s.nodes

pub regular_size-nodes : (o : Option ℕ) (s : Os) → (regular_size o s).1.nodes ≡ s.nodes
regular_size-nodes none s = refl
regular_size-nodes (some n) s = refl

pub get-nodes : (s : Store) (digest : Bytes) (os : Os) → (get s digest os).1.nodes ≡ os.nodes
unfolding get
get-nodes s digest os =
    bind_keeps (Same os) (reject_if (not (valid_digest digest)) invalid_digest) _ os
      (reject_if_keeps (Same os) _ _ os refl)
      λ _ p.
        bind_keeps (Same os) (or_not_found (lstat (blob_path s digest))) _ _ (lstat-nodes _ _ ∙ p)
          λ info q.
            bind_keeps (Same os) (regular_size (size_if_regular info)) _ _
              (regular_size-nodes _ _ ∙ q) λ n r. open_file-nodes _ _ ∙ r

copy_all_discard-nodes :
    (H : Sha256) (reads : List Read) (os : Os) → (copy_all H discard reads os).1.nodes ≡ os.nodes
copy_all_discard-nodes H reads os =
    hashing_copy-keeps H discard (Same os) (λ c t p. write_discard-nodes c t ∙ p) reads os refl

verify_content-nodes :
    (H : Sha256) (digest : Bytes) (want : ℕ) (f : FilePath) (os : Os)
    → (verify_content H digest want f os).1.nodes ≡ os.nodes
unfolding verify_content
verify_content-nodes H digest want f os =
    let reads = file_reads f os in
    bind_keeps (Same os) (copy_all H discard reads.0) _ reads.1
      (copy_all_discard-nodes H reads.0 reads.1)
      λ copied p.
        bind_keeps (Same os) (reject_if (not (copied.0 == want)) (corrupt size_while_reading)) _ _
          (reject_if_keeps (Same os) _ _ _ p) λ _ q. reject_if_keeps (Same os) _ _ _ q

verify_blob-nodes :
    (H : Sha256) (s : Store) (digest : Bytes) (want : ℕ) (os : Os)
    → (verify_blob H s digest want os).1.nodes ≡ os.nodes
unfolding verify_blob
verify_blob-nodes H s digest want os =
    bind_keeps (Same os) (or_not_found (lstat (blob_path s digest))) _ os (lstat-nodes _ os)
      λ info p.
        bind_keeps (Same os) (regular_size (size_if_regular info)) _ _ (regular_size-nodes _ _ ∙ p)
          λ n q.
            bind_keeps (Same os) (reject_if (not (n == want)) (corrupt stored_size)) _ _
              (reject_if_keeps (Same os) _ _ _ q)
              λ _ r.
                bind_keeps (Same os) (get s digest) _ _ (get-nodes s digest _ ∙ r)
                  λ f t. verify_content-nodes H digest want f _ ∙ t

verify_signed-nodes :
    (H : Sha256) (s : Store) (digest : Bytes) (size : ℤ) (os : Os)
    → (verify_signed H s digest size os).1.nodes ≡ os.nodes
verify_signed-nodes H s digest (negsuc n) os = refl
verify_signed-nodes H s digest (pos n) os = verify_blob-nodes H s digest n os

-- `Verify` leaves every file as it is.
pub verify-nodes :
    (H : Sha256) (s : Store) (digest : Bytes) (size : ℤ) (os : Os)
    → (verify H s digest size os).1.nodes ≡ os.nodes
unfolding verify
verify-nodes H s digest size os =
    bind_keeps (Same os) (reject_if (not (valid_digest digest)) invalid_digest) _ os
      (reject_if_keeps (Same os) _ _ os refl) λ _ p. verify_signed-nodes H s digest size _ ∙ p
