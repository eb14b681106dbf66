-- ===== src/Cas/Read/Found.antt =====
-- What it means that `get`, `Verify` or `GetToWriter` succeeds.
use duro_ledger.Base.{
  ℕ, ==_iff, subst, ◌≡◌, refl, ap, sym, ◌∙◌, arith, Bool, true, false, ◌==◌, ◌++◌, some, Bytes, beq,
  beq_iff, length, ok, err,
}
use mathlib.Core.Bool.{not}
use duro_ledger.Base.Int.{ℤ, pos, negsuc}
use duro_ledger.Base.Action.{reject_if}
use duro_ledger.Base.Action.Keeps.{bind_ok, require_ok}
use duro_ledger.Os.Path.{FilePath}
use duro_ledger.Os.State.{regular, Os, answer}
use duro_ledger.Os.Calls.{lstat}
use duro_ledger.Os.Calls.Success.{lstat_ok}
use duro_ledger.Os.Stream.{Writer, discard, sink, file_reads, content_of}
use duro_ledger.Os.Stream.Transfer.{bytes_of, reads_of-unbroken, Holds}
use duro_ledger.Cas.Identity.{Sha256, digest_of, valid_digest}
use duro_ledger.Cas.Types.{
  CasError, Store, blob_path, invalid_digest, corrupt, stored_size, size_while_reading,
  content_digest,
}
use duro_ledger.Cas.Read.Open.{or_not_found-ok, get-IsFound}
use duro_ledger.Cas.Copy.{Copied}
use duro_ledger.Cas.Copy.Success.{hashing_copy-ok}
use duro_ledger.Cas.Read.Frame.{get-nodes, regular_size-nodes}
use duro_ledger.Os.Calls.Frame.{lstat-nodes}
use duro_ledger.Cas.Read.{
  Counted, counted, copy_all, or_not_found, regular_size, size_if_regular, get, verify,
  verify_signed, verify_blob, verify_content, get_to_writer,
}

pub counted-ok : (c : Copied) (r : Counted) → counted c ≡ ok r → c ≡ (r.0, ok r.1)
counted-ok (n, ok sum) r h = ground arith
counted-ok (n, err e) r h = cc

-- A file that was copied to the end without an error was copied whole.
copied_file :
    (H : Sha256) (w : Writer) (f : FilePath) (b : Bytes) (mode : ℕ) (os : Os) (r : Counted)
    → os.nodes f ≡ some (regular b mode)
    → let reads = file_reads f os in
      (copy_all H w reads.0 reads.1).0 ≡ ok r
      → (r.0 ≡ length b)
        × (r.1 ≡ digest_of H b)
        × ((c : Bytes) → Holds w c reads.1 → Holds w (c ++ b) (copy_all H w reads.0 reads.1).1)
copied_file H w f b mode os r there h =
    let reads = file_reads f os in
    let (whole, count, digest, held) =
      hashing_copy-ok H w reads.0 reads.1 r.0 r.1 (counted-ok _ r h) in
    let e : bytes_of reads.0 ≡ b =
      reads_of-unbroken (answer os) (content_of (os.nodes f)) whole ∙ ap content_of there in
    (
      rw e at count,
      rw e at digest,
      λ c k. subst (λ x. Holds w (c ++ x) (copy_all H w reads.0 reads.1).1) e (held c k),
    )

pub tested_ok : (c : Bool) (e : CasError) (os : Os) → (reject_if (not c) e os).0 ≡ ok tt → c ≡ true
tested_ok true e os h = refl
tested_ok false e os h = cc

pub tested_state : (c : Bool) (e : CasError) (os : Os) → (reject_if (not c) e os).1 ≡ os
tested_state true e os = refl
tested_state false e os = refl

verify_content-ok :
    (H : Sha256) (digest : Bytes) (want : ℕ) (f : FilePath) (b : Bytes) (mode : ℕ) (os : Os)
    → os.nodes f ≡ some (regular b mode)
    → (verify_content H digest want f os).0 ≡ ok tt
    → (want ≡ length b) × (digest_of H b ≡ digest)
unfolding verify_content
verify_content-ok H digest want f b mode os there h =
    let reads = file_reads f os in
    let (copied, done, run) = bind_ok (copy_all H discard reads.0) _ reads.1 h in
    let (count, sum, held) = copied_file H discard f b mode os copied there done in
    let after = (copy_all H discard reads.0 reads.1).1 in
    let (same_count, run') =
      require_ok (copied.0 == want) (corrupt size_while_reading) _ after
        (subst (λ x. x.0 ≡ ok tt) run h) in
    let tested = subst (λ x. x.0 ≡ ok tt) (run ∙ run') h in
    (
      let e = (==_iff copied.0 want).0 same_count in cc,
      sym sum
          ∙ (beq_iff copied.1 digest).0
              (tested_ok (beq copied.1 digest) (corrupt content_digest) after tested),
    )

-- What a `Verify` that succeeds has checked.
pub record IsVerified (H : Sha256) (s : Store) (digest : Bytes) (size : ℤ) (os : Os) : Type 0 where
  pub valid : valid_digest digest ≡ true
  pub bytes : Bytes
  pub mode : ℕ
  pub there : os.nodes (blob_path s digest) ≡ some (regular bytes mode)
  pub size_right : size ≡ pos (length bytes)
  pub digest_right : digest_of H bytes ≡ digest

verify_blob-ok :
    (H : Sha256) (s : Store) (digest : Bytes) (want : ℕ) (os : Os)
    → (verify_blob H s digest want os).0 ≡ ok tt
    → IsVerified H s digest (pos want) os
unfolding verify_blob
verify_blob-ok H s digest want os h =
    let path = blob_path s digest in
    let (info, found, run) = bind_ok (or_not_found (lstat path)) _ os h in
    let (there, drew) = lstat_ok path os info (or_not_found-ok (lstat path) os info found) in
    let t = (lstat path os).1 in
    let (n, sized, run2) =
      bind_ok (regular_size (size_if_regular info)) _ t (subst (λ x. x.0 ≡ ok tt) run h) in
    let u = (regular_size (size_if_regular info) t).1 in
    let (same_size, run3) =
      require_ok (n == want) (corrupt stored_size) _ u (subst (λ x. x.0 ≡ ok tt) (run ∙ run2) h) in
    let (f, opened, run4) =
      bind_ok (get s digest) (verify_content H digest want) u
        (subst (λ x. x.0 ≡ ok tt) (run ∙ run2 ∙ run3) h) in
    let got = get-IsFound s digest u f opened in
    let u_t : u.nodes ≡ os.nodes = regular_size-nodes _ t ∙ lstat-nodes path os in
    let v = (get s digest u).1 in
    let here : v.nodes f ≡ some (regular got.bytes got.mode) =
      ap (λ g. g f) (get-nodes s digest u) ∙ ap u.nodes got.place ∙ got.there in
    let (count, sum) =
      verify_content-ok H digest want f got.bytes got.mode v here
        (subst (λ x. x.0 ≡ ok tt) (run ∙ run2 ∙ run3 ∙ run4) h) in
    record {
      valid = got.valid;
      bytes = got.bytes;
      mode = got.mode;
      there = ap (λ g. g path) (sym u_t) ∙ got.there;
      size_right = ap pos count;
      digest_right = sum;
    }

verify_signed-ok :
    (H : Sha256) (s : Store) (digest : Bytes) (size : ℤ) (os : Os)
    → (verify_signed H s digest size os).0 ≡ ok tt
    → IsVerified H s digest size os
verify_signed-ok H s digest (negsuc n) os h = cc
verify_signed-ok H s digest (pos n) os h = verify_blob-ok H s digest n os h

-- If `Verify` succeeds, the digest is well formed and a file stands at its path with exactly the
-- size asked for, whose bytes have this digest.
pub verify-IsVerified :
    (H : Sha256) (s : Store) (digest : Bytes) (size : ℤ) (os : Os)
    → (verify H s digest size os).0 ≡ ok tt
    → IsVerified H s digest size os
unfolding verify
verify-IsVerified H s digest size os h =
    let (v, run) = require_ok (valid_digest digest) invalid_digest _ os h in
    verify_signed-ok H s digest size os (subst (λ x. x.0 ≡ ok tt) run h)

-- If `GetToWriter` succeeds, the caller's writer has received, behind what it had, exactly the bytes
-- of the blob, and they have the digest asked for.
pub get_to_writer-ok :
    (H : Sha256) (s : Store) (digest : Bytes) (os : Os)
    → (get_to_writer H s digest sink os).0 ≡ ok tt
    → (b : Bytes) × (mode : ℕ) × (os.nodes (blob_path s digest) ≡ some (regular b mode))
      × (digest_of H b ≡ digest)
      × ((get_to_writer H s digest sink os).1.out ≡ os.out ++ b)
unfolding get_to_writer
get_to_writer-ok H s digest os h =
    let (f, opened, run) = bind_ok (get s digest) _ os h in
    let got = get-IsFound s digest os f opened in
    let v = (get s digest os).1 in
    let here : v.nodes f ≡ some (regular got.bytes got.mode) =
      ap (λ g. g f) (get-nodes s digest os) ∙ ap os.nodes got.place ∙ got.there in
    let reads = file_reads f v in
    let (copied, done, run2) =
      bind_ok (copy_all H sink reads.0) _ reads.1 (subst (λ x. x.0 ≡ ok tt) run h) in
    let (count, sum, held) = copied_file H sink f got.bytes got.mode v copied here done in
    let after = (copy_all H sink reads.0 reads.1).1 in
    let tested = subst (λ x. x.0 ≡ ok tt) (run ∙ run2) h in
    let right = tested_ok (beq copied.1 digest) (corrupt content_digest) after tested in
    let start : v.out ≡ os.out = ap (λ t. t.out) got.later in
    (
      got.bytes,
      got.mode,
      got.there,
      sym sum ∙ (beq_iff copied.1 digest).0 right,
      ap (λ x. x.1.out) (run ∙ run2)
          ∙ ap (λ t. t.out) (tested_state (beq copied.1 digest) (corrupt content_digest) after)
          ∙ held os.out start,
    )
