-- ===== src/Cas/Write/Source.antt =====
-- What it means that `WriteFile` succeeds.
use duro_ledger.Base.{
  ℕ, ◌≡◌, refl, ap, sym, subst, ◌∙◌, Option, none, some, ◌==◌, Bytes, length, ok,
}
use mathlib.Core.Bool.{not}
use duro_ledger.Base.Action.{reject_if}
use duro_ledger.Base.Action.Keeps.{bind_ok, reject_if_keeps}
use duro_ledger.Os.Path.{FilePath}
use duro_ledger.Os.State.{Node, regular, directory, special, symlink, Os, answer}
use duro_ledger.Os.Calls.{open_file, fstat}
use duro_ledger.Os.Calls.Frame.{open_file-nodes}
use duro_ledger.Os.Calls.Success.{fstat_ok}
use duro_ledger.Os.Stream.{file_reads, content_of}
use duro_ledger.Os.Stream.Transfer.{bytes_of, reads_of-unbroken}
use duro_ledger.Cas.Identity.{Sha256, digest_of}
use duro_ledger.Cas.Types.{size_mismatch, Store, sys}
use duro_ledger.Cas.Write.{Receipt, source_size, run_hook, write_opened, write_file}
use duro_ledger.Cas.Write.Fill.{SyncKeeps}
use duro_ledger.Cas.Write.Stored.{HasBlob, sys-ok}
use duro_ledger.Cas.Write.Receipts.{through_temp-IsReceipt}

-- A receipt for the file `f`, as it stood at `before`.
pub record IsFileReceipt (H : Sha256) (s : Store) (f : FilePath) (before : Os) (r : Receipt)
    (after : Os) : Type 0 where
  pub bytes : Bytes
  pub mode : ℕ
  pub source : before.nodes f ≡ some (regular bytes mode)
  pub digest_right : r.digest ≡ digest_of H bytes
  pub size_right : r.size ≡ length bytes
  pub stored : HasBlob H s r.digest r.size after

source_size-ok :
    (n : Node) (os : Os) (want : ℕ)
    → (source_size n os).0 ≡ ok want
    → (b : Bytes) × (mode : ℕ) × (n ≡ regular b mode) × ((source_size n os).1 ≡ os)
source_size-ok (regular b mode) os want h = (b, mode, refl, refl)
source_size-ok directory os want h = cc
source_size-ok special os want h = cc
source_size-ok (symlink q) os want h = cc

no_hook_runs : (o : Option (Os → Os)) (os : Os) → o ≡ none → run_hook o os ≡ (ok tt, os)
no_hook_runs none os h = refl
no_hook_runs (some hook) os h = cc

write_opened-IsFileReceipt :
    (H : Sha256) (s : Store) (f : FilePath) (want : ℕ) (os : Os) (b : Bytes) (mode : ℕ)
    (r : Receipt)
    → SyncKeeps s
    → s.after_stat ≡ none
    → os.nodes f ≡ some (regular b mode)
    → (write_opened H s f want os).0 ≡ ok r
    → IsFileReceipt H s f os r (write_opened H s f want os).1
unfolding write_opened
write_opened-IsFileReceipt H s f want os b mode r sync_keeps no_hook there h =
    let (reads, read) = file_reads f os in
    let check = λ (size : ℕ). reject_if (not (size == want)) (size_mismatch want size) in
    let check_keeps = λ (n : ℕ) (t : Os).
      reject_if_keeps (λ v. v.nodes ≡ t.nodes) (not (n == want)) (size_mismatch want n) t refl in
    let run = no_hook_runs s.after_stat os no_hook in
    let got = through_temp-IsReceipt H s sync_keeps reads check check_keeps read r (rw run at h) in
    let e : bytes_of reads ≡ b =
      reads_of-unbroken (answer os) (content_of (os.nodes f)) got.whole ∙ ap content_of there in
    rw run (record {
      bytes = b;
      mode = mode;
      source = there;
      digest_right = got.digest_right ∙ ap (digest_of H) e;
      size_right = got.size_right ∙ ap length e;
      stored = got.stored;
    })

-- If `WriteFile` succeeds on a store whose sync changes no file, with the hook of the tests not set, the path led to a regular file, the receipt has the digest and the size of
-- the bytes that this file had, and a file with this digest and size stands at the path of the blob.
pub write_file-IsFileReceipt :
    (H : Sha256) (s : Store) (path : FilePath) (os : Os) (r : Receipt)
    → SyncKeeps s
    → s.after_stat ≡ none
    → (write_file H s path os).0 ≡ ok r
    → (f : FilePath) × ((open_file path os).0 ≡ ok f)
      × IsFileReceipt H s f os r (write_file H s path os).1
unfolding write_file
write_file-IsFileReceipt H s path os r sync_keeps no_hook h =
    let t = (open_file path os).1 in
    let (f, opened, run) = bind_ok (sys (open_file path)) _ os h in
    let (info, stat, run2) = bind_ok (sys (fstat f)) _ t (subst (λ x. x.0 ≡ ok r) run h) in
    let (found, drew) = fstat_ok f t info (sys-ok (fstat f t).0 info stat) in
    let u = (fstat f t).1 in
    let (want, sized, run3) =
      bind_ok (source_size info) (write_opened H s f) u (subst (λ x. x.0 ≡ ok r) (run ∙ run2) h) in
    let (b, mode, file, same) = source_size-ok info u want sized in
    let v = (source_size info u).1 in
    let there_t : t.nodes f ≡ some (regular b mode) = found ∙ ap some file in
    let there_v : v.nodes f ≡ some (regular b mode) = ap (λ x. x.nodes f) (same ∙ drew) ∙ there_t in
    let got =
      write_opened-IsFileReceipt H s f want v b mode r sync_keeps no_hook there_v
        (subst (λ x. x.0 ≡ ok r) (run ∙ run2 ∙ run3) h) in
    let source : os.nodes f ≡ v.nodes f =
      ap (λ g. g f) (sym (open_file-nodes path os)) ∙ there_t ∙ sym there_v in
    (
      f,
      sys-ok (open_file path os).0 f opened,
      subst (λ x. IsFileReceipt H s f os r x.1) (sym (run ∙ run2 ∙ run3))
          (record {
            bytes = got.bytes;
            mode = got.mode;
            source = source ∙ got.source;
            digest_right = got.digest_right;
            size_right = got.size_right;
            stored = got.stored;
          }),
    )
