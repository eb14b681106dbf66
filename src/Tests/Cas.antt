-- ===== src/Tests/Cas.antt =====
-- The theorems on the content-addressed store at a concrete file system.
use duro_ledger.Base.{
  ap, ◌∙◌, beq, false, [], ℕ, ◌≡◌, ◌≤◌, ◌↔◌, refl, arith, true, some, [], ◌∷◌, ◌++◌, Bytes, str,
  length, all, ok,
}
use duro_ledger.Base.Int.{pos}
use duro_ledger.Os.Path.{parent, FilePath, path_eq}
use duro_ledger.Os.State.{Node, regular, Os}
use duro_ledger.Os.Stream.{sink, discard}
use duro_ledger.Os.Stream.Transfer.{bytes_of, unbroken, Holds}
use duro_ledger.Cas.Identity.{
  is_lower_hex, valid_digest, parse_identity, format_identity, digest_of, encode_to_string,
}
use duro_ledger.Cas.Identity.Forms.{valid_digest_iff, parse_identity_iff}
use duro_ledger.Cas.Types.{blob_path, opened_store}
use duro_ledger.Cas.Types.Paths.{blob_path-injective}
use duro_ledger.Cas.Copy.{max_int64, hashing_copy}
use duro_ledger.Cas.Copy.Bounds.{hashing_copy-bounds}
use duro_ledger.Cas.Read.Live.{get_to_writer-delivers}
use duro_ledger.Cas.Write.Fetch.{write-get_to_writer}
use duro_ledger.Cas.Open.{open_dir}
use duro_ledger.Cas.Open.Ready.{IsReady, open_dir-IsReady}
use duro_ledger.Cas.Read.Saved.{IsSaved, get_to_file-IsSaved}
use duro_ledger.Tests.OpenRuns.{open_top_runs, copy, get_to_file_runs}
use duro_ledger.Cas.Copy.Success.{hashing_copy-ok, hashing_copy_discard}
use duro_ledger.Cas.Read.{get_to_writer, get_to_file}
use duro_ledger.Cas.Read.Found.{IsVerified, verify-IsVerified, get_to_writer-ok}
use duro_ledger.Cas.Read.Deliver.{Delivered, get_to_file-Delivered}
use duro_ledger.Cas.Write.{publish, write, write_file}
use duro_ledger.Cas.Write.Changes.{Changed, write-Changed, write_file-Changed}
use duro_ledger.Cas.Write.Safety.{IsIntact, write-IsIntact, write_file-IsIntact}
use duro_ledger.Cas.Write.Receipts.{IsReceipt, write-IsReceipt}
use duro_ledger.Tests.Store.{checksum, top_store, top_store-SyncKeeps, new_os, new_os-IsIntact}
use duro_ledger.Os.Calls.{open_file}
use duro_ledger.Cas.Write.Source.{IsFileReceipt, write_file-IsFileReceipt}
use duro_ledger.Cas.Write.Durable.{AllSynced, dirs_up_to, publish-AllSynced}
use duro_ledger.Tests.Runs.{
  publish_runs, path_runs, tmp, filled_os, write_file_runs, hello, hello_digest, hello_receipt,
  hello_path, write_runs, hello_copied, stored, hello_valid, verify_runs, get_to_writer_runs,
}

write-IsReceipt_example :
    IsReceipt checksum top_store hello hello_receipt (write checksum top_store hello new_os).1
write-IsReceipt_example =
    write-IsReceipt checksum top_store hello new_os hello_receipt top_store-SyncKeeps write_runs

verify-IsVerified_example : IsVerified checksum top_store hello_digest (pos 5) stored
verify-IsVerified_example =
    verify-IsVerified checksum top_store hello_digest (pos 5) stored verify_runs

get_to_writer-ok_example :
    (b : Bytes) × (mode : ℕ) × (stored.nodes (blob_path top_store hello_digest)
      ≡ some (regular b mode))
    × (digest_of checksum b ≡ hello_digest)
    × ((get_to_writer checksum top_store hello_digest sink stored).1.out ≡ stored.out ++ b)
get_to_writer-ok_example =
    get_to_writer-ok checksum top_store hello_digest stored get_to_writer_runs

get_to_file-Delivered_example :
    let dest = str "out" ∷ [] in
    let done = get_to_file checksum top_store hello_digest dest stored in
    Delivered checksum hello_digest dest done.0 (stored.nodes dest) dest (done.1.nodes dest)
get_to_file-Delivered_example =
    get_to_file-Delivered checksum top_store hello_digest (str "out" ∷ []) top_store-SyncKeeps
      (str "out" ∷ []) stored

write-Changed_example :
    Changed checksum top_store
      (new_os.nodes hello_path)
      hello_path
      ((write checksum top_store hello new_os).1.nodes hello_path)
write-Changed_example = write-Changed checksum top_store top_store-SyncKeeps hello hello_path new_os

write_file-Changed_example :
    Changed checksum top_store
      (new_os.nodes hello_path)
      hello_path
      ((write_file checksum top_store (str "in" ∷ []) new_os).1.nodes hello_path)
write_file-Changed_example =
    write_file-Changed checksum top_store top_store-SyncKeeps (str "in" ∷ []) hello_path new_os refl

write-IsIntact_example :
    IsIntact checksum top_store (write checksum top_store hello new_os).1
    × ((q : FilePath) (n : Node)
        → new_os.nodes q ≡ some n
        → (write checksum top_store hello new_os).1.nodes q ≡ some n)
write-IsIntact_example =
    write-IsIntact checksum top_store hello new_os top_store-SyncKeeps new_os-IsIntact

write_file-IsIntact_example :
    IsIntact checksum top_store (write_file checksum top_store (str "in" ∷ []) new_os).1
    × ((q : FilePath) (n : Node)
        → new_os.nodes q ≡ some n
        → (write_file checksum top_store (str "in" ∷ []) new_os).1.nodes q ≡ some n)
write_file-IsIntact_example =
    write_file-IsIntact checksum top_store (str "in" ∷ []) new_os top_store-SyncKeeps refl
      new_os-IsIntact

valid_digest_iff_example :
    (valid_digest hello_digest ≡ true)
    ↔ ((length hello_digest ≡ 64) × (all is_lower_hex hello_digest ≡ true))
valid_digest_iff_example = valid_digest_iff hello_digest

parse_identity_iff_example :
    (parse_identity (str "sha256:14") ≡ some (str "14"))
    ↔ ((str "sha256:14" ≡ format_identity (str "14")) × (valid_digest (str "14") ≡ true))
parse_identity_iff_example = parse_identity_iff (str "sha256:14") (str "14")

blob_path-injective_example : hello_digest ≡ hello_digest
blob_path-injective_example =
    blob_path-injective top_store hello_digest hello_digest hello_valid hello_valid refl

hashing_copy-ok_example :
    (unbroken hello ≡ true)
    × (5 ≡ length (bytes_of hello))
    × (hello_digest ≡ digest_of checksum (bytes_of hello))
    × ((b : Bytes)
        → Holds sink b new_os
        → Holds sink (b ++ bytes_of hello) (hashing_copy checksum sink hello new_os).1)
hashing_copy-ok_example = hashing_copy-ok checksum sink hello new_os 5 hello_digest hello_copied

hashing_copy_discard_example :
    hashing_copy checksum discard hello new_os
    ≡ ((length (bytes_of hello), ok (digest_of checksum (bytes_of hello))), new_os)
hashing_copy_discard_example = hashing_copy_discard checksum hello new_os refl (omega arith)

write_file-IsFileReceipt_example :
    (f : FilePath) × ((open_file (str "in" ∷ []) new_os).0 ≡ ok f)
    × IsFileReceipt checksum top_store f new_os hello_receipt
        (write_file checksum top_store (str "in" ∷ []) new_os).1
write_file-IsFileReceipt_example =
    write_file-IsFileReceipt checksum top_store (str "in" ∷ []) new_os hello_receipt
      top_store-SyncKeeps refl write_file_runs

publish-AllSynced_example :
    AllSynced (publish checksum (opened_store []) tmp hello_digest 5 filled_os).1 (
      blob_path (opened_store []) hello_digest
      ∷ dirs_up_to [] (parent (blob_path (opened_store []) hello_digest)))
publish-AllSynced_example =
    publish-AllSynced [] checksum tmp hello_digest 5 filled_os false (ap (λ x. x.0) publish_runs)

open_dir-IsReady_example : IsReady stored top_store (open_dir (λ p. ok p) (str "/") stored).1
open_dir-IsReady_example =
    open_dir-IsReady (λ p. ok p) (str "/") stored top_store (ap (λ x. x.0) open_top_runs)

get_to_file-IsSaved_example :
    IsSaved checksum top_store hello_digest copy stored
      (get_to_file checksum top_store hello_digest copy stored).1
get_to_file-IsSaved_example =
    get_to_file-IsSaved checksum top_store hello_digest copy top_store-SyncKeeps stored
      get_to_file_runs

hashing_copy-bounds_example : (hashing_copy checksum sink hello new_os).0.0 ≤ max_int64
hashing_copy-bounds_example = hashing_copy-bounds checksum sink hello new_os refl

hello_there : stored.nodes (blob_path top_store hello_digest) ≡ some (regular (str "hello") 292)
unfolding path_eq beq
hello_there = ap stored.nodes path_runs ∙ refl

hello_sum : digest_of checksum (str "hello") ≡ hello_digest
unfolding digest_of encode_to_string
hello_sum = refl

abbrev later : Os
later = (write checksum top_store hello new_os).1

get_to_writer-delivers_example :
    ((get_to_writer checksum top_store hello_digest sink stored).0 ≡ ok tt)
    × ((get_to_writer checksum top_store hello_digest sink stored).1.out
        ≡ stored.out ++ str "hello")
get_to_writer-delivers_example =
    get_to_writer-delivers checksum top_store hello_digest (str "hello") 292 stored refl hello_valid
      hello_there hello_sum (omega arith)

-- What `write` has left, with no call that fails.
abbrev later_os : Os
later_os = record later { answers = [] }

write-get_to_writer_example :
    ((get_to_writer checksum top_store hello_digest sink later_os).0 ≡ ok tt)
    × (b : Bytes) × ((get_to_writer checksum top_store hello_digest sink later_os).1.out
        ≡ later_os.out ++ b)
    × (digest_of checksum b ≡ digest_of checksum (bytes_of hello))
    × (length b ≡ length (bytes_of hello))
write-get_to_writer_example =
    write-get_to_writer checksum top_store hello new_os later_os hello_receipt top_store-SyncKeeps
      write_runs (omega arith) refl refl
