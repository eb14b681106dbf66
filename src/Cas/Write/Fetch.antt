-- ===== src/Cas/Write/Fetch.antt =====
-- A `Write` and a later `GetToWriter`.
use duro_ledger.Base.{◌≡◌, ◌≤◌, sym, subst, ◌∙◌, true, List, ◌++◌, Bytes, length, ok}
use duro_ledger.Os.State.{Os}
use duro_ledger.Os.Stream.{Read, sink}
use duro_ledger.Os.Stream.Transfer.{bytes_of}
use duro_ledger.Cas.Identity.{Sha256, digest_of, valid_digest}
use duro_ledger.Cas.Identity.Forms.{digest_of-valid_digest}
use duro_ledger.Cas.Types.{Store, blob_path}
use duro_ledger.Cas.Copy.{max_int64}
use duro_ledger.Cas.Read.{get_to_writer}
use duro_ledger.Cas.Read.Live.{IsCalm, get_to_writer-delivers}
use duro_ledger.Cas.Write.{Receipt, write}
use duro_ledger.Cas.Write.Fill.{SyncKeeps}
use duro_ledger.Cas.Write.Receipts.{write-IsReceipt}

-- What was written is read back: if `Write` succeeded on a store whose sync changes no file, for at
-- most as many bytes as an int64 counts, then at any later state in which the blob is as `Write` left
-- it and no call fails, `GetToWriter` with the digest of the receipt succeeds, and delivers bytes
-- that have the digest and the length of those that were written.
pub write-get_to_writer :
    (H : Sha256) (s : Store) (reads : List Read) (os later : Os) (r : Receipt)
    → SyncKeeps s
    → (write H s reads os).0 ≡ ok r
    → length (bytes_of reads) ≤ max_int64
    → IsCalm later
    → later.nodes (blob_path s r.digest) ≡ (write H s reads os).1.nodes (blob_path s r.digest)
    → ((get_to_writer H s r.digest sink later).0 ≡ ok tt)
      × (b : Bytes) × ((get_to_writer H s r.digest sink later).1.out ≡ later.out ++ b)
      × (digest_of H b ≡ digest_of H (bytes_of reads))
      × (length b ≡ length (bytes_of reads))
write-get_to_writer H s reads os later r sync_keeps h fits calm kept =
    let got = write-IsReceipt H s reads os r sync_keeps h in
    let blob = got.stored in
    let size = blob.size_right ∙ got.size_right in
    let valid =
      subst (λ d. valid_digest d ≡ true) (sym got.digest_right)
        (digest_of-valid_digest H (bytes_of reads)) in
    let (delivered, out) =
      get_to_writer-delivers H s r.digest blob.bytes blob.mode later calm valid (kept ∙ blob.there)
        blob.digest_right (subst (λ n. n ≤ max_int64) (sym size) fits) in
    (delivered, blob.bytes, out, blob.digest_right ∙ got.digest_right, size)
