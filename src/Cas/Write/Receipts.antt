-- ===== src/Cas/Write/Receipts.antt =====
-- What it means that `Write` succeeds.
use duro_ledger.Base.{
  ◌++◌, ℕ, ◌≡◌, refl, ap, sym, subst, ◌∙◌, Bool, true, some, List, [], str, length, ok,
}
use duro_ledger.Base.Action.{pure}
use duro_ledger.Base.Action.Keeps.{bind_ok}
use duro_ledger.Os.Path.{FilePath, path_eq_ne, path_eq_refl}
use duro_ledger.Os.State.{regular, Os}
use duro_ledger.Os.Calls.{create_temp}
use duro_ledger.Os.Calls.Frame.{remove_frame}
use duro_ledger.Os.Calls.Temp.{create_temp-TempEffect}
use duro_ledger.Os.Stream.{Read}
use duro_ledger.Os.Stream.Transfer.{bytes_of, unbroken}
use duro_ledger.Cas.Identity.{Sha256, digest_of, valid_digest}
use duro_ledger.Cas.Identity.Forms.{digest_of-valid_digest}
use duro_ledger.Cas.Types.{Store, blob_path, sys, Io}
use duro_ledger.Cas.Read.{Counted, then_remove}
use duro_ledger.Cas.Write.{
  temp_dir, fill_temp, publish, publish_checked, stage_and_publish, through_temp, write, Receipt,
}
use duro_ledger.Cas.Write.Fill.{SyncKeeps, IsFilled, fill_temp-IsFilled}
use duro_ledger.Cas.Write.Changes.{temp_done}
use duro_ledger.Cas.Write.Safety.{temp-apart}
use duro_ledger.Cas.Write.Stored.{HasBlob, HasBlob_same, publish-HasBlob, sys-ok}

-- A receipt for the bytes `b`, which the store holds.
pub record IsReceipt (H : Sha256) (s : Store) (reads : List Read) (r : Receipt) (os : Os)
    : Type 0 where
  pub whole : unbroken reads ≡ true
  pub digest_right : r.digest ≡ digest_of H (bytes_of reads)
  pub size_right : r.size ≡ length (bytes_of reads)
  pub stored : HasBlob H s r.digest r.size os

module _ (H : Sha256) (s : Store) (sync_keeps : SyncKeeps s) (reads : List Read)
    (check : ℕ → Io (Unit {0}))
    (check_keeps : (n : ℕ) (os : Os) → (check n os).1.nodes ≡ os.nodes) where
  publish_checked-IsReceipt :
      (tmp : FilePath) (u : Os) (counted : Counted) (r : Receipt)
      → IsFilled H reads tmp counted u
      → (publish_checked H s check tmp counted u).0 ≡ ok r
      → IsReceipt H s reads r (publish_checked H s check tmp counted u).1
  unfolding publish_checked
  publish_checked-IsReceipt tmp u counted r full h =
      let (size, digest) = counted in
      let (passed, checked, run) = bind_ok (check size) _ u h in
      let v = (check size u).1 in
      let there : v.nodes tmp ≡ some (regular (bytes_of reads) full.content.0) =
        ap (λ f. f tmp) (check_keeps size u) ∙ full.content.1 in
      let receipt : Bool → Receipt =
        λ deduped. record { digest = digest; size = size; deduped = deduped } in
      let (d, published, run2) =
        bind_ok (publish H s tmp digest size) (λ deduped. pure (receipt deduped)) v
          (subst (λ x. x.0 ≡ ok r) run h) in
      let blob =
        publish-HasBlob H s digest (bytes_of reads) size full.content.0 tmp (sym full.digest)
          (sym full.count) v d sync_keeps there published in
      let e : receipt d ≡ r = (let k = subst (λ x. x.0 ≡ ok r) (run ∙ run2) h in cc) in
      let made : IsReceipt H s reads (receipt d) (publish H s tmp digest size v).1 = record {
        whole = full.whole;
        digest_right = full.digest;
        size_right = full.count;
        stored = blob;
      } in
      subst (λ x. IsReceipt H s reads r x.1) (sym (run ∙ run2))
        (subst (λ x. IsReceipt H s reads x (publish H s tmp digest size v).1) e made)

  stage_and_publish-IsReceipt :
      (tmp : FilePath) (t : Os) (r : Receipt)
      → t.nodes tmp ≡ some (regular [] 384)
      → (stage_and_publish H s reads check tmp t).0 ≡ ok r
      → IsReceipt H s reads r (stage_and_publish H s reads check tmp t).1
  unfolding stage_and_publish
  stage_and_publish-IsReceipt tmp t r empty h =
      let (counted, filled, run) =
        bind_ok (fill_temp H s reads tmp) (publish_checked H s check tmp) t h in
      let full = fill_temp-IsFilled H s sync_keeps reads tmp t counted empty filled in
      subst (λ x. IsReceipt H s reads r x.1) (sym run)
        (publish_checked-IsReceipt tmp _ counted r full (subst (λ x. x.0 ≡ ok r) run h))

  pub through_temp-IsReceipt :
      (t : Os) (r : Receipt)
      → (through_temp H s reads check t).0 ≡ ok r
      → IsReceipt H s reads r (through_temp H s reads check t).1
  through_temp-IsReceipt t r h =
      let body = λ (tmp : FilePath). then_remove tmp (stage_and_publish H s reads check tmp) in
      let (tmp, made, run) = bind_ok (sys (create_temp (temp_dir s) (str "duro-put-"))) body t h in
      let temp = create_temp (temp_dir s) (str "duro-put-") t in
      let (name, place, free, nodes) =
        temp_done (temp_dir s) (str "duro-put-") t temp.0 temp.1 tmp (sys-ok temp.0 tmp made)
          (create_temp-TempEffect (temp_dir s) (str "duro-put-") t) in
      let empty = ap (λ f. f tmp) nodes ∙ rw path_eq_refl in
      let staged = stage_and_publish-IsReceipt tmp temp.1 r empty (subst (λ x. x.0 ≡ ok r) run h) in
      let last = (stage_and_publish H s reads check tmp temp.1).1 in
      let valid =
        subst (λ d. valid_digest d ≡ true) (sym staged.digest_right)
          (digest_of-valid_digest H (bytes_of reads)) in
      let apart =
        path_eq_ne tmp (blob_path s r.digest)
          (λ e. temp-apart s r.digest (str "duro-put-" ++ name) valid (sym e ∙ place)) in
      subst (λ x. IsReceipt H s reads r x.1) (sym run)
        (record {
          whole = staged.whole;
          digest_right = staged.digest_right;
          size_right = staged.size_right;
          stored =
              HasBlob_same H s r.digest r.size last _
                (remove_frame tmp (blob_path s r.digest) last apart) staged.stored;
        })

-- If `Write` succeeds on a store whose sync changes no file, the reader was read to its end, the receipt has the digest and the size of all
-- its bytes, and a file with this digest and size stands at the path of the blob.
pub write-IsReceipt :
    (H : Sha256) (s : Store) (reads : List Read) (os : Os) (r : Receipt)
    → SyncKeeps s
    → (write H s reads os).0 ≡ ok r
    → IsReceipt H s reads r (write H s reads os).1
unfolding write
write-IsReceipt H s reads os r sync_keeps =
    through_temp-IsReceipt H s sync_keeps reads (λ _. pure tt) (λ n t. refl) os r
