-- ===== src/Cas/Read/Deliver.antt =====
-- What `GetToFile` does to the files, whichever calls fail.
use duro_ledger.Base.{
  ℕ, ◌≡◌, ◌≢◌, ◌⊎◌, ap, ◌∙◌, Bool-cases, inl, inr, Option, none, some, ◌∷◌, ◌++◌, Bytes, str,
  Result, ok, Result-cases,
}
use duro_ledger.Os.Path.{FilePath, parent, path_eq, path_eq_iff}
use duro_ledger.Os.State.{Node, regular, Os}
use duro_ledger.Cas.Identity.{Sha256, digest_of}
use duro_ledger.Cas.Types.{CasError, Store}
use duro_ledger.Cas.Read.{get_to_file}
use duro_ledger.Cas.Read.Saved.{IsSaved, get_to_file-IsSaved}
use duro_ledger.Cas.Read.Touched.{
  Touched, same_node, made_temporary, linked_dest, get_to_file-Touched,
}
use duro_ledger.Cas.Write.Fill.{SyncKeeps}

-- How one path may have changed by `GetToFile`, by its result. A temporary file that could not be
-- removed is known by its name, and stands at the destination only if the call failed.
pub data Delivered (H : Sha256) (digest : Bytes) (dest : FilePath) (r : Result CasError (Unit {0}))
    (before : Option Node) (q : FilePath) (after : Option Node) : Type 0 where
  untouched : after ≡ before → Delivered H digest dest r before q after
  left_over :
      before ≡ none
      → (suffix : Bytes) → q ≡ (str "duro-get-" ++ suffix) ∷ parent dest
      → (q ≢ dest) ⊎ (r ≢ ok tt)
      → Delivered H digest dest r before q after
  delivered :
      before ≡ none
      → q ≡ dest
      → (b : Bytes) (mode : ℕ) → digest_of H b ≡ digest
      → after ≡ some (regular b mode)
      → Delivered H digest dest r before q after

module _ (H : Sha256) (s : Store) (digest : Bytes) (dest : FilePath)
    (sync_keeps : SyncKeeps s) where
  Touched-Delivered :
      (q : FilePath) (os t : Os) (r : Result CasError (Unit {0}))
      → (r ≡ ok tt → IsSaved H s digest dest os t)
      → Touched H digest dest (os.nodes q) q (t.nodes q)
      → Delivered H digest dest r (os.nodes q) q (t.nodes q)
  Touched-Delivered q os t r saved (same_node e) = untouched e
  Touched-Delivered q os t r saved (linked_dest free e b mode right there) =
      delivered free e b mode right there
  Touched-Delivered q os t r saved (made_temporary free suffix e) =
      elim (Bool-cases (path_eq q dest)) [
        | inr apart ↦
            left_over free suffix e (inl λ here. (let k = (path_eq_iff q dest).1 here in cc))
        | inl here ↦ elim (Result-cases r) [
          | inr (x, failed) ↦ left_over free suffix e (inr λ fine. cc)
          | inl (u, fine) ↦
              let same = (path_eq_iff q dest).0 here in
              let copy = saved fine in
              delivered free same copy.bytes copy.mode copy.digest_right
                (ap t.nodes same ∙ copy.saved)
        ]
      ]

  -- On a store whose sync changes no file, and whatever calls fail, `GetToFile` changes a path at
  -- most in one of two ways. A free path beside the destination whose name begins with "duro-get-" may
  -- be left to a temporary file, but not the destination itself if the call succeeded; and the
  -- destination may change from free to a file whose bytes have the digest asked for.
  pub get_to_file-Delivered :
      (q : FilePath) (os : Os)
      → let done = get_to_file H s digest dest os in
        Delivered H digest dest done.0 (os.nodes q) q (done.1.nodes q)
  get_to_file-Delivered q os =
      let done = get_to_file H s digest dest os in
      Touched-Delivered q os done.1 done.0
        (λ fine. get_to_file-IsSaved H s digest dest sync_keeps os fine)
        (get_to_file-Touched H s digest dest sync_keeps q os)
