-- ===== src/Cas/Read/Saved.antt =====
-- What it means that `GetToFile` succeeds.
use duro_ledger.Base.{
  ℕ, ◌≡◌, refl, ap, sym, subst, ◌∙◌, Bool-cases, inl, inr, false, Option, none, some, [], Bytes,
  str, beq, beq_iff, Result, ok, err,
}
use mathlib.Core.Bool.{not}
use duro_ledger.Base.Action.{◌>>=◌, ◌>>◌, reject_if}
use duro_ledger.Base.Action.Keeps.{bind_ok, require_ok}
use duro_ledger.Os.Path.{FilePath, parent, path_eq, path_eq_iff, path_eq_refl}
use duro_ledger.Os.State.{
  Errno, exist, not_exist, not_directory, too_many_links, short_write, other, Node, regular, Os,
  update, answer, drawn,
}
use duro_ledger.Os.Calls.{lstat, create_temp, link}
use duro_ledger.Os.Calls.Frame.{lstat-nodes, LinkEffect, link-LinkEffect, remove_frame}
use duro_ledger.Os.Calls.Temp.{create_temp-TempEffect}
use duro_ledger.Os.Stream.{file_reads, content_of}
use duro_ledger.Os.Stream.Transfer.{bytes_of, reads_of-unbroken}
use duro_ledger.Cas.Identity.{Sha256, digest_of}
use duro_ledger.Cas.Types.{Store, blob_path, Io, sys, corrupt, content_digest}
use duro_ledger.Cas.Sync.{sync_path}
use duro_ledger.Cas.Read.{
  Counted, get, require_absent, link_new, link_result, get_through_temp, get_to_file, then_remove,
}
use duro_ledger.Cas.Read.Open.{get-IsFound}
use duro_ledger.Cas.Read.Frame.{get-nodes}
use duro_ledger.Cas.Write.{fill_temp}
use duro_ledger.Cas.Write.Effect.{sync_path-nodes}
use duro_ledger.Cas.Write.Fill.{SyncKeeps, fill_temp_frame, fill_temp-IsFilled}
use duro_ledger.Cas.Write.Changes.{temp_done}
use duro_ledger.Cas.Write.Stored.{sys-ok}

-- The destination was free, and is a copy of the blob now.
pub record IsSaved (H : Sha256) (s : Store) (digest : Bytes) (dest : FilePath) (before after : Os)
    : Type 0 where
  pub bytes : Bytes
  pub blob_mode : ℕ
  pub mode : ℕ
  pub blob : before.nodes (blob_path s digest) ≡ some (regular bytes blob_mode)
  pub digest_right : digest_of H bytes ≡ digest
  pub free : before.nodes dest ≡ none
  pub saved : after.nodes dest ≡ some (regular bytes mode)

link_result-ok : (r : Result Errno (Unit {0})) (u : Unit {0}) → link_result r ≡ ok u → r ≡ ok u
link_result-ok (ok x) u h = refl
link_result-ok (err exist) u h = cc
link_result-ok (err not_exist) u h = cc
link_result-ok (err not_directory) u h = cc
link_result-ok (err too_many_links) u h = cc
link_result-ok (err short_write) u h = cc
link_result-ok (err (other n)) u h = cc

-- Where one path holds a node and another does not, they differ.
apart_of :
    (f : FilePath → Option Node) (p q : FilePath) (n : Node)
    → f p ≡ some n
    → f q ≡ none
    → path_eq p q ≡ false
apart_of f p q n here free = elim (Bool-cases (path_eq p q)) [
  | inr apart ↦ apart
  | inl same ↦ (let e = ap f ((path_eq_iff p q).0 same) in cc)
]

apart_rev :
    (f : FilePath → Option Node) (p q : FilePath) (n : Node)
    → f q ≡ some n
    → f p ≡ none
    → path_eq p q ≡ false
apart_rev f p q n here free = elim (Bool-cases (path_eq p q)) [
  | inr apart ↦ apart
  | inl same ↦ (let e = ap f ((path_eq_iff p q).0 same) in cc)
]

linked_to :
    (f g : FilePath → Option Node) (dest : FilePath) (n : Node)
    → g ≡ update f dest (some n)
    → g dest ≡ some n
linked_to f g dest n h = ap (λ k. k dest) h ∙ rw path_eq_refl refl

module _ (H : Sha256) (s : Store) (digest : Bytes) (dest : FilePath)
    (sync_keeps : SyncKeeps s) where
  -- What `get_through_temp` has done from `t` on.
  record Through (f tmp : FilePath) (t end : Os) : Type 0 where
    bytes : Bytes
    mode : ℕ
    content : bytes ≡ content_of (t.nodes f)
    right : digest_of H bytes ≡ digest
    apart : path_eq tmp dest ≡ false
    free : t.nodes dest ≡ none
    saved : end.nodes dest ≡ some (regular bytes mode)

  abbrev publish_rest : FilePath → Counted → Io (Unit {0})
  publish_rest tmp counted = do
    reject_if (not (beq counted.1 digest)) (corrupt content_digest)
    link_new tmp dest
    sync_path s (parent dest)

  -- From the test of the digest on: the link is made.
  publish_rest-ok :
      (tmp : FilePath) (counted : Counted) (b : Bytes) (mode : ℕ) (u : Os)
      → u.nodes tmp ≡ some (regular b mode)
      → (publish_rest tmp counted u).0 ≡ ok tt
      → (counted.1 ≡ digest)
        × (u.nodes dest ≡ none)
        × ((publish_rest tmp counted u).1.nodes dest ≡ some (regular b mode))
  publish_rest-ok tmp counted b mode u there h =
      let (right, run) = require_ok (beq counted.1 digest) (corrupt content_digest) _ u h in
      let h1 = subst (λ x. x.0 ≡ ok tt) run h in
      let (x, linked, run2) = bind_ok (link_new tmp dest) (λ _. sync_path s (parent dest)) u h1 in
      let l = link tmp dest u in
      let effect =
        subst (λ r. LinkEffect tmp dest (drawn u) r l.1) (link_result-ok l.0 x linked)
          (link-LinkEffect tmp dest u) in
      let (n, from, free, nodes) = effect in
      let same : n ≡ regular b mode = (let e = sym from ∙ there in cc) in
      (
        (beq_iff counted.1 digest).0 right,
        free,
        ap (λ z. z.1.nodes dest) (run ∙ run2)
            ∙ ap (λ k. k dest) (sync_path-nodes H s sync_keeps (parent dest) l.1)
            ∙ linked_to _ _ dest n nodes
            ∙ ap some same,
      )

  get_through_temp-Through :
      (f tmp : FilePath) (t : Os)
      → t.nodes tmp ≡ some (regular [] 384)
      → (get_through_temp H s digest dest f tmp t).0 ≡ ok tt
      → Through f tmp t (get_through_temp H s digest dest f tmp t).1
  unfolding get_through_temp fill_temp
  get_through_temp-Through f tmp t empty h =
      let reads = file_reads f t in
      let (counted, filled, run) =
        bind_ok (λ v. fill_temp H s (file_reads f v).0 tmp (file_reads f v).1) (publish_rest tmp) t
          h in
      let u = (fill_temp H s reads.0 tmp reads.1).1 in
      let full = fill_temp-IsFilled H s sync_keeps reads.0 tmp reads.1 counted empty filled in
      let (right, free, saved) =
        publish_rest-ok tmp counted (bytes_of reads.0) full.content.0 u full.content.1
          (subst (λ x. x.0 ≡ ok tt) run h) in
      let apart = apart_of u.nodes tmp dest _ full.content.1 free in
      record {
        bytes = bytes_of reads.0;
        mode = full.content.0;
        content = reads_of-unbroken (answer t) (content_of (t.nodes f)) full.whole;
        right = sym full.digest ∙ right;
        apart = apart;
        free = sym (fill_temp_frame H s sync_keeps reads.0 tmp dest reads.1 apart) ∙ free;
        saved = ap (λ z. z.1.nodes dest) run ∙ saved;
      }

  -- From the temporary file on, with the blob open as `f`.
  temp-IsSaved :
      (f : FilePath) (b : Bytes) (blob_mode : ℕ) (t : Os)
      → t.nodes f ≡ some (regular b blob_mode)
      → let body = (do
        tmp ← sys (create_temp (parent dest) (str "duro-get-"))
        then_remove tmp (get_through_temp H s digest dest f tmp)) in
        (body t).0 ≡ ok tt
        → (mode : ℕ) × (digest_of H b ≡ digest)
          × (t.nodes dest ≡ none)
          × ((body t).1.nodes dest ≡ some (regular b mode))
  temp-IsSaved f b blob_mode t there h =
      let (tmp, named, run) =
        bind_ok (sys (create_temp (parent dest) (str "duro-get-")))
          (λ p. then_remove p (get_through_temp H s digest dest f p)) t h in
      let made = create_temp (parent dest) (str "duro-get-") t in
      let (name, place, free, nodes) =
        temp_done (parent dest) (str "duro-get-") t made.0 made.1 tmp (sys-ok made.0 tmp named)
          (create_temp-TempEffect (parent dest) (str "duro-get-") t) in
      let got =
        get_through_temp-Through f tmp made.1 (ap (λ k. k tmp) nodes ∙ rw path_eq_refl refl)
          (subst (λ x. x.0 ≡ ok tt) run h) in
      let last = (get_through_temp H s digest dest f tmp made.1).1 in
      let other : path_eq tmp f ≡ false = apart_rev t.nodes tmp f _ there free in
      let source : made.1.nodes f ≡ some (regular b blob_mode) =
        ap (λ k. k f) nodes ∙ rw other there in
      let bytes : got.bytes ≡ b = got.content ∙ ap content_of source in
      (
        got.mode,
        ap (digest_of H) (sym bytes) ∙ got.right,
        sym (ap (λ k. k dest) nodes ∙ rw got.apart refl) ∙ got.free,
        ap (λ z. z.1.nodes dest) run
            ∙ remove_frame tmp dest last got.apart
            ∙ got.saved
            ∙ ap (λ c. some (regular c got.mode)) bytes,
      )

  -- If `GetToFile` succeeds, on a store whose sync changes no file, the destination was free and now
  -- holds a file with exactly the bytes of the blob, which have the digest asked for.
  pub get_to_file-IsSaved :
      (os : Os)
      → (get_to_file H s digest dest os).0 ≡ ok tt
      → IsSaved H s digest dest os (get_to_file H s digest dest os).1
  unfolding get_to_file
  get_to_file-IsSaved os h =
      let (x, absent, run) = bind_ok (require_absent dest) _ os h in
      let t = (lstat dest os).1 in
      let h1 = subst (λ z. z.0 ≡ ok tt) run h in
      let same_t : t.nodes ≡ os.nodes = lstat-nodes dest os in
      let (f, opened, run2) = bind_ok (get s digest) _ t h1 in
      let u = (get s digest t).1 in
      let same_u : u.nodes ≡ os.nodes = get-nodes s digest t ∙ same_t in
      let got = get-IsFound s digest t f opened in
      let blob = ap (λ k. k (blob_path s digest)) (sym same_t) ∙ got.there in
      let there = ap (λ k. k f) same_u ∙ ap os.nodes got.place ∙ blob in
      let (mode, right, free, saved) =
        temp-IsSaved f got.bytes got.mode u there (subst (λ z. z.0 ≡ ok tt) run2 h1) in
      record {
        bytes = got.bytes;
        blob_mode = got.mode;
        mode = mode;
        blob = blob;
        digest_right = right;
        free = ap (λ k. k dest) (sym same_u) ∙ free;
        saved = ap (λ z. z.1.nodes dest) (run ∙ run2) ∙ saved;
      }
