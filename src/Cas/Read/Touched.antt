-- ===== src/Cas/Read/Touched.antt =====
-- The paths that `GetToFile` may change, whichever calls fail.
use duro_ledger.Base.{
  ℕ, ◌≡◌, refl, ap, sym, subst, ◌∙◌, false, Bool-cases, inl, inr, Option, none, some, [], ◌∷◌, ◌++◌,
  Bytes, str, beq, beq_iff, Result, ok, err, Result-cases,
}
use mathlib.Core.Bool.{not}
use duro_ledger.Base.Action.{◌>>=◌, ◌>>◌, reject_if}
use duro_ledger.Base.Action.Keeps.{bind_keeps, bind_ok_keeps}
use duro_ledger.Os.Path.{FilePath, parent, path_eq, path_eq_iff, path_eq_refl}
use duro_ledger.Os.State.{Errno, Node, regular, Os}
use duro_ledger.Os.Calls.{lstat, create_temp, link}
use duro_ledger.Os.Calls.Frame.{lstat-nodes, LinkEffect, link-LinkEffect, remove_frame}
use duro_ledger.Os.Calls.Temp.{create_temp-TempEffect}
use duro_ledger.Os.Stream.{file_reads}
use duro_ledger.Os.Stream.Transfer.{bytes_of}
use duro_ledger.Cas.Identity.{Sha256, digest_of}
use duro_ledger.Cas.Types.{Store, Io, sys, corrupt, content_digest}
use duro_ledger.Cas.Sync.{sync_path}
use duro_ledger.Cas.Read.{
  Counted, get, require_absent, link_new, get_through_temp, get_to_file, then_remove,
}
use duro_ledger.Cas.Read.Frame.{get-nodes}
use duro_ledger.Cas.Write.{fill_temp}
use duro_ledger.Cas.Write.Effect.{sync_path-nodes}
use duro_ledger.Cas.Write.Fill.{SyncKeeps, fill_temp_frame, fill_temp-IsFilled}
use duro_ledger.Cas.Write.Changes.{temp_failed, temp_done}

-- How one path may have changed by `GetToFile`: a temporary file that could not be removed is known
-- by its name.
pub data Touched (H : Sha256) (digest : Bytes) (dest : FilePath) (before : Option Node)
    (q : FilePath) (after : Option Node) : Type 0 where
  same_node : after ≡ before → Touched H digest dest before q after
  made_temporary :
      before ≡ none
      → (suffix : Bytes) → q ≡ (str "duro-get-" ++ suffix) ∷ parent dest
      → Touched H digest dest before q after
  linked_dest :
      before ≡ none
      → q ≡ dest
      → (b : Bytes) (mode : ℕ) → digest_of H b ≡ digest
      → after ≡ some (regular b mode)
      → Touched H digest dest before q after

Touched-frame :
    (H : Sha256) (digest : Bytes) (dest q : FilePath) (a b c d : Option Node)
    → b ≡ a
    → d ≡ c
    → Touched H digest dest b q c
    → Touched H digest dest a q d
Touched-frame H digest dest q a b c d e f h = rw (sym e, f) h

module _ (H : Sha256) (s : Store) (digest : Bytes) (dest : FilePath)
    (sync_keeps : SyncKeeps s) where
  link-Touched :
      (tmp q : FilePath) (t u : Os) (r : Result Errno (Unit {0})) (b : Bytes) (mode : ℕ)
      → t.nodes tmp ≡ some (regular b mode)
      → digest_of H b ≡ digest
      → LinkEffect tmp dest t r u
      → Touched H digest dest (t.nodes q) q (u.nodes q)
  link-Touched tmp q t u (err e) b mode there right same = same_node (ap (λ f. f q) same)
  link-Touched tmp q t u (ok x) b mode there right (n, from, free, nodes) =
      elim (Bool-cases (path_eq dest q)) [
        | inl here ↦
            let e = (path_eq_iff dest q).0 here in
            let new : u.nodes q ≡ some n = ap (λ f. f q) nodes ∙ rw here refl in
            linked_dest (subst (λ x. t.nodes x ≡ none) e free) (sym e) b mode right
              (new ∙ sym from ∙ there)
        | inr apart ↦ same_node (ap (λ f. f q) nodes ∙ rw apart refl)
      ]

  -- From the test of the digest on.
  abbrev publish_get : FilePath → Counted → Io (Unit {0})
  publish_get tmp counted = do
    reject_if (not (beq counted.1 digest)) (corrupt content_digest)
    link_new tmp dest
    sync_path s (parent dest)

  publish_get-Touched :
      (tmp q : FilePath) (t : Os) (counted : Counted) (b : Bytes) (mode : ℕ)
      → t.nodes tmp ≡ some (regular b mode)
      → counted.1 ≡ digest_of H b
      → Touched H digest dest (t.nodes q) q ((publish_get tmp counted t).1.nodes q)
  publish_get-Touched tmp q t counted b mode there sum = elim (Bool-cases (beq counted.1 digest)) [
    | inr wrong ↦ rw wrong (same_node refl)
    | inl right ↦
        let P = λ (u : Os). Touched H digest dest (t.nodes q) q (u.nodes q) in
        let l = link tmp dest t in
        let e = sym sum ∙ (beq_iff counted.1 digest).0 right in
        let linked = link-Touched tmp q t l.1 l.0 b mode there e (link-LinkEffect tmp dest t) in
        rw right (
          bind_keeps P (link_new tmp dest) (λ _. sync_path s (parent dest)) t linked
            λ u _.
              Touched-frame H digest dest q (t.nodes q) (t.nodes q) (l.1.nodes q)
                ((sync_path s (parent dest) l.1).1.nodes q) refl
                (ap (λ f. f q) (sync_path-nodes H s sync_keeps (parent dest) l.1)) linked)
  ]

  get_through_temp-Touched :
      (f tmp q : FilePath) (t : Os)
      → t.nodes tmp ≡ some (regular [] 384)
      → path_eq tmp q ≡ false
      → Touched H digest dest (t.nodes q) q ((get_through_temp H s digest dest f tmp t).1.nodes q)
  unfolding get_through_temp fill_temp
  get_through_temp-Touched f tmp q t empty apart =
      let P = λ (u : Os). Touched H digest dest (t.nodes q) q (u.nodes q) in
      let reads = file_reads f t in
      let u = (fill_temp H s reads.0 tmp reads.1).1 in
      let frame : u.nodes q ≡ t.nodes q =
        fill_temp_frame H s sync_keeps reads.0 tmp q reads.1 apart in
      bind_ok_keeps P (λ v. fill_temp H s (file_reads f v).0 tmp (file_reads f v).1)
        (publish_get tmp) t (same_node frame)
        λ counted done.
          let full = fill_temp-IsFilled H s sync_keeps reads.0 tmp reads.1 counted empty done in
          Touched-frame H digest dest q (t.nodes q) (u.nodes q) _ _ frame refl (
            publish_get-Touched tmp q u counted (bytes_of reads.0) full.content.0 full.content.1
              full.digest)

  -- Behind `get`: the temporary file is made at a free path in the directory of the destination.
  temp-Touched :
      (f q : FilePath) (t : Os)
      → let body = (do
        tmp ← sys (create_temp (parent dest) (str "duro-get-"))
        then_remove tmp (get_through_temp H s digest dest f tmp)) in
        Touched H digest dest (t.nodes q) q ((body t).1.nodes q)
  temp-Touched f q t =
      let made = create_temp (parent dest) (str "duro-get-") t in
      let effect = create_temp-TempEffect (parent dest) (str "duro-get-") t in
      elim (Result-cases made.0) [
        | inr (e, failed) ↦ rw failed (
            same_node (
              ap (λ f. f q)
                (temp_failed (parent dest) (str "duro-get-") t made.0 made.1 e failed effect)))
        | inl (tmp, done) ↦
            let (name, place, free, nodes) =
              temp_done (parent dest) (str "duro-get-") t made.0 made.1 tmp done effect in
            rw done (elim (Bool-cases (path_eq tmp q)) [
              | inl here ↦
                  let e = (path_eq_iff tmp q).0 here in
                  made_temporary (subst (λ x. t.nodes x ≡ none) e free) name (sym e ∙ place)
              | inr apart ↦
                  let empty = ap (λ f. f tmp) nodes ∙ rw path_eq_refl in
                  let frame : made.1.nodes q ≡ t.nodes q = ap (λ f. f q) nodes ∙ rw apart in
                  let last = (get_through_temp H s digest dest f tmp made.1).1 in
                  Touched-frame H digest dest q (t.nodes q) (made.1.nodes q) (last.nodes q) _ frame
                    (remove_frame tmp q last apart)
                    (get_through_temp-Touched f tmp q made.1 empty apart)
            ])
      ]

  -- The change of each path, whatever the result.
  pub get_to_file-Touched :
      (q : FilePath) (os : Os)
      → Touched H digest dest (os.nodes q) q ((get_to_file H s digest dest os).1.nodes q)
  unfolding get_to_file
  get_to_file-Touched q os =
      let P = λ (u : Os). Touched H digest dest (os.nodes q) q (u.nodes q) in
      let t = (lstat dest os).1 in
      let same_t = ap (λ f. f q) (lstat-nodes dest os) in
      bind_keeps P (require_absent dest) _ os (same_node same_t) λ x _.
        let u = (get s digest t).1 in
        let same_u = ap (λ f. f q) (get-nodes s digest t) ∙ same_t in
        bind_keeps P (get s digest) _ t (same_node same_u) λ f _.
          Touched-frame H digest dest q (os.nodes q) (u.nodes q) _ _ same_u refl
            (temp-Touched f q u)
