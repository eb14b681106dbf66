-- ===== src/Cas/Write/Stored.antt =====
-- What it means that `publish` succeeds.
use duro_ledger.Base.{ℕ, ◌≡◌, ap, sym, subst, ◌∙◌, Bool, true, some, Bytes, length, Result, ok, err}
use duro_ledger.Base.Int.{pos}
use duro_ledger.Base.Action.{◌>>◌, pure, map_result}
use duro_ledger.Base.Action.Keeps.{bind_ok}
use duro_ledger.Os.Path.{FilePath, parent, path_eq_refl}
use duro_ledger.Os.State.{
  Errno, exist, not_exist, not_directory, too_many_links, short_write, other, Node, regular, Os,
  update,
}
use duro_ledger.Os.Calls.{link, mkdir_all, chmod}
use duro_ledger.Os.Calls.Frame.{mkdir_all-Made, LinkEffect, link-LinkEffect, chmod_content}
use duro_ledger.Cas.Identity.{Sha256, digest_of}
use duro_ledger.Cas.Types.{Store, blob_path, sys, system}
use duro_ledger.Cas.Read.{verify}
use duro_ledger.Cas.Read.Found.{verify-IsVerified}
use duro_ledger.Cas.Read.Frame.{verify-nodes}
use duro_ledger.Cas.Write.{linked, make_durable, publish, publish_case}
use duro_ledger.Cas.Write.Effect.{Made-some, make_durable-nodes}
use duro_ledger.Cas.Write.Fill.{SyncKeeps}

-- A file with this digest and size stands at the place of the blob.
pub record HasBlob (H : Sha256) (s : Store) (digest : Bytes) (size : ℕ) (os : Os) : Type 0 where
  pub bytes : Bytes
  pub mode : ℕ
  pub there : os.nodes (blob_path s digest) ≡ some (regular bytes mode)
  pub digest_right : digest_of H bytes ≡ digest
  pub size_right : length bytes ≡ size

pub HasBlob_same :
    (H : Sha256) (s : Store) (digest : Bytes) (size : ℕ) (t u : Os)
    → u.nodes (blob_path s digest) ≡ t.nodes (blob_path s digest)
    → HasBlob H s digest size t
    → HasBlob H s digest size u
HasBlob_same H s digest size t u e has_blob = record {
  bytes = has_blob.bytes;
  mode = has_blob.mode;
  there = e ∙ has_blob.there;
  digest_right = has_blob.digest_right;
  size_right = has_blob.size_right;
}

pub sys-ok : {A : Type 0} (r : Result Errno A) (a : A) → map_result system r ≡ ok a → r ≡ ok a
sys-ok (ok x) a h = cc
sys-ok (err e) a h = cc

pos-injective : (m n : ℕ) → pos m ≡ pos n → m ≡ n
pos-injective m n h = cc

module _ (H : Sha256) (s : Store) (digest b : Bytes) (size mode : ℕ) (tmp : FilePath)
    (digest_right : digest_of H b ≡ digest) (size_right : length b ≡ size) where
  abbrev Here : Os → Type 0
  Here = HasBlob H s digest size

  fresh-HasBlob :
      (t1 t2 : Os) (n : Node)
      → t2.nodes ≡ update t1.nodes (blob_path s digest) (some n)
      → n ≡ regular b mode
      → Here (chmod (blob_path s digest) 292 t2).1
  fresh-HasBlob t1 t2 n linked_nodes content =
      let final = blob_path s digest in
      let (new, changed) =
        chmod_content final 292 t2 b
          (mode, ap (λ f. f final) linked_nodes ∙ rw (path_eq_refl final, content)) in
      record {
        bytes = b;
        mode = new;
        there = changed;
        digest_right = digest_right;
        size_right = size_right;
      }

  taken-HasBlob :
      (t : Os) (deduped : Bool)
      → ((verify H s digest (pos size) >> pure true) t).0 ≡ ok deduped
      → Here ((verify H s digest (pos size) >> pure true) t).1
  taken-HasBlob t deduped h =
      let (u, verified, run) = bind_ok (verify H s digest (pos size)) (λ _. pure true) t h in
      let checked = verify-IsVerified H s digest (pos size) t verified in
      let found : Here t = record {
        bytes = checked.bytes;
        mode = checked.mode;
        there = checked.there;
        digest_right = checked.digest_right;
        size_right = sym (pos-injective _ _ checked.size_right);
      } in
      subst (λ x. Here x.1) (sym run)
        (HasBlob_same H s digest size t _
          (ap (λ f. f (blob_path s digest)) (verify-nodes H s digest (pos size) t)) found)

  publish_case-HasBlob :
      (t1 t2 : Os) (r : Result Errno (Unit {0})) (deduped : Bool)
      → t1.nodes tmp ≡ some (regular b mode)
      → LinkEffect tmp (blob_path s digest) t1 r t2
      → (publish_case H s digest size (linked r) t2).0 ≡ ok deduped
      → Here (publish_case H s digest size (linked r) t2).1
  unfolding publish_case
  publish_case-HasBlob t1 t2 (ok u) deduped there (n, from, free, linked_nodes) h =
      fresh-HasBlob t1 t2 n linked_nodes cc
  publish_case-HasBlob t1 t2 (err exist) deduped there e h = taken-HasBlob t2 deduped h
  publish_case-HasBlob t1 t2 (err not_exist) deduped there e h = cc
  publish_case-HasBlob t1 t2 (err not_directory) deduped there e h = cc
  publish_case-HasBlob t1 t2 (err too_many_links) deduped there e h = cc
  publish_case-HasBlob t1 t2 (err short_write) deduped there e h = cc
  publish_case-HasBlob t1 t2 (err (other n)) deduped there e h = cc

  pub publish-HasBlob :
      (t : Os) (deduped : Bool)
      → SyncKeeps s
      → t.nodes tmp ≡ some (regular b mode)
      → (publish H s tmp digest size t).0 ≡ ok deduped
      → Here (publish H s tmp digest size t).1
  unfolding publish
  publish-HasBlob t deduped sync_keeps there h =
      let final = blob_path s digest in
      let t1 = (mkdir_all (parent final) t).1 in
      let l = link tmp final t1 in
      let there1 = Made-some _ _ _ (mkdir_all-Made (parent final) tmp t) there in
      let (u, made, run) = bind_ok (sys (mkdir_all (parent final))) _ t h in
      let (d, published, run2) =
        bind_ok (publish_case H s digest size (linked l.0)) (make_durable s digest) l.1
          (subst (λ x. x.0 ≡ ok deduped) run h) in
      let case =
        publish_case-HasBlob t1 l.1 l.0 d there1 (link-LinkEffect tmp final t1) published in
      let after = (publish_case H s digest size (linked l.0) l.1).1 in
      subst (λ x. Here x.1) (sym (run ∙ run2))
        (HasBlob_same H s digest size after _
          (ap (λ f. f final) (make_durable-nodes H s sync_keeps digest d after)) case)
