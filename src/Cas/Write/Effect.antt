-- ===== src/Cas/Write/Effect.antt =====
-- What `publish` can change, whichever calls fail.
use duro_ledger.Base.{
  ℕ, ◌≡◌, inl, inr, refl, ap, sym, subst, ◌∙◌, Bool, true, Option, none, some, [], ◌∷◌, Bytes,
  Result, ok, err, Bool-cases,
}
use duro_ledger.Base.Int.{pos}
use duro_ledger.Base.Action.{pure}
use duro_ledger.Base.Action.Keeps.{bind_keeps}
use duro_ledger.Os.Path.{FilePath, path_eq, path_eq_iff, path_eq_refl, parent}
use duro_ledger.Os.State.{
  Errno, exist, not_exist, not_directory, too_many_links, short_write, other, Node, regular,
  directory, Os, update,
}
use duro_ledger.Os.Calls.{open_file, link, mkdir_all, chmod}
use duro_ledger.Os.Calls.Frame.{
  open_file-nodes, Made, mkdir_all-Made, LinkEffect, link-LinkEffect, chmod_frame, chmod_content,
}
use duro_ledger.Cas.Identity.{Sha256}
use duro_ledger.Cas.Types.{Store, blob_path, sys}
use duro_ledger.Cas.Read.{verify}
use duro_ledger.Cas.Read.Frame.{verify-nodes}
use duro_ledger.Cas.Sync.{is_stop, sync_path, sync_chain}
use duro_ledger.Cas.Write.Fill.{SyncKeeps}
use duro_ledger.Cas.Write.{linked, taken, make_durable, publish, publish_case}

-- A path that is free after `MkdirAll` was free before.
Made-free : (before after : Option Node) → Made before after → after ≡ none → before ≡ none
Made-free before after (inl e) h = sym e ∙ h
Made-free before after (inr (free, dir)) h = free

-- A node that was there before `MkdirAll` is there after it.
pub Made-some :
    (before after : Option Node) (n : Node) → Made before after → before ≡ some n → after ≡ some n
Made-some before after n (inl e) h = e ∙ h
Made-some before after n (inr (free, dir)) h = cc

-- How one path may change when a temporary file with the bytes `b` is published at `final`: not at
-- all, from free to a directory, or, `final` alone, from free to a file with these bytes.
pub data Published (final : FilePath) (b : Bytes) (before : Option Node) (q : FilePath)
    (after : Option Node) : Type 0 where
  same : after ≡ before → Published final b before q after
  made : before ≡ none → after ≡ some directory → Published final b before q after
  stored :
      before ≡ none
      → q ≡ final
      → (mode : ℕ) → after ≡ some (regular b mode)
      → Published final b before q after

module _ (H : Sha256) (s : Store) (sync_keeps : SyncKeeps s) where
  pub sync_path-nodes : (p : FilePath) (os : Os) → (sync_path s p os).1.nodes ≡ os.nodes
  unfolding sync_path
  sync_path-nodes p os =
      bind_keeps (λ t. t.nodes ≡ os.nodes) (sys (open_file p)) _ os (open_file-nodes p os)
        λ f h. sync_keeps f _ ∙ h

  sync_chain-nodes :
      (p : FilePath) (stop_at : Option FilePath) (os : Os)
      → (sync_chain s p stop_at os).1.nodes ≡ os.nodes
  unfolding sync_chain
  sync_chain-nodes [] stop_at os = sync_path-nodes [] os
  sync_chain-nodes (name ∷ p) stop_at os =
      bind_keeps (λ t. t.nodes ≡ os.nodes) (sync_path s (name ∷ p)) _ os
        (sync_path-nodes (name ∷ p) os)
        λ u h. elim (Bool-cases (is_stop stop_at (name ∷ p))) [
          | inl stop ↦ rw stop h
          | inr more ↦ rw more (sync_chain-nodes p stop_at _ ∙ h)
        ]

  pub make_durable-nodes :
      (digest : Bytes) (deduped : Bool) (os : Os)
      → (make_durable s digest deduped os).1.nodes ≡ os.nodes
  unfolding make_durable
  make_durable-nodes digest deduped os =
      let P = λ (t : Os). t.nodes ≡ os.nodes in
      bind_keeps P (sync_path s (blob_path s digest)) _ os (sync_path-nodes _ os) λ _ h.
        bind_keeps P (sync_chain s (parent (blob_path s digest)) (some s.root)) (λ _. pure deduped)
          _ (sync_chain-nodes _ _ _ ∙ h) λ _ k. k

  module _ (digest b : Bytes) (size mode : ℕ) (tmp : FilePath) where
    abbrev pub final : FilePath
    final = blob_path s digest

    abbrev pub Changes : Os → Os → Type 0
    Changes t u = (q : FilePath) → Published final b (t.nodes q) q (u.nodes q)

    Made-Published :
        (before after : Option Node) (q : FilePath)
        → Made before after
        → Published final b before q after
    Made-Published before after q (inl e) = same e
    Made-Published before after q (inr (free, dir)) = made free dir

    -- A fresh link and the `Chmod` behind it.
    fresh-Changes :
        (t t1 t2 : Os) (n : Node)
        → ((q : FilePath) → Made (t.nodes q) (t1.nodes q))
        → t1.nodes final ≡ none
        → t2.nodes ≡ update t1.nodes final (some n)
        → n ≡ regular b mode
        → Changes t (chmod final 292 t2).1
    fresh-Changes t t1 t2 n dirs free linked_nodes content q = elim (Bool-cases (path_eq final q)) [
      | inl here ↦
          let e = (path_eq_iff final q).0 here in
          let (new, changed) =
            chmod_content final 292 t2 b
              (mode, ap (λ f. f final) linked_nodes ∙ rw (path_eq_refl final, content)) in
          subst (λ x. Published final b (t.nodes x) x ((chmod final 292 t2).1.nodes x)) e
            (stored (Made-free _ _ (dirs final) free) refl new changed)
      | inr there ↦
          let kept : (chmod final 292 t2).1.nodes q ≡ t1.nodes q =
            chmod_frame final q 292 t2 there ∙ ap (λ f. f q) linked_nodes ∙ rw there in
          rw kept (Made-Published _ _ q (dirs q))
    ]

    same_nodes-Changes :
        (t t1 u : Os)
        → ((q : FilePath) → Made (t.nodes q) (t1.nodes q))
        → u.nodes ≡ t1.nodes
        → Changes t u
    same_nodes-Changes t t1 u dirs e q = rw e (Made-Published _ _ q (dirs q))

    -- The `switch` of `publish`.
    publish_case-Changes :
        (t t1 t2 : Os) (r : Result Errno (Unit {0}))
        → ((q : FilePath) → Made (t.nodes q) (t1.nodes q))
        → t.nodes tmp ≡ some (regular b mode)
        → LinkEffect tmp final t1 r t2
        → Changes t (publish_case H s digest size (linked r) t2).1
    unfolding publish_case
    publish_case-Changes t t1 t2 (ok u) dirs there (n, from, free, linked_nodes) =
        fresh-Changes t t1 t2 n dirs free linked_nodes
          (let e = Made-some _ _ _ (dirs tmp) there in cc)
    publish_case-Changes t t1 t2 (err exist) dirs there e =
        same_nodes-Changes t t1 (publish_case H s digest size taken t2).1 dirs (
          bind_keeps (λ u. u.nodes ≡ t1.nodes) (verify H s digest (pos size)) (λ _. pure true) t2
            (verify-nodes H s digest (pos size) t2 ∙ e) (λ _ k. k))
    publish_case-Changes t t1 t2 (err not_exist) dirs there e = same_nodes-Changes t t1 t2 dirs e
    publish_case-Changes t t1 t2 (err not_directory) dirs there e =
        same_nodes-Changes t t1 t2 dirs e
    publish_case-Changes t t1 t2 (err too_many_links) dirs there e =
        same_nodes-Changes t t1 t2 dirs e
    publish_case-Changes t t1 t2 (err short_write) dirs there e = same_nodes-Changes t t1 t2 dirs e
    publish_case-Changes t t1 t2 (err (other n)) dirs there e = same_nodes-Changes t t1 t2 dirs e

    -- Syncing adds no change.
    synced-Changes : (t u v : Os) → v.nodes ≡ u.nodes → Changes t u → Changes t v
    synced-Changes t u v e h q = rw e (h q)

    pub publish-Changes :
        (t : Os) → t.nodes tmp ≡ some (regular b mode) → Changes t (publish H s tmp digest size t).1
    unfolding publish
    publish-Changes t there =
        let made = mkdir_all (parent final) t in
        let dirs = λ (q : FilePath). mkdir_all-Made (parent final) q t in
        bind_keeps (Changes t) (sys (mkdir_all (parent final))) _ t
          (same_nodes-Changes t made.1 made.1 dirs refl)
          λ u h.
            let l = link tmp final made.1 in
            bind_keeps (Changes t) (publish_case H s digest size (linked l.0)) _ l.1
              (publish_case-Changes t made.1 l.1 l.0 dirs there (link-LinkEffect tmp final made.1))
              λ deduped k.
                synced-Changes t (publish_case H s digest size (linked l.0) l.1).1
                  (make_durable s digest deduped
                    (publish_case H s digest size (linked l.0) l.1).1).1
                  (make_durable-nodes digest deduped _) k
