-- ===== src/Cas/Open/Ready.antt =====
-- What `Open` has done when it returns a store.
use mathlib.Core.List.{reverse}
use duro_ledger.Base.{
  ◌≡◌, Option, str, ap, sym, subst, ◌∙◌, inl, none, List, [], ◌∷◌, Bytes, Result, ok, err,
}
use duro_ledger.Base.Action.{pure}
use duro_ledger.Base.Action.Keeps.{bind_ok}
use duro_ledger.Os.Path.{FilePath, join}
use duro_ledger.Os.State.{Errno, Node, Os}
use duro_ledger.Os.Calls.Frame.{Made, Made-trans}
use duro_ledger.Os.Resolve.Leads.{Leads, Leads-parent, Leads-canonical}
use duro_ledger.Os.Resolve.Arrives.{Leads-Made, mkdir_all_real-Leads, eval_symlinks-place}
use duro_ledger.Os.Resolve.{mkdir_all_real, eval_symlinks}
use duro_ledger.Os.Resolve.Real.{
  IsReal, eval_symlinks-IsReal, eval_symlinks-nodes, mkdir_all_real-Made,
}
use duro_ledger.Cas.Types.{Store, opened_store, sys}
use duro_ledger.Cas.Sync.{sync_chain}
use duro_ledger.Cas.Open.{blob_dir, scratch_dir, sync_dirs, open_at, absolute_root, open_dir}
use duro_ledger.Cas.Write.Durable.{AllSynced, dirs_to, Syncs, Syncs-IsSynced, sync_chain-AllSynced}
use duro_ledger.Cas.Write.Stored.{sys-ok}

-- A store at a root with no link in its path, both of whose directories are there and resolve to
-- synced ones, as do all directories above them up to `/`; and whatever was there is there unchanged.
pub record IsReady (before : Os) (s : Store) (after : Os) : Type 0 where
  pub root : FilePath
  pub is_store : s ≡ opened_store root
  pub real : IsReal after.nodes root
  pub blobs : (g : FilePath) × Leads after.nodes g [] (reverse (blob_dir root))
  pub scratch : (g : FilePath) × Leads after.nodes g [] (reverse (scratch_dir root))
  pub blobs_synced : AllSynced after (dirs_to none (blob_dir root))
  pub scratch_synced : AllSynced after (dirs_to none (scratch_dir root))
  pub made : (q : FilePath) → Made (before.nodes q) (after.nodes q)

Syncs-AllSynced :
    (s t : Os) (dirs : List FilePath) → Syncs s t → AllSynced s dirs → AllSynced t dirs
Syncs-AllSynced s t [] h all = tt
Syncs-AllSynced s t (p ∷ dirs) h (here, all) =
    (Syncs-IsSynced s t p h here, Syncs-AllSynced s t dirs h all)

sync_dirs-AllSynced :
    (root : FilePath) (s : Os)
    → (sync_dirs root s).0 ≡ ok tt
    → ((sync_dirs root s).1.nodes ≡ s.nodes)
      × AllSynced (sync_dirs root s).1 (dirs_to none (blob_dir root))
      × AllSynced (sync_dirs root s).1 (dirs_to none (scratch_dir root))
unfolding sync_dirs
sync_dirs-AllSynced root s h =
    let store = opened_store root in
    let (u, first, run) = bind_ok (sync_chain store (blob_dir root) none) _ s h in
    let t = (sync_chain store (blob_dir root) none s).1 in
    let (same, synced) = sync_chain-AllSynced root none (blob_dir root) s first in
    let second = subst (λ x. x.0 ≡ ok tt) run h in
    let (same', synced') = sync_chain-AllSynced root none (scratch_dir root) t second in
    subst
      (λ x.
        (x.1.nodes ≡ s.nodes)
        × AllSynced x.1 (dirs_to none (blob_dir root))
        × AllSynced x.1 (dirs_to none (scratch_dir root)))
      (sym run)
      (
        same'.0 ∙ same.0,
        Syncs-AllSynced t (sync_chain store (scratch_dir root) none t).1
            (dirs_to none (blob_dir root)) same' synced,
        synced',
      )

Made-same : (s t : Os) → t.nodes ≡ s.nodes → (q : FilePath) → Made (s.nodes q) (t.nodes q)
Made-same s t h q = inl (ap (λ f. f q) h)

-- The two directories that were made below the path given are there below its canonical form.
child-Leads :
    (f : FilePath → Option Node) (root canonical e g : FilePath) (name : Bytes)
    → canonical ≡ e
    → Leads f e [] (reverse root)
    → Leads f g [] (reverse (name ∷ root))
    → Leads f g [] (reverse (name ∷ canonical))
child-Leads f root canonical e g name same way child =
    subst (λ c. Leads f g [] (reverse (name ∷ c))) (sym same)
      (Leads-canonical f root e g name way child)

open_at-IsReady :
    (root : FilePath) (before : Os) (s : Store)
    → (open_at root before).0 ≡ ok s
    → IsReady before s (open_at root before).1
unfolding open_at
open_at-IsReady root before s h =
    let (u, m1, run) = bind_ok (sys (mkdir_all_real (blob_dir root))) _ before h in
    let t1 = (mkdir_all_real (blob_dir root) before).1 in
    let h1 = subst (λ x. x.0 ≡ ok s) run h in
    let (u', m2, run2) = bind_ok (sys (mkdir_all_real (scratch_dir root))) _ t1 h1 in
    let t2 = (mkdir_all_real (scratch_dir root) t1).1 in
    let h2 = subst (λ x. x.0 ≡ ok s) run2 h1 in
    let (canonical, found, run3) = bind_ok (sys (eval_symlinks root)) _ t2 h2 in
    let t3 = (eval_symlinks root t2).1 in
    let h3 = subst (λ x. x.0 ≡ ok s) run3 h2 in
    let (u'', synced, run4) =
      bind_ok (sync_dirs canonical) (λ _. pure (opened_store canonical)) t3 h3 in
    let t4 = (sync_dirs canonical t3).1 in
    let h4 = subst (λ x. x.0 ≡ ok s) run4 h3 in
    let (same, blobs, scratch) = sync_dirs-AllSynced canonical t3 synced in
    let real =
      eval_symlinks-IsReal root canonical t2 (sys-ok (eval_symlinks root t2).0 canonical found) in
    let nodes : t4.nodes ≡ t2.nodes = same ∙ eval_symlinks-nodes root t2 in
    let (g1, blobs1) = mkdir_all_real-Leads (blob_dir root) before (sys-ok _ tt m1) in
    let blobs2 =
      Leads-Made t1.nodes t2.nodes g1 [] (reverse (blob_dir root))
        (λ q. mkdir_all_real-Made (scratch_dir root) q t1) blobs1 in
    let (g2, scratch2) = mkdir_all_real-Leads (scratch_dir root) t1 (sys-ok _ tt m2) in
    let (e, way) = Leads-parent t2.nodes root g2 (str ".tmp") scratch2 in
    let place = eval_symlinks-place e root canonical t2 (sys-ok _ canonical found) way in
    let is_store : s ≡ opened_store canonical = cc in
    subst (λ x. IsReady before s x.1) (sym (run ∙ run2 ∙ run3 ∙ run4))
      (record {
        root = canonical;
        is_store = is_store;
        real = subst (λ f. IsReal f canonical) (sym nodes) real;
        blobs = (
          g1,
          subst (λ f. Leads f g1 [] (reverse (blob_dir canonical))) (sym nodes)
              (child-Leads t2.nodes root canonical e g1 (str "sha256") place way blobs2),
        );
        scratch = (
          g2,
          subst (λ f. Leads f g2 [] (reverse (scratch_dir canonical))) (sym nodes)
              (child-Leads t2.nodes root canonical e g2 (str ".tmp") place way scratch2),
        );
        blobs_synced = blobs;
        scratch_synced = scratch;
        made = λ q.
            Made-trans (before.nodes q) (t1.nodes q) (t4.nodes q)
              (mkdir_all_real-Made (blob_dir root) q before)
              (Made-trans (t1.nodes q) (t2.nodes q) (t4.nodes q)
                (mkdir_all_real-Made (scratch_dir root) q t1) (Made-same t2 t4 nodes q));
      })

absolute_root-IsReady :
    (r : Result Errno Bytes) (before : Os) (s : Store)
    → (absolute_root r before).0 ≡ ok s
    → IsReady before s (absolute_root r before).1
absolute_root-IsReady (ok path) before s h = open_at-IsReady (join [] (path ∷ [])) before s h
absolute_root-IsReady (err e) before s h = cc

-- If `Open` returns a store, whatever calls fail, its root is a path with no symbolic link in it,
-- the names of its two directories lead to directories, those and every name above them up to `/`
-- resolve to what was synced, and the only change to the files is that directories were made at free paths.
pub open_dir-IsReady :
    (abs : Bytes → Result Errno Bytes) (dir : Bytes) (before : Os) (s : Store)
    → (open_dir abs dir before).0 ≡ ok s
    → IsReady before s (open_dir abs dir before).1
unfolding open_dir
open_dir-IsReady abs dir before s h = absolute_root-IsReady (abs dir) before s h
