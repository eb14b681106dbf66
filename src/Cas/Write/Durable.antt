-- ===== src/Cas/Write/Durable.antt =====
-- What was synced when `publish` succeeds.
use duro_ledger.Base.{
  ℕ, Option, ◌≡◌, ap, sym, subst, ◌∙◌, Bool, Bool-cases, inl, inr, some, List, [], ◌∷◌, ◌++◌,
  append_assoc, if◌then◌else◌, Bytes, ok,
}
use duro_ledger.Base.Action.{pure}
use duro_ledger.Base.Action.Keeps.{bind_ok}
use duro_ledger.Os.Path.{FilePath, parent}
use duro_ledger.Os.State.{Node, Os}
use duro_ledger.Os.Calls.{fsync, open_file, mkdir_all, link, follow, max_links}
use duro_ledger.Os.Calls.Frame.{fsync-nodes, open_file-nodes}
use duro_ledger.Os.Calls.Success.{open_file-follow, fsync_ok}
use duro_ledger.Cas.Identity.{Sha256}
use duro_ledger.Cas.Types.{Store, opened_store, blob_path, sys}
use duro_ledger.Cas.Sync.{is_stop, sync_path, sync_chain}
use duro_ledger.Cas.Write.{linked, make_durable, publish, publish_case}
use duro_ledger.Cas.Write.Stored.{sys-ok}

-- The path resolves to one that was synced.
abbrev pub IsSynced : Os → FilePath → Type 0
IsSynced os p =
    (f : FilePath) × (n : Node) × (follow max_links os.nodes p ≡ ok (f, n))
    × (later earlier : List FilePath) × (os.synced ≡ later ++ (f ∷ earlier))

abbrev pub AllSynced : Os → List FilePath → Type 0
AllSynced os [] = Unit {0}
AllSynced os (p ∷ ps) = IsSynced os p × AllSynced os ps

-- A directory and those above it, up to a given one or to `/`.
abbrev pub dirs_to : Option FilePath → FilePath → List FilePath
dirs_to stop [] = [] ∷ []
dirs_to stop (name ∷ dir) =
    (name ∷ dir) ∷ (let rest = dirs_to stop dir in if is_stop stop (name ∷ dir) then [] else rest)

abbrev pub dirs_up_to : FilePath → FilePath → List FilePath
dirs_up_to stop = dirs_to (some stop)

-- More was synced, and no file has changed.
abbrev pub Syncs : Os → Os → Type 0
Syncs s t = (t.nodes ≡ s.nodes) × ((more : List FilePath) × (t.synced ≡ more ++ s.synced))

pub Syncs-IsSynced : (s t : Os) (p : FilePath) → Syncs s t → IsSynced s p → IsSynced t p
Syncs-IsSynced s t p (same, (more, grown)) (f, n, found, later, earlier, h) = (
  f,
  n,
  rw same found,
  more ++ later,
  earlier,
  grown ∙ rw h (sym (append_assoc more later (f ∷ earlier))),
)

Syncs-trans : (s t u : Os) → Syncs s t → Syncs t u → Syncs s u
Syncs-trans s t u (same, (more, grown)) (same', (more', grown')) =
    (same' ∙ same, (more' ++ more, grown' ∙ rw grown (sym (append_assoc more' more s.synced))))

module _ (root : FilePath) where
  abbrev store : Store
  store = opened_store root

  sync_path-IsSynced :
      (p : FilePath) (s : Os)
      → (sync_path store p s).0 ≡ ok tt
      → Syncs s (sync_path store p s).1 × IsSynced (sync_path store p s).1 p
  unfolding sync_path
  sync_path-IsSynced p s h =
      let (f, opened, run) = bind_ok (sys (open_file p)) _ s h in
      let ((n, found), drew) = open_file-follow p f s (sys-ok (open_file p s).0 f opened) in
      let u = (open_file p s).1 in
      let t = (fsync f u).1 in
      let synced = fsync_ok f u tt (sys-ok (fsync f u).0 tt (subst (λ x. x.0 ≡ ok tt) run h)) in
      let same : t.nodes ≡ s.nodes = fsync-nodes f u ∙ open_file-nodes p s in
      let grown : t.synced ≡ f ∷ s.synced = synced ∙ ap (λ x. f ∷ x.synced) drew in
      subst (λ x. Syncs s x.1 × IsSynced x.1 p) (sym run)
        ((same, (f ∷ [], grown)), (f, n, rw same found, [], s.synced, grown))

  pub sync_chain-AllSynced :
      (stop : Option FilePath) (dir : FilePath) (s : Os)
      → (sync_chain store dir stop s).0 ≡ ok tt
      → Syncs s (sync_chain store dir stop s).1
        × AllSynced (sync_chain store dir stop s).1 (dirs_to stop dir)
  unfolding sync_chain
  sync_chain-AllSynced stop [] s h =
      let (grown, synced) = sync_path-IsSynced [] s h in (grown, (synced, tt))
  sync_chain-AllSynced stop (name ∷ dir) s h =
      let here = name ∷ dir in
      let (u, first, run) = bind_ok (sync_path store here) _ s h in
      let t = (sync_path store here s).1 in
      let (grown, synced) = sync_path-IsSynced here s first in
      elim (Bool-cases (is_stop stop here)) [
        | inl last ↦
            let ended : sync_chain store here stop s ≡ (ok tt, t) =
              run ∙ ap (λ b. (if b then pure tt else sync_chain store dir stop) t) last in
            let only : dirs_to stop here ≡ here ∷ [] =
              ap (λ b. here ∷ (if b then [] else dirs_to stop dir)) last in
            subst (λ x. Syncs s x.1 × AllSynced x.1 (dirs_to stop here)) (sym ended)
              (grown, subst (λ l. AllSynced t l) (sym only) (synced, tt))
        | inr more ↦
            let goes_on : sync_chain store here stop s ≡ sync_chain store dir stop t =
              run ∙ ap (λ b. (if b then pure tt else sync_chain store dir stop) t) more in
            let all_dirs : dirs_to stop here ≡ here ∷ dirs_to stop dir =
              ap (λ b. here ∷ (if b then [] else dirs_to stop dir)) more in
            let (grown', all) =
              sync_chain-AllSynced stop dir t (subst (λ x. x.0 ≡ ok tt) goes_on h) in
            let end = (sync_chain store dir stop t).1 in
            subst (λ x. Syncs s x.1 × AllSynced x.1 (dirs_to stop here)) (sym goes_on)
              (
                Syncs-trans s t end grown grown',
                subst (λ l. AllSynced end l) (sym all_dirs)
                    (Syncs-IsSynced t end here grown' synced, all),
              )
      ]

  make_durable-AllSynced :
      (digest : Bytes) (deduped result : Bool) (s : Os)
      → (make_durable store digest deduped s).0 ≡ ok result
      → AllSynced
          (make_durable store digest deduped s).1
          (blob_path store digest ∷ dirs_up_to root (parent (blob_path store digest)))
  unfolding make_durable
  make_durable-AllSynced digest deduped result s h =
      let final = blob_path store digest in
      let (u, first, run) = bind_ok (sync_path store final) _ s h in
      let t = (sync_path store final s).1 in
      let (grown, synced) = sync_path-IsSynced final s first in
      let (v, rest, run2) =
        bind_ok (sync_chain store (parent final) (some root)) (λ _. pure deduped) t
          (subst (λ x. x.0 ≡ ok result) run h) in
      let end = (sync_chain store (parent final) (some root) t).1 in
      let (grown', all) = sync_chain-AllSynced (some root) (parent final) t rest in
      subst (λ x. AllSynced x.1 (final ∷ dirs_up_to root (parent final))) (sym (run ∙ run2))
        (Syncs-IsSynced t end final grown' synced, all)

  -- On a store as `Open` makes it, whenever `publish` succeeds, for bytes that were fresh or there
  -- already, the path of the blob and every directory above it up to the root resolve to one that
  -- was synced.
  pub publish-AllSynced :
      (H : Sha256) (tmp : FilePath) (digest : Bytes) (size : ℕ) (s : Os) (deduped : Bool)
      → (publish H store tmp digest size s).0 ≡ ok deduped
      → AllSynced
          (publish H store tmp digest size s).1
          (blob_path store digest ∷ dirs_up_to root (parent (blob_path store digest)))
  unfolding publish
  publish-AllSynced H tmp digest size s deduped h =
      let final = blob_path store digest in
      let (u, made, run) = bind_ok (sys (mkdir_all (parent final))) _ s h in
      let t = (mkdir_all (parent final) s).1 in
      let l = link tmp final t in
      let (d, published, run2) =
        bind_ok (publish_case H store digest size (linked l.0)) (make_durable store digest) l.1
          (subst (λ x. x.0 ≡ ok deduped) run h) in
      let v = (publish_case H store digest size (linked l.0) l.1).1 in
      let last = subst (λ x. x.0 ≡ ok deduped) (run ∙ run2) h in
      subst (λ x. AllSynced x.1 (final ∷ dirs_up_to root (parent final))) (sym (run ∙ run2))
        (make_durable-AllSynced digest d deduped v last)
