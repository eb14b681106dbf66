-- ===== src/Cmd/Artifacts/Delivered.antt =====
-- What `duro artifact get` has delivered when it succeeds.
use duro_ledger.Base.{
  ◌≡◌, ◌||◌, refl, ap, ◌∙◌, inl, inr, Bool-cases, Option-cases, Option, none, some, List, [], ◌∷◌,
  ◌++◌, Bytes, str, is_empty, Result, ok, err,
}
use duro_ledger.Base.Action.{after_result, map_result}
use duro_ledger.Base.Action.Keeps.{bind_ok}
use duro_ledger.Go.Flag.{Settings, parse, parsed, value_of}
use duro_ledger.Os.State.{Os}
use duro_ledger.Cas.Identity.{parse_identity, digest_of}
use duro_ledger.Cas.Types.{CasError, Store, Io}
use duro_ledger.Cas.Open.{open_dir}
use duro_ledger.Cas.Open.Ready.{IsReady, open_dir-IsReady}
use duro_ledger.Cas.Open.Silent.{open_dir-Silent}
use duro_ledger.Cas.Read.Found.{get_to_writer-ok}
use duro_ledger.Cas.Read.Saved.{IsSaved, get_to_file-IsSaved}
use duro_ledger.Postgres.Server.{Server}
use duro_ledger.Artifact.{identified, get_to_file, get_to_writer}
use duro_ledger.Cmd.{
  storing, Environment, Process, with_os, on_files, encode_line, cas_root, flags_of,
}
use duro_ledger.Cmd.Output.{copied_json}
use duro_ledger.Cmd.Output.Printed.{encode_line-nodes}
use duro_ledger.Cmd.Artifacts.{
  artifact_get_flags, place_of, deliver, artifact_get_with, run_artifact_get,
}
use duro_ledger.Cmd.Artifacts.Settled.{opened_store-SyncKeeps}

module _ (S : Server) (env : Environment) where
  -- The bytes behind what the standard output had, or the copy at the path of `--out`, made from the
  -- files as `Open` left them, and the line that tells it.
  abbrev pub Fetched : Process S → Bytes → Bytes → Process S → Type 0
  Fetched p identity [] q =
      (digest : Bytes) × (b : Bytes) × (parse_identity identity ≡ some digest)
      × (digest_of env.hash b ≡ digest)
      × (q.stores.os.out ≡ p.stores.os.out ++ b)
  Fetched p identity (c ∷ out) q =
      (digest : Bytes) × (store : Store) × (start : Os) × (parse_identity identity ≡ some digest)
      × IsReady p.stores.os store start
      × IsSaved env.hash store digest (place_of env (c ∷ out)) start q.stores.os

  identified-ok :
      (o : Option Bytes) (f : Bytes → Io (Unit {0})) (s : Os)
      → (identified o f s).0 ≡ ok tt
      → (digest : Bytes) × (o ≡ some digest)
        × ((f digest s).0 ≡ ok tt)
        × (identified o f s ≡ f digest s)
  identified-ok none f s h = cc
  identified-ok (some digest) f s h = (digest, refl, h, refl)

  stored-ok : (r : Result CasError (Unit {0})) → map_result storing r ≡ ok tt → r ≡ ok tt
  stored-ok (ok u) h = refl
  stored-ok (err e) h = cc

  IsSaved-moved :
      (store : Store) (digest out : Bytes) (start t q : Os)
      → IsSaved env.hash store digest (place_of env out) start t
      → q.nodes ≡ t.nodes
      → IsSaved env.hash store digest (place_of env out) start q
  IsSaved-moved store digest out start t q h same = record {
    bytes = h.bytes;
    blob_mode = h.blob_mode;
    mode = h.mode;
    blob = h.blob;
    digest_right = h.digest_right;
    free = h.free;
    saved = ap (λ f. f (place_of env out)) same ∙ h.saved;
  }

  -- From the store on; `v` is the process then.
  deliver-Fetched :
      (p v : Process S) (store : Store) (identity out : Bytes)
      → IsReady p.stores.os store v.stores.os
      → v.stores.os.out ≡ p.stores.os.out
      → (deliver S env store identity out v).0 ≡ ok tt
      → Fetched p identity out (deliver S env store identity out v).1
  unfolding deliver get_to_writer get_to_file
  deliver-Fetched p v store identity [] ready same h =
      let (digest, found, done, run) =
        identified-ok (parse_identity identity) _ v.stores.os (stored-ok _ h) in
      let (b, mode, there, right, got) = get_to_writer-ok env.hash store digest v.stores.os done in
      (digest, b, found, right, ap (λ x. x.1.out) run ∙ got ∙ ap (λ o. o ++ b) same)
  deliver-Fetched p v store identity (c ∷ out) ready same h =
      let dest = place_of env (c ∷ out) in
      let line = copied_json identity (c ∷ out) in
      let (u, copied, run) =
        bind_ok (on_files S storing (get_to_file env.hash store identity dest))
          (λ u. encode_line S (some line)) v h in
      let (digest, found, done, run2) =
        identified-ok (parse_identity identity) _ v.stores.os (stored-ok _ copied) in
      let keeps = opened_store-SyncKeeps store ready.root ready.is_store in
      let got = get_to_file-IsSaved env.hash store digest dest keeps v.stores.os done in
      let t = (get_to_file env.hash store identity dest v.stores.os).1 in
      (
        digest,
        store,
        v.stores.os,
        found,
        ready,
        IsSaved-moved store digest (c ∷ out) v.stores.os _ _ got (
            ap (λ x. x.1.stores.os.nodes) run
            ∙ encode_line-nodes S (some line) (with_os S t v)
            ∙ ap (λ x. x.1.nodes) run2),
      )

  opened-Fetched :
      (p : Process S) (identity out : Bytes) (r : Result CasError Store) (os : Os)
      → ((s : Store) → r ≡ ok s → IsReady p.stores.os s os)
      → os.out ≡ p.stores.os.out
      → let done =
          after_result
            (λ store. deliver S env store identity out)
            (map_result storing r)
            (with_os S os p) in
        done.0 ≡ ok tt → Fetched p identity out done.1
  opened-Fetched p identity out (err e) os ready same h = cc
  opened-Fetched p identity out (ok store) os ready same h =
      deliver-Fetched p (with_os S os p) store identity out (ready store refl) same h

  artifact_get_with-Fetched :
      (root identity out : Bytes) (p : Process S)
      → (artifact_get_with S env root identity out p).0 ≡ ok tt
      → Fetched p identity out (artifact_get_with S env root identity out p).1
  unfolding artifact_get_with
  artifact_get_with-Fetched root identity out p h =
      elim (Bool-cases (is_empty root || is_empty identity)) [
        | inl missing ↦ (let k = rw missing at h in cc)
        | inr given ↦ elim (Option-cases (parse_identity identity)) [
          | inl bad ↦ (let k = rw (given, bad) at h in cc)
          | inr (digest, good) ↦
              let opened = open_dir env.host.abs root p.stores.os in
              rw (given, good)
                (opened-Fetched p identity out opened.0 opened.1
                  (λ s e. open_dir-IsReady env.host.abs root p.stores.os s e)
                  (open_dir-Silent env.host.abs root p.stores.os) (rw (given, good) at h))
        ]
      ]

  -- If `duro artifact get`, with flags that parse, succeeds, its identity is well formed. Without
  -- `--out` the standard output has got exactly bytes with the digest asked for, behind what it had.
  -- With `--out`, on a store that `Open` made ready, its path was free and holds exactly the bytes
  -- of the blob, which have the digest asked for.
  pub run_artifact_get-Fetched :
      (args : List Bytes) (flags : Settings) (p : Process S)
      → parse artifact_get_flags args ≡ parsed flags []
      → (run_artifact_get S env args p).0 ≡ ok tt
      → Fetched p
          (value_of (str "sha256") flags)
          (value_of (str "out") flags)
          (run_artifact_get S env args p).1
  unfolding run_artifact_get flags_of
  run_artifact_get-Fetched args flags p h k = rw h (
      artifact_get_with-Fetched (cas_root env (value_of (str "root") flags))
        (value_of (str "sha256") flags) (value_of (str "out") flags) p (rw h at k))
