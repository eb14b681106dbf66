-- ===== src/Cmd/Artifacts/Settled.antt =====
-- What `duro artifact put` tells, against what it did.
use duro_ledger.Base.{
  ◌≡◌, ◌||◌, refl, ap, sym, subst, ◌∙◌, inl, inr, Bool-cases, Option, none, some, List, [], ◌∷◌,
  ◌++◌, Bytes, str, is_empty, Result, ok, err,
}
use duro_ledger.Base.Action.{◌>>=◌, ◌>>◌, after_result, map_result, then_do}
use duro_ledger.Go.Flag.{Settings, parse, parsed, value_of}
use duro_ledger.Os.Path.{FilePath}
use duro_ledger.Os.State.{Node, Os}
use duro_ledger.Os.Calls.Frame.{fsync-nodes}
use duro_ledger.Cas.Types.{CasError, Store, opened_store}
use duro_ledger.Cas.Open.{open_dir}
use duro_ledger.Cas.Open.Ready.{IsReady, open_dir-IsReady}
use duro_ledger.Cas.Write.Fill.{SyncKeeps}
use duro_ledger.Postgres.Types.{StoredEvent, DbError}
use duro_ledger.Postgres.Server.{Server}
use duro_ledger.Postgres.Ledger.{open_store, close_store}
use duro_ledger.Postgres.Ledger.Commits.{IsLedger}
use duro_ledger.Postgres.Ledger.Session.{IsSession, open_store_keeps}
use duro_ledger.Artifact.{
  PutError, PutResult, PutFailure, no_absolute_path, no_hostname, empty_hostname, not_utf8,
  not_stored, put_error, World, postgres_appender, put,
}
use duro_ledger.Artifact.Guards.{Accepted}
use duro_ledger.Artifact.Settled.{PutSettled, absolute, put-PutSettled}
use duro_ledger.Cmd.{
  CmdError, reported, not_json, output, opening, storing, putting, Notice, json_line, Environment,
  Process, with_os, with_db, on_db, encode_line, postgres_dsn, cas_root, flags_of,
}
use duro_ledger.Cmd.Output.{receipt_json, put_error_json}
use duro_ledger.Cmd.Output.Printed.{
  encode_line-ok, encode_line-ledger, encode_line-nodes, put_out-cases,
}
use duro_ledger.Cmd.Events.{close_db}
use duro_ledger.Cmd.Artifacts.{
  artifact_put_flags, report, put_and_print, artifact_put_with, run_artifact_put,
}

pub opened_store-SyncKeeps : (s : Store) (root : FilePath) → s ≡ opened_store root → SyncKeeps s
opened_store-SyncKeeps s root h = subst (λ x. SyncKeeps x) (sym h) (λ p os. fsync-nodes p os)

module _ (S : Server) (L : IsLedger S) (env : Environment) where
  open L use {appended}

  abbrev pub Stores : Type 0
  Stores = World (postgres_appender S)

  abbrev pub events_of : Stores → List StoredEvent
  events_of w = appended w.ledger

  -- `Put` was run with this result, on the store that `Open` returned and on a ledger that opening
  -- had left as it was; the last two arguments are the events and the files at the end.
  pub record Ran (before : Stores) (file : Bytes) (r : Result PutFailure PutResult)
      (after : List StoredEvent) (files : FilePath → Option Node) : Type 0 where
    pub store : Store
    pub start : Stores
    pub end : Stores
    pub ready : IsReady before.os store start.os
    pub no_event : events_of start ≡ events_of before
    pub accepted : Accepted (env.host.abs file) env.host.hostname r
    pub settled : PutSettled S L env.hash store (absolute (env.host.abs file)) start r end
    pub events_kept : after ≡ events_of end
    pub files_kept : files ≡ end.os.nodes

  -- The failures of `Put` in front of the append.
  abbrev pub IsEarly : PutFailure → Type 0
  IsEarly (put_error pe) = ⊥
  IsEarly _ = Unit {0}

  abbrev pub ErrorTold :
      Process S
      → Bytes
      → CmdError
      → List StoredEvent
      → (FilePath → Option Node)
      → List Notice
      → Type 0
  ErrorTold p file reported after files notices =
      (pe : PutError) × Ran p.stores file (err (put_error pe)) after files
      × (notices ≡ p.notices ++ (json_line (put_error_json pe (env.error_text pe.cause)) ∷ []))
  ErrorTold p file (putting e) after files notices =
      Ran p.stores file (err e) after files × IsEarly e × (notices ≡ p.notices)
  ErrorTold p file not_json after files notices =
      (result : PutResult) × Ran p.stores file (ok result) after files
  ErrorTold p file (output e) after files notices =
      (result : PutResult) × Ran p.stores file (ok result) after files
  ErrorTold p file _ after files notices = after ≡ events_of p.stores

  -- What `artifact put` says, by the events, the files, the standard output and the standard error
  -- at the end.
  abbrev pub ArtifactTold :
      Process S
      → Bytes
      → Result CmdError (Unit {0})
      → List StoredEvent
      → (FilePath → Option Node)
      → Bytes
      → List Notice
      → Type 0
  ArtifactTold p file (ok u) after files out notices =
      (result : PutResult) × (ran : Ran p.stores file (ok result) after files) × (line : Bytes)
      × (receipt_json result ≡ some line)
      × (out ≡ ran.end.os.out ++ (line ++ (b'\n' ∷ [])))
  ArtifactTold p file (err e) after files out notices = ErrorTold p file e after files notices

  abbrev Told : Process S → Bytes → Result CmdError (Unit {0}) × Process S → Type 0
  Told p file done =
      ArtifactTold p file done.0 (events_of done.1.stores) done.1.stores.os.nodes
        done.1.stores.os.out done.1.notices

  -- The receipt is printed behind the put; `v` is the process then.
  printed-Told :
      (p v : Process S) (file : Bytes) (result : PutResult) (o : Option Bytes)
      (ran : Ran p.stores file (ok result) (events_of v.stores) v.stores.os.nodes)
      → ran.end ≡ v.stores
      → receipt_json result ≡ o
      → Told p file (encode_line S o v)
  unfolding encode_line
  printed-Told p v file result none ran same h = (result, ran)
  printed-Told p v file result (some line) ran same h =
      let b = line ++ (b'\n' ∷ []) in
      let q = (encode_line S (some line) v).1 in
      let ran' : Ran p.stores file (ok result) (events_of q.stores) q.stores.os.nodes = record {
        store = ran.store;
        start = ran.start;
        end = ran.end;
        ready = ran.ready;
        no_event = ran.no_event;
        accepted = ran.accepted;
        settled = ran.settled;
        events_kept = ap appended (encode_line-ledger S (some line) v) ∙ ran.events_kept;
        files_kept = encode_line-nodes S (some line) v ∙ ran.files_kept;
      } in
      elim (put_out-cases S b v) [
        | inl done ↦ rw done (
          result,
          ran',
          line,
          h,
          encode_line-ok S line v tt done ∙ ap (λ w. w.os.out ++ b) (sym same),
        )
        | inr (e, failed) ↦ rw failed (result, ran')
      ]

  reported-Told :
      (p v : Process S) (file : Bytes) (r : Result PutFailure PutResult)
      (ran : Ran p.stores file r (events_of v.stores) v.stores.os.nodes)
      → ran.end ≡ v.stores
      → v.notices ≡ p.notices
      → Told p file ((report S env r >>= λ result. encode_line S (receipt_json result)) v)
  reported-Told p v file (ok result) ran same kept =
      printed-Told p v file result (receipt_json result) ran same refl
  reported-Told p v file (err (put_error pe)) ran same kept =
      (pe, ran, ap (λ l. l ++ (json_line (put_error_json pe (env.error_text pe.cause)) ∷ [])) kept)
  reported-Told p v file (err (no_absolute_path e)) ran same kept = (ran, tt, kept)
  reported-Told p v file (err (no_hostname e)) ran same kept = (ran, tt, kept)
  reported-Told p v file (err empty_hostname) ran same kept = (ran, tt, kept)
  reported-Told p v file (err (not_utf8 f)) ran same kept = (ran, tt, kept)
  reported-Told p v file (err (not_stored e)) ran same kept = (ran, tt, kept)

  -- From the opening of both stores on; `v` is the process then.
  put_and_print-Told :
      (p v : Process S) (store : Store) (file : Bytes)
      → IsReady p.stores.os store v.stores.os
      → events_of v.stores ≡ events_of p.stores
      → v.notices ≡ p.notices
      → Told p file (put_and_print S env store file v)
  unfolding put_and_print
  put_and_print-Told p v store file ready no_event kept =
      let done = put (postgres_appender S) env.hash store env.host file v.stores in
      let keeps = opened_store-SyncKeeps store ready.root ready.is_store in
      let no_hook : store.after_stat ≡ none = ap (λ x. x.after_stat) ready.is_store in
      let settled = put-PutSettled S L env.hash store env.host file v.stores keeps no_hook in
      reported-Told p (record v { stores = done.1 }) file done.0
        (record {
          store = store;
          start = v.stores;
          end = done.1;
          ready = ready;
          no_event = no_event;
          accepted = settled.0;
          settled = settled.1;
          events_kept = refl;
          files_kept = refl;
        })
        refl kept

  module _ (K : IsSession S L) where
    opened-Told :
        (p v : Process S) (store : Store) (file : Bytes) (r : Result DbError (Unit {0}))
        (t : S.State)
        → IsReady p.stores.os store v.stores.os
        → v.stores.ledger ≡ p.stores.ledger
        → v.notices ≡ p.notices
        → appended t ≡ events_of v.stores
        → Told p file (
            after_result
              (λ u. then_do (close_db S) (put_and_print S env store file))
              (map_result opening r)
              (with_db S t v))
    unfolding close_store
    opened-Told p v store file (err e) t ready same kept h = h ∙ ap appended same
    opened-Told p v store file (ok u) t ready same kept h =
        rw (K.close_keeps)
          (put_and_print-Told p (with_db S t v) store file ready (h ∙ ap appended same) kept)

    stored-Told :
        (dsn file : Bytes) (p : Process S) (r : Result CasError Store) (os : Os)
        → ((s : Store) → r ≡ ok s → IsReady p.stores.os s os)
        → Told p file (
            after_result
              (λ store.
                on_db S opening (open_store S dsn)
                >> then_do (close_db S) (put_and_print S env store file))
              (map_result storing r)
              (with_os S os p))
    stored-Told dsn file p (err e) os h = refl
    stored-Told dsn file p (ok store) os h =
        let opened = open_store S dsn p.stores.ledger in
        opened-Told p (with_os S os p) store file opened.0 opened.1 (h store refl) refl refl
          (open_store_keeps S L K dsn p.stores.ledger)

    artifact_put_with-Told :
        (dsn root file : Bytes) (p : Process S)
        → Told p file (artifact_put_with S env dsn root file p)
    unfolding artifact_put_with
    artifact_put_with-Told dsn root file p =
        elim (Bool-cases (is_empty dsn || (is_empty root || is_empty file))) [
          | inl missing ↦ rw missing refl
          | inr given ↦
              let opened = open_dir env.host.abs root p.stores.os in
              rw given (
                stored-Told dsn file p opened.0 opened.1
                  (λ s h. open_dir-IsReady env.host.abs root p.stores.os s h))
        ]

    -- Whatever a server answers that keeps to `IsLedger` and `IsSession`, and whatever calls and
    -- writes fail, `duro artifact put` with flags that parse tells what it did. It succeeds only if
    -- `Put` did, on a store that `Open` made ready, and the line with its receipt was written as a
    -- whole. If `Put` failed behind the storing, the command reports nothing else than the JSON of its
    -- `PutError` on the standard error, which says how the ledger stands; if it failed before, its
    -- error is returned and the standard error has nothing new. An error of the output stands for a
    -- `Put` that succeeded, and every other error for no event.
    pub run_artifact_put-Told :
        (args : List Bytes) (flags : Settings) (p : Process S)
        → parse artifact_put_flags args ≡ parsed flags []
        → let done = run_artifact_put S env args p in
          ArtifactTold p
            (value_of (str "file") flags)
            done.0
            (events_of done.1.stores)
            done.1.stores.os.nodes
            done.1.stores.os.out
            done.1.notices
    unfolding run_artifact_put flags_of
    run_artifact_put-Told args flags p h = rw h (
        artifact_put_with-Told (postgres_dsn env (value_of (str "postgres") flags))
          (cas_root env (value_of (str "root") flags)) (value_of (str "file") flags) p)
