-- ===== src/Cmd/Events/Fetched.antt =====
-- What `duro event get` tells, and what it leaves alone.
use duro_ledger.Base.{
  ◌≡◌, ◌||◌, refl, ap, sym, subst, ◌∙◌, inl, inr, Bool-cases, Option, none, some, List, [], ◌∷◌,
  ◌++◌, Bytes, str, is_empty, Result, ok, err,
}
use duro_ledger.Base.Action.{after_result, map_result, then_do}
use duro_ledger.Go.Flag.{Settings, parse, parsed, value_of}
use duro_ledger.Event.Id.{valid_id}
use duro_ledger.Postgres.Types.{StoredEvent, DbError}
use duro_ledger.Postgres.Server.{Server}
use duro_ledger.Postgres.Ledger.{get_event, open_store, close_store, select_failure}
use duro_ledger.Postgres.Ledger.Commits.{IsLedger}
use duro_ledger.Postgres.Ledger.Session.{IsSession, open_store_keeps}
use duro_ledger.Cmd.{
  CmdError, opening, getting, Environment, Process, with_db, encode_line, put_out, postgres_dsn,
  flags_of,
}
use duro_ledger.Cmd.Output.{event_json}
use duro_ledger.Cmd.Output.Printed.{
  encode_line-ok, encode_line-ledger, encode_line-nodes, put_out-cases,
}
use duro_ledger.Cmd.Events.{close_db, get_and_print, event_get_with, run_event_get, get_flags}

module _ (S : Server) (L : IsLedger S) where
  open L use {appended}

  -- The event that the server selected was printed.
  abbrev pub Printed : Bytes → Bytes → Result CmdError (Unit {0}) → Bytes → Type 0
  Printed id out (err e) out' = Unit {0}
  Printed id out (ok u) out' =
      (se : StoredEvent) × (t : S.State) × ((S.select_event id t).0 ≡ ok se)
      × (line : Bytes) × (event_json se ≡ some line)
      × (out' ≡ out ++ (line ++ (b'\n' ∷ [])))

  -- No event and no file has changed, and a success has printed.
  abbrev pub GetTold : Process S → Bytes → Result CmdError (Unit {0}) × Process S → Type 0
  GetTold p id done =
      (appended done.1.stores.ledger ≡ appended p.stores.ledger)
      × (done.1.stores.os.nodes ≡ p.stores.os.nodes)
      × Printed id p.stores.os.out done.0 done.1.stores.os.out

  -- The printing of a selected event; `v` is the process then.
  printed-GetTold :
      (p : Process S) (id : Bytes) (se : StoredEvent) (s t : S.State) (o : Option Bytes)
      → (S.select_event id s).0 ≡ ok se
      → appended t ≡ appended p.stores.ledger
      → event_json se ≡ o
      → GetTold p id (encode_line S o (with_db S t p))
  unfolding encode_line
  printed-GetTold p id se s t none selected same h = (same, refl, tt)
  printed-GetTold p id se s t (some line) selected same h =
      let v = with_db S t p in
      let b = line ++ (b'\n' ∷ []) in
      let events = ap appended (encode_line-ledger S (some line) v) ∙ same in
      let files = encode_line-nodes S (some line) v in
      elim (put_out-cases S b v) [
        | inl done ↦ (
          events,
          files,
          subst (λ r. Printed id p.stores.os.out r (put_out S b v).1.stores.os.out) (sym done)
              (se, s, selected, line, h, encode_line-ok S line v tt done),
        )
        | inr (e, failed) ↦ (
          events,
          files,
          subst (λ r. Printed id p.stores.os.out r (put_out S b v).1.stores.os.out) (sym failed) tt,
        )
      ]

  module _ (K : IsSession S L) where
    selected-GetTold :
        (p : Process S) (id : Bytes) (s t : S.State) (r : Result DbError StoredEvent)
        → (S.select_event id s).0 ≡ r
        → appended t ≡ appended p.stores.ledger
        → GetTold p id (
            after_result
              (λ se. encode_line S (event_json se))
              (map_result getting (map_result (select_failure S) r))
              (with_db S t p))
    selected-GetTold p id s t (ok se) selected same =
        printed-GetTold p id se s t (event_json se) selected same refl
    selected-GetTold p id s t (err e) selected same = (same, refl, tt)

    get_and_print-GetTold :
        (p : Process S) (id : Bytes) (t : S.State)
        → appended t ≡ appended p.stores.ledger
        → GetTold p id (get_and_print S id (with_db S t p))
    unfolding get_and_print get_event
    get_and_print-GetTold p id t same = elim (Bool-cases (valid_id id)) [
      | inr bad ↦ rw bad (same, refl, tt)
      | inl good ↦ rw good (
          selected-GetTold p id t (S.select_event id t).1 (S.select_event id t).0 refl
            (K.select_keeps id t ∙ same))
    ]

    opened-GetTold :
        (p : Process S) (id : Bytes) (r : Result DbError (Unit {0})) (t : S.State)
        → appended t ≡ appended p.stores.ledger
        → GetTold p id (
            after_result
              (λ u. then_do (close_db S) (get_and_print S id))
              (map_result opening r)
              (with_db S t p))
    unfolding close_store
    opened-GetTold p id (err e) t same = (same, refl, tt)
    opened-GetTold p id (ok u) t same =
        let (events, files, printed) = get_and_print-GetTold p id t same in
        (K.close_keeps _ ∙ events, files, printed)

    event_get_with-GetTold :
        (dsn id : Bytes) (p : Process S) → GetTold p id (event_get_with S dsn id p)
    unfolding event_get_with
    event_get_with-GetTold dsn id p = elim (Bool-cases (is_empty dsn || is_empty id)) [
      | inl missing ↦ rw missing (refl, refl, tt)
      | inr given ↦ elim (Bool-cases (valid_id id)) [
        | inr bad ↦ rw (given, bad) (refl, refl, tt)
        | inl good ↦
            let opened = open_store S dsn p.stores.ledger in
            rw (given, good)
              (opened-GetTold p id opened.0 opened.1 (open_store_keeps S L K dsn p.stores.ledger))
      ]
    ]

    -- Whatever a server answers that keeps to `IsLedger` and `IsSession`, and whichever writes fail,
    -- `duro event get` with flags that parse appends no event and changes no file. It succeeds only
    -- if the server selected an event for the id in the flags, and the line with the JSON of that
    -- event was written as a whole behind what the standard output had.
    pub run_event_get-GetTold :
        (env : Environment) (args : List Bytes) (flags : Settings) (p : Process S)
        → parse get_flags args ≡ parsed flags []
        → GetTold p (value_of (str "id") flags) (run_event_get S env args p)
    unfolding run_event_get flags_of
    run_event_get-GetTold env args flags p h = rw h (
        event_get_with-GetTold (postgres_dsn env (value_of (str "postgres") flags))
          (value_of (str "id") flags) p)
