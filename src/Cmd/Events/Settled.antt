-- ===== src/Cmd/Events/Settled.antt =====
-- What `duro event put` tells, against what it did.
use duro_ledger.Base.{
  ◌≡◌, ◌⊎◌, refl, ap, subst, sym, ◌||◌, inl, inr, Bool-cases, Option, none, some, List, [], ◌∷◌,
  ◌++◌, Bytes, str, is_empty, Result, ok, err,
}
use duro_ledger.Base.Action.{after_result, map_result, then_do}
use duro_ledger.Go.Flag.{Settings, parse, parsed, value_of}
use duro_ledger.Event.Types.{New, ValidationError, validate}
use duro_ledger.Postgres.Types.{
  StoredEvent, AppendFailure, append_error, invalid, outcome_not_committed, outcome_unknown,
}
use duro_ledger.Postgres.Server.{Server}
use duro_ledger.Postgres.Ledger.{append, open_store, close_store}
use duro_ledger.Postgres.Ledger.Commits.{IsLedger, Settled, append-Settled}
use duro_ledger.Postgres.Ledger.Session.{IsSession, open_store_keeps}
use duro_ledger.Base.Action.{◌>>◌}
use duro_ledger.Postgres.Types.{DbError}
use duro_ledger.Cmd.{
  opening, on_db, CmdError, not_json, output, appending, Environment, Process, encode_line,
  postgres_dsn, flags_of, with_db,
}
use duro_ledger.Cmd.Output.{event_json}
use duro_ledger.Cmd.Output.Printed.{encode_line-ok, encode_line-ledger, put_out-cases}
use duro_ledger.Cmd.Events.{
  append_and_print, event_put_with, run_event_put, put_flags, flagged_event, check_event, close_db,
}

-- Exactly one event more, of the type asked for.
abbrev pub Added : New → List StoredEvent → StoredEvent → List StoredEvent → Type 0
Added n before se after = (after ≡ before ++ (se ∷ [])) × (se.event_type ≡ n.event_type)

-- What the error of `event put` says of the ledger.
abbrev pub ErrorTold : New → List StoredEvent → CmdError → List StoredEvent → Type 0
ErrorTold n before (appending (append_error outcome_unknown e)) after =
    (after ≡ before) ⊎ ((se : StoredEvent) × (after ≡ before ++ (se ∷ [])))
ErrorTold n before not_json after = (se : StoredEvent) × Added n before se after
ErrorTold n before (output e) after = (se : StoredEvent) × Added n before se after
ErrorTold n before _ after = after ≡ before

-- What `event put` says, by the events and the standard output before and after.
abbrev pub PutTold :
    New → List StoredEvent → Bytes → Result CmdError (Unit {0}) → List StoredEvent → Bytes → Type 0
PutTold n before out (ok u) after out' =
    (se : StoredEvent) × Added n before se after
    × (line : Bytes) × (event_json se ≡ some line)
    × (out' ≡ out ++ (line ++ (b'\n' ∷ [])))
PutTold n before out (err e) after out' = ErrorTold n before e after

module _ (S : Server) (L : IsLedger S) (K : IsSession S L) where
  open L use {appended}

  abbrev events : Process S → List StoredEvent
  events p = appended p.stores.ledger

  -- The event is in the ledger already when it is printed.
  printed-PutTold :
      (n : New) (before : List StoredEvent) (se : StoredEvent) (o : Option Bytes) (p : Process S)
      → Added n before se (events p)
      → event_json se ≡ o
      → let done = encode_line S o p in
        PutTold n before p.stores.os.out done.0 (events done.1) done.1.stores.os.out
  unfolding encode_line
  printed-PutTold n before se none p added h = (se, added)
  printed-PutTold n before se (some line) p added h =
      let b = line ++ (b'\n' ∷ []) in
      let kept =
        subst (λ l. Added n before se (appended l)) (sym (encode_line-ledger S (some line) p))
          added in
      elim (put_out-cases S b p) [
        | inl done ↦ rw done (se, kept, line, h, encode_line-ok S line p tt done)
        | inr (e, failed) ↦ rw failed (se, kept)
      ]

  -- By the answer of `Append`, at the state behind it.
  answered-PutTold :
      (n : New) (p : Process S) (r : Result AppendFailure StoredEvent) (t : S.State)
      → validate n ≡ none
      → Settled S L n p.stores.ledger r t
      → let done =
          after_result
            (λ se. encode_line S (event_json se))
            (map_result appending r)
            (with_db S t p) in
        PutTold n (events p) p.stores.os.out done.0 (events done.1) done.1.stores.os.out
  answered-PutTold n p (ok se) t v added =
      printed-PutTold n (events p) se (event_json se) (with_db S t p) added refl
  answered-PutTold n p (err (invalid e)) t v (why, same) = ap appended same
  answered-PutTold n p (err (append_error outcome_not_committed e)) t v same = same
  answered-PutTold n p (err (append_error outcome_unknown e)) t v either = either

  append_and_print-PutTold :
      (n : New) (p : Process S)
      → validate n ≡ none
      → let done = append_and_print S n p in
        PutTold n (events p) p.stores.os.out done.0 (events done.1) done.1.stores.os.out
  unfolding append_and_print
  append_and_print-PutTold n p v =
      let done = append S n p.stores.ledger in
      answered-PutTold n p done.0 done.1 v (append-Settled S L n p.stores.ledger)

  -- The closing of the ledger, and its opening.
  closed-PutTold :
      (n : New) (p : Process S)
      → validate n ≡ none
      → let done = then_do (close_db S) (append_and_print S n) p in
        PutTold n (events p) p.stores.os.out done.0 (events done.1) done.1.stores.os.out
  unfolding close_store
  closed-PutTold n p v = rw (K.close_keeps) (append_and_print-PutTold n p v)

  opened-PutTold :
      (dsn : Bytes) (n : New) (p : Process S) (r : Result DbError (Unit {0})) (t : S.State)
      → validate n ≡ none
      → appended t ≡ events p
      → let done =
          after_result
            (λ u. then_do (close_db S) (append_and_print S n))
            (map_result opening r)
            (with_db S t p) in
        PutTold n (events p) p.stores.os.out done.0 (events done.1) done.1.stores.os.out
  opened-PutTold dsn n p (err e) t v same = same
  opened-PutTold dsn n p (ok u) t v same =
      let done = then_do (close_db S) (append_and_print S n) (with_db S t p) in
      subst (λ l. PutTold n l p.stores.os.out done.0 (events done.1) done.1.stores.os.out) same
        (closed-PutTold n (with_db S t p) v)

  checked-PutTold :
      (dsn : Bytes) (n : New) (p : Process S) (o : Option ValidationError)
      → validate n ≡ o
      → let done =
          (check_event S o
              >> (on_db S opening (open_store S dsn)
                  >> then_do (close_db S) (append_and_print S n)))
            p in
        PutTold n (events p) p.stores.os.out done.0 (events done.1) done.1.stores.os.out
  checked-PutTold dsn n p (some e) v = refl
  checked-PutTold dsn n p none v =
      let opened = open_store S dsn p.stores.ledger in
      opened-PutTold dsn n p opened.0 opened.1 v (open_store_keeps S L K dsn p.stores.ledger)

  event_put_with-PutTold :
      (dsn : Bytes) (n : New) (p : Process S)
      → let done = event_put_with S dsn n p in
        PutTold n (events p) p.stores.os.out done.0 (events done.1) done.1.stores.os.out
  unfolding event_put_with
  event_put_with-PutTold dsn n p = elim (Bool-cases (is_empty dsn || is_empty n.event_type)) [
    | inl missing ↦ rw missing refl
    | inr given ↦ rw given (checked-PutTold dsn n p (validate n) refl)
  ]

  -- Whatever a server answers that keeps to `IsLedger` and `IsSession`, and whichever writes fail,
  -- `duro event put` with flags that parse tells what it did. It succeeds only if exactly one event
  -- of the type in the flags was appended, and the line with its JSON was written as a whole behind
  -- what the standard output had. An error behind the commit, of the output or of an event that is
  -- no JSON, stands for exactly one event more; an append that is "unknown" for none or one; and
  -- every other error for none.
  pub run_event_put-PutTold :
      (env : Environment) (args : List Bytes) (flags : Settings) (p : Process S)
      → parse put_flags args ≡ parsed flags []
      → let done = run_event_put S env args p in
        PutTold
          (flagged_event flags)
          (events p)
          p.stores.os.out
          done.0
          (events done.1)
          done.1.stores.os.out
  unfolding run_event_put flags_of
  run_event_put-PutTold env args flags p h = rw h (
      event_put_with-PutTold (postgres_dsn env (value_of (str "postgres") flags))
        (flagged_event flags) p)
