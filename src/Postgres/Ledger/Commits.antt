-- ===== src/Postgres/Ledger/Commits.antt =====
-- What `Append` has done to the ledger, by how it ended, from what PostgreSQL and its drivers
-- document.
use duro_ledger.Base.{
  ◌≡◌, ◌⊎◌, inl, inr, refl, ◌∙◌, Option, none, some, List, [], ◌∷◌, ◌++◌, Bytes, Result, ok, err,
  Result-cases,
}
use duro_ledger.Base.Action.{◌>>◌, pure, map_error}
use duro_ledger.Event.Types.{New, ValidationError, validate, content_or_default, refs_or_default}
use duro_ledger.Postgres.Types.{
  StoredEvent, DbError, outcome_not_committed, outcome_unknown, AppendFailure, invalid,
  append_error, classify_commit_err,
}
use duro_ledger.Postgres.Types.Outcome.{IsRefusal, outcome-cases, classify_commit_err-IsRefusal}
use duro_ledger.Postgres.Server.{Server}
use duro_ledger.Postgres.Ledger.{append, append_checked, append_valid, insert_and_commit}

-- What is documented of a connection: which events its transactions have committed, and which rows
-- the open transaction has inserted.
pub record IsLedger (S : Server) : Type 0 where
  pub appended : S.State → List StoredEvent
  pub pending : S.State → List StoredEvent
  pub begin_keeps : (s : S.State) → appended (S.begin s).1 ≡ appended s
  pub begin_empty : (s : S.State) (u : Unit {0}) → (S.begin s).0 ≡ ok u → pending (S.begin s).1 ≡ []
  pub insert_keeps :
      (t c r : Bytes) (s : S.State) → appended (S.insert_event t c r s).1 ≡ appended s
  pub insert_row :
      (t c r : Bytes) (s : S.State) (se : StoredEvent)
      → (S.insert_event t c r s).0 ≡ ok se
      → (pending (S.insert_event t c r s).1 ≡ pending s ++ (se ∷ [])) × (se.event_type ≡ t)
  pub commit_confirmed :
      (s : S.State) (u : Unit {0})
      → (S.commit s).0 ≡ ok u
      → appended (S.commit s).1 ≡ appended s ++ pending s
  pub commit_atomic :
      (s : S.State)
      → (appended (S.commit s).1 ≡ appended s) ⊎ (appended (S.commit s).1 ≡ appended s ++ pending s)
  pub commit_refused :
      (s : S.State) (e : DbError)
      → (S.commit s).0 ≡ err e
      → IsRefusal e
      → appended (S.commit s).1 ≡ appended s
  pub rollback_keeps : (s : S.State) → appended (S.rollback s) ≡ appended s

module _ (S : Server) (L : IsLedger S) where
  open L use {appended, pending}

  -- How the ledger stands at `t`, after a transaction that was begun for `n` at `s`, by its result.
  abbrev Tried : New → S.State → Result AppendFailure StoredEvent → S.State → Type 0
  Tried n s (ok se) t = (appended t ≡ appended s ++ (se ∷ [])) × (se.event_type ≡ n.event_type)
  Tried n s (err (invalid e)) t = ⊥
  Tried n s (err (append_error outcome_not_committed e)) t = appended t ≡ appended s
  Tried n s (err (append_error outcome_unknown e)) t =
      (appended t ≡ appended s) ⊎ ((se : StoredEvent) × (appended t ≡ appended s ++ (se ∷ [])))

  -- The same after `Append`, which rejects an invalid input without touching the server.
  abbrev pub Settled : New → S.State → Result AppendFailure StoredEvent → S.State → Type 0
  Settled n s (ok se) t = Tried n s (ok se) t
  Settled n s (err (invalid e)) t = (validate n ≡ some e) × (t ≡ s)
  Settled n s (err (append_error o e)) t = Tried n s (err (append_error o e)) t

  commit-Tried :
      (n : New) (s t : S.State) (se : StoredEvent)
      → appended t ≡ appended s
      → pending t ≡ se ∷ []
      → se.event_type ≡ n.event_type
      → let tx = (map_error (λ e. append_error (classify_commit_err e) e) S.commit >> pure se) t in
        Tried n s tx.0 tx.1
  commit-Tried n s t se same one kept = elim (Result-cases (S.commit t).0) [
    | inl (u, confirmed) ↦
        rw confirmed (rw (L.commit_confirmed t u confirmed, same, one) (refl, kept))
    | inr (e, failed) ↦ elim (outcome-cases (classify_commit_err e)) [
      | inl not_committed ↦
          rw (failed, not_committed)
            (L.commit_refused t e failed (classify_commit_err-IsRefusal e not_committed) ∙ same)
      | inr unknown ↦
          rw (failed, unknown)
            (elim (L.commit_atomic t) [
              | inl gone ↦ inl (gone ∙ same)
              | inr there ↦ inr (se, rw (there, same, one))
            ])
    ]
  ]

  insert-Tried :
      (n : New) (s t : S.State)
      → appended t ≡ appended s
      → pending t ≡ []
      → let tx = insert_and_commit S n t in Tried n s tx.0 tx.1
  unfolding insert_and_commit
  insert-Tried n s t same none_yet =
      let c = content_or_default n in
      let r = refs_or_default n in
      let kept = L.insert_keeps n.event_type c r t in
      elim (Result-cases (S.insert_event n.event_type c r t).0) [
        | inl (se, inserted) ↦
            let (row, event_type) = L.insert_row n.event_type c r t se inserted in
            rw inserted (commit-Tried n s _ se (kept ∙ same) (row ∙ rw none_yet) event_type)
        | inr (e, failed) ↦ rw failed (kept ∙ same)
      ]

  rollback-Tried :
      (n : New) (s : S.State) (r : Result AppendFailure StoredEvent) (t : S.State)
      → Tried n s r t
      → Tried n s r (S.rollback t)
  rollback-Tried n s (ok se) t h = rw L.rollback_keeps h
  rollback-Tried n s (err (invalid e)) t h = h
  rollback-Tried n s (err (append_error outcome_not_committed e)) t h = rw L.rollback_keeps h
  rollback-Tried n s (err (append_error outcome_unknown e)) t h = rw L.rollback_keeps h

  Tried-Settled :
      (n : New) (s : S.State) (r : Result AppendFailure StoredEvent) (t : S.State)
      → Tried n s r t
      → Settled n s r t
  Tried-Settled n s (ok se) t h = h
  Tried-Settled n s (err (invalid e)) t h = absurd h
  Tried-Settled n s (err (append_error o e)) t h = h

  append_valid-Tried : (n : New) (s : S.State) → let tx = append_valid S n s in Tried n s tx.0 tx.1
  unfolding append_valid
  append_valid-Tried n s = elim (Result-cases (S.begin s).0) [
    | inl (u, begun) ↦
        rw begun
          (rollback-Tried n s _ _ (insert-Tried n s _ (L.begin_keeps s) (L.begin_empty s u begun)))
    | inr (e, failed) ↦ rw failed (L.begin_keeps s)
  ]

  append_checked-Settled :
      (n : New) (s : S.State) (v : Option ValidationError)
      → validate n ≡ v
      → let result = append_checked S v n s in Settled n s result.0 result.1
  append_checked-Settled n s none valid = Tried-Settled n s _ _ (append_valid-Tried n s)
  append_checked-Settled n s (some e) not_valid = (not_valid, refl)

  -- Whatever a server answers that keeps to `IsLedger`, `Append` reports how the ledger stands. An event is returned only
  -- when exactly it was appended, with the event type that was asked for. A validation error is that
  -- of `Validate`, and the server was not called. A failure that is "not committed" left the ledger
  -- as it was, and one that is "unknown" left it so or appended one event, and no more.
  pub append-Settled :
      (n : New) (s : S.State) → let result = append S n s in Settled n s result.0 result.1
  unfolding append
  append-Settled n s = append_checked-Settled n s (validate n) refl
