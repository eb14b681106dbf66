-- ===== src/Postgres/Ledger/Session.antt =====
-- What is documented of opening and closing a connection and of a query, in the terms of `IsLedger`.
use duro_ledger.Base.{◌≡◌, ◌∙◌, refl, inl, inr, Bytes, Result, ok, err, Result-cases}
use duro_ledger.Postgres.Types.{DbError}
use duro_ledger.Postgres.Server.{Server}
use duro_ledger.Postgres.Ledger.{close_failed, open_db, open_store}
use duro_ledger.Postgres.Ledger.Commits.{IsLedger}

pub record IsSession (S : Server) (L : IsLedger S) : Type 0 where
  pub open_keeps : (dsn : Bytes) (s : S.State) → L.appended (S.open_handle dsn s).1 ≡ L.appended s
  pub ping_keeps : (s : S.State) → L.appended (S.ping s).1 ≡ L.appended s
  pub close_keeps : (s : S.State) → L.appended (S.close s) ≡ L.appended s
  pub select_keeps : (id : Bytes) (s : S.State) → L.appended (S.select_event id s).1 ≡ L.appended s

module _ (S : Server) (L : IsLedger S) (K : IsSession S L) where
  close_failed_keeps :
      (r : Result DbError (Unit {0})) (s : S.State) → L.appended (close_failed S r s) ≡ L.appended s
  close_failed_keeps (ok u) s = refl
  close_failed_keeps (err e) s = K.close_keeps s

  -- `Open` appends nothing.
  pub open_store_keeps :
      (dsn : Bytes) (s : S.State) → L.appended (open_store S dsn s).1 ≡ L.appended s
  unfolding open_store open_db
  open_store_keeps dsn s = elim (Result-cases (S.open_handle dsn s).0) [
    | inl (u, opened) ↦ rw opened (
        close_failed_keeps (S.ping (S.open_handle dsn s).1).0 (S.ping (S.open_handle dsn s).1).1
        ∙ K.ping_keeps (S.open_handle dsn s).1
        ∙ K.open_keeps dsn s)
    | inr (e, failed) ↦ rw failed (K.open_keeps dsn s)
  ]
