-- ===== src/Postgres/Provision/Catalog.antt =====
-- What is documented of the connection of an administrator.
use duro_ledger.Base.{
  ℕ, ◌≡◌, ◌⊎◌, List, [], ◌∷◌, ◌++◌, Bytes, Result, ok, err, Result-cases, inl, inr, refl, ◌∙◌,
}
use duro_ledger.Postgres.Types.{DbError}
use duro_ledger.Postgres.Ledger.{open_db, close_failed}
use duro_ledger.Postgres.Server.{Server, Query}

-- What is documented of an administrator's connection: the statements that its committed
-- transactions have executed, and those that the open transaction has executed.
pub record IsCatalog (S : Server) : Type 0 where
  pub granted : S.State → List Bytes
  pub executed : S.State → List Bytes
  pub open_keeps : (dsn : Bytes) (s : S.State) → granted (S.open_handle dsn s).1 ≡ granted s
  pub ping_keeps : (s : S.State) → granted (S.ping s).1 ≡ granted s
  pub close_keeps : (s : S.State) → granted (S.close s) ≡ granted s
  pub begin_keeps : (s : S.State) → granted (S.begin s).1 ≡ granted s
  pub begin_empty :
      (s : S.State) (u : Unit {0}) → (S.begin s).0 ≡ ok u → executed (S.begin s).1 ≡ []
  pub query_flag_keeps :
      (q : Query) (s : S.State)
      → (granted (S.query_flag q s).1 ≡ granted s) × (executed (S.query_flag q s).1 ≡ executed s)
  pub query_rows_keeps :
      (q : Query) (s : S.State)
      → (granted (S.query_rows q s).1 ≡ granted s) × (executed (S.query_rows q s).1 ≡ executed s)
  pub query_text_keeps :
      (q : Query) (s : S.State)
      → (granted (S.query_text q s).1 ≡ granted s) × (executed (S.query_text q s).1 ≡ executed s)
  pub query_facts_keeps :
      (s : S.State)
      → (granted (S.query_facts s).1 ≡ granted s) × (executed (S.query_facts s).1 ≡ executed s)
  pub advisory_lock_keeps :
      (key : ℕ) (s : S.State)
      → (granted (S.advisory_lock key s).1 ≡ granted s)
        × (executed (S.advisory_lock key s).1 ≡ executed s)
  pub exec_keeps : (stmt : Bytes) (s : S.State) → granted (S.exec stmt s).1 ≡ granted s
  pub exec_adds :
      (stmt : Bytes) (s : S.State) (u : Unit {0})
      → (S.exec stmt s).0 ≡ ok u
      → executed (S.exec stmt s).1 ≡ executed s ++ (stmt ∷ [])
  pub commit_confirmed :
      (s : S.State) (u : Unit {0})
      → (S.commit s).0 ≡ ok u
      → granted (S.commit s).1 ≡ granted s ++ executed s
  pub commit_atomic :
      (s : S.State)
      → (granted (S.commit s).1 ≡ granted s) ⊎ (granted (S.commit s).1 ≡ granted s ++ executed s)
  pub rollback_keeps : (s : S.State) → granted (S.rollback s) ≡ granted s

module _ (S : Server) (C : IsCatalog S) where
  open C use {granted}

  close_failed_keeps :
      (r : Result DbError (Unit {0})) (t : S.State) → granted (close_failed S r t) ≡ granted t
  close_failed_keeps (ok u) t = refl
  close_failed_keeps (err e) t = C.close_keeps t

  -- Connecting changes nothing that is committed.
  pub open_db_keeps : (dsn : Bytes) (s : S.State) → granted (open_db S dsn s).1 ≡ granted s
  unfolding open_db
  open_db_keeps dsn s = elim (Result-cases (S.open_handle dsn s).0) [
    | inl (u, opened) ↦ rw opened (close_failed_keeps _ _ ∙ C.ping_keeps _ ∙ C.open_keeps dsn s)
    | inr (e, failed) ↦ rw failed (C.open_keeps dsn s)
  ]
