-- ===== src/Postgres/Server.antt =====
-- PostgreSQL behind database/sql and pgx: the calls that store.go makes, over an unknown state.
use duro_ledger.Base.{ℕ, Bool, Option, List, Bytes, Result}
use duro_ledger.Base.Action.{Action}
use duro_ledger.Postgres.Types.{StoredEvent, DbError}

-- The queries that return texts or flags, with their parameters.
pub data Query : Type 0 where
  server_encoding events_exist extra_objects : Query
  table_columns table_constraints : Bytes → Query
  role_can_login : Bytes → Query
  eligibility : Bytes → List Bytes → List Bytes → Query

-- The row of `pg_class` that `Initialize` reads.
pub record TableFacts : Type 0 where
  pub relkind : Bytes
  pub relpersistence : Bytes
  pub row_security : Bool
  pub force_row_security : Bool
  pub policies : ℕ

-- A result set: each row scans to a text or fails to, and an error may end the iteration.
pub record Rows : Type 0 where
  pub lines : List (Result DbError Bytes)
  pub ending : Option DbError

pub record Server : Type 1 where
  pub State : Type 0
  pub open_handle : Bytes → Action State DbError (Unit {0})
  pub ping : Action State DbError (Unit {0})
  pub close : State → State
  pub begin : Action State DbError (Unit {0})
  pub commit : Action State DbError (Unit {0})
  pub rollback : State → State
  pub insert_event : Bytes → Bytes → Bytes → Action State DbError StoredEvent
  pub select_event : Bytes → Action State DbError StoredEvent
  pub advisory_lock : ℕ → Action State DbError (Unit {0})
  pub exec : Bytes → Action State DbError (Unit {0})
  pub query_text : Query → Action State DbError Bytes
  pub query_flag : Query → Action State DbError Bool
  pub query_facts : Action State DbError TableFacts
  pub query_rows : Query → Action State DbError Rows
