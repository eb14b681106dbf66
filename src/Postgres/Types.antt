-- ===== src/Postgres/Types.antt =====
-- `StoredEvent`, `CommitOutcome`, `AppendError` and `classifyCommitErr` of store.go, and the errors
-- of database/sql and pgx.
pub mod Outcome
use duro_ledger.Base.{
  ℕ, Bool, true, false, ◌||◌, Option, none, some, if◌then◌else◌, Bytes, str, beq, strip_prefix?,
}
use duro_ledger.Go.Time.{Time}
use duro_ledger.Event.Types.{ValidationError}

-- `StoredEvent`
pub record StoredEvent : Type 0 where
  pub id : Bytes
  pub received_at : Time
  pub event_type : Bytes
  pub actor : Bytes
  pub content : Bytes
  pub refs : Bytes

-- The fields of `*pgconn.PgError` that are read.
pub record PgError : Type 0 where
  pub severity : Bytes
  pub code : Bytes

-- An error of the database, with what it wraps. `tx_commit_rollback` is `pgx.ErrTxCommitRollback`,
-- `tx_done` and `no_rows` are those of database/sql, and `plain` is any other.
pub data DbError : Type 0 where
  server : PgError → DbError
  tx_commit_rollback tx_done no_rows : DbError
  plain : ℕ → DbError
  wrapped : ℕ → DbError → DbError
  joined : DbError → DbError → DbError

abbrev pub or_some {ℓ} : {A : Type ℓ} → Option A → Option A → Option A
or_some none o = o
or_some (some a) o = some a

-- `errors.As(err, &pgErr)`
unfoldable pub as_pg_error : DbError → Option PgError
as_pg_error (server p) = some p
as_pg_error tx_commit_rollback = none
as_pg_error tx_done = none
as_pg_error no_rows = none
as_pg_error (plain n) = none
as_pg_error (wrapped n e) = as_pg_error e
as_pg_error (joined a b) = or_some (as_pg_error a) (as_pg_error b)

-- The sentinel errors.
pub data Sentinel : Type 0 where
  commit_rollback done rows : Sentinel

abbrev is_commit_rollback : Sentinel → Bool
is_commit_rollback commit_rollback = true
is_commit_rollback done = false
is_commit_rollback rows = false

abbrev is_done : Sentinel → Bool
is_done commit_rollback = false
is_done done = true
is_done rows = false

abbrev is_rows : Sentinel → Bool
is_rows commit_rollback = false
is_rows done = false
is_rows rows = true

-- `errors.Is(err, target)`
unfoldable pub error_is : Sentinel → DbError → Bool
error_is t (server p) = false
error_is t tx_commit_rollback = is_commit_rollback t
error_is t tx_done = is_done t
error_is t no_rows = is_rows t
error_is t (plain n) = false
error_is t (wrapped n e) = error_is t e
error_is t (joined a b) = error_is t a || error_is t b

-- `CommitOutcome`
pub data CommitOutcome : Type 0 where
  outcome_not_committed outcome_unknown : CommitOutcome

-- `CommitOutcome.String`
unfoldable pub outcome_string : CommitOutcome → Bytes
outcome_string outcome_unknown = str "unknown"
outcome_string outcome_not_committed = str "not_committed"

-- What `Append` returns beside an event: a validation error as it is, or an `*AppendError`.
pub data AppendFailure : Type 0 where
  invalid : ValidationError → AppendFailure
  append_error : CommitOutcome → DbError → AppendFailure

abbrev pub has_prefix : Bytes → Bytes → Bool
has_prefix s prefix = elim (strip_prefix? prefix s) [ none ↦ false | some r ↦ true ]

-- The cases of the `switch` in `classifyCommitErr`.
unfoldable pub session_lost : PgError → Bool
session_lost p =
    beq p.severity (str "FATAL")
    || (beq p.severity (str "PANIC")
        || (has_prefix p.code (str "08")
            || (beq p.code (str "57P01")
                || (beq p.code (str "57P02") || beq p.code (str "57P03")))))

abbrev pub classify_server : Option PgError → DbError → CommitOutcome
classify_server (some p) e = if session_lost p then outcome_unknown else outcome_not_committed
classify_server none e =
    if error_is commit_rollback e || error_is done e then outcome_not_committed else outcome_unknown

-- `classifyCommitErr`
unfoldable pub classify_commit_err : DbError → CommitOutcome
classify_commit_err e = classify_server (as_pg_error e) e
