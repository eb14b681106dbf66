-- ===== src/Postgres/Ledger.antt =====
-- `Open`, `Close`, `Append` and `Get` of store.go.
pub mod Commits
pub mod Session
use mathlib.Core.Bool.{not}
use duro_ledger.Base.{Bool, true, false, Option, none, some, if◌then◌else◌, Bytes, Result, ok, err}
use duro_ledger.Base.Action.{Action, ◌>>=◌, ◌>>◌, pure, fail, map_error, then_do}
use duro_ledger.Event.Types.{New, ValidationError, validate, content_or_default, refs_or_default}
use duro_ledger.Event.Id.{valid_id}
use duro_ledger.Postgres.Types.{
  StoredEvent, DbError, error_is, rows, outcome_not_committed, AppendFailure, invalid, append_error,
  classify_commit_err,
}
use duro_ledger.Postgres.Server.{Server}

-- What `Get` returns beside an event.
pub data GetFailure : Type 0 where
  malformed_id event_not_found : GetFailure
  database : DbError → GetFailure

module _ (S : Server) where
  -- A handle whose `Ping` fails is closed.
  abbrev pub close_failed : Result DbError (Unit {0}) → S.State → S.State
  close_failed (ok u) s = s
  close_failed (err e) s = S.close s

  -- `openDB`
  unfoldable pub open_db : Bytes → Action S.State DbError (Unit {0})
  open_db dsn = do
    S.open_handle dsn
    λ s. let pinged = S.ping s in (pinged.0, close_failed pinged.0 pinged.1)

  -- `Open`; the store is the handle.
  unfoldable pub open_store : Bytes → Action S.State DbError (Unit {0})
  unfolding open_db
  open_store dsn = open_db dsn

  -- `(*Store).Close`
  unfoldable pub close_store : S.State → S.State
  close_store = S.close

  -- `Append` behind `Begin`.
  unfoldable pub insert_and_commit : New → Action S.State AppendFailure StoredEvent
  insert_and_commit n = do
    se ←
        map_error (append_error outcome_not_committed)
          (S.insert_event n.event_type (content_or_default n) (refs_or_default n))
    map_error (λ e. append_error (classify_commit_err e) e) S.commit
    pure se

  unfoldable pub append_valid : New → Action S.State AppendFailure StoredEvent
  append_valid n = do
    map_error (append_error outcome_not_committed) S.begin
    then_do S.rollback (insert_and_commit n)

  abbrev pub append_checked :
      Option ValidationError → New → Action S.State AppendFailure StoredEvent
  append_checked (some e) n = fail (invalid e)
  append_checked none n = append_valid n

  -- `Append`
  unfoldable pub append : New → Action S.State AppendFailure StoredEvent
  append n = append_checked (validate n) n

  abbrev pub select_failure : DbError → GetFailure
  select_failure e = if error_is rows e then event_not_found else database e

  -- `Get`
  unfoldable pub get_event : Bytes → Action S.State GetFailure StoredEvent
  get_event id =
      if valid_id id then map_error select_failure (S.select_event id) else fail malformed_id
