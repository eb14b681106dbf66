-- ===== src/Cmd/Events.antt =====
-- `duro event put` and `duro event get`.
pub mod Fetched
pub mod Settled
use duro_ledger.Base.{
  Bool, true, false, ◌||◌, Option, none, some, List, [], ◌∷◌, Bytes, str, is_empty,
}
use mathlib.Core.Bool.{not}
use duro_ledger.Base.Action.{◌>>=◌, ◌>>◌, pure, then_do}
use duro_ledger.Go.Flag.{Settings, value_of, is_set}
use duro_ledger.Event.Types.{RawMessage, New, ValidationError, validate}
use duro_ledger.Event.Id.{valid_id}
use duro_ledger.Postgres.Server.{Server}
use duro_ledger.Postgres.Ledger.{open_store, close_store, append, get_event}
use duro_ledger.Cmd.{
  event_put_usage, event_get_usage, missing_flags, malformed_uuid, invalid_event, opening,
  appending, getting, Environment, postgres_dsn, Process, Cmd, with_db, on_db, fail_with_usage,
  reject_with_usage, flags_of, encode_line,
}
use duro_ledger.Cmd.Output.{event_json}

-- `rawJSONFlag`
unfoldable pub raw_json_flag : Bytes → Bool → RawMessage
raw_json_flag val true = some val
raw_json_flag val false = none

abbrev pub put_flags : List Bytes
put_flags = str "postgres" ∷ str "type" ∷ str "content" ∷ str "refs" ∷ []

abbrev pub get_flags : List Bytes
get_flags = str "postgres" ∷ str "id" ∷ []

-- The event that the flags ask for.
unfoldable pub flagged_event : Settings → New
flagged_event flags = record {
  event_type = value_of (str "type") flags;
  content = raw_json_flag (value_of (str "content") flags) (is_set (str "content") flags);
  refs = raw_json_flag (value_of (str "refs") flags) (is_set (str "refs") flags);
}

module _ (S : Server) where
  -- `defer store.Close()`
  abbrev pub close_db : Process S → Process S
  close_db p = with_db S (close_store S p.stores.ledger) p

  abbrev pub check_event : Option ValidationError → Cmd S (Unit {0})
  check_event none = pure tt
  check_event (some e) = fail_with_usage S event_put_usage (invalid_event e)

  -- Behind the opening of the ledger.
  unfoldable pub append_and_print : New → Cmd S (Unit {0})
  append_and_print n = do se ← on_db S appending (append S n); encode_line S (event_json se)

  unfoldable pub get_and_print : Bytes → Cmd S (Unit {0})
  get_and_print id = do se ← on_db S getting (get_event S id); encode_line S (event_json se)

  -- `runEventPut` behind its flags.
  unfoldable pub event_put_with : Bytes → New → Cmd S (Unit {0})
  event_put_with dsn n = do
    reject_with_usage S event_put_usage (is_empty dsn || is_empty n.event_type) missing_flags
    check_event (validate n)
    on_db S opening (open_store S dsn)
    then_do close_db (append_and_print n)

  -- `runEventGet` behind its flags.
  unfoldable pub event_get_with : Bytes → Bytes → Cmd S (Unit {0})
  event_get_with dsn id = do
    reject_with_usage S event_get_usage (is_empty dsn || is_empty id) missing_flags
    reject_with_usage S event_get_usage (not (valid_id id)) (malformed_uuid id)
    on_db S opening (open_store S dsn)
    then_do close_db (get_and_print id)

  -- `runEventPut`
  unfoldable pub run_event_put : Environment → List Bytes → Cmd S (Unit {0})
  run_event_put env args = do
    flags ← flags_of S event_put_usage put_flags args
    event_put_with (postgres_dsn env (value_of (str "postgres") flags)) (flagged_event flags)

  -- `runEventGet`
  unfoldable pub run_event_get : Environment → List Bytes → Cmd S (Unit {0})
  run_event_get env args = do
    flags ← flags_of S event_get_usage get_flags args
    event_get_with (postgres_dsn env (value_of (str "postgres") flags)) (value_of (str "id") flags)
