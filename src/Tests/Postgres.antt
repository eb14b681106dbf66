-- ===== src/Tests/Postgres.antt =====
-- The theorems on PostgreSQL at a concrete server.
use duro_ledger.Base.{
  strip_prefix?, ok, refl, true, ◌≡◌, ◌↔◌, none, some, List, [], ◌∷◌, ◌++◌, Bytes, str,
}
use duro_ledger.Event.Types.{New}
use duro_ledger.Postgres.Types.{
  DbError, server, wrapped, classify_commit_err, outcome_not_committed, outcome_unknown,
}
use duro_ledger.Postgres.Ledger.{append, open_db}
use duro_ledger.Postgres.Types.Outcome.{IsRefusal, classify_commit_err_iff}
use duro_ledger.Postgres.Ledger.Commits.{Settled, append-Settled}
use duro_ledger.Postgres.Initialize.{descriptor_diff}
use duro_ledger.Postgres.Initialize.Compare.{Explains, descriptor_diff-Explains}
use duro_ledger.Postgres.Server.{role_can_login, eligibility}
use duro_ledger.Go.Text.{replace_all, replace_from}
use duro_ledger.Postgres.Initialize.{scan_rows, initialize, reference_schema}
use duro_ledger.Postgres.Initialize.Settled.{Initialized, locked_at, initialize-Initialized}
use duro_ledger.Postgres.Provision.Eligible.{assert_provisionable-ok}
use duro_ledger.Postgres.Provision.{
  assert_provisionable, check_rows, protected_columns, provision, grant_usage, grant_select,
}
use duro_ledger.Postgres.Provision.Atomic.{Granted, started, statements, provision-Granted}
use duro_ledger.Tests.Server.{lists, lists-IsLedger, lists-IsCatalog, empty_db}

-- A deadlock, wrapped once.
abbrev deadlock : DbError
deadlock = wrapped 0 (server (record { severity = str "ERROR"; code = str "40P01" }))

classify_commit_err_iff_example :
    ((classify_commit_err deadlock ≡ outcome_not_committed) ↔ IsRefusal deadlock)
    × ((classify_commit_err deadlock ≡ outcome_unknown) ↔ (¬ IsRefusal deadlock))
classify_commit_err_iff_example = classify_commit_err_iff deadlock

abbrev note : New
note = record { event_type = str "note"; content = none; refs = none }

append-Settled_example :
    let result = append lists note (empty_db (some deadlock)) in
    Settled lists lists-IsLedger note (empty_db (some deadlock)) result.0 result.1
append-Settled_example = append-Settled lists lists-IsLedger note (empty_db (some deadlock))

abbrev quoted : Bytes → Bytes
quoted s = str "\"" ++ (s ++ str "\"")

abbrev read_grants : List Bytes
read_grants = grant_usage ∷ grant_select ∷ []

provision-Granted_example :
    let end =
      provision lists quoted
        (str "dsn")
        (str "reader")
        (str "INSERT" ∷ [])
        read_grants
        (empty_db none) in
    Granted lists lists-IsCatalog quoted
      (str "reader")
      (str "INSERT" ∷ [])
      (statements lists lists-IsCatalog quoted (quoted (str "reader")) read_grants)
      (started lists lists-IsCatalog quoted (str "dsn") (empty_db none))
      (empty_db none)
      end.0
      end.1
provision-Granted_example =
    provision-Granted lists lists-IsCatalog quoted (str "dsn") (str "reader") (str "INSERT" ∷ [])
      read_grants (empty_db none)

descriptor_diff-Explains_example :
    let want = str "id uuid" ∷ str "actor text" ∷ [] in
    let got = str "id uuid" ∷ str "actor name" ∷ [] in Explains want got (descriptor_diff want got)
descriptor_diff-Explains_example =
    descriptor_diff-Explains (str "id uuid" ∷ str "actor text" ∷ [])
      (str "id uuid" ∷ str "actor name" ∷ [])

passes : (assert_provisionable lists quoted (str "reader") [] (empty_db none)).0 ≡ ok tt
unfolding assert_provisionable check_rows scan_rows
passes = refl

assert_provisionable-ok_example :
    let login = lists.query_flag (role_can_login (str "reader")) (empty_db none) in
    (login.0 ≡ ok true)
    × ((lists.query_rows (eligibility (str "reader") protected_columns []) login.1).0
        ≡ ok (record { lines = []; ending = none }))
assert_provisionable-ok_example =
    assert_provisionable-ok lists quoted (str "reader") [] (empty_db none) passes

initialize-Initialized_example :
    let end = initialize lists (str "CREATE TABLE public.events ()") (str "dsn") (empty_db none) in
    Initialized lists lists-IsCatalog
      (str "CREATE TABLE public.events ()")
      (locked_at lists lists-IsCatalog
        (str "CREATE TABLE public.events ()")
        (open_db lists (str "dsn") (empty_db none)).1)
      (empty_db none)
      end.0
      end.1
initialize-Initialized_example =
    initialize-Initialized lists lists-IsCatalog (str "CREATE TABLE public.events ()") (str "dsn")
      (empty_db none)

-- The table is renamed wherever it stands.
reference_runs :
    reference_schema (str "CREATE TABLE public.events (); -- public.events")
    ≡ str "CREATE TABLE pg_temp.duro_events_reference (); -- pg_temp.duro_events_reference"
unfolding reference_schema replace_all replace_from strip_prefix?
reference_runs = refl
