-- ===== src/Postgres/Initialize.antt =====
-- `Initialize`, `describeTable` and `descriptorDiff` of store.go.
pub mod Compare
pub mod Settled
use mathlib.Core.Bool.{not}
use duro_ledger.Base.{
  ℕ, Bool, true, false, ◌||◌, Option, none, some, List, [], ◌∷◌, ◌++◌, ltb, if◌then◌else◌, Bytes,
  str, beq, is_empty, Result, ok, err,
}
use duro_ledger.Base.Action.{Action, ◌>>=◌, ◌>>◌, pure, fail, map_error, reject_if, then_do}
use duro_ledger.Go.Text.{replace_all}
use duro_ledger.Postgres.Types.{DbError}
use duro_ledger.Postgres.Server.{
  Server, Rows, TableFacts, server_encoding, events_exist, extra_objects, table_columns,
  table_constraints,
}
use duro_ledger.Postgres.Ledger.{open_db}

-- The first disagreement of two descriptions.
pub data Difference : Type 0 where
  missing : Bytes → Difference
  expected_found : Bytes → Bytes → Difference
  unexpected : Bytes → Difference

-- `descriptorDiff`; `none` is the empty text. The lists are walked in step, as `got[i]` does.
unfoldable pub descriptor_diff : List Bytes → List Bytes → Option Difference
descriptor_diff [] [] = none
descriptor_diff [] (g ∷ got) = some (unexpected g)
descriptor_diff (w ∷ want) [] = some (missing w)
descriptor_diff (w ∷ want) (g ∷ got) =
    if beq g w then descriptor_diff want got else some (expected_found w g)

-- What `Initialize` returns beside success.
pub data InitFailure : Type 0 where
  init_database : DbError → InitFailure
  wrong_encoding not_ordinary_table not_permanent_table has_row_security has_extras : InitFailure
  schema_differs : Difference → InitFailure

abbrev no_error : Option DbError → List Bytes → Result DbError (List Bytes)
no_error none lines = ok lines
no_error (some e) lines = err e

-- The loop over `rows`, from the lines appended so far.
unfoldable pub scan_rows :
    Option DbError → List Bytes → List (Result DbError Bytes) → Result DbError (List Bytes)
scan_rows ending out [] = no_error ending out
scan_rows ending out (ok line ∷ more) = scan_rows ending (out ++ (line ∷ [])) more
scan_rows ending out (err e ∷ more) = err e

abbrev pub initialize_lock_key : ℕ
initialize_lock_key = 5138024775510001

abbrev pub events_table : Bytes
events_table = str "public.events"

-- `referenceTable`
abbrev pub reference_table : Bytes
reference_table = str "pg_temp.duro_events_reference"

unfoldable pub reference_schema : Bytes → Bytes
unfolding replace_all
reference_schema schema = replace_all schema events_table reference_table

abbrev pub difference_result : Option Difference → Result InitFailure (Unit {0})
difference_result none = ok tt
difference_result (some d) = err (schema_differs d)

-- The schema text is the embedded file schema.sql.
module _ (S : Server) (schema : Bytes) where
  abbrev pub Admin : Type 0 → Type 0
  Admin = Action S.State InitFailure

  abbrev pub db : {A : Type 0} → Action S.State DbError A → Admin A
  db = map_error init_database

  -- One query of `describeTable`.
  unfoldable pub describe_query :
      List Bytes → Action S.State DbError Rows → Action S.State DbError (List Bytes)
  unfolding scan_rows
  describe_query out q = do rows ← q; λ s. (scan_rows rows.ending out rows.lines, s)

  -- `describeTable`
  unfoldable pub describe_table : Bytes → Action S.State DbError (List Bytes)
  unfolding describe_query
  describe_table qualified = do
    columns ← describe_query [] (S.query_rows (table_columns qualified))
    describe_query columns (S.query_rows (table_constraints qualified))

  -- The tests of an existing table.
  unfoldable pub check_existing : Admin (Unit {0})
  unfolding describe_table descriptor_diff reference_schema
  check_existing = do
    facts ← db S.query_facts
    reject_if (not (beq facts.relkind (str "r"))) not_ordinary_table
    reject_if (not (beq facts.relpersistence (str "p"))) not_permanent_table
    reject_if (facts.row_security || (facts.force_row_security || ltb 0 facts.policies))
        has_row_security
    extras ← db (S.query_text extra_objects)
    reject_if (not (is_empty extras)) has_extras
    db (S.exec (reference_schema schema))
    want ← db (describe_table reference_table)
    got ← db (describe_table events_table)
    λ s. (difference_result (descriptor_diff want got), s)

  unfoldable pub create_schema : Admin (Unit {0})
  create_schema = do db (S.exec schema); db S.commit

  -- The transaction.
  unfoldable pub initialize_tx : Admin (Unit {0})
  unfolding check_existing create_schema
  initialize_tx = do
    db (S.advisory_lock initialize_lock_key)
    exists ← db (S.query_flag events_exist)
    if exists then check_existing else create_schema

  unfoldable pub initialize_open : Admin (Unit {0})
  unfolding initialize_tx
  initialize_open = do
    encoding ← db (S.query_text server_encoding)
    reject_if (not (beq encoding (str "UTF8"))) wrong_encoding
    db S.begin
    then_do S.rollback initialize_tx

  -- `Initialize`
  unfoldable pub initialize : Bytes → Admin (Unit {0})
  unfolding open_db initialize_open
  initialize dsn = do db (open_db S dsn); then_do S.close initialize_open
