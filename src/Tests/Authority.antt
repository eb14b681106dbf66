-- ===== src/Tests/Authority.antt =====
-- The theorems on eligibility at a server that evaluates `eligibilityQuery` on a catalog: `writer`
-- inherits from `reader`, which holds nothing; `clerk` may become `postgres`, which owns everything.
use mathlib.Core.List.{Memᴰ, Perm}
use mathlib.Core.List.Perm
use duro_ledger.Base.{
  ℕ, ◌≡◌, ◌↔◌, ◌&&◌, ◌||◌, ◌==◌, inl, inr, refl, subst, true, false, none, List, [], ◌∷◌, ◌++◌, map,
  Bytes, str, beq, Result, ok,
}
use duro_ledger.Postgres.Types.{DbError}
use duro_ledger.Postgres.Ledger.{open_db}
use duro_ledger.Postgres.Server.{Server, Query, Rows, eligibility}
use duro_ledger.Postgres.Select.{keep, pairs, select_where}
use duro_ledger.Postgres.Authority.{
  Role, Authority, is_reachable, attribute_reasons, owner_reasons, may_mutate, privilege_reasons,
  eligibility_reasons,
}
use duro_ledger.Postgres.Authority.Harmless.{Reaches, IsHarmless, eligibility_reasons-nil}
use duro_ledger.Postgres.Initialize.{scan_rows}
use duro_ledger.Postgres.Provision.{
  quote_identifier, check_rows, assert_provisionable, protected_columns, exec_grants, provision_tx,
  provision_open, provision, grant_usage,
}
use duro_ledger.Postgres.Provision.Restricted.{HasAuthority, provision-IsHarmless}
use duro_ledger.Tests.Server.{lists, empty_db}

abbrev login_role : ℕ → Bytes → Role
login_role oid name = record {
  oid = oid;
  rolname = name;
  rolsuper = false;
  rolcreaterole = false;
  rolcreatedb = false;
  rolbypassrls = false;
  rolreplication = false;
}

abbrev postgres : Role
postgres = record (login_role 10 (str "postgres")) { rolsuper = true; rolbypassrls = true }

abbrev catalog : Authority
catalog = record {
  roles =
      login_role 1 (str "writer")
      ∷ login_role 2 (str "reader")
      ∷ login_role 3 (str "clerk")
      ∷ postgres
      ∷ [];
  table_owner = str "postgres";
  schema_owner = str "postgres";
  database_owner = str "postgres";
  has_role = λ role oid how.
      (beq role (str "writer") && oid == 2)
      || (beq role (str "clerk") && (oid == 10 && beq how (str "SET")));
  has_table_privilege = λ name p. beq name (str "postgres");
  has_any_column_privilege = λ name p. beq name (str "postgres");
  has_column_privilege = λ name c p. beq name (str "postgres");
}

abbrev evaluate : Query → List Bytes
evaluate (eligibility role columns extra) = eligibility_reasons catalog role columns extra
evaluate _ = []

abbrev governed : Server
governed = record lists {
  query_rows = λ q s. (ok (record { lines = map ok (evaluate q); ending = none }), s);
}

abbrev as_lines : List Bytes → List (Result DbError Bytes)
as_lines l = map ok l

abbrev the_rows : List (Result DbError Bytes) → Result DbError Rows
the_rows lines = ok (record { lines = lines; ending = none })

answered-lines :
    (lines : List (Result DbError Bytes)) (rows : Rows)
    → the_rows lines ≡ ok rows
    → lines ≡ rows.lines
answered-lines lines rows h = cc

abbrev governed-HasAuthority : HasAuthority governed
governed-HasAuthority = record {
  authority = λ s. catalog;
  begin_authority = λ s. refl;
  query_flag_authority = λ q s. refl;
  eligibility_answer = λ role columns extra s rows h e.
      let reasons = eligibility_reasons catalog role columns extra in
      subst (λ l. Perm l (as_lines reasons)) (answered-lines (as_lines reasons) rows h)
        (Perm.refl (as_lines reasons));
}

abbrev quoted : Bytes → Bytes
quoted s = str "\"" ++ (s ++ str "\"")

-- `clerk` is refused for what it can become.
clerk_reasons :
    eligibility_reasons catalog (str "clerk") [] []
    ≡ str "postgres is a superuser"
      ∷ str "postgres has BYPASSRLS"
      ∷ str "postgres owns public.events"
      ∷ str "postgres owns schema public"
      ∷ str "postgres owns this database"
      ∷ str "postgres holds UPDATE"
      ∷ str "postgres holds DELETE"
      ∷ str "postgres holds TRUNCATE"
      ∷ str "postgres holds TRIGGER"
      ∷ []
unfolding eligibility_reasons attribute_reasons owner_reasons privilege_reasons may_mutate
    is_reachable keep pairs select_where beq
clerk_reasons = refl

eligibility_reasons-nil_example :
    (eligibility_reasons catalog (str "writer") protected_columns [] ≡ []) ↔ (
      (r : Role)
      → Memᴰ r catalog.roles
      → Reaches catalog (str "writer") r
      → IsHarmless catalog protected_columns [] r)
eligibility_reasons-nil_example =
    eligibility_reasons-nil catalog (str "writer") protected_columns []

writer_granted :
    (provision governed quoted (str "dsn") (str "writer") [] (grant_usage ∷ []) (empty_db none)).0
    ≡ ok tt
unfolding provision provision_open provision_tx exec_grants assert_provisionable check_rows
    quote_identifier open_db scan_rows eligibility_reasons attribute_reasons owner_reasons
    privilege_reasons may_mutate is_reachable keep pairs select_where beq
writer_granted = refl

reader_reached : Reaches catalog (str "writer") (login_role 2 (str "reader"))
unfolding beq
reader_reached = inr (inl refl)

provision-IsHarmless_example : IsHarmless catalog protected_columns [] (login_role 2 (str "reader"))
provision-IsHarmless_example =
    provision-IsHarmless governed quoted governed-HasAuthority (str "dsn") (str "writer") []
      (grant_usage ∷ []) (empty_db none) (login_role 2 (str "reader")) writer_granted
      (Memᴰ.tail (Memᴰ.head refl)) reader_reached
