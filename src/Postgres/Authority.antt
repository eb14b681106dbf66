-- ===== src/Postgres/Authority.antt =====
-- `eligibilityQuery` of store.go: what the query selects from the system catalogs.
pub mod Branches
pub mod Harmless
use duro_ledger.Base.{
  ℕ, Bool, true, false, ◌&&◌, ◌||◌, List, [], ◌∷◌, ◌++◌, Bytes, str, beq, if◌then◌else◌,
}
use duro_ledger.Postgres.Select.{keep, pairs, select_where}

-- A row of `pg_catalog.pg_roles`.
pub record Role : Type 0 where
  pub oid : ℕ
  pub rolname : Bytes
  pub rolsuper : Bool
  pub rolcreaterole : Bool
  pub rolcreatedb : Bool
  pub rolbypassrls : Bool
  pub rolreplication : Bool

-- What the query reads of a database: the roles, the owners by name, and PostgreSQL's own functions
-- on privileges, those on tables for `public.events`.
pub record Authority : Type 0 where
  pub roles : List Role
  pub table_owner : Bytes
  pub schema_owner : Bytes
  pub database_owner : Bytes
  pub has_role : Bytes → ℕ → Bytes → Bool
  pub has_table_privilege : Bytes → Bytes → Bool
  pub has_any_column_privilege : Bytes → Bytes → Bool
  pub has_column_privilege : Bytes → Bytes → Bytes → Bool

-- The `WHERE` of `reachable`.
unfoldable pub is_reachable : Authority → Bytes → Role → Bool
is_reachable a role r =
    beq r.rolname role || (a.has_role role r.oid (str "USAGE") || a.has_role role r.oid (str "SET"))

-- The `WITH` table.
abbrev pub reachable : Authority → Bytes → List Role
reachable a role = keep (is_reachable a role) a.roles

abbrev pub mutating : List Bytes
mutating = str "UPDATE" ∷ str "DELETE" ∷ str "TRUNCATE" ∷ str "TRIGGER" ∷ []

abbrev pub reason : Bytes → Role → Bytes
reason text r = r.rolname ++ text

abbrev pub reason_with : Bytes → Role × Bytes → Bytes
reason_with text x = x.0.rolname ++ text ++ x.1

-- The branches on the attributes of a role.
unfoldable pub attribute_reasons : List Role → List Bytes
attribute_reasons rows =
    select_where (λ r. r.rolsuper) (reason (str " is a superuser")) rows
    ++ select_where (λ r. r.rolcreaterole) (reason (str " has CREATEROLE")) rows
    ++ select_where (λ r. r.rolcreatedb) (reason (str " has CREATEDB")) rows
    ++ select_where (λ r. r.rolbypassrls) (reason (str " has BYPASSRLS")) rows
    ++ select_where (λ r. r.rolreplication) (reason (str " has REPLICATION")) rows

-- The branches on ownership.
unfoldable pub owner_reasons : Authority → List Role → List Bytes
owner_reasons a rows =
    select_where (λ r. beq r.rolname a.table_owner) (reason (str " owns public.events")) rows
    ++ select_where (λ r. beq r.rolname a.schema_owner) (reason (str " owns schema public")) rows
    ++ select_where (λ r. beq r.rolname a.database_owner) (reason (str " owns this database")) rows

-- The test of the branch on table privileges.
unfoldable pub may_mutate : Authority → Role × Bytes → Bool
may_mutate a x =
    a.has_table_privilege x.0.rolname x.1
    || (beq x.1 (str "UPDATE") && a.has_any_column_privilege x.0.rolname x.1)

-- The branches on privileges.
unfoldable pub privilege_reasons : Authority → List Bytes → List Bytes → List Role → List Bytes
privilege_reasons a columns extra rows =
    select_where (may_mutate a) (reason_with (str " holds ")) (pairs rows mutating)
    ++ select_where (λ x. a.has_column_privilege x.0.rolname x.1 (str "INSERT"))
        (reason_with (str " holds INSERT on server-owned column ")) (pairs rows columns)
    ++ select_where (λ x. a.has_any_column_privilege x.0.rolname x.1) (reason_with (str " holds "))
        (pairs rows extra)

-- The rows of `eligibilityQuery` in the order of its branches; `ORDER BY` sorts them as the database
-- compares texts.
unfoldable pub eligibility_reasons : Authority → Bytes → List Bytes → List Bytes → List Bytes
eligibility_reasons a role columns extra =
    let rows = reachable a role in
    attribute_reasons rows ++ owner_reasons a rows ++ privilege_reasons a columns extra rows
