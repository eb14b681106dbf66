-- ===== src/Postgres/Authority/Harmless.antt =====
-- What `eligibilityQuery` of store.go asks of every role that a role reaches.
use mathlib.Core.List.{Memᴰ}
use duro_ledger.Base.{◌≡◌, ◌≢◌, ◌↔◌, ◌⊎◌, arith, true, false, List, [], ◌++◌, Bytes, str, beq_iff}
use duro_ledger.Postgres.Select.{keep-mem, mem-keep, append-nil_iff}
use duro_ledger.Postgres.Authority.Branches.{
  attribute_reasons-nil, owner_reasons-nil, privilege_reasons-nil,
}
use duro_ledger.Postgres.Authority.{
  Role, Authority, is_reachable, reachable, mutating, attribute_reasons, owner_reasons,
  privilege_reasons, eligibility_reasons,
}

-- A role reaches itself, the roles that it inherits from and those that it can become.
abbrev pub Reaches : Authority → Bytes → Role → Type 0
Reaches a role r =
    (r.rolname ≡ role)
    ⊎ ((a.has_role role r.oid (str "USAGE") ≡ true) ⊎ (a.has_role role r.oid (str "SET") ≡ true))

-- A role without administrative attributes, without ownership, and without the privileges named.
pub record IsHarmless (a : Authority) (columns extra : List Bytes) (r : Role) : Type 0 where
  pub not_superuser : r.rolsuper ≡ false
  pub not_createrole : r.rolcreaterole ≡ false
  pub not_createdb : r.rolcreatedb ≡ false
  pub not_bypassrls : r.rolbypassrls ≡ false
  pub not_replication : r.rolreplication ≡ false
  pub not_table_owner : r.rolname ≢ a.table_owner
  pub not_schema_owner : r.rolname ≢ a.schema_owner
  pub not_database_owner : r.rolname ≢ a.database_owner
  pub not_mutating : (p : Bytes) → Memᴰ p mutating → a.has_table_privilege r.rolname p ≡ false
  pub not_updating : a.has_any_column_privilege r.rolname (str "UPDATE") ≡ false
  pub not_inserting :
      (c : Bytes) → Memᴰ c columns → a.has_column_privilege r.rolname c (str "INSERT") ≡ false
  pub not_extra : (p : Bytes) → Memᴰ p extra → a.has_any_column_privilege r.rolname p ≡ false

is_reachable_iff :
    (a : Authority) (role : Bytes) (r : Role) → (is_reachable a role r ≡ true) ↔ Reaches a role r
unfolding is_reachable
is_reachable_iff a role r = ground (arith, beq_iff r.rolname role)

module _ (a : Authority) (role : Bytes) (columns extra : List Bytes) where
  abbrev rows : List Role
  rows = reachable a role

  abbrev first_parts : List Bytes
  first_parts = attribute_reasons rows ++ owner_reasons a rows

  restrained :
      eligibility_reasons a role columns extra ≡ []
      → (r : Role) → Memᴰ r a.roles
      → Reaches a role r
      → IsHarmless a columns extra r
  unfolding eligibility_reasons
  restrained h r m reaches =
      let (h2, p) = (append-nil_iff first_parts (privilege_reasons a columns extra rows)).0 h in
      let (h1, o) = (append-nil_iff (attribute_reasons rows) (owner_reasons a rows)).0 h2 in
      let there =
        keep-mem (is_reachable a role) a.roles r m ((is_reachable_iff a role r).1 reaches) in
      let (sup, create, db, bypass, repl) = (attribute_reasons-nil rows).0 h1 r there in
      let (table, schema, database) = (owner_reasons-nil a rows).0 o r there in
      let (no_table, no_update, no_insert, no_extra) =
        (privilege_reasons-nil a rows columns extra).0 p r there in
      record {
        not_superuser = sup;
        not_createrole = create;
        not_createdb = db;
        not_bypassrls = bypass;
        not_replication = repl;
        not_table_owner = table;
        not_schema_owner = schema;
        not_database_owner = database;
        not_mutating = no_table;
        not_updating = no_update;
        not_inserting = no_insert;
        not_extra = no_extra;
      }

  no_reasons :
      ((r : Role) → Memᴰ r rows → IsHarmless a columns extra r)
      → eligibility_reasons a role columns extra ≡ []
  unfolding eligibility_reasons
  no_reasons each =
      let h1 = (attribute_reasons-nil rows).1 (λ r m.
        let i = each r m in
        (i.not_superuser, i.not_createrole, i.not_createdb, i.not_bypassrls, i.not_replication)) in
      let h2 = (owner_reasons-nil a rows).1 (λ r m.
        let i = each r m in (i.not_table_owner, i.not_schema_owner, i.not_database_owner)) in
      let h3 = (privilege_reasons-nil a rows columns extra).1 (λ r m.
        let i = each r m in (i.not_mutating, i.not_updating, i.not_inserting, i.not_extra)) in
      (append-nil_iff first_parts (privilege_reasons a columns extra rows)).1
        ((append-nil_iff (attribute_reasons rows) (owner_reasons a rows)).1 (h1, h2), h3)

  -- `eligibilityQuery` gives no reason against a role just if every role that it reaches, itself
  -- included, has no administrative attribute, owns neither the table nor its schema or database,
  -- holds none of `UPDATE` (of the table or of a column), `DELETE`, `TRUNCATE` and `TRIGGER`, and
  -- holds neither `INSERT` on one of the columns nor one of the extra privileges.
  pub eligibility_reasons-nil :
      (eligibility_reasons a role columns extra ≡ [])
      ↔ ((r : Role) → Memᴰ r a.roles → Reaches a role r → IsHarmless a columns extra r)
  eligibility_reasons-nil = (
    restrained,
    λ k. no_reasons (λ r m.
        let (there, reachable_here) = mem-keep (is_reachable a role) a.roles r m in
        k r there ((is_reachable_iff a role r).0 reachable_here)),
  )
