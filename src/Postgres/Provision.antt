-- ===== src/Postgres/Provision.antt =====
-- `quoteIdentifier`, `assertProvisionable`, `provision`, `ProvisionWriter` and `ProvisionReader` of
-- store.go. `pgx.Identifier.Sanitize` is a parameter.
pub mod Atomic
pub mod Catalog
pub mod Checked
pub mod Eligible
pub mod Restricted
use mathlib.Core.Bool.{not}
use duro_ledger.Base.{
  Bool, true, false, Option, none, some, List, [], ◌∷◌, ◌++◌, if◌then◌else◌, Bytes, str, is_empty,
  Result, ok, err,
}
use duro_ledger.Base.Action.{Action, ◌>>=◌, ◌>>◌, pure, fail, map_error, reject_if, then_do}
use duro_ledger.Postgres.Types.{DbError, error_is, rows}
use duro_ledger.Postgres.Server.{Server, Rows, role_can_login, eligibility}
use duro_ledger.Postgres.Ledger.{open_db}
use duro_ledger.Postgres.Initialize.{scan_rows}

-- What provisioning returns beside success.
pub data ProvisionFailure : Type 0 where
  role_name_required role_does_not_exist role_cannot_log_in : ProvisionFailure
  reaches_authority : List Bytes → ProvisionFailure
  provision_database : DbError → ProvisionFailure

-- `protectedColumns`
abbrev pub protected_columns : List Bytes
protected_columns = str "id" ∷ str "received_at" ∷ str "actor" ∷ []

abbrev pub grant_usage : Bytes
grant_usage = str "GRANT USAGE ON SCHEMA public TO "

abbrev pub grant_insert : Bytes
grant_insert = str "GRANT INSERT (event_type, content, refs) ON public.events TO "

abbrev pub grant_select : Bytes
grant_select = str "GRANT SELECT ON public.events TO "

module _ (S : Server) (sanitize : Bytes → Bytes) where
  abbrev pub Provisioning : Type 0 → Type 0
  Provisioning = Action S.State ProvisionFailure

  -- `quoteIdentifier`
  unfoldable pub quote_identifier : Bytes → Result ProvisionFailure Bytes
  quote_identifier role = if is_empty role then err role_name_required else ok (sanitize role)

  abbrev pub login_failure : DbError → ProvisionFailure
  login_failure e = if error_is rows e then role_does_not_exist else provision_database e

  abbrev pub collected : Result DbError (List Bytes) → Provisioning (List Bytes)
  collected (ok reasons) = pure reasons
  collected (err e) = fail (provision_database e)

  -- The part of `assertProvisionable` that reads the reasons.
  unfoldable pub check_rows : Bytes → List Bytes → Provisioning (Unit {0})
  check_rows role extra_privileges = do
    result ←
        map_error provision_database
          (S.query_rows (eligibility role protected_columns extra_privileges))
    reasons ← collected (scan_rows result.ending [] result.lines)
    reject_if (not (is_empty reasons)) (reaches_authority reasons)

  -- `assertProvisionable`
  unfoldable pub assert_provisionable : Bytes → List Bytes → Provisioning (Unit {0})
  assert_provisionable role extra_privileges = do
    can_login ← map_error login_failure (S.query_flag (role_can_login role))
    reject_if (not can_login) role_cannot_log_in
    check_rows role extra_privileges

  -- The loop over the grants.
  unfoldable pub exec_grants : Bytes → List Bytes → Provisioning (Unit {0})
  exec_grants ident [] = pure tt
  exec_grants ident (stmt ∷ grants) = do
    map_error provision_database (S.exec (stmt ++ ident))
    exec_grants ident grants

  unfoldable pub provision_tx : Bytes → Bytes → List Bytes → List Bytes → Provisioning (Unit {0})
  provision_tx ident role extra_privileges grants = do
    assert_provisionable role extra_privileges
    exec_grants ident grants
    map_error provision_database S.commit

  unfoldable pub provision_open : Bytes → Bytes → List Bytes → List Bytes → Provisioning (Unit {0})
  provision_open ident role extra_privileges grants = do
    map_error provision_database S.begin
    then_do S.rollback (provision_tx ident role extra_privileges grants)

  -- `provision`; each grant is its format without the closing `%s`.
  unfoldable pub provision : Bytes → Bytes → List Bytes → List Bytes → Provisioning (Unit {0})
  provision dsn role extra_privileges grants = do
    ident ← λ s. (quote_identifier role, s)
    map_error provision_database (open_db S dsn)
    then_do S.close (provision_open ident role extra_privileges grants)

  -- `ProvisionWriter`
  unfoldable pub provision_writer : Bytes → Bytes → Provisioning (Unit {0})
  provision_writer dsn role = provision dsn role [] (grant_usage ∷ grant_insert ∷ grant_select ∷ [])

  -- `ProvisionReader`
  unfoldable pub provision_reader : Bytes → Bytes → Provisioning (Unit {0})
  provision_reader dsn role =
      provision dsn role (str "INSERT" ∷ []) (grant_usage ∷ grant_select ∷ [])
