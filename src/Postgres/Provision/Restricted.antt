-- ===== src/Postgres/Provision/Restricted.antt =====
-- What a role can reach that `provision` has granted something.
use mathlib.Core.List.{Memᴰ, Perm}
use mathlib.Core.List.Perm
use duro_ledger.Base.{◌≡◌, refl, subst, none, List, [], ◌∷◌, map, Bytes, Result, ok}
use duro_ledger.Base.Action.{map_error, then_do}
use duro_ledger.Base.Action.Keeps.{bind_ok}
use duro_ledger.Postgres.Types.{DbError}
use duro_ledger.Postgres.Ledger.{open_db}
use duro_ledger.Postgres.Server.{Server, Query, Rows, role_can_login, eligibility}
use duro_ledger.Postgres.Authority.{Role, Authority, eligibility_reasons}
use duro_ledger.Postgres.Authority.Harmless.{Reaches, IsHarmless, eligibility_reasons-nil}
use duro_ledger.Postgres.Provision.{
  provision_database, assert_provisionable, protected_columns, provision_tx, provision_open,
  provision, quote_identifier,
}
use duro_ledger.Postgres.Provision.Eligible.{assert_provisionable-ok}

-- What is documented of the queries on the system catalogs: `eligibilityQuery` answers, if no error
-- ends it, with the rows that it selects, in the order of the database; and neither `BEGIN` nor a
-- query changes the authority of a role.
pub record HasAuthority (S : Server) : Type 0 where
  pub authority : S.State → Authority
  pub begin_authority : (s : S.State) → authority (S.begin s).1 ≡ authority s
  pub query_flag_authority :
      (q : Query) (s : S.State) → authority (S.query_flag q s).1 ≡ authority s
  pub eligibility_answer :
      (role : Bytes) (columns extra : List Bytes) (s : S.State) (rows : Rows)
      → (S.query_rows (eligibility role columns extra) s).0 ≡ ok rows
      → rows.ending ≡ none
      → Perm rows.lines (map ok (eligibility_reasons (authority s) role columns extra))

abbrev as_lines : List Bytes → List (Result DbError Bytes)
as_lines l = map ok l

as_lines-nil : (l : List Bytes) → [] ≡ as_lines l → l ≡ []
as_lines-nil [] h = refl
as_lines-nil (x ∷ l) h = cc

module _ (S : Server) (sanitize : Bytes → Bytes) (H : HasAuthority S) where
  open H use {authority}

  assert_provisionable-none :
      (role : Bytes) (extra : List Bytes) (s : S.State)
      → (assert_provisionable S sanitize role extra s).0 ≡ ok tt
      → eligibility_reasons (authority s) role protected_columns extra ≡ []
  assert_provisionable-none role extra s passed =
      let (may, answered) = assert_provisionable-ok S sanitize role extra s passed in
      let t = (S.query_flag (role_can_login role) s).1 in
      let listed = H.eligibility_answer role protected_columns extra t _ answered refl in
      subst (λ a. eligibility_reasons a role protected_columns extra ≡ [])
        (H.query_flag_authority (role_can_login role) s) (as_lines-nil _ (Perm.nil-eq listed))

  provision_open-none :
      (ident role : Bytes) (extra grants : List Bytes) (s : S.State)
      → (provision_open S sanitize ident role extra grants s).0 ≡ ok tt
      → eligibility_reasons (authority s) role protected_columns extra ≡ []
  unfolding provision_open provision_tx
  provision_open-none ident role extra grants s h =
      let (u, begun, run) =
        bind_ok (map_error provision_database S.begin)
          (λ x. then_do S.rollback (provision_tx S sanitize ident role extra grants)) s h in
      let t = (S.begin s).1 in
      let (v, passed, rest) =
        bind_ok (assert_provisionable S sanitize role extra) _ t (subst (λ x. x.0 ≡ ok tt) run h) in
      subst (λ a. eligibility_reasons a role protected_columns extra ≡ []) (H.begin_authority s)
        (assert_provisionable-none role extra t passed)

  -- `provision` grants only to a role that is restricted: if it succeeds with a server whose catalog
  -- queries answer as documented (`HasAuthority`), then in the database that it has connected to every
  -- role that the role reaches, itself included, has no administrative attribute, owns neither the
  -- table nor its schema or database, holds none of `UPDATE` (of the table or of a column), `DELETE`,
  -- `TRUNCATE` and `TRIGGER`, and holds neither `INSERT` on a column that the server fills nor one of
  -- the extra privileges.
  pub provision-IsHarmless :
      (dsn role : Bytes) (extra grants : List Bytes) (s : S.State) (r : Role)
      → let a = authority (open_db S dsn s).1 in
        (provision S sanitize dsn role extra grants s).0 ≡ ok tt
        → Memᴰ r a.roles
        → Reaches a role r
        → IsHarmless a protected_columns extra r
  unfolding provision quote_identifier
  provision-IsHarmless dsn [] extra grants s r h m reaches = cc
  provision-IsHarmless dsn (c ∷ role) extra grants s r h m reaches =
      let ident = sanitize (c ∷ role) in
      let t = (open_db S dsn s).1 in
      let (u, opened, run) =
        bind_ok (map_error provision_database (open_db S dsn))
          (λ x. then_do S.close (provision_open S sanitize ident (c ∷ role) extra grants)) s h in
      let none_there =
        provision_open-none ident (c ∷ role) extra grants t (subst (λ x. x.0 ≡ ok tt) run h) in
      (eligibility_reasons-nil (authority t) (c ∷ role) protected_columns extra).0 none_there r m
        reaches
