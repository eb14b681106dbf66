-- ===== src/Postgres/Provision/Checked.antt =====
-- The errors of `assertProvisionable`: it never asks for a name.
use mathlib.Core.Bool.{not}
use duro_ledger.Base.{
  inl, inr, List, [], ◌∷◌, Bytes, is_empty, Bool-cases, Result, ok, err, Result-cases,
}
use duro_ledger.Base.Action.{◌>>=◌, reject_if}
use duro_ledger.Postgres.Types.{DbError, error_is, rows}
use duro_ledger.Postgres.Server.{Server, role_can_login, eligibility}
use duro_ledger.Postgres.Initialize.{scan_rows}
use duro_ledger.Postgres.Provision.{
  ProvisionFailure, role_name_required, role_does_not_exist, role_cannot_log_in, reaches_authority,
  provision_database, protected_columns, login_failure, collected, check_rows, assert_provisionable,
}

-- An error of the check.
abbrev pub Checked : ProvisionFailure → Type 0
Checked role_name_required = ⊥
Checked role_does_not_exist = Unit {0}
Checked role_cannot_log_in = Unit {0}
Checked (reaches_authority reasons) = Unit {0}
Checked (provision_database e) = Unit {0}

-- The check never asks for a name.
abbrev pub CheckedResult : Result ProvisionFailure (Unit {0}) → Type 0
CheckedResult (ok u) = Unit {0}
CheckedResult (err e) = Checked e

module _ (S : Server) (sanitize : Bytes → Bytes) where
  login_failure-Checked : (e : DbError) → Checked (login_failure S sanitize e)
  login_failure-Checked e = elim (Bool-cases (error_is rows e)) [
    | inl missing ↦ rw missing tt
    | inr other ↦ rw other tt
  ]

  collected-Checked :
      (r : Result DbError (List Bytes)) (t : S.State)
      → CheckedResult
          ((collected S sanitize r >>= λ reasons.
              reject_if (not (is_empty reasons)) (reaches_authority reasons))
            t).0
  collected-Checked (ok []) t = tt
  collected-Checked (ok (x ∷ reasons)) t = tt
  collected-Checked (err e) t = tt

  pub assert_provisionable-Checked :
      (role : Bytes) (extra : List Bytes) (s : S.State)
      → CheckedResult (assert_provisionable S sanitize role extra s).0
  unfolding assert_provisionable check_rows
  assert_provisionable-Checked role extra s =
      let login = S.query_flag (role_can_login role) s in
      let listed = S.query_rows (eligibility role protected_columns extra) login.1 in
      elim (Result-cases login.0) [
        | inr (e, failed) ↦ rw failed (login_failure-Checked e)
        | inl (can_login, got) ↦ rw got (elim (Bool-cases can_login) [
          | inr may_not ↦ rw may_not tt
          | inl may ↦ rw may (elim (Result-cases listed.0) [
            | inr (e, failed) ↦ rw failed tt
            | inl (result, asked) ↦
                rw asked (collected-Checked (scan_rows result.ending [] result.lines) listed.1)
          ])
        ])
      ]
