-- ===== src/Postgres/Provision/Eligible.antt =====
-- When `assertProvisionable` lets a role pass.
use mathlib.Core.Bool.{not}
use mathlib.Core.Path.{ap₂}
use duro_ledger.Base.{
  ◌≡◌, ◌≢◌, refl, ap, subst, ◌∙◌, arith, Bool, true, false, Option, none, some, List, [], ◌∷◌, ◌++◌,
  Bytes, is_empty, Result, ok, err, inl, inr, Result-cases,
}
use duro_ledger.Base.Action.{◌>>=◌, map_error, map_result, reject_if}
use duro_ledger.Base.Action.Keeps.{bind_ok, require_ok}
use duro_ledger.Postgres.Types.{DbError}
use duro_ledger.Postgres.Server.{Server, Rows, role_can_login, eligibility}
use duro_ledger.Postgres.Initialize.{scan_rows}
use duro_ledger.Postgres.Provision.{
  ProvisionFailure, role_cannot_log_in, reaches_authority, provision_database, protected_columns,
  login_failure, collected, check_rows, assert_provisionable,
}

append-ne-nil : (out : List Bytes) (line : Bytes) → out ++ (line ∷ []) ≢ []
append-ne-nil [] line h = cc
append-ne-nil (o ∷ out) line h = cc

scan_rows-nil :
    (ending : Option DbError) (out : List Bytes) (lines : List (Result DbError Bytes))
    (r : List Bytes)
    → scan_rows ending out lines ≡ ok r
    → is_empty r ≡ true
    → (out ≡ []) × (lines ≡ []) × (ending ≡ none)
unfolding scan_rows
scan_rows-nil none [] [] r h e = ground arith
scan_rows-nil none (o ∷ out) [] r h e = ground arith
scan_rows-nil (some x) out [] r h e = cc
scan_rows-nil ending out (ok line ∷ lines) r h e =
    absurd (append-ne-nil out line (scan_rows-nil ending (out ++ (line ∷ [])) lines r h e).0)
scan_rows-nil ending out (err x ∷ lines) r h e = cc

map_result-ok :
    {A : Type 0} (f : DbError → ProvisionFailure) (r : Result DbError A) (a : A)
    → map_result f r ≡ ok a
    → r ≡ ok a
map_result-ok f (ok x) a h = cc
map_result-ok f (err e) a h = cc

passed :
    {S : Type 0} (c : Bool) (e : ProvisionFailure) (s : S)
    → (reject_if (not c) e s).0 ≡ ok tt
    → c ≡ true
passed true e s h = refl
passed false e s h = cc

module _ (S : Server) (sanitize : Bytes → Bytes) where
  collected-ok :
      (rows : Rows) (s : S.State)
      → ((collected S sanitize (scan_rows rows.ending [] rows.lines) >>= λ reasons.
            reject_if (not (is_empty reasons)) (reaches_authority reasons))
          s).0
        ≡ ok tt
      → rows ≡ record { lines = []; ending = none }
  collected-ok rows s h = elim (Result-cases (scan_rows rows.ending [] rows.lines)) [
    | inl (reasons, read) ↦
        let tested = rw read at h in
        let (out, lines, ending) =
          scan_rows-nil rows.ending [] rows.lines reasons read
            (passed (is_empty reasons) _ s tested) in
        ap₂ (λ l e. record { lines = l; ending = e }) lines ending
    | inr (e, failed) ↦ (let k = rw failed at h in cc)
  ]

  check_rows-ok :
      (role : Bytes) (extra : List Bytes) (s : S.State)
      → (check_rows S sanitize role extra s).0 ≡ ok tt
      → (S.query_rows (eligibility role protected_columns extra) s).0
        ≡ ok (record { lines = []; ending = none })
  unfolding check_rows
  check_rows-ok role extra s h =
      let q = S.query_rows (eligibility role protected_columns extra) in
      let (rows, asked, run) = bind_ok (map_error provision_database q) _ s h in
      map_result-ok provision_database (q s).0 rows asked
      ∙ ap ok (collected-ok rows (q s).1 (subst (λ x. x.0 ≡ ok tt) run h))

  -- A role passes only if the server says that it may log in, and then reports no way at all by which
  -- it reaches the protected columns, another privilege of the table, or one of the extra privileges.
  pub assert_provisionable-ok :
      (role : Bytes) (extra : List Bytes) (s : S.State)
      → (assert_provisionable S sanitize role extra s).0 ≡ ok tt
      → let login = S.query_flag (role_can_login role) s in
        (login.0 ≡ ok true)
        × ((S.query_rows (eligibility role protected_columns extra) login.1).0
            ≡ ok (record { lines = []; ending = none }))
  unfolding assert_provisionable
  assert_provisionable-ok role extra s h =
      let q = S.query_flag (role_can_login role) in
      let (may, asked, run) = bind_ok (map_error (login_failure S sanitize) q) _ s h in
      let (yes_may, run2) =
        require_ok may role_cannot_log_in (check_rows S sanitize role extra) (q s).1
          (subst (λ x. x.0 ≡ ok tt) run h) in
      (
        map_result-ok (login_failure S sanitize) (q s).0 may asked ∙ ap ok yes_may,
        check_rows-ok role extra (q s).1 (subst (λ x. x.0 ≡ ok tt) (run ∙ run2) h),
      )
