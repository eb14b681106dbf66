-- ===== src/Postgres/Provision/Atomic.antt =====
-- A provisioning grants everything or nothing.
use mathlib.Core.Bool.{not}
use duro_ledger.Base.{
  ◌≡◌, ◌⊎◌, inl, inr, refl, sym, ◌∙◌, List, [], ◌∷◌, ◌++◌, map, append-nil, append_assoc, Bytes,
  is_empty, true, none, subst, Bool-cases, Result, ok, err, Result-cases,
}
use duro_ledger.Base.Action.{◌>>=◌, map_error, reject_if}
use duro_ledger.Postgres.Types.{DbError}
use duro_ledger.Postgres.Server.{Server, role_can_login, eligibility}
use duro_ledger.Postgres.Provision.Catalog.{IsCatalog, open_db_keeps}
use duro_ledger.Postgres.Ledger.{open_db}
use duro_ledger.Postgres.Initialize.{scan_rows}
use duro_ledger.Postgres.Provision.{
  ProvisionFailure, role_name_required, role_does_not_exist, role_cannot_log_in, reaches_authority,
  provision_database, protected_columns, quote_identifier, collected, check_rows,
  assert_provisionable, exec_grants, provision_tx, provision_open, provision,
}
use duro_ledger.Postgres.Provision.Checked.{Checked, CheckedResult, assert_provisionable-Checked}
use duro_ledger.Postgres.Provision.Eligible.{assert_provisionable-ok}

module _ (S : Server) (C : IsCatalog S) (sanitize : Bytes → Bytes) where
  open C use {granted, executed}

  -- The grants as they are sent.
  abbrev pub statements : Bytes → List Bytes → List Bytes
  statements ident grants = map (λ stmt. stmt ++ ident) grants

  -- The server says that the role may log in, and then reports no way by which it reaches authority.
  abbrev pub Cleared : Bytes → List Bytes → S.State → Type 0
  Cleared role extra t =
      let login = S.query_flag (role_can_login role) t in
      (login.0 ≡ ok true)
      × ((S.query_rows (eligibility role protected_columns extra) login.1).0
          ≡ ok (record { lines = []; ending = none }))

  -- How the grants stand at `t`, after a provisioning that began at `s`, by its result. `v` is the
  -- state in which the transaction starts, where the role is checked.
  abbrev pub Granted :
      Bytes
      → List Bytes
      → List Bytes
      → S.State
      → S.State
      → Result ProvisionFailure (Unit {0})
      → S.State
      → Type 0
  Granted role extra all_grants v s (ok u) t =
      Cleared role extra v × (granted t ≡ granted s ++ all_grants)
  Granted role extra all_grants v s (err (provision_database e)) t =
      (granted t ≡ granted s) ⊎ (Cleared role extra v × (granted t ≡ granted s ++ all_grants))
  Granted role extra all_grants v s (err role_name_required) t =
      (role ≡ []) × (granted t ≡ granted s)
  Granted role extra all_grants v s (err role_does_not_exist) t =
      ((assert_provisionable S sanitize role extra v).0 ≡ err role_does_not_exist)
      × (granted t ≡ granted s)
  Granted role extra all_grants v s (err role_cannot_log_in) t =
      ((assert_provisionable S sanitize role extra v).0 ≡ err role_cannot_log_in)
      × (granted t ≡ granted s)
  Granted role extra all_grants v s (err (reaches_authority reasons)) t =
      ((assert_provisionable S sanitize role extra v).0 ≡ err (reaches_authority reasons))
      × (granted t ≡ granted s)

  Granted-moved :
      (role : Bytes) (extra all_grants : List Bytes) (v s : S.State)
      (r : Result ProvisionFailure (Unit {0})) (t t' : S.State)
      → granted t' ≡ granted t
      → Granted role extra all_grants v s r t
      → Granted role extra all_grants v s r t'
  Granted-moved role extra all_grants v s (ok u) t t' e (c, h) = (c, e ∙ h)
  Granted-moved role extra all_grants v s (err role_name_required) t t' e (c, h) = (c, e ∙ h)
  Granted-moved role extra all_grants v s (err role_does_not_exist) t t' e (c, h) = (c, e ∙ h)
  Granted-moved role extra all_grants v s (err role_cannot_log_in) t t' e (c, h) = (c, e ∙ h)
  Granted-moved role extra all_grants v s (err (reaches_authority reasons)) t t' e (c, h) =
      (c, e ∙ h)
  Granted-moved role extra all_grants v s (err (provision_database x)) t t' e (inl h) = inl (e ∙ h)
  Granted-moved role extra all_grants v s (err (provision_database x)) t t' e (inr (c, h)) =
      inr (c, e ∙ h)

  -- The check has failed, and nothing has changed.
  Granted-refused :
      (role : Bytes) (extra all_grants : List Bytes) (v s : S.State) (e : ProvisionFailure)
      (t : S.State)
      → (assert_provisionable S sanitize role extra v).0 ≡ err e
      → Checked e
      → granted t ≡ granted s
      → Granted role extra all_grants v s (err e) t
  Granted-refused role extra all_grants v s role_name_required t c k h = absurd k
  Granted-refused role extra all_grants v s role_does_not_exist t c k h = (c, h)
  Granted-refused role extra all_grants v s role_cannot_log_in t c k h = (c, h)
  Granted-refused role extra all_grants v s (reaches_authority reasons) t c k h = (c, h)
  Granted-refused role extra all_grants v s (provision_database e) t c k h = inl h

  abbrev Unchanged : S.State → S.State → Type 0
  Unchanged s t = (granted t ≡ granted s) × (executed t ≡ executed s)

  collected-Unchanged :
      (s : S.State) (r : Result DbError (List Bytes)) (t : S.State)
      → Unchanged s t
      → let end =
          (collected S sanitize r >>= λ reasons.
          reject_if (not (is_empty reasons)) (reaches_authority reasons))
            t in
        Unchanged s end.1
  collected-Unchanged s (ok []) t p = p
  collected-Unchanged s (ok (x ∷ reasons)) t p = p
  collected-Unchanged s (err e) t p = p

  check_rows-Unchanged :
      (role : Bytes) (extra : List Bytes) (s t : S.State)
      → Unchanged s t
      → Unchanged s (check_rows S sanitize role extra t).1
  unfolding check_rows
  check_rows-Unchanged role extra s t p =
      let q = eligibility role protected_columns extra in
      let kept = C.query_rows_keeps q t in
      let p' : Unchanged s (S.query_rows q t).1 = (kept.0 ∙ p.0, kept.1 ∙ p.1) in
      elim (Result-cases (S.query_rows q t).0) [
        | inl (result, got) ↦
            rw got (collected-Unchanged s (scan_rows result.ending [] result.lines) _ p')
        | inr (e, failed) ↦ rw failed p'
      ]

  -- The check only reads.
  assert_provisionable-Unchanged :
      (role : Bytes) (extra : List Bytes) (s : S.State)
      → Unchanged s (assert_provisionable S sanitize role extra s).1
  unfolding assert_provisionable
  assert_provisionable-Unchanged role extra s =
      let kept = C.query_flag_keeps (role_can_login role) s in
      elim (Result-cases (S.query_flag (role_can_login role) s).0) [
        | inl (can_login, got) ↦ rw got (elim (Bool-cases can_login) [
          | inl may ↦ rw may (check_rows-Unchanged role extra s _ kept)
          | inr may_not ↦ rw may_not kept
        ])
        | inr (e, failed) ↦ rw failed kept
      ]

  exec_grants_lem :
      (ident : Bytes) (grants : List Bytes) (s : S.State)
      → let run = exec_grants S sanitize ident grants s in
        (granted run.1 ≡ granted s)
        × ((u : Unit {0}) → run.0 ≡ ok u → executed run.1 ≡ executed s ++ statements ident grants)
  unfolding exec_grants
  exec_grants_lem ident [] s = (refl, λ u h. sym (append-nil _))
  exec_grants_lem ident (stmt ∷ grants) s =
      let sent = stmt ++ ident in
      let (kept, added) = exec_grants_lem ident grants (S.exec sent s).1 in
      elim (Result-cases (S.exec sent s).0) [
        | inl (v, run) ↦ rw run (
          kept ∙ C.exec_keeps sent s,
          λ u h.
              added u h
              ∙ rw (C.exec_adds sent s v run)
                  (append_assoc (executed s) (sent ∷ []) (statements ident grants)),
        )
        | inr (e, failed) ↦ rw failed (C.exec_keeps sent s, λ u h. cc)
      ]

  exec_grants-failure :
      (ident : Bytes) (grants : List Bytes) (s : S.State) (e : ProvisionFailure)
      → (exec_grants S sanitize ident grants s).0 ≡ err e
      → (x : DbError) × (e ≡ provision_database x)
  unfolding exec_grants
  exec_grants-failure ident [] s e h = cc
  exec_grants-failure ident (stmt ∷ grants) s e h =
      elim (Result-cases (S.exec (stmt ++ ident) s).0) [
        | inl (v, run) ↦
            exec_grants-failure ident grants (S.exec (stmt ++ ident) s).1 e (rw run at h)
        | inr (x, failed) ↦ (let k = rw failed at h in (x, cc))
      ]

  commit-Granted :
      (role : Bytes) (extra all_grants : List Bytes) (v s t : S.State)
      → Cleared role extra v
      → granted t ≡ granted s
      → executed t ≡ all_grants
      → let end = map_error provision_database S.commit t in
        Granted role extra all_grants v s end.0 end.1
  commit-Granted role extra all_grants v s t clear same all_sent =
      elim (Result-cases (S.commit t).0) [
        | inl (u, confirmed) ↦
            rw confirmed (clear, (rw (C.commit_confirmed t u confirmed, same, all_sent) refl))
        | inr (e, failed) ↦ rw failed (elim (C.commit_atomic t) [
          | inl gone ↦ inl (gone ∙ same)
          | inr there ↦ inr (clear, there ∙ rw (same, all_sent) refl)
        ])
      ]

  provision_tx-Granted :
      (ident role : Bytes) (extra grants : List Bytes) (s v : S.State)
      → granted v ≡ granted s
      → executed v ≡ []
      → let end = provision_tx S sanitize ident role extra grants v in
        Granted role extra (statements ident grants) v s end.0 end.1
  unfolding provision_tx
  provision_tx-Granted ident role extra grants s v same none_yet =
      let checked = assert_provisionable S sanitize role extra v in
      let (g, x) = assert_provisionable-Unchanged role extra v in
      let run = exec_grants S sanitize ident grants checked.1 in
      let (kept, added) = exec_grants_lem ident grants checked.1 in
      elim (Result-cases checked.0) [
        | inl (u, passed) ↦ rw passed (elim (Result-cases run.0) [
          | inl (w, done) ↦
              let clear = assert_provisionable-ok S sanitize role extra v passed in
              rw done (
                commit-Granted role extra _ v s run.1 clear (kept ∙ g ∙ same)
                  (added w done ∙ rw (x, none_yet) refl))
          | inr (e, failed) ↦
              let (x', why) = exec_grants-failure ident grants checked.1 e failed in
              rw (failed, why) (inl (kept ∙ g ∙ same))
        ])
        | inr (e, failed) ↦
            let k =
              subst CheckedResult failed (assert_provisionable-Checked S sanitize role extra v) in
            rw failed (Granted-refused role extra _ v s e checked.1 failed k (g ∙ same))
      ]

  provision_open-Granted :
      (ident role : Bytes) (extra grants : List Bytes) (s t : S.State)
      → granted t ≡ granted s
      → let end = provision_open S sanitize ident role extra grants t in
        Granted role extra (statements ident grants) (S.begin t).1 s end.0 end.1
  unfolding provision_open
  provision_open-Granted ident role extra grants s t same = elim (Result-cases (S.begin t).0) [
    | inl (u, begun) ↦ rw begun (
        Granted-moved role extra _ (S.begin t).1 s _ _ _ (C.rollback_keeps _) (
          provision_tx-Granted ident role extra grants s (S.begin t).1 (C.begin_keeps t ∙ same)
            (C.begin_empty t u begun)))
    | inr (e, failed) ↦ rw failed (inl (C.begin_keeps t ∙ same))
  ]

  -- The state in which the transaction of a provisioning starts.
  abbrev pub started : Bytes → S.State → S.State
  started dsn s = (S.begin (open_db S dsn s).1).1

  -- `provision` is atomic and refuses, whatever a server answers that keeps to `IsCatalog`. Grants
  -- are there at the end only if the server said, in the transaction, that the role may log in and
  -- reaches no authority that a grant cannot restrain. On success then exactly the given grants, each
  -- with the quoted role, have been committed in order; after an error of the database either nothing
  -- has changed or all the grants are there; and an error that names the role is that of an empty
  -- name or of the check in the transaction, and nothing has changed.
  pub provision-Granted :
      (dsn role : Bytes) (extra grants : List Bytes) (s : S.State)
      → let end = provision S sanitize dsn role extra grants s in
        Granted role extra (statements (sanitize role) grants) (started dsn s) s end.0 end.1
  unfolding provision quote_identifier
  provision-Granted dsn [] extra grants s = (refl, refl)
  provision-Granted dsn (c ∷ role) extra grants s = elim (Result-cases (open_db S dsn s).0) [
    | inl (u, opened) ↦ rw opened (
        Granted-moved (c ∷ role) extra _ (started dsn s) s _ _ _ (C.close_keeps _) (
          provision_open-Granted _ (c ∷ role) extra grants s (open_db S dsn s).1
            (open_db_keeps S C dsn s)))
    | inr (e, failed) ↦ rw failed (inl (open_db_keeps S C dsn s))
  ]
