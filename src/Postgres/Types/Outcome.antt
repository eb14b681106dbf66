-- ===== src/Postgres/Types/Outcome.antt =====
-- What `classifyCommitErr` of store.go decides.
use duro_ledger.Base.{
  ◌≡◌, ◌≢◌, ◌↔◌, ◌⊎◌, inl, inr, refl, arith, true, false, none, some, str, beq_iff, Option-cases,
  Bool-cases,
}
use duro_ledger.Postgres.Types.{
  PgError, DbError, as_pg_error, error_is, commit_rollback, done, CommitOutcome,
  outcome_not_committed, outcome_unknown, classify_commit_err, session_lost, has_prefix,
}

-- An answer by which the server, or the driver, says that the transaction did not commit: a server
-- error of another severity than FATAL and PANIC, outside class 08, and no shutdown; or, where no
-- server error is wrapped, that the commit was a rollback or was never sent.
pub data IsRefusal (e : DbError) : Type 0 where
  refused :
      (p : PgError)
      → as_pg_error e ≡ some p
      → p.severity ≢ str "FATAL"
      → p.severity ≢ str "PANIC"
      → has_prefix p.code (str "08") ≡ false
      → p.code ≢ str "57P01"
      → p.code ≢ str "57P02"
      → p.code ≢ str "57P03"
      → IsRefusal e
  rolled_back : as_pg_error e ≡ none → error_is commit_rollback e ≡ true → IsRefusal e
  never_sent : as_pg_error e ≡ none → error_is done e ≡ true → IsRefusal e

session_lost-false :
    (p : PgError)
    → (session_lost p ≡ false) ↔ (
        (p.severity ≢ str "FATAL")
        × (p.severity ≢ str "PANIC")
        × (has_prefix p.code (str "08") ≡ false)
        × (p.code ≢ str "57P01")
        × (p.code ≢ str "57P02")
        × (p.code ≢ str "57P03"))
unfolding session_lost
session_lost-false p = ground (
  arith,
  beq_iff p.severity (str "FATAL"),
  beq_iff p.severity (str "PANIC"),
  beq_iff p.code (str "57P01"),
  beq_iff p.code (str "57P02"),
  beq_iff p.code (str "57P03"),
)

IsRefusal-classify_commit_err :
    (e : DbError) → IsRefusal e → classify_commit_err e ≡ outcome_not_committed
unfolding classify_commit_err
IsRefusal-classify_commit_err e (refused p found a b c d f g) =
    rw (found, (session_lost-false p).1 (a, b, c, d, f, g))
IsRefusal-classify_commit_err e (rolled_back found h) = rw (found, h)
IsRefusal-classify_commit_err e (never_sent found h) = rw found (ground arith)

pub classify_commit_err-IsRefusal :
    (e : DbError) → classify_commit_err e ≡ outcome_not_committed → IsRefusal e
unfolding classify_commit_err
classify_commit_err-IsRefusal e h = elim (Option-cases (as_pg_error e)) [
  | inl absent ↦ elim (Bool-cases (error_is commit_rollback e)) [
    | inl yes_rollback ↦ rolled_back absent yes_rollback
    | inr not_rollback ↦ never_sent absent (ground arith)
  ]
  | inr (p, found) ↦
      let (a, b, c, d, f, g) = (session_lost-false p).0 (ground arith) in
      refused p found a b c d f g
]

pub outcome-cases : (o : CommitOutcome) → (o ≡ outcome_not_committed) ⊎ (o ≡ outcome_unknown)
outcome-cases outcome_not_committed = inl refl
outcome-cases outcome_unknown = inr refl

-- `classifyCommitErr` says "not committed" exactly when the error is an answer by which the server
-- or the driver rules the commit out: a wrapped server error that is neither FATAL nor PANIC, not
-- of class 08 and none of 57P01, 57P02 and 57P03; or, with no server error wrapped, a commit that
-- was a rollback or was never sent. In every other case it says "unknown".
pub classify_commit_err_iff :
    (e : DbError)
    → ((classify_commit_err e ≡ outcome_not_committed) ↔ IsRefusal e)
      × ((classify_commit_err e ≡ outcome_unknown) ↔ (¬ IsRefusal e))
classify_commit_err_iff e = (
  (classify_commit_err-IsRefusal e, IsRefusal-classify_commit_err e),
  (
    λ u r. ground (arith, IsRefusal-classify_commit_err e r),
    λ h. elim (outcome-cases (classify_commit_err e)) [
      | inl not_committed ↦ absurd (h (classify_commit_err-IsRefusal e not_committed))
      | inr unknown ↦ unknown
    ],
  ),
)
