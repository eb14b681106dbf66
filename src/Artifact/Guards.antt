-- ===== src/Artifact/Guards.antt =====
-- The guards of `Put`: which one a failure stands for, and what the others have let pass.
use duro_ledger.Base.{
  ◌≡◌, inl, inr, refl, true, false, Bool-cases, [], ◌∷◌, Bytes, is_empty, Result, ok, err,
}
use duro_ledger.Base.Action.{◌>>=◌, pure, map_result, after_result}
use duro_ledger.Go.Utf8.{valid_string}
use duro_ledger.Os.Path.{join}
use duro_ledger.Os.State.{Errno}
use duro_ledger.Cas.Identity.{Sha256, format_identity}
use duro_ledger.Cas.Types.{CasError, Store}
use duro_ledger.Cas.Write.{Receipt, write_file}
use duro_ledger.Postgres.Types.{StoredEvent}
use duro_ledger.Artifact.{
  Appender, LedgerError, on_ledger, PutResult, PutFailure, no_absolute_path, no_hostname,
  empty_hostname, not_utf8, source_path, source_host, not_stored, put_error, observation_event,
  World, observe, put_resolved,
}

-- The path is absolute and the host has a name, both of them in valid UTF-8.
abbrev pub IsNamed : Result Errno Bytes → Result Errno Bytes → Type 0
IsNamed resolved named_host =
    (path : Bytes) × (resolved ≡ ok path)
    × (valid_string path ≡ true)
    × (name : Bytes) × (named_host ≡ ok name)
    × (is_empty name ≡ false)
    × (valid_string name ≡ true)

-- `resolved` and `named_host` are what `filepath.Abs` and `os.Hostname` answer. The guard of `Put` that a result names is the first one that fails, and any other result comes
-- from a path and a host that pass all of them.
abbrev pub Accepted : Result Errno Bytes → Result Errno Bytes → Result PutFailure PutResult → Type 0
Accepted resolved named_host (ok result) = IsNamed resolved named_host
Accepted resolved named_host (err (put_error p)) = IsNamed resolved named_host
Accepted resolved named_host (err (not_stored e)) = IsNamed resolved named_host
Accepted resolved named_host (err (no_absolute_path e)) = resolved ≡ err e
Accepted resolved named_host (err (no_hostname e)) =
    (path : Bytes) × (resolved ≡ ok path) × (named_host ≡ err e)
Accepted resolved named_host (err empty_hostname) =
    (path : Bytes) × (resolved ≡ ok path) × (named_host ≡ ok [])
Accepted resolved named_host (err (not_utf8 source_path)) =
    (path : Bytes) × (resolved ≡ ok path)
    × (valid_string path ≡ false)
    × (name : Bytes) × (named_host ≡ ok name)
    × (is_empty name ≡ false)
Accepted resolved named_host (err (not_utf8 source_host)) =
    (path : Bytes) × (resolved ≡ ok path)
    × (valid_string path ≡ true)
    × (name : Bytes) × (named_host ≡ ok name)
    × (is_empty name ≡ false)
    × (valid_string name ≡ false)

module _ (A : Appender) where
  -- Behind the guards there is no more failure of one of them.
  answered-Accepted :
      (resolved named_host : Result Errno Bytes) (identity : Bytes) (r : Receipt) (w : World A)
      (answer : Result LedgerError StoredEvent) (t : A.State)
      → IsNamed resolved named_host
      → Accepted resolved named_host
          ((on_ledger A identity r.size (λ u. (answer, t)) >>= λ se.
              pure (record { digest = identity; size = r.size; event = se }))
            w).0
  answered-Accepted resolved named_host identity r w (ok se) t named = named
  answered-Accepted resolved named_host identity r w (err e) t named = named

  put_file-Accepted :
      (resolved named_host : Result Errno Bytes) (path name : Bytes) (w : World A)
      (stored : Result CasError Receipt)
      → IsNamed resolved named_host
      → Accepted resolved named_host
          (after_result (observe A name path) (map_result not_stored stored) w).0
  unfolding observe
  put_file-Accepted resolved named_host path name w (err e) named = named
  put_file-Accepted resolved named_host path name w (ok r) named =
      let n = observation_event (format_identity r.digest) r.size name path in
      let done = A.append n w.ledger in
      answered-Accepted resolved named_host (format_identity r.digest) r w done.0 done.1 named

  pub put_resolved-Accepted :
      (H : Sha256) (s : Store) (path name : Bytes) (w : World A)
      → Accepted (ok path) (ok name) (put_resolved A H s path name w).0
  unfolding put_resolved
  put_resolved-Accepted H s path [] w = (path, refl, refl)
  put_resolved-Accepted H s path (c ∷ name) w = elim (Bool-cases (valid_string path)) [
    | inr bad ↦ rw bad (path, refl, bad, c ∷ name, refl, refl)
    | inl good ↦ rw good (elim (Bool-cases (valid_string (c ∷ name))) [
      | inr bad ↦ rw bad (path, refl, good, c ∷ name, refl, refl, bad)
      | inl fine ↦
          let stored = write_file H s (join [] (path ∷ [])) w.os in
          rw fine (
            put_file-Accepted (ok path) (ok (c ∷ name)) path (c ∷ name) (record w { os = stored.1 })
              stored.0 (path, refl, good, c ∷ name, refl, refl, fine))
    ])
  ]
