-- ===== src/Artifact/Settled.antt =====
-- How the two stores stand after a `Put`, by how it ended.
use duro_ledger.Base.{
  ℕ, ◌≡◌, ◌⊎◌, inl, inr, refl, ap, ◌∙◌, none, true, Bool-cases, [], ◌∷◌, ◌++◌, Bytes, str, is_empty,
  Result, ok, err, Result-cases,
}
use duro_ledger.Base.Action.{pure, map_result, after_result}
use duro_ledger.Go.Utf8.{valid_string}
use duro_ledger.Event.Types.{New}
use duro_ledger.Os.Path.{FilePath, join}
use duro_ledger.Os.State.{Errno, Os}
use duro_ledger.Os.Calls.{open_file}
use duro_ledger.Cas.Identity.{Sha256, format_identity}
use duro_ledger.Cas.Types.{CasError, Store}
use duro_ledger.Cas.Write.{Receipt, write_file}
use duro_ledger.Cas.Write.Fill.{SyncKeeps}
use duro_ledger.Cas.Write.Source.{IsFileReceipt, write_file-IsFileReceipt}
use duro_ledger.Postgres.Types.{
  StoredEvent, outcome_not_committed, outcome_unknown, outcome_string, AppendFailure, invalid,
  append_error,
}
use duro_ledger.Postgres.Server.{Server}
use duro_ledger.Postgres.Ledger.{append}
use duro_ledger.Postgres.Ledger.Commits.{IsLedger, Settled, append-Settled}
use duro_ledger.Artifact.Guards.{Accepted, put_resolved-Accepted}
use duro_ledger.Artifact.{
  postgres_appender, ledger_error, Host, observed, PutResult, PutFailure, no_absolute_path,
  no_hostname, empty_hostname, not_utf8, not_stored, put_error, event_outcome_of, observation_event,
  World, observe, put_resolved, put,
}

-- The absolute path, where there is one.
abbrev pub absolute : Result Errno Bytes → Bytes
absolute (ok path) = path
absolute (err e) = []

module _ (S : Server) (L : IsLedger S) (H : Sha256) (s : Store) where
  open L use {appended}

  abbrev Both : Type 0
  Both = World (postgres_appender S)

  -- The file at `path` was put: an identity and a size are those of its bytes, and the blob is there.
  abbrev pub IsPut : Bytes → Both → Bytes → ℕ → Both → Type 0
  IsPut path w identity size w' =
      (f : FilePath) × ((open_file (join [] (path ∷ [])) w.os).0 ≡ ok f)
      × (r : Receipt) × (identity ≡ format_identity r.digest)
      × (size ≡ r.size)
      × IsFileReceipt H s f w.os r w'.os

  -- What an outcome says of the events.
  abbrev pub OutcomeHolds : Bytes → Both → Both → Type 0
  OutcomeHolds outcome w w' =
      ((outcome ≡ str "not_committed") × (appended w'.ledger ≡ appended w.ledger))
      ⊎ ((outcome ≡ str "unknown")
          × ((appended w'.ledger ≡ appended w.ledger)
              ⊎ ((se : StoredEvent) × (appended w'.ledger ≡ appended w.ledger ++ (se ∷ [])))))

  -- The two stores after a `Put` of the file at `path`.
  abbrev pub PutSettled : Bytes → Both → Result PutFailure PutResult → Both → Type 0
  PutSettled path w (ok result) w' =
      IsPut path w result.digest result.size w'
      × (appended w'.ledger ≡ appended w.ledger ++ (result.event ∷ []))
      × (result.event.event_type ≡ observed)
  PutSettled path w (err (put_error p)) w' =
      IsPut path w p.digest p.size w'
      × (p.artifact_stored ≡ true)
      × OutcomeHolds p.event_outcome w w'
  PutSettled path w (err (not_stored e)) w' = w'.ledger ≡ w.ledger
  PutSettled path w (err (no_absolute_path e)) w' = w' ≡ w
  PutSettled path w (err (no_hostname e)) w' = w' ≡ w
  PutSettled path w (err empty_hostname) w' = w' ≡ w
  PutSettled path w (err (not_utf8 field)) w' = w' ≡ w

  -- What `observe` makes of the answer of `Append`.
  abbrev answer_of :
      Receipt
      → Both
      → Result AppendFailure StoredEvent
      → S.State
      → Result PutFailure PutResult × Both
  answer_of r w answer t =
      let identity = format_identity r.digest in
      after_result (λ se. pure (record { digest = identity; size = r.size; event = se }))
        (map_result
          (λ e. put_error (record {
            digest = identity;
            size = r.size;
            artifact_stored = true;
            event_outcome = event_outcome_of e;
            cause = e;
          }))
          (map_result ledger_error answer))
        (record w { ledger = t })

  not_committed_text : outcome_string outcome_not_committed ≡ str "not_committed"
  unfolding outcome_string
  not_committed_text = refl

  unknown_text : outcome_string outcome_unknown ≡ str "unknown"
  unfolding outcome_string
  unknown_text = refl

  -- The events at `t`, by those at the state before or behind `WriteFile`, which are the same.
  unknown_events :
      (x y t : S.State)
      → y ≡ x
      → (appended t ≡ appended y) ⊎ ((se : StoredEvent) × (appended t ≡ appended y ++ (se ∷ [])))
      → (appended t ≡ appended x) ⊎ ((se : StoredEvent) × (appended t ≡ appended x ++ (se ∷ [])))
  unknown_events x y t same (inl gone) = inl (gone ∙ ap appended same)
  unknown_events x y t same (inr (se, there)) =
      inr (se, there ∙ ap (λ z. appended z ++ (se ∷ [])) same)

  -- `w` is the state before `WriteFile`, `v` the one behind it.
  answer_of-PutSettled :
      (path : Bytes) (w v : Both) (f : FilePath) (r : Receipt) (n : New)
      (answer : Result AppendFailure StoredEvent) (t : S.State)
      → (open_file (join [] (path ∷ [])) w.os).0 ≡ ok f
      → IsFileReceipt H s f w.os r v.os
      → v.ledger ≡ w.ledger
      → n.event_type ≡ observed
      → Settled S L n v.ledger answer t
      → PutSettled path w (answer_of r v answer t).0 (answer_of r v answer t).1
  answer_of-PutSettled path w v f r n (ok se) t opened receipt same kind (there, kept) = (
    (f, opened, r, refl, refl, receipt),
    there ∙ ap (λ x. appended x ++ (se ∷ [])) same,
    kept ∙ kind,
  )
  answer_of-PutSettled path w v f r n (err (invalid e)) t opened receipt same kind
        (why, untouched) =
      ((f, opened, r, refl, refl, receipt), refl, inr (refl, inl (ap appended (untouched ∙ same))))
  answer_of-PutSettled path w v f r n (err (append_error outcome_not_committed e)) t opened receipt
        same kind h =
      ((f, opened, r, refl, refl, receipt), refl, inl (not_committed_text, h ∙ ap appended same))
  answer_of-PutSettled path w v f r n (err (append_error outcome_unknown e)) t opened receipt same
        kind h =
      (
        (f, opened, r, refl, refl, receipt),
        refl,
        inr (unknown_text, unknown_events w.ledger v.ledger t same h),
      )

  observe-PutSettled :
      (path host : Bytes) (w v : Both) (f : FilePath) (r : Receipt)
      → (open_file (join [] (path ∷ [])) w.os).0 ≡ ok f
      → IsFileReceipt H s f w.os r v.os
      → v.ledger ≡ w.ledger
      → let done = observe (postgres_appender S) host path r v in PutSettled path w done.0 done.1
  unfolding observe
  observe-PutSettled path host w v f r opened receipt same =
      let n = observation_event (format_identity r.digest) r.size host path in
      let done = append S n v.ledger in
      answer_of-PutSettled path w v f r n done.0 done.1 opened receipt same refl
        (append-Settled S L n v.ledger)

  -- The ledger is not touched by storing.
  put_file-PutSettled :
      (path host : Bytes) (w : Both) (stored : Result CasError Receipt) (os : Os)
      → ((r : Receipt)
          → stored ≡ ok r
          → (f : FilePath) × ((open_file (join [] (path ∷ [])) w.os).0 ≡ ok f)
            × IsFileReceipt H s f w.os r os)
      → let done =
          after_result
            (observe (postgres_appender S) host path)
            (map_result not_stored stored)
            (record w { os = os }) in
        PutSettled path w done.0 done.1
  put_file-PutSettled path host w (err e) os good = refl
  put_file-PutSettled path host w (ok r) os good =
      let (f, opened, receipt) = good r refl in
      observe-PutSettled path host w (record w { os = os }) f r opened receipt refl

  put_resolved-PutSettled :
      (path host : Bytes) (w : Both)
      → SyncKeeps s
      → s.after_stat ≡ none
      → let done = put_resolved (postgres_appender S) H s path host w in
        PutSettled path w done.0 done.1
  unfolding put_resolved
  put_resolved-PutSettled path host w sync_keeps no_hook = elim (Bool-cases (is_empty host)) [
    | inl nameless ↦ rw nameless refl
    | inr named ↦ rw named (elim (Bool-cases (valid_string path)) [
      | inr bad ↦ rw bad refl
      | inl good ↦ rw good (elim (Bool-cases (valid_string host)) [
        | inr bad ↦ rw bad refl
        | inl fine ↦
            let place = join [] (path ∷ []) in
            let stored = write_file H s place w.os in
            rw fine (
              put_file-PutSettled path host w stored.0 stored.1
                λ r h. write_file-IsFileReceipt H s place w.os r sync_keeps no_hook h)
      ])
    ])
  ]

  -- `Put` with the ledger of pkg/postgres, over a server that keeps to `IsLedger`, on a store whose
  -- sync changes no file and with the hook of the tests not set, whatever calls fail. It fails with one
  -- of its guards only if the path has no absolute form, the host has no name, or the path or the host
  -- is not valid UTF-8, each as the error says, and then neither store is touched; every other result
  -- comes of a path and a host that are named in valid UTF-8. If the bytes were not stored, the ledger
  -- was not touched. Otherwise the identity and the size reported are those of the file's bytes, and
  -- the blob is there; and an event returned is the one that was appended, an observation, or a
  -- `PutError` says "not_committed" of an unchanged ledger, or "unknown" of one with at most one event
  -- more.
  pub put-PutSettled :
      (host : Host) (source : Bytes) (w : Both)
      → SyncKeeps s
      → s.after_stat ≡ none
      → let done = put (postgres_appender S) H s host source w in
        Accepted (host.abs source) host.hostname done.0
        × PutSettled (absolute (host.abs source)) w done.0 done.1
  unfolding put
  put-PutSettled host source w sync_keeps no_hook = elim (Result-cases (host.abs source)) [
    | inr (e, failed) ↦ rw failed (refl, refl)
    | inl (path, found) ↦ elim (Result-cases host.hostname) [
      | inr (e, failed) ↦ rw (found, failed) ((path, refl, refl), refl)
      | inl (name, known) ↦
          rw (found, known)
            (
              put_resolved-Accepted (postgres_appender S) H s path name w,
              put_resolved-PutSettled path name w sync_keeps no_hook,
            )
    ]
  ]
