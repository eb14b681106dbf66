-- ===== src/Tests/Artifact.antt =====
-- The theorem on `Put` at a concrete file and ledger.
use duro_ledger.Base.{◌≡◌, refl, none, str, ok}
use duro_ledger.Artifact.{Host, World, postgres_appender, put, observation_event}
use duro_ledger.Artifact.Accepted.{observation_event-valid}
use duro_ledger.Event.Types.{validate}
use duro_ledger.Artifact.Guards.{Accepted}
use duro_ledger.Artifact.Settled.{PutSettled, absolute, put-PutSettled}
use duro_ledger.Tests.Server.{lists, lists-IsLedger, empty_db}
use duro_ledger.Tests.Store.{checksum, top_store, top_store-SyncKeeps, new_os}

abbrev here : Host
here = record { abs = λ p. ok p; hostname = ok (str "host") }

abbrev both : World (postgres_appender lists)
both = record { os = new_os; ledger = empty_db none }

put-PutSettled_example :
    let done = put (postgres_appender lists) checksum top_store here (str "/in") both in
    Accepted (here.abs (str "/in")) here.hostname done.0
    × PutSettled lists lists-IsLedger checksum top_store
        (absolute (here.abs (str "/in")))
        both
        done.0
        done.1
put-PutSettled_example =
    put-PutSettled lists lists-IsLedger checksum top_store here (str "/in") both top_store-SyncKeeps
      refl

observation_event-valid_example :
    validate (observation_event (str "sha256:00") 5 (str "host") (str "/a\"b")) ≡ none
observation_event-valid_example =
    observation_event-valid (str "sha256:00") 5 (str "host") (str "/a\"b")
