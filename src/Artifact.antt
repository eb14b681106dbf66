-- ===== src/Artifact.antt =====
-- pkg/artifact/artifact.go: `Put`, `GetToFile` and `GetToWriter`, over a store of blobs and a ledger.
pub mod Accepted
pub mod Guards
pub mod Settled
use mathlib.Core.Bool.{not}
use duro_ledger.Base.{
  ℕ, Bool, true, false, Option, none, some, List, [], ◌∷◌, ◌++◌, if◌then◌else◌, Bytes, str,
  is_empty, Result, ok, err,
}
use duro_ledger.Base.Action.{Action, ◌>>=◌, ◌>>◌, pure, fail, map_error, reject_if}
use duro_ledger.Go.Utf8.{valid_string}
use duro_ledger.Go.Json.Encode.{encode_text, encode_number}
use duro_ledger.Event.Types.{New, ValidationError}
use duro_ledger.Os.Path.{FilePath, join}
use duro_ledger.Os.State.{Errno, Os}
use duro_ledger.Os.Stream.{Writer}
use duro_ledger.Cas.Identity.{Sha256, format_identity, parse_identity}
use duro_ledger.Cas.Types.{CasError, invalid_digest, Store, Io}
use duro_ledger.Cas.Write.{Receipt, write_file}
use duro_ledger.Cas.Read.{get_to_file as store_get_to_file, get_to_writer as store_get_to_writer}
use duro_ledger.Postgres.Types.{
  StoredEvent, DbError, CommitOutcome, outcome_string, AppendFailure, invalid, append_error,
}
use duro_ledger.Postgres.Server.{Server}
use duro_ledger.Postgres.Ledger.{append}

-- An error of `Append`, by whether `errors.As` finds an `*AppendError` in it; the error itself is
-- behind the outcome.
pub data LedgerError : Type 0 where
  classified : CommitOutcome → DbError → LedgerError
  unclassified : ValidationError → LedgerError

-- `appender`
pub record Appender : Type 1 where
  pub State : Type 0
  pub append : New → Action State LedgerError StoredEvent

abbrev pub ledger_error : AppendFailure → LedgerError
ledger_error (invalid e) = unclassified e
ledger_error (append_error o e) = classified o e

-- The store of pkg/postgres is an `appender`.
abbrev pub postgres_appender : Server → Appender
postgres_appender S = record { State = S.State; append = λ n. map_error ledger_error (append S n) }

-- What the process knows of its place: `filepath.Abs` and `os.Hostname`.
pub record Host : Type 0 where
  pub abs : Bytes → Result Errno Bytes
  pub hostname : Result Errno Bytes

-- `EventType`
abbrev pub observed : Bytes
observed = str "artifact.observed"

-- `PutResult`
pub record PutResult : Type 0 where
  pub digest : Bytes
  pub size : ℕ
  pub event : StoredEvent

-- `PutError`; `cause` is its `Err`.
pub record PutError : Type 0 where
  pub digest : Bytes
  pub size : ℕ
  pub artifact_stored : Bool
  pub event_outcome : Bytes
  pub cause : LedgerError

pub data HostField : Type 0 where
  source_path source_host : HostField

-- What `Put` returns beside success.
pub data PutFailure : Type 0 where
  no_absolute_path no_hostname : Errno → PutFailure
  empty_hostname : PutFailure
  not_utf8 : HostField → PutFailure
  not_stored : CasError → PutFailure
  put_error : PutError → PutFailure

-- The default is the conservative outcome.
abbrev pub event_outcome_of : LedgerError → Bytes
event_outcome_of (classified o e) = outcome_string o
event_outcome_of (unclassified e) = str "unknown"

-- The content of the observation, as `json.Marshal` writes a map: the keys in order.
unfoldable pub observation : Bytes → ℕ → Bytes → Bytes → Bytes
unfolding encode_text encode_number
observation identity size host path =
    str "{\"digest\":"
    ++ (encode_text identity
        ++ (str ",\"size_bytes\":"
            ++ (encode_number size
                ++ (str ",\"source_host\":"
                    ++ (encode_text host
                        ++ (str ",\"source_path\":" ++ (encode_text path ++ str "}")))))))

abbrev pub observation_event : Bytes → ℕ → Bytes → Bytes → New
observation_event identity size host path = record {
  event_type = observed;
  content = some (observation identity size host path);
  refs = some (str "{}");
}

module _ (A : Appender) where
  -- The two stores.
  pub record World : Type 0 where
    pub os : Os
    pub ledger : A.State

  abbrev pub Putting : Type 0 → Type 0
  Putting = Action World PutFailure

  abbrev pub on_os : {B : Type 0} → Io B → Putting B
  on_os m w = let done = map_error not_stored m w.os in (done.0, record w { os = done.1 })

  abbrev put_error_of : Bytes → ℕ → LedgerError → PutFailure
  put_error_of identity size e = put_error (record {
    digest = identity;
    size = size;
    artifact_stored = true;
    event_outcome = event_outcome_of e;
    cause = e;
  })

  abbrev pub on_ledger : {B : Type 0} → Bytes → ℕ → Action A.State LedgerError B → Putting B
  on_ledger identity size m w =
      let done = map_error (put_error_of identity size) m w.ledger in
      (done.0, record w { ledger = done.1 })

  -- `Put` behind `WriteFile`.
  unfoldable pub observe : Bytes → Bytes → Receipt → Putting PutResult
  observe host path r = do
    se ←
        on_ledger (format_identity r.digest) r.size
          (A.append (observation_event (format_identity r.digest) r.size host path))
    pure (record { digest = format_identity r.digest; size = r.size; event = se })

  -- `Put` behind the resolution of the path and the host.
  unfoldable pub put_resolved : Sha256 → Store → Bytes → Bytes → Putting PutResult
  put_resolved H s path host = do
    reject_if (is_empty host) empty_hostname
    reject_if (not (valid_string path)) (not_utf8 source_path)
    reject_if (not (valid_string host)) (not_utf8 source_host)
    r ← on_os (write_file H s (join [] (path ∷ [])))
    observe host path r

  abbrev from_result : {B : Type 0} → (Errno → PutFailure) → Result Errno B → Putting B
  from_result f (ok b) = pure b
  from_result f (err e) = fail (f e)

  -- `Put`
  unfoldable pub put : Sha256 → Store → Host → Bytes → Putting PutResult
  put H s host source = do
    path ← from_result no_absolute_path (host.abs source)
    name ← from_result no_hostname host.hostname
    put_resolved H s path name

abbrev pub identified : {B : Type 0} → Option Bytes → (Bytes → Io B) → Io B
identified none f = fail invalid_digest
identified (some digest) f = f digest

-- `GetToFile`
unfoldable pub get_to_file : Sha256 → Store → Bytes → FilePath → Io (Unit {0})
get_to_file H s identity dest =
    identified (parse_identity identity) (λ digest. store_get_to_file H s digest dest)

-- `GetToWriter`
unfoldable pub get_to_writer : Sha256 → Store → Bytes → Writer → Io (Unit {0})
get_to_writer H s identity w =
    identified (parse_identity identity) (λ digest. store_get_to_writer H s digest w)
