-- ===== src/Cmd/Artifacts.antt =====
-- `duro artifact put` and `duro artifact get`.
pub mod Delivered
pub mod Settled
use duro_ledger.Base.{
  Bool, true, false, ◌||◌, Option, none, some, List, [], ◌∷◌, Bytes, str, is_empty, ◌==◌,
  if◌then◌else◌, Result, ok, err,
}
use duro_ledger.Base.Action.{Action, ◌>>=◌, ◌>>◌, pure, fail, then_do}
use duro_ledger.Go.Flag.{value_of}
use duro_ledger.Os.Path.{FilePath, join}
use duro_ledger.Os.Stream.{sink}
use duro_ledger.Cas.Identity.{parse_identity}
use duro_ledger.Cas.Types.{Store}
use duro_ledger.Cas.Open.{open_dir}
use duro_ledger.Postgres.Server.{Server}
use duro_ledger.Postgres.Ledger.{open_store}
use duro_ledger.Artifact.{
  Host, PutResult, PutError, PutFailure, no_absolute_path, no_hostname, empty_hostname, not_utf8,
  not_stored, put_error, postgres_appender, put, get_to_file, get_to_writer,
}
use duro_ledger.Cmd.{
  artifact_put_usage, artifact_get_usage, CmdError, reported, missing_flags, malformed_identity,
  opening, storing, putting, json_line, Environment, postgres_dsn, cas_root, Process, Cmd, on_files,
  on_db, on_stores, note, fail_with_usage, reject_with_usage, flags_of, encode_line,
}
use duro_ledger.Cmd.Events.{close_db}
use duro_ledger.Cmd.Output.{receipt_json, put_error_json, copied_json}

abbrev pub artifact_put_flags : List Bytes
artifact_put_flags = str "postgres" ∷ str "root" ∷ str "file" ∷ []

abbrev pub artifact_get_flags : List Bytes
artifact_get_flags = str "root" ∷ str "sha256" ∷ str "out" ∷ []

-- A path as the system takes it: from `/`, or from the directory of the process.
abbrev pub place_of : Environment → Bytes → FilePath
place_of env [] = env.workdir
place_of env (c ∷ s) = if c == b'/' then join [] ((c ∷ s) ∷ []) else join env.workdir ((c ∷ s) ∷ [])

module _ (S : Server) (env : Environment) where
  -- The failure of `Put`, reported as JSON where `errors.As` finds a `*PutError`.
  abbrev pub report_failure : {A : Type 0} → PutFailure → Cmd S A
  report_failure (put_error pe) = do
    note S (json_line (put_error_json pe (env.error_text pe.cause)))
    fail reported
  report_failure (no_absolute_path e) = fail (putting (no_absolute_path e))
  report_failure (no_hostname e) = fail (putting (no_hostname e))
  report_failure empty_hostname = fail (putting empty_hostname)
  report_failure (not_utf8 f) = fail (putting (not_utf8 f))
  report_failure (not_stored e) = fail (putting (not_stored e))

  abbrev pub report : {A : Type 0} → Result PutFailure A → Cmd S A
  report (ok a) = pure a
  report (err e) = report_failure e

  -- `Put`, its failure as a value to report.
  abbrev pub attempt : Store → Bytes → Cmd S (Result PutFailure PutResult)
  attempt store file p =
      let done = put (postgres_appender S) env.hash store env.host file p.stores in
      (ok done.0, record p { stores = done.1 })

  -- Behind the opening of the two stores.
  unfoldable pub put_and_print : Store → Bytes → Cmd S (Unit {0})
  put_and_print store file = do
    outcome ← attempt store file
    result ← report outcome
    encode_line S (receipt_json result)

  -- `runArtifactPut` behind its flags.
  unfoldable pub artifact_put_with : Bytes → Bytes → Bytes → Cmd S (Unit {0})
  artifact_put_with dsn root file = do
    reject_with_usage S artifact_put_usage (is_empty dsn || (is_empty root || is_empty file))
        missing_flags
    store ← on_files S storing (open_dir env.host.abs root)
    on_db S opening (open_store S dsn)
    then_do (close_db S) (put_and_print store file)

  -- `runArtifactPut`
  unfoldable pub run_artifact_put : List Bytes → Cmd S (Unit {0})
  run_artifact_put args = do
    flags ← flags_of S artifact_put_usage artifact_put_flags args
    artifact_put_with (postgres_dsn env (value_of (str "postgres") flags))
        (cas_root env (value_of (str "root") flags)) (value_of (str "file") flags)

  abbrev pub check_identity : Option Bytes → Cmd S (Unit {0})
  check_identity (some digest) = pure tt
  check_identity none = fail_with_usage S artifact_get_usage malformed_identity

  -- To the standard output, or to a file.
  unfoldable pub deliver : Store → Bytes → Bytes → Cmd S (Unit {0})
  deliver store digest [] = on_files S storing (get_to_writer env.hash store digest sink)
  deliver store digest (c ∷ out) = do
    on_files S storing (get_to_file env.hash store digest (place_of env (c ∷ out)))
    encode_line S (some (copied_json digest (c ∷ out)))

  -- `runArtifactGet` behind its flags.
  unfoldable pub artifact_get_with : Bytes → Bytes → Bytes → Cmd S (Unit {0})
  artifact_get_with root digest out = do
    reject_with_usage S artifact_get_usage (is_empty root || is_empty digest) missing_flags
    check_identity (parse_identity digest)
    store ← on_files S storing (open_dir env.host.abs root)
    deliver store digest out

  -- `runArtifactGet`
  unfoldable pub run_artifact_get : List Bytes → Cmd S (Unit {0})
  run_artifact_get args = do
    flags ← flags_of S artifact_get_usage artifact_get_flags args
    artifact_get_with (cas_root env (value_of (str "root") flags)) (value_of (str "sha256") flags)
        (value_of (str "out") flags)
