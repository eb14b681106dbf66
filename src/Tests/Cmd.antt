-- ===== src/Tests/Cmd.antt =====
-- The theorems on the command at concrete command lines.
use duro_ledger.Base.{
  ◌≡◌, ◌+◌, refl, none, some, List, [], ◌∷◌, ◌++◌, Bytes, str, beq, length, ok, err,
}
use duro_ledger.Go.Flag.{
  Settings, token, named, split_value, member, parse_from, parse, parsed, value_of,
}
use duro_ledger.Artifact.{get_to_writer as artifact_get_to_writer}
use duro_ledger.Cas.Identity.{parse_identity, format_identity}
use duro_ledger.Cas.Identity.Forms.{parse_identity_iff}
use duro_ledger.Tests.Runs.{hello_digest, hello_valid, stored}
use duro_ledger.Tests.OpenRuns.{open_top_runs, get_to_writer_ready_runs}
use duro_ledger.Event.Id.{valid_id}
use duro_ledger.Cmd.{
  encode_line, put_out, Environment, Process, malformed_uuid, cas_root, env_fallback, postgres_dsn,
  flags_of,
}
use duro_ledger.Cmd.Events.Fetched.{GetTold, run_event_get-GetTold}
use duro_ledger.Cmd.Events.{
  get_flags, put_flags, flagged_event, run_event_put, event_get_with, run_event_get,
}
use duro_ledger.Cmd.Events.Settled.{PutTold, run_event_put-PutTold}
use duro_ledger.Os.Stream.{write}
use duro_ledger.Postgres.Ledger.{open_db}
use duro_ledger.Postgres.Initialize.{
  scan_rows, create_schema, initialize_tx, initialize_open, initialize,
}
use duro_ledger.Postgres.Provision.{
  quote_identifier, check_rows, assert_provisionable, exec_grants, provision_tx, provision_open,
  provision, provision_reader,
}
use duro_ledger.Cmd.Init.{init_flags, init_with, run_init}
use duro_ledger.Cmd.Init.Settled.{InitTold, schema_state, run_init-InitTold}
use duro_ledger.Cmd.Artifacts.{
  artifact_put_flags, run_artifact_put, artifact_get_flags, run_artifact_get, artifact_get_with,
  deliver,
}
use duro_ledger.Cmd.Artifacts.Delivered.{Fetched, run_artifact_get-Fetched}
use duro_ledger.Cmd.Artifacts.Settled.{ArtifactTold, run_artifact_put-Told}
use duro_ledger.Cmd.Run.{run_event, command, run}
use duro_ledger.Cmd.Run.Routed.{routed, run-routed}
use duro_ledger.Cmd.Run.Untouched.{run-Untouched}
use duro_ledger.Tests.Server.{lists, lists-IsLedger, lists-IsSession, lists-IsCatalog, empty_db}
use duro_ledger.Tests.Store.{checksum, new_os}

abbrev here : Environment
here = record {
  getenv = λ name. [];
  workdir = [];
  host = record { abs = λ p. ok p; hostname = ok (str "host") };
  hash = checksum;
  schema = str "CREATE TABLE public.events ()";
  sanitize = λ s. s;
  error_text = λ e. str "failed";
}

abbrev pub fresh : Process lists
fresh = record { stores = record { os = new_os; ledger = empty_db none }; notices = [] }

abbrev help_init : List Bytes
help_init = str "help" ∷ str "help" ∷ str "init" ∷ []

run-routed_example :
    run lists here (length help_init + 1) help_init ≡ command lists here (routed help_init)
run-routed_example = run-routed lists here help_init

abbrev bad_get : List Bytes
bad_get = str "event" ∷ str "get" ∷ str "--postgres" ∷ str "dsn" ∷ str "--id" ∷ str "1" ∷ []

bad_get_runs :
    (run lists here (length bad_get + 1) bad_get fresh).0 ≡ err (malformed_uuid (str "1"))
unfolding run command run_event run_event_get flags_of event_get_with parse parse_from token named
    split_value member value_of postgres_dsn env_fallback valid_id beq
bad_get_runs = refl

run-Untouched_example : (run lists here (length bad_get + 1) bad_get fresh).1.stores ≡ fresh.stores
run-Untouched_example =
    run-Untouched lists here bad_get fresh (malformed_uuid (str "1")) bad_get_runs refl

abbrev put_line : List Bytes
put_line = str "--postgres=dsn" ∷ str "--type" ∷ str "note" ∷ []

put_line_parses :
    parse put_flags put_line
    ≡ parsed ((str "type", str "note") ∷ (str "postgres", str "dsn") ∷ []) []
unfolding parse parse_from token named split_value member beq
put_line_parses = refl

run_event_put-PutTold_example :
    let done = run_event_put lists here put_line fresh in
    PutTold
      (flagged_event ((str "type", str "note") ∷ (str "postgres", str "dsn") ∷ []))
      []
      []
      done.0
      done.1.stores.ledger.events
      done.1.stores.os.out
run_event_put-PutTold_example =
    run_event_put-PutTold lists lists-IsLedger lists-IsSession here put_line
      ((str "type", str "note") ∷ (str "postgres", str "dsn") ∷ []) fresh put_line_parses

abbrev init_line : List Bytes
init_line = str "--postgres=dsn" ∷ str "--reader" ∷ str "report" ∷ []

init_line_parses :
    parse init_flags init_line
    ≡ parsed ((str "reader", str "report") ∷ (str "postgres", str "dsn") ∷ []) []
unfolding parse parse_from token named split_value member beq
init_line_parses = refl

-- Here all steps succeed: the schema is committed, and the grants behind it.
init_line_runs : (run_init lists here init_line fresh).0 ≡ ok tt
unfolding run_init flags_of init_with parse parse_from token named split_value member value_of
    postgres_dsn env_fallback beq initialize initialize_open initialize_tx create_schema open_db
    provision_reader provision provision_open provision_tx assert_provisionable check_rows scan_rows
    exec_grants quote_identifier encode_line put_out write
init_line_runs = refl

run_init-InitTold_example :
    let flags : Settings = (str "reader", str "report") ∷ (str "postgres", str "dsn") ∷ [] in
    let done = run_init lists here init_line fresh in
    InitTold lists lists-IsCatalog here
      (schema_state lists lists-IsCatalog here (str "dsn") fresh)
      (value_of (str "writer") flags)
      (value_of (str "reader") flags)
      []
      done.0
      done.1.stores.ledger.granted
unfolding postgres_dsn env_fallback value_of beq
run_init-InitTold_example =
    run_init-InitTold lists lists-IsCatalog here init_line
      ((str "reader", str "report") ∷ (str "postgres", str "dsn") ∷ []) fresh init_line_parses

abbrev store_line : List Bytes
store_line = str "--postgres=dsn" ∷ str "--root=/" ∷ str "--file=/in" ∷ []

store_line_parses :
    parse artifact_put_flags store_line
    ≡ parsed ((str "file", str "/in") ∷ (str "root", str "/") ∷ (str "postgres", str "dsn") ∷ []) []
unfolding parse parse_from token named split_value member beq
store_line_parses = refl

run_artifact_put-Told_example :
    let flags : Settings =
      (str "file", str "/in") ∷ (str "root", str "/") ∷ (str "postgres", str "dsn") ∷ [] in
    let done = run_artifact_put lists here store_line fresh in
    ArtifactTold lists lists-IsLedger here fresh
      (value_of (str "file") flags)
      done.0
      done.1.stores.ledger.events
      done.1.stores.os.nodes
      done.1.stores.os.out
      done.1.notices
run_artifact_put-Told_example =
    run_artifact_put-Told lists lists-IsLedger here lists-IsSession store_line
      ((str "file", str "/in") ∷ (str "root", str "/") ∷ (str "postgres", str "dsn") ∷ []) fresh
      store_line_parses

abbrev get_line : List Bytes
get_line = str "--root=/" ∷ (str "--sha256=sha256:" ++ hello_digest) ∷ []

abbrev get_settings : Settings
get_settings = (str "sha256", str "sha256:" ++ hello_digest) ∷ (str "root", str "/") ∷ []

get_line_parses : parse artifact_get_flags get_line ≡ parsed get_settings []
unfolding parse parse_from token named split_value member beq
get_line_parses = refl

abbrev full : Process lists
full = record { stores = record { os = stored; ledger = empty_db none }; notices = [] }

hello_identity : parse_identity (str "sha256:" ++ hello_digest) ≡ some hello_digest
unfolding format_identity
hello_identity =
    (parse_identity_iff (str "sha256:" ++ hello_digest) hello_digest).1 (refl, hello_valid)

get_line_delivers : (run_artifact_get lists here get_line full).0 ≡ ok tt
unfolding run_artifact_get flags_of artifact_get_with value_of cas_root env_fallback deliver beq
    artifact_get_to_writer
get_line_delivers =
    rw (get_line_parses, hello_identity, open_top_runs, get_to_writer_ready_runs) refl

run_artifact_get-Fetched_example :
    Fetched lists here full
      (value_of (str "sha256") get_settings)
      (value_of (str "out") get_settings)
      (run_artifact_get lists here get_line full).1
run_artifact_get-Fetched_example =
    run_artifact_get-Fetched lists here get_line get_settings full get_line_parses get_line_delivers

abbrev event_line : List Bytes
event_line = str "--postgres=dsn" ∷ str "--id=01926a3e-1c2d-7000-8abc-0123456789ab" ∷ []

abbrev event_settings : Settings
event_settings =
    (str "id", str "01926a3e-1c2d-7000-8abc-0123456789ab") ∷ (str "postgres", str "dsn") ∷ []

event_line_parses : parse get_flags event_line ≡ parsed event_settings []
unfolding parse parse_from token named split_value member beq
event_line_parses = refl

run_event_get-GetTold_example :
    GetTold lists lists-IsLedger fresh
      (value_of (str "id") event_settings)
      (run_event_get lists here event_line fresh)
run_event_get-GetTold_example =
    run_event_get-GetTold lists lists-IsLedger lists-IsSession here event_line event_settings fresh
      event_line_parses
