-- ===== src/Cmd.antt =====
-- cmd/duro/main.go: the state of the process, its errors, and what its commands are made of.
pub mod UsageText
pub mod Guard
pub mod Output
pub mod Init
pub mod Events
pub mod Artifacts
pub mod Run
use duro_ledger.Base.{
  ℕ, Bool, true, false, Option, none, some, List, [], ◌∷◌, ◌++◌, if◌then◌else◌, Bytes, str, beq,
  is_empty, ltb, length, Result, ok, err,
}
use duro_ledger.Base.Action.{Action, ◌>>=◌, ◌>>◌, pure, fail, map_error}
use duro_ledger.Go.Flag.{FlagError, Settings, Parsed, help, flag_error, parsed, parse}
use duro_ledger.Event.Types.{ValidationError}
use duro_ledger.Os.Path.{FilePath}
use duro_ledger.Os.State.{Errno, short_write, Os}
use duro_ledger.Os.Stream.{sink, Written, write}
use duro_ledger.Cas.Identity.{Sha256}
use duro_ledger.Cas.Types.{CasError}
use duro_ledger.Postgres.Types.{DbError, AppendFailure}
use duro_ledger.Postgres.Server.{Server}
use duro_ledger.Postgres.Ledger.{GetFailure}
use duro_ledger.Postgres.Initialize.{InitFailure}
use duro_ledger.Postgres.Provision.{ProvisionFailure}
use duro_ledger.Artifact.{Host, World, LedgerError, PutFailure, postgres_appender}

-- The usage texts.
pub data Usage : Type 0 where
  root_usage init_usage event_usage event_put_usage event_get_usage : Usage
  artifact_usage artifact_put_usage artifact_get_usage : Usage

-- The errors that a command returns: `flag.ErrHelp`, `errReported`, those made in place, and those
-- passed on. `output` is a failed write to the standard output, and `not_json` is the error of
-- `Encode` for a text in an event that is no JSON.
pub data CmdError : Type 0 where
  help_requested reported missing_flags malformed_identity not_json : CmdError
  flag_failure : FlagError → CmdError
  unexpected_arguments : List Bytes → CmdError
  unknown_command unknown_subcommand malformed_uuid : Bytes → CmdError
  invalid_event : ValidationError → CmdError
  initializing : InitFailure → CmdError
  provisioning_writer provisioning_reader : Bytes → ProvisionFailure → CmdError
  opening : DbError → CmdError
  appending : AppendFailure → CmdError
  getting : GetFailure → CmdError
  storing : CasError → CmdError
  putting : PutFailure → CmdError
  output : Errno → CmdError
  endless : CmdError

-- What is written to the standard error.
pub data Notice : Type 0 where
  usage_shown : Usage → Notice
  flag_message : FlagError → Notice
  json_line : Bytes → Notice
  error_line : CmdError → Notice

-- What the process finds: its environment, directory and host, the embedded schema, and the texts
-- that the packages give their errors.
pub record Environment : Type 0 where
  pub getenv : Bytes → Bytes
  pub workdir : FilePath
  pub host : Host
  pub hash : Sha256
  pub schema : Bytes
  pub sanitize : Bytes → Bytes
  pub error_text : LedgerError → Bytes

-- `envFallback`
unfoldable pub env_fallback : Environment → Bytes → Bytes → Bytes
env_fallback env flag_val env_var = if is_empty flag_val then env.getenv env_var else flag_val

-- `postgresDSN`
unfoldable pub postgres_dsn : Environment → Bytes → Bytes
postgres_dsn env flag_val = env_fallback env flag_val (str "DURO_POSTGRES_DSN")

-- `casRoot`
unfoldable pub cas_root : Environment → Bytes → Bytes
cas_root env flag_val = env_fallback env flag_val (str "DURO_CAS_ROOT")

-- `(*os.File).Write` reports a short write as an error.
abbrev file_result : Bytes → Written → Result CmdError (Unit {0})
file_result b (n, some e) = err (output e)
file_result b (n, none) = if ltb n (length b) then err (output short_write) else ok tt

module _ (S : Server) where
  -- The file system with the standard output, the server, and the lines on the standard error.
  pub record Process : Type 0 where
    pub stores : World (postgres_appender S)
    pub notices : List Notice

  abbrev pub Cmd : Type 0 → Type 0
  Cmd = Action Process CmdError

  abbrev pub with_os : Os → Process → Process
  with_os os p = record p { stores = record p.stores { os = os } }

  abbrev pub with_db : S.State → Process → Process
  with_db db p = record p { stores = record p.stores { ledger = db } }

  -- A step of pkg/cas, of pkg/postgres, or of pkg/artifact.
  abbrev pub on_files : {E A : Type 0} → (E → CmdError) → Action Os E A → Cmd A
  on_files f m p = let done = map_error f m p.stores.os in (done.0, with_os done.1 p)

  abbrev pub on_db : {E A : Type 0} → (E → CmdError) → Action S.State E A → Cmd A
  on_db f m p = let done = map_error f m p.stores.ledger in (done.0, with_db done.1 p)

  abbrev pub on_stores :
      {E A : Type 0} → (E → CmdError) → Action (World (postgres_appender S)) E A → Cmd A
  on_stores f m p = let done = map_error f m p.stores in (done.0, record p { stores = done.1 })

  -- `fmt.Fprintln(os.Stderr, …)`
  abbrev pub notice : Notice → Process → Process
  notice n p = record p { notices = p.notices ++ (n ∷ []) }

  abbrev pub note : Notice → Cmd (Unit {0})
  note n p = (ok tt, notice n p)

  -- `fs.Usage(); return err`
  abbrev pub fail_with_usage : {A : Type 0} → Usage → CmdError → Cmd A
  fail_with_usage usage e = do note (usage_shown usage); fail e

  abbrev pub reject_with_usage : Usage → Bool → CmdError → Cmd (Unit {0})
  reject_with_usage usage true e = fail_with_usage usage e
  reject_with_usage usage false e = pure tt

  -- The message of `Parse` on an error, and the test of `NArg`.
  abbrev pub accept_parsed : Usage → Parsed → Cmd Settings
  accept_parsed usage help = fail_with_usage usage help_requested
  accept_parsed usage (flag_error e) = do
    note (flag_message e)
    fail_with_usage usage (flag_failure e)
  accept_parsed usage (parsed settings []) = pure settings
  accept_parsed usage (parsed settings (a ∷ rest)) =
      fail_with_usage usage (unexpected_arguments (a ∷ rest))

  -- The first lines of each command: its flags, and no argument behind them.
  unfoldable pub flags_of : Usage → List Bytes → List Bytes → Cmd Settings
  flags_of usage defined args = accept_parsed usage (parse defined args)

  -- A `Write` to the standard output whose error is read.
  unfoldable pub put_out : Bytes → Cmd (Unit {0})
  put_out b p =
      let written = write sink b p.stores.os in (file_result b written.0, with_os written.1 p)

  -- `fmt.Println`, whose error is dropped.
  unfoldable pub print_line : Bytes → Cmd (Unit {0})
  print_line b p = (ok tt, with_os (write sink (b ++ (b'\n' ∷ [])) p.stores.os).1 p)

  -- `json.NewEncoder(os.Stdout).Encode`
  unfoldable pub encode_line : Option Bytes → Cmd (Unit {0})
  encode_line none = fail not_json
  encode_line (some b) = put_out (b ++ (b'\n' ∷ []))
