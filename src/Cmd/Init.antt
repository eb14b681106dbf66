-- ===== src/Cmd/Init.antt =====
-- `duro init`.
pub mod Settled
use duro_ledger.Base.{some, List, [], ◌∷◌, Bytes, str, is_empty, Bool, true, false}
use duro_ledger.Base.Action.{◌>>=◌, ◌>>◌, pure, Action}
use duro_ledger.Go.Flag.{value_of}
use duro_ledger.Postgres.Server.{Server}
use duro_ledger.Postgres.Initialize.{initialize}
use duro_ledger.Postgres.Provision.{ProvisionFailure, provision_writer, provision_reader}
use duro_ledger.Cmd.{
  init_usage, CmdError, missing_flags, initializing, provisioning_writer, provisioning_reader,
  Environment, postgres_dsn, Cmd, on_db, reject_with_usage, flags_of, encode_line,
}

abbrev pub init_flags : List Bytes
init_flags = str "postgres" ∷ str "writer" ∷ str "reader" ∷ []

module _ (S : Server) (env : Environment) where
  -- `if role != "" { … }`
  abbrev pub unless_empty :
      Bytes
      → (Bytes → ProvisionFailure → CmdError)
      → (Bytes → Action S.State ProvisionFailure (Unit {0}))
      → Cmd S (Unit {0})
  unless_empty [] f provision = pure tt
  unless_empty (c ∷ role) f provision = on_db S (f (c ∷ role)) (provision (c ∷ role))

  -- `runInit` behind its flags.
  unfoldable pub init_with : Bytes → Bytes → Bytes → Cmd S (Unit {0})
  init_with dsn writer reader = do
    reject_with_usage S init_usage (is_empty dsn) missing_flags
    on_db S initializing (initialize S env.schema dsn)
    unless_empty writer provisioning_writer (provision_writer S env.sanitize dsn)
    unless_empty reader provisioning_reader (provision_reader S env.sanitize dsn)
    encode_line S (some (str "{\"initialized\":true}"))

  -- `runInit`
  unfoldable pub run_init : List Bytes → Cmd S (Unit {0})
  run_init args = do
    flags ← flags_of S init_usage init_flags args
    init_with (postgres_dsn env (value_of (str "postgres") flags)) (value_of (str "writer") flags)
        (value_of (str "reader") flags)
