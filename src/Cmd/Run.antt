-- ===== src/Cmd/Run.antt =====
-- `run` and `main` of cmd/duro, and the routing to the commands.
pub mod Careful
pub mod Routed
pub mod Untouched
use duro_ledger.Base.{
  ℕ, zero, suc, ◌+◌, Bool, true, false, ◌||◌, List, [], ◌∷◌, ◌++◌, if◌then◌else◌, Bytes, str, beq,
  length, is_empty, Result, ok, err,
}
use duro_ledger.Base.Action.{fail}
use duro_ledger.Postgres.Server.{Server}
use duro_ledger.Cmd.{
  root_usage, event_usage, artifact_usage, CmdError, help_requested, reported, unknown_command,
  unknown_subcommand, endless, error_line, Environment, Process, Cmd, notice, print_line,
}
use duro_ledger.Cmd.UsageText.{usage_text}
use duro_ledger.Cmd.Init.{run_init}
use duro_ledger.Cmd.Events.{run_event_put, run_event_get}
use duro_ledger.Cmd.Artifacts.{run_artifact_put, run_artifact_get}

-- `help`, `--help` and `-h`
abbrev pub asks_help : Bytes → Bool
asks_help arg = beq arg (str "help") || (beq arg (str "--help") || beq arg (str "-h"))

module _ (S : Server) (env : Environment) where
  -- `runEvent`
  unfoldable pub run_event : List Bytes → Cmd S (Unit {0})
  run_event [] = print_line S (usage_text event_usage)
  run_event (arg ∷ args) =
      if asks_help arg
      then print_line S (usage_text event_usage)
      else if beq arg (str "put")
      then run_event_put S env args
      else if beq arg (str "get")
      then run_event_get S env args
      else fail (unknown_subcommand arg)

  -- `runArtifact`
  unfoldable pub run_artifact : List Bytes → Cmd S (Unit {0})
  run_artifact [] = print_line S (usage_text artifact_usage)
  run_artifact (arg ∷ args) =
      if asks_help arg
      then print_line S (usage_text artifact_usage)
      else if beq arg (str "put")
      then run_artifact_put S env args
      else if beq arg (str "get")
      then run_artifact_get S env args
      else fail (unknown_subcommand arg)

  -- The `switch` of `run`, and the empty command line.
  unfoldable pub command : List Bytes → Cmd S (Unit {0})
  command [] = print_line S (usage_text root_usage)
  command (arg ∷ args) =
      if asks_help arg
      then print_line S (usage_text root_usage)
      else if beq arg (str "init")
      then run_init S env args
      else if beq arg (str "event")
      then run_event args
      else if beq arg (str "artifact")
      then run_artifact args
      else fail (unknown_command arg)

  -- `run`: `help` in front of a command becomes `--help` behind it.
  unfoldable pub run : ℕ → List Bytes → Cmd S (Unit {0})
  run zero args = fail endless
  run (suc fuel) [] = command []
  run (suc fuel) (arg ∷ args) =
      let again = run fuel (args ++ (str "--help" ∷ [])) in
      if beq arg (str "help")
      then if is_empty args then command (arg ∷ args) else again
      else command (arg ∷ args)

  abbrev failure : CmdError → Process S → ℕ × Process S
  failure help_requested p = (0, p)
  failure reported p = (1, p)
  failure e p = (1, notice S (error_line e) p)

  abbrev pub exit : Result CmdError (Unit {0}) → Process S → ℕ × Process S
  exit (ok u) p = (0, p)
  exit (err e) p = failure e p

  -- `main`: the exit status, and the process at its end.
  unfoldable pub main : List Bytes → Process S → ℕ × Process S
  main args p = let ended = run (length args + 1) args p in exit ended.0 ended.1
