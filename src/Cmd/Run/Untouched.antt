-- ===== src/Cmd/Run/Untouched.antt =====
-- What a command line that is rejected has touched.
use duro_ledger.Base.{
  ◌+◌, ◌≡◌, refl, sym, ap, subst, true, List, [], ◌∷◌, Bytes, str, beq, length, err,
}
use duro_ledger.Base.Action.{fail}
use duro_ledger.Postgres.Server.{Server}
use duro_ledger.Cmd.{
  root_usage, event_usage, artifact_usage, CmdError, unknown_command, unknown_subcommand,
  Environment, Process, print_line,
}
use duro_ledger.Cmd.UsageText.{usage_text}
use duro_ledger.Cmd.Run.{asks_help, run_event, run_artifact, command, run}
use duro_ledger.Cmd.Run.Routed.{routed, run-routed}
use duro_ledger.Cmd.Guard.{
  is_usage_error, Careful, Clean-Careful, print_line-Clean, if-Careful, Guarded-error,
}
use duro_ledger.Cmd.Run.Careful.{
  run_init-Careful, run_event_put-Careful, run_event_get-Careful, run_artifact_put-Careful,
  run_artifact_get-Careful,
}

module _ (S : Server) (env : Environment) where
  fail-Careful : (e : CmdError) → Careful S (fail {A = Unit {0}} e)
  fail-Careful e p h = refl

  print-Careful : (b : Bytes) → Careful S (print_line S b)
  print-Careful b = Clean-Careful S (print_line S b) (print_line-Clean S b)

  run_event-Careful : (args : List Bytes) → Careful S (run_event S env args)
  unfolding run_event
  run_event-Careful [] = print-Careful (usage_text event_usage)
  run_event-Careful (arg ∷ args) =
      if-Careful S (asks_help arg) _ _ (print-Careful (usage_text event_usage)) (
        if-Careful S (beq arg (str "put")) _ _ (run_event_put-Careful S env args) (
          if-Careful S (beq arg (str "get")) _ _ (run_event_get-Careful S env args)
            (fail-Careful (unknown_subcommand arg))))

  run_artifact-Careful : (args : List Bytes) → Careful S (run_artifact S env args)
  unfolding run_artifact
  run_artifact-Careful [] = print-Careful (usage_text artifact_usage)
  run_artifact-Careful (arg ∷ args) =
      if-Careful S (asks_help arg) _ _ (print-Careful (usage_text artifact_usage)) (
        if-Careful S (beq arg (str "put")) _ _ (run_artifact_put-Careful S env args) (
          if-Careful S (beq arg (str "get")) _ _ (run_artifact_get-Careful S env args)
            (fail-Careful (unknown_subcommand arg))))

  command-Careful : (args : List Bytes) → Careful S (command S env args)
  unfolding command
  command-Careful [] = print-Careful (usage_text root_usage)
  command-Careful (arg ∷ args) =
      if-Careful S (asks_help arg) _ _ (print-Careful (usage_text root_usage)) (
        if-Careful S (beq arg (str "init")) _ _ (run_init-Careful S env args) (
          if-Careful S (beq arg (str "event")) _ _ (run_event-Careful args) (
            if-Careful S (beq arg (str "artifact")) _ _ (run_artifact-Careful args)
              (fail-Careful (unknown_command arg)))))

  -- A command line that is rejected, for a help flag, a flag or argument that is wrong or missing,
  -- an unknown command, an event that does not validate, an id or an identity that is malformed,
  -- leaves both the files, the standard output among them, and the database as they were.
  pub run-Untouched :
      (args : List Bytes) (p : Process S) (e : CmdError)
      → (run S env (length args + 1) args p).0 ≡ err e
      → is_usage_error e ≡ true
      → (run S env (length args + 1) args p).1.stores ≡ p.stores
  run-Untouched args p e h u =
      let done = command S env (routed args) p in
      let same : run S env (length args + 1) args p ≡ done =
        ap (λ m. m p) (run-routed S env args) in
      subst (λ x. x.1.stores ≡ p.stores) (sym same)
        (Guarded-error S p done.0 done.1 e (command-Careful (routed args) p)
          (subst (λ x. x.0 ≡ err e) same h) u)
