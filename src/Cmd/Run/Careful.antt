-- ===== src/Cmd/Run/Careful.antt =====
-- Each command checks its flags and values before it opens a store.
use duro_ledger.Base.{
  ◌≡◌, refl, false, Option, none, some, List, [], ◌∷◌, Bytes, str, is_empty, Result, ok, err,
}
use duro_ledger.Base.Action.{Action, ◌>>=◌, then_do}
use duro_ledger.Event.Types.{New}
use duro_ledger.Os.Stream.{sink}
use duro_ledger.Cas.Types.{Store}
use duro_ledger.Cas.Identity.{parse_identity}
use duro_ledger.Postgres.Server.{Server}
use duro_ledger.Postgres.Ledger.{append, get_event}
use duro_ledger.Artifact.{
  PutFailure, no_absolute_path, no_hostname, empty_hostname, not_utf8, not_stored, put_error,
  PutResult,
}
use duro_ledger.Cmd.{
  init_usage, event_put_usage, event_get_usage, artifact_put_usage, artifact_get_usage, CmdError,
  missing_flags, malformed_uuid, initializing, provisioning_writer, provisioning_reader, opening,
  appending, getting, storing, Environment, on_files, on_db, reject_with_usage, flags_of,
  encode_line,
}
use duro_ledger.Base.{◌||◌}
use mathlib.Core.Bool.{not}
use duro_ledger.Event.Id.{valid_id}
use duro_ledger.Event.Types.{validate}
use duro_ledger.Postgres.Ledger.{open_store}
use duro_ledger.Postgres.Initialize.{initialize}
use duro_ledger.Postgres.Provision.{provision_writer, provision_reader}
use duro_ledger.Artifact.{get_to_writer, get_to_file}
use duro_ledger.Cas.Open.{open_dir}
use duro_ledger.Cmd.Output.{event_json, receipt_json, copied_json}
use duro_ledger.Cmd.Init.{init_flags, unless_empty, init_with, run_init}
use duro_ledger.Cmd.Events.{
  put_flags, get_flags, close_db, check_event, append_and_print, get_and_print, event_put_with,
  event_get_with, run_event_put, run_event_get,
}
use duro_ledger.Cmd.Artifacts.{
  artifact_put_flags, artifact_get_flags, place_of, report, attempt, put_and_print,
  artifact_put_with, run_artifact_put, check_identity, deliver, artifact_get_with, run_artifact_get,
}
use duro_ledger.Postgres.Provision.{ProvisionFailure}
use duro_ledger.Cmd.Guard.{
  is_usage_error, Careful, Quiet, Clean, bind-Careful, Clean-Careful, bind-Clean, on_db-Clean,
  on_files-Clean, encode_line-Clean, flags_of-Quiet, reject-Quiet, check_event-Quiet,
}

module _ (S : Server) where
  -- The commands.
  append_and_print-Clean : (n : New) → Clean S (append_and_print S n)
  unfolding append_and_print
  append_and_print-Clean n =
      bind-Clean S (on_db S appending (append S n)) _
        (on_db-Clean S appending (append S n) (λ e. refl))
        (λ se. encode_line-Clean S (event_json se))

  get_and_print-Clean : (id : Bytes) → Clean S (get_and_print S id)
  unfolding get_and_print
  get_and_print-Clean id =
      bind-Clean S (on_db S getting (get_event S id)) _
        (on_db-Clean S getting (get_event S id) (λ e. refl))
        (λ se. encode_line-Clean S (event_json se))

  event_put_with-Careful : (dsn : Bytes) (n : New) → Careful S (event_put_with S dsn n)
  unfolding event_put_with
  event_put_with-Careful dsn n =
      let opened = on_db S opening (open_store S dsn) in
      let missing = is_empty dsn || is_empty n.event_type in
      bind-Careful S (reject_with_usage S event_put_usage missing missing_flags) _
        (reject-Quiet S event_put_usage missing missing_flags)
        λ u. bind-Careful S (check_event S (validate n)) _ (check_event-Quiet S (validate n)) λ v.
          Clean-Careful S _ (
            bind-Clean S opened (λ w. then_do (close_db S) (append_and_print S n))
              (on_db-Clean S opening (open_store S dsn) (λ e. refl))
              (λ w p. append_and_print-Clean n p))

  event_get_with-Careful : (dsn id : Bytes) → Careful S (event_get_with S dsn id)
  unfolding event_get_with
  event_get_with-Careful dsn id =
      let opened = on_db S opening (open_store S dsn) in
      let missing = is_empty dsn || is_empty id in
      bind-Careful S (reject_with_usage S event_get_usage missing missing_flags) _
        (reject-Quiet S event_get_usage missing missing_flags)
        λ u.
          bind-Careful S
            (reject_with_usage S event_get_usage (not (valid_id id)) (malformed_uuid id)) _
            (reject-Quiet S event_get_usage (not (valid_id id)) (malformed_uuid id))
            λ v. Clean-Careful S _ (
              bind-Clean S opened (λ w. then_do (close_db S) (get_and_print S id))
                (on_db-Clean S opening (open_store S dsn) (λ e. refl))
                (λ w p. get_and_print-Clean id p))

  module _ (env : Environment) where
    unless_empty-Clean :
        (role : Bytes) (f : Bytes → ProvisionFailure → CmdError)
        (m : Bytes → Action S.State ProvisionFailure (Unit {0}))
        → ((r : Bytes) (e : ProvisionFailure) → is_usage_error (f r e) ≡ false)
        → Clean S (unless_empty S env role f m)
    unless_empty-Clean [] f m h p = tt
    unless_empty-Clean (c ∷ role) f m h p =
        on_db-Clean S (f (c ∷ role)) (m (c ∷ role)) (h (c ∷ role)) p

    init_with-Careful : (dsn writer reader : Bytes) → Careful S (init_with S env dsn writer reader)
    unfolding init_with
    init_with-Careful dsn writer reader =
        bind-Careful S (reject_with_usage S init_usage (is_empty dsn) missing_flags) _
          (reject-Quiet S init_usage (is_empty dsn) missing_flags)
          λ u. Clean-Careful S _ (
            bind-Clean S (on_db S initializing (initialize S env.schema dsn)) _
              (on_db-Clean S initializing (initialize S env.schema dsn) (λ e. refl))
              λ v.
                bind-Clean S
                  (unless_empty S env writer provisioning_writer
                    (provision_writer S env.sanitize dsn))
                  _
                  (unless_empty-Clean writer provisioning_writer
                    (provision_writer S env.sanitize dsn) (λ r e. refl))
                  λ w.
                    bind-Clean S
                      (unless_empty S env reader provisioning_reader
                        (provision_reader S env.sanitize dsn))
                      _
                      (unless_empty-Clean reader provisioning_reader
                        (provision_reader S env.sanitize dsn) (λ r e. refl))
                      λ x. encode_line-Clean S (some (str "{\"initialized\":true}")))

    pub run_init-Careful : (args : List Bytes) → Careful S (run_init S env args)
    unfolding run_init
    run_init-Careful args =
        bind-Careful S (flags_of S init_usage init_flags args) _
          (flags_of-Quiet S init_usage init_flags args) λ flags. init_with-Careful _ _ _

    pub run_event_put-Careful : (args : List Bytes) → Careful S (run_event_put S env args)
    unfolding run_event_put
    run_event_put-Careful args =
        bind-Careful S (flags_of S event_put_usage put_flags args) _
          (flags_of-Quiet S event_put_usage put_flags args) λ flags. event_put_with-Careful _ _

    pub run_event_get-Careful : (args : List Bytes) → Careful S (run_event_get S env args)
    unfolding run_event_get
    run_event_get-Careful args =
        bind-Careful S (flags_of S event_get_usage get_flags args) _
          (flags_of-Quiet S event_get_usage get_flags args) λ flags. event_get_with-Careful _ _

    report-Clean : {A : Type 0} (r : Result PutFailure A) → Clean S (report S env r)
    report-Clean (ok a) p = tt
    report-Clean (err (put_error pe)) p = refl
    report-Clean (err (no_absolute_path e)) p = refl
    report-Clean (err (no_hostname e)) p = refl
    report-Clean (err empty_hostname) p = refl
    report-Clean (err (not_utf8 f)) p = refl
    report-Clean (err (not_stored e)) p = refl

    put_and_print-Clean : (store : Store) (file : Bytes) → Clean S (put_and_print S env store file)
    unfolding put_and_print
    put_and_print-Clean store file =
        let printed = λ (result : PutResult). encode_line S (receipt_json result) in
        bind-Clean S (attempt S env store file) (λ outcome. report S env outcome >>= printed)
          (λ p. tt)
          λ outcome.
            bind-Clean S (report S env outcome) printed (report-Clean outcome)
              λ result. encode_line-Clean S (receipt_json result)

    artifact_put_with-Careful :
        (dsn root file : Bytes) → Careful S (artifact_put_with S env dsn root file)
    unfolding artifact_put_with
    artifact_put_with-Careful dsn root file =
        let missing = is_empty dsn || (is_empty root || is_empty file) in
        let opened = on_db S opening (open_store S dsn) in
        bind-Careful S (reject_with_usage S artifact_put_usage missing missing_flags) _
          (reject-Quiet S artifact_put_usage missing missing_flags)
          λ u. Clean-Careful S _ (
            bind-Clean S (on_files S storing (open_dir env.host.abs root)) _
              (on_files-Clean S storing (open_dir env.host.abs root) (λ e. refl))
              λ store.
                bind-Clean S opened (λ w. then_do (close_db S) (put_and_print S env store file))
                  (on_db-Clean S opening (open_store S dsn) (λ e. refl))
                  (λ w p. put_and_print-Clean store file p))

    pub run_artifact_put-Careful : (args : List Bytes) → Careful S (run_artifact_put S env args)
    unfolding run_artifact_put
    run_artifact_put-Careful args =
        bind-Careful S (flags_of S artifact_put_usage artifact_put_flags args) _
          (flags_of-Quiet S artifact_put_usage artifact_put_flags args)
          λ flags. artifact_put_with-Careful _ _ _

    check_identity-Quiet : (o : Option Bytes) → Quiet S (check_identity S env o)
    check_identity-Quiet none p = refl
    check_identity-Quiet (some digest) p = refl

    deliver-Clean : (store : Store) (digest out : Bytes) → Clean S (deliver S env store digest out)
    unfolding deliver
    deliver-Clean store digest [] =
        on_files-Clean S storing (get_to_writer env.hash store digest sink) (λ e. refl)
    deliver-Clean store digest (c ∷ out) =
        let copying = get_to_file env.hash store digest (place_of env (c ∷ out)) in
        bind-Clean S (on_files S storing copying) _ (on_files-Clean S storing copying (λ e. refl))
          λ u. encode_line-Clean S (some (copied_json digest (c ∷ out)))

    artifact_get_with-Careful :
        (root digest out : Bytes) → Careful S (artifact_get_with S env root digest out)
    unfolding artifact_get_with
    artifact_get_with-Careful root digest out =
        let missing = is_empty root || is_empty digest in
        bind-Careful S (reject_with_usage S artifact_get_usage missing missing_flags) _
          (reject-Quiet S artifact_get_usage missing missing_flags)
          λ u.
            bind-Careful S (check_identity S env (parse_identity digest)) _
              (check_identity-Quiet (parse_identity digest))
              λ v. Clean-Careful S _ (
                bind-Clean S (on_files S storing (open_dir env.host.abs root)) _
                  (on_files-Clean S storing (open_dir env.host.abs root) (λ e. refl))
                  λ store. deliver-Clean store digest out)

    pub run_artifact_get-Careful : (args : List Bytes) → Careful S (run_artifact_get S env args)
    unfolding run_artifact_get
    run_artifact_get-Careful args =
        bind-Careful S (flags_of S artifact_get_usage artifact_get_flags args) _
          (flags_of-Quiet S artifact_get_usage artifact_get_flags args)
          λ flags. artifact_get_with-Careful _ _ _
