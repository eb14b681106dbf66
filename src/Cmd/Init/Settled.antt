-- ===== src/Cmd/Init/Settled.antt =====
-- What `duro init` tells, against what it did.
use duro_ledger.Base.{
  ◌≡◌, ◌⊎◌, refl, ap, sym, subst, ◌∙◌, inl, inr, Bool-cases, some, List, [], ◌∷◌, ◌++◌, append-nil,
  Bytes, str, is_empty, Result, ok, err,
}
use duro_ledger.Base.Action.{◌>>◌, after_result, map_result}
use duro_ledger.Go.Flag.{Settings, parse, parsed, value_of}
use duro_ledger.Postgres.Server.{Server}
use duro_ledger.Postgres.Ledger.{open_db}
use duro_ledger.Postgres.Initialize.{
  InitFailure, init_database, wrong_encoding, not_ordinary_table, not_permanent_table,
  has_row_security, has_extras, schema_differs, initialize,
}
use duro_ledger.Postgres.Initialize.Settled.{
  InPlace, Initialized, locked_at, initialize-Initialized,
}
use duro_ledger.Postgres.Provision.{
  ProvisionFailure, role_name_required, role_does_not_exist, role_cannot_log_in, reaches_authority,
  provision_database, provision_writer, provision_reader, grant_usage, grant_insert, grant_select,
}
use duro_ledger.Postgres.Provision.Catalog.{IsCatalog}
use duro_ledger.Postgres.Provision.Atomic.{Granted, started, statements, provision-Granted}
use duro_ledger.Cmd.{
  CmdError, output, initializing, provisioning_writer, provisioning_reader, Environment, Process,
  Cmd, with_db, encode_line, postgres_dsn, flags_of,
}
use duro_ledger.Cmd.Output.Printed.{encode_line-ledger, put_out-cases}
use duro_ledger.Cmd.Init.{init_flags, unless_empty, init_with, run_init}

module _ (S : Server) (C : IsCatalog S) (env : Environment) where
  open C use {granted}

  -- The grants for a role, and none where no role was named.
  abbrev pub role_grants : List Bytes → Bytes → List Bytes
  role_grants grants [] = []
  role_grants grants (c ∷ role) = statements S C env.sanitize (env.sanitize (c ∷ role)) grants

  abbrev pub writer_grants : Bytes → List Bytes
  writer_grants = role_grants (grant_usage ∷ grant_insert ∷ grant_select ∷ [])

  abbrev pub reader_grants : Bytes → List Bytes
  reader_grants = role_grants (grant_usage ∷ grant_select ∷ [])

  -- The schema is there already, by what the server said at `v`, or was committed.
  abbrev pub Based : S.State → List Bytes → List Bytes → Type 0
  Based v before base = InPlace S C env.schema v before base

  -- All was done, or one step failed behind those that were done; the failed one committed all of
  -- its statements or none.
  abbrev pub InitErrorTold : S.State → Bytes → Bytes → List Bytes → CmdError → List Bytes → Type 0
  InitErrorTold v writer reader before (initializing (init_database e)) after =
      (after ≡ before) ⊎ (after ≡ before ++ (env.schema ∷ []))
  InitErrorTold v writer reader before (provisioning_writer role e) after =
      (base : List Bytes) × Based v before base
      × ((after ≡ base) ⊎ (after ≡ base ++ writer_grants writer))
  InitErrorTold v writer reader before (provisioning_reader role e) after =
      (base : List Bytes) × Based v before base
      × ((after ≡ base ++ writer_grants writer)
          ⊎ (after ≡ (base ++ writer_grants writer) ++ reader_grants reader))
  InitErrorTold v writer reader before (output e) after =
      (base : List Bytes) × Based v before base
      × (after ≡ (base ++ writer_grants writer) ++ reader_grants reader)
  InitErrorTold v writer reader before _ after = after ≡ before

  abbrev pub InitTold :
      S.State → Bytes → Bytes → List Bytes → Result CmdError (Unit {0}) → List Bytes → Type 0
  InitTold v writer reader before (ok u) after =
      (base : List Bytes) × Based v before base
      × (after ≡ (base ++ writer_grants writer) ++ reader_grants reader)
  InitTold v writer reader before (err e) after = InitErrorTold v writer reader before e after

  abbrev statements_of : Process S → List Bytes
  statements_of p = granted p.stores.ledger

  -- One role: with success its grants are there, with an error all of them or none.
  abbrev Staged :
      (ProvisionFailure → CmdError)
      → List Bytes
      → List Bytes
      → Result CmdError (Unit {0})
      → List Bytes
      → Type 0
  Staged f grants before (ok u) after = after ≡ before ++ grants
  Staged f grants before (err e) after =
      (x : ProvisionFailure) × (e ≡ f x) × ((after ≡ before) ⊎ (after ≡ before ++ grants))

  Granted-Staged :
      (f : ProvisionFailure → CmdError) (role : Bytes) (extra grants : List Bytes) (v s : S.State)
      (r : Result ProvisionFailure (Unit {0})) (t : S.State)
      → Granted S C env.sanitize role extra grants v s r t
      → Staged f grants (granted s) (map_result f r) (granted t)
  Granted-Staged f role extra grants v s (ok u) t h = h.1
  Granted-Staged f role extra grants v s (err role_name_required) t h = (_, refl, inl h.1)
  Granted-Staged f role extra grants v s (err role_does_not_exist) t h = (_, refl, inl h.1)
  Granted-Staged f role extra grants v s (err role_cannot_log_in) t h = (_, refl, inl h.1)
  Granted-Staged f role extra grants v s (err (reaches_authority reasons)) t h = (_, refl, inl h.1)
  Granted-Staged f role extra grants v s (err (provision_database e)) t (inl h) = (_, refl, inl h)
  Granted-Staged f role extra grants v s (err (provision_database e)) t (inr h) = (_, refl, inr h.1)

  writer-Staged :
      (dsn writer : Bytes) (p : Process S)
      → let done =
          unless_empty S env writer provisioning_writer (provision_writer S env.sanitize dsn) p in
        Staged
          (provisioning_writer writer)
          (writer_grants writer)
          (statements_of p)
          done.0
          (statements_of done.1)
  unfolding provision_writer
  writer-Staged dsn [] p = sym (append-nil _)
  writer-Staged dsn (c ∷ role) p =
      Granted-Staged (provisioning_writer (c ∷ role)) (c ∷ role) [] (writer_grants (c ∷ role))
        (started S C env.sanitize dsn p.stores.ledger) p.stores.ledger _ _
        (provision-Granted S C env.sanitize dsn (c ∷ role) [] _ p.stores.ledger)

  reader-Staged :
      (dsn reader : Bytes) (p : Process S)
      → let done =
          unless_empty S env reader provisioning_reader (provision_reader S env.sanitize dsn) p in
        Staged
          (provisioning_reader reader)
          (reader_grants reader)
          (statements_of p)
          done.0
          (statements_of done.1)
  unfolding provision_reader
  reader-Staged dsn [] p = sym (append-nil _)
  reader-Staged dsn (c ∷ role) p =
      Granted-Staged (provisioning_reader (c ∷ role)) (c ∷ role) (str "INSERT" ∷ [])
        (reader_grants (c ∷ role)) (started S C env.sanitize dsn p.stores.ledger) p.stores.ledger _
        _ (provision-Granted S C env.sanitize dsn (c ∷ role) (str "INSERT" ∷ []) _ p.stores.ledger)

  abbrev done_line : Cmd S (Unit {0})
  done_line = encode_line S (some (str "{\"initialized\":true}"))

  -- From here on, with everything granted.
  done_line-InitTold :
      (v : S.State) (writer reader : Bytes) (before base : List Bytes) (p : Process S)
      → Based v before base
      → statements_of p ≡ (base ++ writer_grants writer) ++ reader_grants reader
      → InitTold v writer reader before (done_line p).0 (statements_of (done_line p).1)
  unfolding encode_line
  done_line-InitTold v writer reader before base p based h =
      let kept = ap granted (encode_line-ledger S (some (str "{\"initialized\":true}")) p) ∙ h in
      elim (put_out-cases S (str "{\"initialized\":true}\n") p) [
        | inl done ↦ rw done (base, based, kept)
        | inr (e, failed) ↦ rw failed (base, based, kept)
      ]

  after_reader-InitTold :
      (v : S.State) (writer reader : Bytes) (before base : List Bytes)
      (r : Result CmdError (Unit {0})) (q : Process S)
      → Based v before base
      → Staged
          (provisioning_reader reader)
          (reader_grants reader)
          (base ++ writer_grants writer)
          r
          (statements_of q)
      → let done = after_result (λ u. done_line) r q in
        InitTold v writer reader before done.0 (statements_of done.1)
  after_reader-InitTold v writer reader before base (ok u) q based h =
      done_line-InitTold v writer reader before base q based h
  after_reader-InitTold v writer reader before base (err e) q based (x, same, h) =
      subst (λ e'. InitErrorTold v writer reader before e' (statements_of q)) (sym same)
        (base, based, h)

  abbrev rest_reader : Bytes → Bytes → Cmd S (Unit {0})
  rest_reader dsn reader =
      unless_empty S env reader provisioning_reader (provision_reader S env.sanitize dsn)
      >> done_line

  after_writer-InitTold :
      (v : S.State) (dsn writer reader : Bytes) (before base : List Bytes)
      (r : Result CmdError (Unit {0})) (q : Process S)
      → Based v before base
      → Staged (provisioning_writer writer) (writer_grants writer) base r (statements_of q)
      → let done = after_result (λ u. rest_reader dsn reader) r q in
        InitTold v writer reader before done.0 (statements_of done.1)
  after_writer-InitTold v dsn writer reader before base (ok u) q based h =
      let done =
        unless_empty S env reader provisioning_reader (provision_reader S env.sanitize dsn) q in
      after_reader-InitTold v writer reader before base done.0 done.1 based (
        subst
          (λ l.
            Staged (provisioning_reader reader) (reader_grants reader) l done.0
              (statements_of done.1))
          h (reader-Staged dsn reader q))
  after_writer-InitTold v dsn writer reader before base (err e) q based (x, same, h) =
      subst (λ e'. InitErrorTold v writer reader before e' (statements_of q)) (sym same)
        (base, based, h)

  abbrev rest_writer : Bytes → Bytes → Bytes → Cmd S (Unit {0})
  rest_writer dsn writer reader =
      unless_empty S env writer provisioning_writer (provision_writer S env.sanitize dsn)
      >> rest_reader dsn reader

  after_initialize-InitTold :
      (v : S.State) (dsn writer reader : Bytes) (s : S.State) (r : Result InitFailure (Unit {0}))
      (q : Process S)
      → Initialized S C env.schema v s r q.stores.ledger
      → let done =
          after_result (λ u. rest_writer dsn writer reader) (map_result initializing r) q in
        InitTold v writer reader (granted s) done.0 (statements_of done.1)
  after_initialize-InitTold v dsn writer reader s (ok u) q h =
      let done =
        unless_empty S env writer provisioning_writer (provision_writer S env.sanitize dsn) q in
      after_writer-InitTold v dsn writer reader (granted s) (statements_of q) done.0 done.1 h
        (writer-Staged dsn writer q)
  after_initialize-InitTold v dsn writer reader s (err (init_database e)) q h = h
  after_initialize-InitTold v dsn writer reader s (err wrong_encoding) q h = h
  after_initialize-InitTold v dsn writer reader s (err not_ordinary_table) q h = h
  after_initialize-InitTold v dsn writer reader s (err not_permanent_table) q h = h
  after_initialize-InitTold v dsn writer reader s (err has_row_security) q h = h
  after_initialize-InitTold v dsn writer reader s (err has_extras) q h = h
  after_initialize-InitTold v dsn writer reader s (err (schema_differs d)) q h = h

  -- The state of the server in which `Initialize` asks for the table.
  abbrev pub schema_state : Bytes → Process S → S.State
  schema_state dsn p = locked_at S C env.schema (open_db S dsn p.stores.ledger).1

  init_with-InitTold :
      (dsn writer reader : Bytes) (p : Process S)
      → let done = init_with S env dsn writer reader p in
        InitTold (schema_state dsn p) writer reader (statements_of p) done.0 (statements_of done.1)
  unfolding init_with
  init_with-InitTold dsn writer reader p = elim (Bool-cases (is_empty dsn)) [
    | inl missing ↦ rw missing refl
    | inr given ↦
        let done = initialize S env.schema dsn p.stores.ledger in
        rw given (
          after_initialize-InitTold (schema_state dsn p) dsn writer reader p.stores.ledger done.0
            (with_db S done.1 p) (initialize-Initialized S C env.schema dsn p.stores.ledger))
  ]

  -- Whatever a server answers that keeps to `IsCatalog`, `duro init` with flags that parse does its
  -- steps in order and tells where it stopped. It succeeds only if the schema was committed, or the
  -- server said that the table exists and it passed every test of `Initialize`, and behind it exactly the grants of the writer that was named and those of the
  -- reader that was named. A failed step has committed all of its statements or none, and the steps
  -- in front of it theirs; a database that is refused is left as it was; and an error of the output
  -- stands for everything done.
  pub run_init-InitTold :
      (args : List Bytes) (flags : Settings) (p : Process S)
      → parse init_flags args ≡ parsed flags []
      → let done = run_init S env args p in
        InitTold
          (schema_state (postgres_dsn env (value_of (str "postgres") flags)) p)
          (value_of (str "writer") flags)
          (value_of (str "reader") flags)
          (statements_of p)
          done.0
          (statements_of done.1)
  unfolding run_init flags_of
  run_init-InitTold args flags p h = rw h (
      init_with-InitTold (postgres_dsn env (value_of (str "postgres") flags))
        (value_of (str "writer") flags) (value_of (str "reader") flags) p)
