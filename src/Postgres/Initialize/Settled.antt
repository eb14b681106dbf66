-- ===== src/Postgres/Initialize/Settled.antt =====
-- What `Initialize` may have committed, by how it ended.
use mathlib.Core.Bool.{not}
use duro_ledger.Base.{
  ◌≡◌, ◌⊎◌, inl, inr, true, refl, ap, ◌∙◌, ◌||◌, List, [], ◌∷◌, ◌++◌, ltb, Bytes, str, beq,
  is_empty, Bool-cases, Result, ok, err, Result-cases,
}
use duro_ledger.Base.Action.{reject_if}
use duro_ledger.Base.Action.Keeps.{bind_keeps, reject_if_keeps}
use duro_ledger.Postgres.Server.{
  Server, Query, server_encoding, events_exist, extra_objects, table_columns, table_constraints,
}
use duro_ledger.Postgres.Ledger.{open_db}
use duro_ledger.Postgres.Provision.Catalog.{IsCatalog, open_db_keeps}
use duro_ledger.Postgres.Initialize.{
  InitFailure, init_database, wrong_encoding, not_ordinary_table, not_permanent_table,
  has_row_security, has_extras, schema_differs, initialize_lock_key, events_table, reference_table,
  reference_schema, db, describe_query, describe_table, check_existing, create_schema,
  initialize_tx, initialize_open, initialize,
}

module _ (S : Server) (C : IsCatalog S) (schema : Bytes) where
  open C use {granted, executed}

  -- The server says that the table exists, and it passes every test of `Initialize`; `v` is the state
  -- behind the advisory lock.
  abbrev pub Present : S.State → Type 0
  Present v =
      let asked = S.query_flag events_exist v in
      (asked.0 ≡ ok true) × ((check_existing S schema asked.1).0 ≡ ok tt)

  -- The table is there with its schema already, or the schema was committed.
  abbrev pub InPlace : S.State → List Bytes → List Bytes → Type 0
  InPlace v before after = (Present v × (after ≡ before)) ⊎ (after ≡ before ++ (schema ∷ []))

  -- What is committed at `t`, after an `Initialize` that began at `s`, by its result.
  abbrev pub Initialized : S.State → S.State → Result InitFailure (Unit {0}) → S.State → Type 0
  Initialized v s (ok u) t = InPlace v (granted s) (granted t)
  Initialized v s (err (init_database e)) t =
      (granted t ≡ granted s) ⊎ (granted t ≡ granted s ++ (schema ∷ []))
  Initialized v s (err wrong_encoding) t = granted t ≡ granted s
  Initialized v s (err not_ordinary_table) t = granted t ≡ granted s
  Initialized v s (err not_permanent_table) t = granted t ≡ granted s
  Initialized v s (err has_row_security) t = granted t ≡ granted s
  Initialized v s (err has_extras) t = granted t ≡ granted s
  Initialized v s (err (schema_differs d)) t = granted t ≡ granted s

  Initialized-same :
      (v s : S.State) (r : Result InitFailure (Unit {0})) (t : S.State)
      → (r ≡ ok tt → Present v)
      → granted t ≡ granted s
      → Initialized v s r t
  Initialized-same v s (ok u) t p h = inl (p refl, h)
  Initialized-same v s (err (init_database e)) t p h = inl h
  Initialized-same v s (err wrong_encoding) t p h = h
  Initialized-same v s (err not_ordinary_table) t p h = h
  Initialized-same v s (err not_permanent_table) t p h = h
  Initialized-same v s (err has_row_security) t p h = h
  Initialized-same v s (err has_extras) t p h = h
  Initialized-same v s (err (schema_differs d)) t p h = h

  Initialized-moved :
      (v s : S.State) (r : Result InitFailure (Unit {0})) (t t' : S.State)
      → granted t' ≡ granted t
      → Initialized v s r t
      → Initialized v s r t'
  Initialized-moved v s (ok u) t t' e (inl (p, h)) = inl (p, e ∙ h)
  Initialized-moved v s (ok u) t t' e (inr h) = inr (e ∙ h)
  Initialized-moved v s (err (init_database x)) t t' e h = rw e h
  Initialized-moved v s (err wrong_encoding) t t' e h = e ∙ h
  Initialized-moved v s (err not_ordinary_table) t t' e h = e ∙ h
  Initialized-moved v s (err not_permanent_table) t t' e h = e ∙ h
  Initialized-moved v s (err has_row_security) t t' e h = e ∙ h
  Initialized-moved v s (err has_extras) t t' e h = e ∙ h
  Initialized-moved v s (err (schema_differs d)) t t' e h = e ∙ h

  describe_query_keeps :
      (s t : S.State) (out : List Bytes) (q : Query)
      → granted t ≡ granted s
      → granted (describe_query S schema out (S.query_rows q) t).1 ≡ granted s
  unfolding describe_query
  describe_query_keeps s t out q h =
      bind_keeps (λ u. granted u ≡ granted s) (S.query_rows q) _ t ((C.query_rows_keeps q t).0 ∙ h)
        λ rows k. k

  describe_table_keeps :
      (s t : S.State) (qualified : Bytes)
      → granted t ≡ granted s
      → granted (describe_table S schema qualified t).1 ≡ granted s
  unfolding describe_table
  describe_table_keeps s t qualified h =
      bind_keeps (λ u. granted u ≡ granted s)
        (describe_query S schema [] (S.query_rows (table_columns qualified))) _ t
        (describe_query_keeps s t [] (table_columns qualified) h)
        λ columns k. describe_query_keeps s _ columns (table_constraints qualified) k

  -- The tests of an existing table commit nothing.
  check_existing_keeps :
      (s t : S.State) → granted t ≡ granted s → granted (check_existing S schema t).1 ≡ granted s
  unfolding check_existing
  check_existing_keeps s t h =
      let P = λ (u : S.State). granted u ≡ granted s in
      bind_keeps P (db S schema S.query_facts) _ t ((C.query_facts_keeps t).0 ∙ h) λ facts k.
        let u = (S.query_facts t).1 in
        bind_keeps P (reject_if (not (beq facts.relkind (str "r"))) not_ordinary_table) _ u
          (reject_if_keeps P _ _ u k)
          λ _ k1.
            bind_keeps P (reject_if (not (beq facts.relpersistence (str "p"))) not_permanent_table)
              _ _ (reject_if_keeps P _ _ _ k1)
              λ _ k2.
                bind_keeps P
                  (reject_if
                    (facts.row_security || (facts.force_row_security || ltb 0 facts.policies))
                    has_row_security)
                  _ _ (reject_if_keeps P _ _ _ k2)
                  λ _ k3.
                    bind_keeps P (db S schema (S.query_text extra_objects)) _ _
                      ((C.query_text_keeps extra_objects _).0 ∙ k3)
                      λ extras k4.
                        bind_keeps P (reject_if (not (is_empty extras)) has_extras) _ _
                          (reject_if_keeps P _ _ _ k4)
                          λ _ k5.
                            bind_keeps P (db S schema (S.exec (reference_schema schema))) _ _
                              (C.exec_keeps _ _ ∙ k5)
                              λ _ k6.
                                bind_keeps P (db S schema (describe_table S schema reference_table))
                                  _ _ (describe_table_keeps s _ reference_table k6)
                                  λ want k7.
                                    bind_keeps P
                                      (db S schema (describe_table S schema events_table)) _ _
                                      (describe_table_keeps s _ events_table k7) λ got k8. k8

  create_schema-Initialized :
      (v s t : S.State)
      → granted t ≡ granted s
      → executed t ≡ []
      → let end = create_schema S schema t in Initialized v s end.0 end.1
  unfolding create_schema
  create_schema-Initialized v s t same none_yet =
      let u = (S.exec schema t).1 in
      let kept = C.exec_keeps schema t ∙ same in
      elim (Result-cases (S.exec schema t).0) [
        | inr (e, failed) ↦ rw failed (inl kept)
        | inl (x, sent) ↦
            let only : executed u ≡ schema ∷ [] =
              C.exec_adds schema t x sent ∙ ap (λ l. l ++ (schema ∷ [])) none_yet in
            rw sent (elim (Result-cases (S.commit u).0) [
              | inl (y, confirmed) ↦
                  rw confirmed (inr (C.commit_confirmed u y confirmed ∙ rw (kept, only)))
              | inr (e, failed) ↦ rw failed (elim (C.commit_atomic u) [
                | inl gone ↦ inl (gone ∙ kept)
                | inr there ↦ inr (there ∙ rw (kept, only))
              ])
            ])
      ]

  initialize_tx-Initialized :
      (s t : S.State)
      → granted t ≡ granted s
      → executed t ≡ []
      → let end = initialize_tx S schema t in
        Initialized (S.advisory_lock initialize_lock_key t).1 s end.0 end.1
  unfolding initialize_tx
  initialize_tx-Initialized s t same none_yet =
      let (lock_kept, lock_sent) = C.advisory_lock_keeps initialize_lock_key t in
      let u = (S.advisory_lock initialize_lock_key t).1 in
      let (kept, sent) = C.query_flag_keeps events_exist u in
      let v = (S.query_flag events_exist u).1 in
      elim (Result-cases (S.advisory_lock initialize_lock_key t).0) [
        | inr (e, failed) ↦ rw failed (inl (lock_kept ∙ same))
        | inl (x, locked) ↦ rw locked (elim (Result-cases (S.query_flag events_exist u).0) [
          | inr (e, failed) ↦ rw failed (inl (kept ∙ lock_kept ∙ same))
          | inl (exists, known) ↦ rw known (elim (Bool-cases exists) [
            | inl there ↦ rw there (
                Initialized-same u s _ _ (λ passed. (known ∙ ap ok there, passed))
                  (check_existing_keeps s v (kept ∙ lock_kept ∙ same)))
            | inr free ↦ rw free (
                create_schema-Initialized u s v (kept ∙ lock_kept ∙ same)
                  (sent ∙ lock_sent ∙ none_yet))
          ])
        ])
      ]

  -- The state behind the advisory lock, from the one behind the connection.
  abbrev pub locked_at : S.State → S.State
  locked_at t =
      (S.advisory_lock initialize_lock_key (S.begin (S.query_text server_encoding t).1).1).1

  initialize_open-Initialized :
      (s t : S.State)
      → granted t ≡ granted s
      → let end = initialize_open S schema t in Initialized (locked_at t) s end.0 end.1
  unfolding initialize_open
  initialize_open-Initialized s t same =
      let kept = (C.query_text_keeps server_encoding t).0 ∙ same in
      let u = (S.query_text server_encoding t).1 in
      elim (Result-cases (S.query_text server_encoding t).0) [
        | inr (e, failed) ↦ rw failed (inl kept)
        | inl (encoding, known) ↦ rw known (elim (Bool-cases (beq encoding (str "UTF8"))) [
          | inr wrong ↦ rw wrong kept
          | inl right ↦ rw right (elim (Result-cases (S.begin u).0) [
            | inr (e, failed) ↦ rw failed (inl (C.begin_keeps u ∙ kept))
            | inl (x, begun) ↦ rw begun (
                Initialized-moved (locked_at t) s _ _ _ (C.rollback_keeps _) (
                  initialize_tx-Initialized s (S.begin u).1 (C.begin_keeps u ∙ kept)
                    (C.begin_empty u x begun)))
          ])
        ])
      ]

  -- `Initialize` against a server that keeps to `IsCatalog`: it commits nothing, or exactly the schema
  -- as one transaction. If it succeeds without committing, the server said behind the lock that the
  -- table exists, and the table passed every test; and whenever it refuses a database, for its encoding
  -- or for the events table that it has, nothing was committed.
  pub initialize-Initialized :
      (dsn : Bytes) (s : S.State)
      → let end = initialize S schema dsn s in
        Initialized (locked_at (open_db S dsn s).1) s end.0 end.1
  unfolding initialize
  initialize-Initialized dsn s = elim (Result-cases (open_db S dsn s).0) [
    | inr (e, failed) ↦ rw failed (inl (open_db_keeps S C dsn s))
    | inl (x, opened) ↦ rw opened (
        Initialized-moved (locked_at (open_db S dsn s).1) s _ _ _ (C.close_keeps _)
          (initialize_open-Initialized s _ (open_db_keeps S C dsn s)))
  ]
