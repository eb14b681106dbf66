-- ===== src/Tests/Server.antt =====
-- A server that keeps its events and statements in lists; `commit_failure` scripts the answer to the
-- commits.
use duro_ledger.Base.{
  ◌≡◌, inl, inr, ◌⊎◌, refl, ap, sym, Bool, true, false, Option, none, some, List, [], ◌∷◌, ◌++◌,
  Bytes, str, Result, ok, err,
}
use duro_ledger.Go.Time.{Time, east}
use duro_ledger.Postgres.Types.{StoredEvent, DbError}
use duro_ledger.Postgres.Server.{Server, Query, server_encoding, events_exist}
use duro_ledger.Postgres.Ledger.Commits.{IsLedger}
use duro_ledger.Postgres.Ledger.Session.{IsSession}
use duro_ledger.Postgres.Provision.Catalog.{IsCatalog}

pub record Db : Type 0 where
  pub events : List StoredEvent
  pub inserted : List StoredEvent
  pub granted : List Bytes
  pub sent : List Bytes
  pub commit_failure : Option DbError

abbrev pub new_year : Time
new_year = record {
  year = 2026;
  month = 1;
  day = 1;
  hour = 0;
  minute = 0;
  second = 0;
  nanosecond = 0;
  zone = east 0;
}

abbrev new_event : Bytes → Bytes → Bytes → StoredEvent
new_event t c r = record {
  id = str "11111111-1111-4111-8111-111111111111";
  received_at = new_year;
  event_type = t;
  actor = str "writer";
  content = c;
  refs = r;
}

abbrev pub run_commit : Option DbError → Db → Result DbError (Unit {0}) × Db
run_commit (some e) s = (err e, record s { inserted = []; sent = [] })
run_commit none s = (
  ok tt,
  record s {
    events = s.events ++ s.inserted;
    inserted = [];
    granted = s.granted ++ s.sent;
    sent = [];
  },
)

abbrev forget : Db → Db
forget s = record s { inserted = []; sent = [] }

-- The database is in UTF-8 and has no table yet; each role may log in.
abbrev text_answer : Query → Bytes
text_answer server_encoding = str "UTF8"
text_answer _ = []

abbrev flag_answer : Query → Bool
flag_answer events_exist = false
flag_answer _ = true

abbrev pub lists : Server
lists = record {
  State = Db;
  open_handle = λ dsn s. (ok tt, s);
  ping = λ s. (ok tt, s);
  close = λ s. s;
  begin = λ s. (ok tt, forget s);
  commit = λ s. run_commit s.commit_failure s;
  rollback = forget;
  insert_event = λ t c r s.
      (ok (new_event t c r), record s { inserted = s.inserted ++ (new_event t c r ∷ []) });
  select_event = λ id s. (ok (new_event (str "note") (str "{}") (str "{}")), s);
  advisory_lock = λ key s. (ok tt, s);
  exec = λ stmt s. (ok tt, record s { sent = s.sent ++ (stmt ∷ []) });
  query_text = λ q s. (ok (text_answer q), s);
  query_flag = λ q s. (ok (flag_answer q), s);
  query_facts = λ s. (
    ok (record {
      relkind = str "r";
      relpersistence = str "p";
      row_security = false;
      force_row_security = false;
      policies = 0;
    }),
    s,
  );
  query_rows = λ q s. (ok (record { lines = []; ending = none }), s);
}

pub commit_confirmed_events :
    (o : Option DbError) (s : Db) (u : Unit {0})
    → (run_commit o s).0 ≡ ok u
    → ((run_commit o s).1.events ≡ s.events ++ s.inserted)
      × ((run_commit o s).1.granted ≡ s.granted ++ s.sent)
commit_confirmed_events none s u h = (refl, refl)
commit_confirmed_events (some e) s u h = cc

pub commit_failed :
    (o : Option DbError) (s : Db) (e : DbError)
    → (run_commit o s).0 ≡ err e
    → (run_commit o s).1.events ≡ s.events
commit_failed none s e h = cc
commit_failed (some x) s e h = refl

abbrev the_ok : StoredEvent → Result DbError StoredEvent
the_ok a = ok a

pub ok-injective : (a b : StoredEvent) → the_ok a ≡ ok b → a ≡ b
ok-injective a b h = cc

pub commit_events :
    (o : Option DbError) (s : Db)
    → ((run_commit o s).1.events ≡ s.events) ⊎ ((run_commit o s).1.events ≡ s.events ++ s.inserted)
commit_events none s = inr refl
commit_events (some e) s = inl refl

pub commit_granted :
    (o : Option DbError) (s : Db)
    → ((run_commit o s).1.granted ≡ s.granted) ⊎ ((run_commit o s).1.granted ≡ s.granted ++ s.sent)
commit_granted none s = inr refl
commit_granted (some e) s = inl refl

abbrev pub lists-IsLedger : IsLedger lists
lists-IsLedger = record {
  appended = λ s. s.events;
  pending = λ s. s.inserted;
  begin_keeps = λ s. refl;
  begin_empty = λ s u h. refl;
  insert_keeps = λ t c r s. refl;
  insert_row = λ t c r s se h.
      let e = ok-injective (new_event t c r) se h in
      (ap (λ x. s.inserted ++ (x ∷ [])) e, ap (λ x. x.event_type) (sym e));
  commit_confirmed = λ s u h. (commit_confirmed_events s.commit_failure s u h).0;
  commit_atomic = λ s. commit_events s.commit_failure s;
  commit_refused = λ s e h refusal. commit_failed s.commit_failure s e h;
  rollback_keeps = λ s. refl;
}

abbrev pub lists-IsSession : IsSession lists lists-IsLedger
lists-IsSession = record {
  open_keeps = λ dsn s. refl;
  ping_keeps = λ s. refl;
  close_keeps = λ s. refl;
  select_keeps = λ id s. refl;
}

abbrev pub lists-IsCatalog : IsCatalog lists
lists-IsCatalog = record {
  granted = λ s. s.granted;
  executed = λ s. s.sent;
  open_keeps = λ dsn s. refl;
  ping_keeps = λ s. refl;
  close_keeps = λ s. refl;
  begin_keeps = λ s. refl;
  begin_empty = λ s u h. refl;
  query_flag_keeps = λ q s. (refl, refl);
  query_rows_keeps = λ q s. (refl, refl);
  query_text_keeps = λ q s. (refl, refl);
  query_facts_keeps = λ s. (refl, refl);
  advisory_lock_keeps = λ key s. (refl, refl);
  exec_keeps = λ stmt s. refl;
  exec_adds = λ stmt s u h. refl;
  commit_confirmed = λ s u h. (commit_confirmed_events s.commit_failure s u h).1;
  commit_atomic = λ s. commit_granted s.commit_failure s;
  rollback_keeps = λ s. refl;
}

-- A ledger with no event yet, whose commits are answered as given.
abbrev pub empty_db : Option DbError → Db
empty_db o = record { events = []; inserted = []; granted = []; sent = []; commit_failure = o }
