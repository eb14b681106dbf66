-- ===== src/Cmd/Guard.antt =====
-- Commands that check before they act: what a usage error leaves untouched, step by step.
use duro_ledger.Base.{
  ltb, ◌≡◌, refl, ap, ◌∙◌, Bool, true, false, inl, inr, Option, none, some, List, [], ◌∷◌, ◌++◌,
  if◌then◌else◌, Bytes, length, Bool-cases, Result, ok, err,
}
use duro_ledger.Base.Action.{Action, after_result, ◌>>=◌, map_result}
use duro_ledger.Go.Flag.{Parsed, help, flag_error, parsed, parse}
use duro_ledger.Event.Types.{ValidationError}
use duro_ledger.Os.State.{Os}
use duro_ledger.Os.Stream.{Written, sink, write}
use duro_ledger.Postgres.Server.{Server}
use duro_ledger.Cmd.{
  Usage, CmdError, help_requested, missing_flags, malformed_identity, flag_failure,
  unexpected_arguments, unknown_command, unknown_subcommand, malformed_uuid, invalid_event, Process,
  Cmd, on_files, on_db, reject_with_usage, accept_parsed, flags_of, put_out, print_line,
  encode_line, file_result,
}
use duro_ledger.Cmd.Events.{check_event}

-- The errors of a command line that is not accepted: its words, its flags, and the values that are
-- checked before anything is opened.
abbrev pub is_usage_error : CmdError → Bool
is_usage_error help_requested = true
is_usage_error missing_flags = true
is_usage_error malformed_identity = true
is_usage_error (flag_failure e) = true
is_usage_error (unexpected_arguments args) = true
is_usage_error (unknown_command arg) = true
is_usage_error (unknown_subcommand arg) = true
is_usage_error (malformed_uuid id) = true
is_usage_error (invalid_event e) = true
is_usage_error _ = false

module _ (S : Server) where
  -- A result that is a usage error has not changed the stores.
  abbrev pub Guarded : {A : Type 0} → Process S → Result CmdError A → Process S → Type 0
  Guarded p (ok a) q = Unit {0}
  Guarded p (err e) q = is_usage_error e ≡ true → q.stores ≡ p.stores

  abbrev pub Careful : {A : Type 0} → Cmd S A → Type 0
  Careful m = (p : Process S) → Guarded p (m p).0 (m p).1

  abbrev pub Quiet : {A : Type 0} → Cmd S A → Type 0
  Quiet m = (p : Process S) → (m p).1.stores ≡ p.stores

  -- A result that is no usage error.
  abbrev pub Late : {A : Type 0} → Result CmdError A → Type 0
  Late (ok a) = Unit {0}
  Late (err e) = is_usage_error e ≡ false

  abbrev pub Clean : {A : Type 0} → Cmd S A → Type 0
  Clean m = (p : Process S) → Late (m p).0

  Guarded-trans :
      {A : Type 0} (p q t : Process S) (r : Result CmdError A)
      → q.stores ≡ p.stores
      → Guarded q r t
      → Guarded p r t
  Guarded-trans p q t (ok a) same h = tt
  Guarded-trans p q t (err e) same h = λ u. h u ∙ same

  after-Guarded :
      {A B : Type 0} (r : Result CmdError A) (f : A → Cmd S B) (p q : Process S)
      → q.stores ≡ p.stores
      → ((a : A) → Careful (f a))
      → Guarded p (after_result f r q).0 (after_result f r q).1
  after-Guarded (ok a) f p q same h = Guarded-trans p q _ _ same (h a q)
  after-Guarded (err e) f p q same h = λ u. same

  pub bind-Careful :
      {A B : Type 0} (m : Cmd S A) (f : A → Cmd S B)
      → Quiet m
      → ((a : A) → Careful (f a))
      → Careful (m >>= f)
  bind-Careful m f quiet h p = after-Guarded (m p).0 f p (m p).1 (quiet p) h

  Late-Guarded : {A : Type 0} (r : Result CmdError A) (p q : Process S) → Late r → Guarded p r q
  Late-Guarded (ok a) p q h = tt
  Late-Guarded (err e) p q h = λ u. cc

  pub Clean-Careful : {A : Type 0} (m : Cmd S A) → Clean m → Careful m
  Clean-Careful m h p = Late-Guarded (m p).0 p (m p).1 (h p)

  after-Late :
      {A B : Type 0} (r : Result CmdError A) (f : A → Cmd S B) (q : Process S)
      → Late r
      → ((a : A) → Clean (f a))
      → Late (after_result f r q).0
  after-Late (ok a) f q late h = h a q
  after-Late (err e) f q late h = late

  pub bind-Clean :
      {A B : Type 0} (m : Cmd S A) (f : A → Cmd S B)
      → Clean m
      → ((a : A) → Clean (f a))
      → Clean (m >>= f)
  bind-Clean m f late h p = after-Late (m p).0 f (m p).1 (late p) h

  mapped-Late :
      {E A : Type 0} (f : E → CmdError) (r : Result E A)
      → ((e : E) → is_usage_error (f e) ≡ false)
      → Late (map_result f r)
  mapped-Late f (ok a) h = tt
  mapped-Late f (err e) h = h e

  -- The steps of the packages.
  pub on_db-Clean :
      {E A : Type 0} (f : E → CmdError) (m : Action S.State E A)
      → ((e : E) → is_usage_error (f e) ≡ false)
      → Clean (on_db S f m)
  on_db-Clean f m h p = mapped-Late f (m p.stores.ledger).0 h

  pub on_files-Clean :
      {E A : Type 0} (f : E → CmdError) (m : Action Os E A)
      → ((e : E) → is_usage_error (f e) ≡ false)
      → Clean (on_files S f m)
  on_files-Clean f m h p = mapped-Late f (m p.stores.os).0 h

  file_result-Late : (b : Bytes) (w : Written) → Late (file_result b w)
  file_result-Late b (n, some e) = refl
  file_result-Late b (n, none) = elim (Bool-cases (ltb n (length b))) [
    | inl short ↦ rw short refl
    | inr full ↦ rw full tt
  ]

  put_out-Clean : (b : Bytes) → Clean (put_out S b)
  unfolding put_out
  put_out-Clean b p = file_result-Late b (write sink b p.stores.os).0

  pub encode_line-Clean : (o : Option Bytes) → Clean (encode_line S o)
  unfolding encode_line
  encode_line-Clean none p = refl
  encode_line-Clean (some b) p = put_out-Clean (b ++ (b'\n' ∷ [])) p

  pub print_line-Clean : (b : Bytes) → Clean (print_line S b)
  unfolding print_line
  print_line-Clean b p = tt

  -- The checks in front.
  accept_parsed-Quiet : (usage : Usage) (r : Parsed) → Quiet (accept_parsed S usage r)
  accept_parsed-Quiet usage help p = refl
  accept_parsed-Quiet usage (flag_error e) p = refl
  accept_parsed-Quiet usage (parsed settings []) p = refl
  accept_parsed-Quiet usage (parsed settings (a ∷ rest)) p = refl

  pub flags_of-Quiet :
      (usage : Usage) (defined args : List Bytes) → Quiet (flags_of S usage defined args)
  unfolding flags_of
  flags_of-Quiet usage defined args = accept_parsed-Quiet usage (parse defined args)

  pub reject-Quiet :
      (usage : Usage) (c : Bool) (e : CmdError) → Quiet (reject_with_usage S usage c e)
  reject-Quiet usage true e p = refl
  reject-Quiet usage false e p = refl

  pub check_event-Quiet : (v : Option ValidationError) → Quiet (check_event S v)
  check_event-Quiet none p = refl
  check_event-Quiet (some e) p = refl

  pub if-Careful :
      {A : Type 0} (c : Bool) (m k : Cmd S A) → Careful m → Careful k → Careful (if c then m else k)
  if-Careful true m k h h' = h
  if-Careful false m k h h' = h'

  pub Guarded-error :
      {A : Type 0} (p : Process S) (r : Result CmdError A) (q : Process S) (e : CmdError)
      → Guarded p r q
      → r ≡ err e
      → is_usage_error e ≡ true
      → q.stores ≡ p.stores
  Guarded-error p (ok a) q e h k u = cc
  Guarded-error p (err e') q e h k u = let same : e' ≡ e = cc in h (ap is_usage_error same ∙ u)
