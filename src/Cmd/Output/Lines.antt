-- ===== src/Cmd/Output/Lines.antt =====
-- Each JSON value that a command prints is one line.
use duro_ledger.Base.{
  ℕ, zero, suc, ◌+◌, ◌/◌, ◌%◌, ◌≡◌, refl, arith, inl, inr, Bool-cases, true, Option, none, some,
  List, [], ◌∷◌, ◌++◌, Bytes, str, all, ltb, ok,
}
use duro_ledger.Go.Json.Encode.{encode_text, encode_number, digits}
use duro_ledger.Go.Json.Encode.Lines.{is_line, append-is_line, encode_text-is_line}
use duro_ledger.Go.Json.Compact.{compact}
use duro_ledger.Go.Time.{rfc3339_nano}
use duro_ledger.Go.Json.Compact.Lines.{compact-is_line}
use duro_ledger.Postgres.Types.{StoredEvent}
use duro_ledger.Postgres.Server.{Server}
use duro_ledger.Artifact.{PutResult}
use duro_ledger.Cmd.{Process, encode_line}
use duro_ledger.Cmd.Output.{
  member, members, object, with_both, event_object, event_json, receipt_object, receipt_with,
  receipt_json, copied_json,
}
use duro_ledger.Cmd.Output.Printed.{encode_line-ok}

digits-is_line :
    (fuel n : ℕ) (out : Bytes) → is_line out ≡ true → is_line (digits fuel n out) ≡ true
unfolding digits
digits-is_line zero n out h = h
digits-is_line (suc fuel) n out h =
    let rest = digits-is_line fuel (n / 10) ((b'0' + n % 10) ∷ out) (ground (arith, h)) in
    elim (Bool-cases (ltb n 10)) [
      | inl last ↦ rw last (ground (arith, h))
      | inr more ↦ rw more rest
    ]

encode_number-is_line : (n : ℕ) → is_line (encode_number n) ≡ true
unfolding encode_number
encode_number-is_line n = digits-is_line (n + 1) n [] refl

member-is_line : (name value : Bytes) → is_line value ≡ true → is_line (member name value) ≡ true
unfolding member
member-is_line name value h =
    append-is_line (encode_text name) (b':' ∷ value) (encode_text-is_line name) h

object-is_line :
    (ms : List (Bytes × Bytes)) → all (λ m. is_line m.1) ms ≡ true → is_line (object ms) ≡ true
unfolding members
object-is_line [] h = refl
object-is_line ((name, value) ∷ []) h =
    append-is_line (member name value) (str "}") (member-is_line name value (ground (arith, h)))
      refl
object-is_line ((name, value) ∷ m ∷ more) h =
    append-is_line (member name value) (b',' ∷ members (m ∷ more))
      (member-is_line name value (ground (arith, h)))
      (object-is_line (m ∷ more) (ground (arith, h)))

event_object-is_line :
    (se : StoredEvent) (content refs : Bytes)
    → is_line content ≡ true
    → is_line refs ≡ true
    → is_line (event_object se content refs) ≡ true
event_object-is_line se content refs h k = object-is_line _ (
    rw
      (
        encode_text-is_line se.id,
        encode_text-is_line (rfc3339_nano se.received_at),
        encode_text-is_line se.event_type,
        encode_text-is_line se.actor,
        h,
        k,
      )
      refl)

-- Where there is a text, it is a line.
abbrev Lines : Option Bytes → Type 0
Lines o = (b : Bytes) → o ≡ some b → is_line b ≡ true

none-Lines : Lines none
none-Lines b e = cc

some-Lines : (b : Bytes) → is_line b ≡ true → Lines (some b)
some-Lines b h c e = ground (arith, e, h)

with_both-Lines :
    (f : Bytes → Bytes → Bytes) (a b : Option Bytes)
    → Lines a
    → Lines b
    → ((x y : Bytes) → is_line x ≡ true → is_line y ≡ true → is_line (f x y) ≡ true)
    → Lines (with_both f a b)
with_both-Lines f none b h k both = none-Lines
with_both-Lines f (some x) none h k both = none-Lines
with_both-Lines f (some x) (some y) h k both = some-Lines (f x y) (both x y (h x refl) (k y refl))

event_json-Lines : (se : StoredEvent) → Lines (event_json se)
unfolding event_json
event_json-Lines se =
    with_both-Lines (event_object se) (compact se.content) (compact se.refs)
      (compact-is_line se.content) (compact-is_line se.refs) (event_object-is_line se)

receipt_with-Lines : (r : PutResult) (o : Option Bytes) → Lines o → Lines (receipt_with r o)
receipt_with-Lines r none h = none-Lines
receipt_with-Lines r (some event) h = some-Lines (receipt_object r event) (
    object-is_line _
      (rw (encode_text-is_line r.digest, encode_number-is_line r.size, h event refl) refl))

-- What a command prints on the standard output with `encode_line`.
pub data IsPrinted : Option Bytes → Type 0 where
  event_line : (se : StoredEvent) → IsPrinted (event_json se)
  receipt_line : (r : PutResult) → IsPrinted (receipt_json r)
  copied_line : (digest path : Bytes) → IsPrinted (some (copied_json digest path))
  initialized_line : IsPrinted (some (str "{\"initialized\":true}"))

printed-Lines : (o : Option Bytes) → IsPrinted o → Lines o
unfolding receipt_json copied_json
printed-Lines _ (event_line se) = event_json-Lines se
printed-Lines _ (receipt_line r) =
    receipt_with-Lines r (event_json r.event) (event_json-Lines r.event)
printed-Lines _ initialized_line = some-Lines _ refl
printed-Lines _ (copied_line digest path) =
    some-Lines (object _)
      (object-is_line _ (rw (encode_text-is_line digest, encode_text-is_line path) refl))

module _ (S : Server) where
  -- Whatever bytes an event, a receipt or a path holds, a command that prints it without an error has
  -- put exactly one line behind the standard output: a text without line breaks or other control
  -- characters, and one line break.
  pub encode_line-printed :
      (o : Option Bytes) (p : Process S)
      → IsPrinted o
      → (encode_line S o p).0 ≡ ok tt
      → (b : Bytes) × (o ≡ some b)
        × (is_line b ≡ true)
        × ((encode_line S o p).1.stores.os.out ≡ p.stores.os.out ++ (b ++ (b'\n' ∷ [])))
  unfolding encode_line
  encode_line-printed none p printed h = cc
  encode_line-printed (some b) p printed h =
      (b, refl, printed-Lines (some b) printed b refl, encode_line-ok S b p tt h)
