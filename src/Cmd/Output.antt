-- ===== src/Cmd/Output.antt =====
-- The JSON that the commands write.
pub mod Lines
pub mod Printed
use duro_ledger.Base.{Bool, ℕ, Option, none, some, List, [], ◌∷◌, ◌++◌, Bytes, str}
use duro_ledger.Go.Json.Encode.{encode_text, encode_number}
use duro_ledger.Go.Json.Compact.{compact}
use duro_ledger.Go.Time.{rfc3339_nano}
use duro_ledger.Postgres.Types.{StoredEvent}
use duro_ledger.Artifact.{PutResult, PutError}

-- One member of an object, behind the text before it.
unfoldable pub member : Bytes → Bytes → Bytes
member name value = encode_text name ++ (b':' ∷ value)

unfoldable pub members : List (Bytes × Bytes) → Bytes
members [] = str "}"
members ((name, value) ∷ []) = member name value ++ str "}"
members ((name, value) ∷ m ∷ more) = member name value ++ (b',' ∷ members (m ∷ more))

abbrev pub object : List (Bytes × Bytes) → Bytes
object ms = b'{' ∷ members ms

abbrev boolean : Bool → Bytes
boolean Bool.true = str "true"
boolean Bool.false = str "false"

-- Both texts, where there are both.
abbrev pub with_both : (Bytes → Bytes → Bytes) → Option Bytes → Option Bytes → Option Bytes
with_both f (some a) (some b) = some (f a b)
with_both f (some a) none = none
with_both f none b = none

-- `eventJSON`, with the content and the refs as they are encoded.
abbrev pub event_object : StoredEvent → Bytes → Bytes → Bytes
event_object se content refs = object (
    (str "id", encode_text se.id)
    ∷ (str "received_at", encode_text (rfc3339_nano se.received_at))
    ∷ (str "event_type", encode_text se.event_type)
    ∷ (str "actor", encode_text se.actor)
    ∷ (str "content", content)
    ∷ (str "refs", refs)
    ∷ [])

-- `toEventJSON`, encoded; `none` where the content or the refs are no JSON.
unfoldable pub event_json : StoredEvent → Option Bytes
event_json se = with_both (event_object se) (compact se.content) (compact se.refs)

abbrev receipt_object : PutResult → Bytes → Bytes
receipt_object result event = object (
    (str "digest", encode_text result.digest)
    ∷ (str "size_bytes", encode_number result.size)
    ∷ (str "event", event)
    ∷ [])

abbrev receipt_with : PutResult → Option Bytes → Option Bytes
receipt_with result none = none
receipt_with result (some event) = some (receipt_object result event)

-- What `artifact put` writes.
unfoldable pub receipt_json : PutResult → Option Bytes
receipt_json result = receipt_with result (event_json result.event)

-- What `artifact put` writes to the standard error; the last text is that of the error inside.
unfoldable pub put_error_json : PutError → Bytes → Bytes
put_error_json pe error = object (
    (str "digest", encode_text pe.digest)
    ∷ (str "size_bytes", encode_number pe.size)
    ∷ (str "artifact_stored", boolean pe.artifact_stored)
    ∷ (str "event_outcome", encode_text pe.event_outcome)
    ∷ (str "error", encode_text error)
    ∷ [])

-- What `artifact get --out` writes.
unfoldable pub copied_json : Bytes → Bytes → Bytes
copied_json digest path =
    object ((str "digest", encode_text digest) ∷ (str "path", encode_text path) ∷ [])
