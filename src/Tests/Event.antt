-- ===== src/Tests/Event.antt =====
-- The theorems on events at concrete inputs.
use duro_ledger.Base.{◌≡◌, ◌↔◌, true, none, some, Bytes, str}
use duro_ledger.Event.Id.{valid_id}
use duro_ledger.Event.Id.Shape.{IsCanonical, valid_id_iff}
use duro_ledger.Event.Types.{New, validate, validate_object, content_field, refs_field}
use duro_ledger.Event.Types.Constraints.{validate_iff}
use duro_ledger.Go.Utf8.{valid_string}
use duro_ledger.Postgres.Schema.{event_type_nonblank, event_type_max_bytes}

abbrev an_id : Bytes
an_id = str "01926a3e-1c2d-7000-8abc-0123456789ab"

valid_id_iff_example : (valid_id an_id ≡ true) ↔ IsCanonical an_id
valid_id_iff_example = valid_id_iff an_id

abbrev note : New
note = record { event_type = str "note"; content = some (str "{\"a\": 1}"); refs = none }

validate_iff_example : (validate note ≡ none) ↔ (
    (valid_string note.event_type ≡ true)
    × (event_type_nonblank note.event_type ≡ true)
    × (event_type_max_bytes note.event_type ≡ true)
    × (validate_object content_field note.content ≡ none)
    × (validate_object refs_field note.refs ≡ none))
validate_iff_example = validate_iff note
