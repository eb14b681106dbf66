-- ===== src/Event/Types.antt =====
-- `New`, `Validate`, `ContentOrDefault`, `RefsOrDefault` and `validateObject` of event.go.
pub mod Constraints
use duro_ledger.Base.{
  ℕ, Bool, true, false, Option, none, some, ltb, if◌then◌else◌, Bytes, str, length, is_empty,
}
use duro_ledger.Go.Utf8.{runes, valid_string}
use duro_ledger.Go.Space.{trim_space}
use duro_ledger.Go.Json.{MapResult, syntax_error, type_error, nil_map, filled_map, unmarshal_map}

-- `MaxEventTypeBytes`
abbrev pub max_event_type_bytes : ℕ
max_event_type_bytes = 255

-- `none` is a nil `json.RawMessage`.
abbrev pub RawMessage : Type 0
RawMessage = Option Bytes

-- `New`
pub record New : Type 0 where
  pub event_type : Bytes
  pub content : RawMessage
  pub refs : RawMessage

pub data Field : Type 0 where
  content_field refs_field : Field

-- The errors of `Validate`; `not_object` carries what `json.Unmarshal` reported.
pub data ValidationError : Type 0 where
  invalid_utf8 blank_event_type event_type_too_long : ValidationError
  not_object : Field → MapResult → ValidationError
  null_object : Field → ValidationError

object_error : Field → MapResult → Option ValidationError
object_error name syntax_error = some (not_object name syntax_error)
object_error name type_error = some (not_object name type_error)
object_error name nil_map = some (null_object name)
object_error name filled_map = none

-- `validateObject`; `none` is the nil error.
unfoldable pub validate_object : Field → RawMessage → Option ValidationError
unfolding object_error unmarshal_map
validate_object name none = none
validate_object name (some b) = object_error name (unmarshal_map b)

-- The chain `if err := a; err != nil { return err }; return b`.
abbrev pub first_error {ℓ} : {E : Type ℓ} → Option E → Option E → Option E
first_error none b = b
first_error (some e) b = some e

-- `Validate`
unfoldable pub validate : New → Option ValidationError
unfolding validate_object valid_string runes trim_space
validate n =
    if valid_string n.event_type
    then if is_empty (trim_space (runes n.event_type))
      then some blank_event_type
      else if ltb max_event_type_bytes (length n.event_type)
      then some event_type_too_long
      else first_error (validate_object content_field n.content) (validate_object refs_field n.refs)
    else some invalid_utf8

abbrev or_empty_object : RawMessage → Bytes
or_empty_object none = str "{}"
or_empty_object (some b) = b

-- `ContentOrDefault`
unfoldable pub content_or_default : New → Bytes
content_or_default n = or_empty_object n.content

-- `RefsOrDefault`
unfoldable pub refs_or_default : New → Bytes
refs_or_default n = or_empty_object n.refs
