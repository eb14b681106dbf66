-- ===== src/Artifact/Accepted.antt =====
-- The observation that `Put` appends is an event that `Validate` accepts.
use duro_ledger.Base.{ℕ, ◌≡◌, refl, ap, ◌∙◌, none, [], ◌∷◌, ◌++◌, Bytes, str}
use duro_ledger.Go.Utf8.{valid_string, runes}
use duro_ledger.Go.Space.{trim_space}
use duro_ledger.Go.Json.{
  Machine, begin_value, end_value, end_top, object_value, scan, step, check_valid, first_byte,
  unmarshal_map, filled_map,
}
use duro_ledger.Go.Json.Encode.{encode_text, encode_number}
use duro_ledger.Go.Json.Encode.Scanned.{scan-append, scan-encode_text, scan-encode_number}
use duro_ledger.Event.Types.{validate, validate_object}
use duro_ledger.Artifact.{observation, observation_event}

-- The parts of the observation from the path on, from the host on, and from the size on.
abbrev path_part : Bytes → Bytes
path_part path = str ",\"source_path\":" ++ (encode_text path ++ str "}")

abbrev host_part : Bytes → Bytes → Bytes
host_part host path = str ",\"source_host\":" ++ (encode_text host ++ path_part path)

abbrev in_object : Machine
in_object = (end_value, object_value ∷ [])

abbrev at_value : Machine
at_value = (begin_value, object_value ∷ [])

-- A name between two members, and the colon behind it.
abbrev NextMember : Bytes → Type 0
NextMember name = scan name in_object ≡ at_value

next_member :
    (name rest : Bytes) → NextMember name → scan (name ++ rest) in_object ≡ scan rest at_value
next_member name rest h = scan-append name rest in_object ∙ ap (scan rest) h

size_name : NextMember (str ",\"size_bytes\":")
unfolding scan step
size_name = refl

host_name : NextMember (str ",\"source_host\":")
unfolding scan step
host_name = refl

path_name : NextMember (str ",\"source_path\":")
unfolding scan step
path_name = refl

digest_name : scan (str "{\"digest\":") (begin_value, []) ≡ at_value
unfolding scan step
digest_name = refl

closing : scan (str "}") in_object ≡ (end_top, [])
unfolding scan step
closing = refl

path_part-scan : (path : Bytes) → scan (path_part path) in_object ≡ (end_top, [])
path_part-scan path =
    next_member (str ",\"source_path\":") (encode_text path ++ str "}") path_name
    ∙ scan-encode_text (object_value ∷ []) path (str "}")
    ∙ closing

host_part-scan : (host path : Bytes) → scan (host_part host path) in_object ≡ (end_top, [])
host_part-scan host path =
    next_member (str ",\"source_host\":") (encode_text host ++ path_part path) host_name
    ∙ scan-encode_text (object_value ∷ []) host (path_part path)
    ∙ path_part-scan path

abbrev size_part : ℕ → Bytes → Bytes → Bytes
size_part size host path = str ",\"size_bytes\":" ++ (encode_number size ++ host_part host path)

size_part-scan :
    (size : ℕ) (host path : Bytes) → scan (size_part size host path) in_object ≡ (end_top, [])
size_part-scan size host path =
    next_member (str ",\"size_bytes\":") (encode_number size ++ host_part host path) size_name
    ∙ scan-encode_number (object_value ∷ []) size _
    ∙ host_part-scan host path

observation-scan :
    (identity : Bytes) (size : ℕ) (host path : Bytes)
    → scan (observation identity size host path) (begin_value, []) ≡ (end_top, [])
unfolding observation
observation-scan identity size host path =
    scan-append (str "{\"digest\":") (encode_text identity ++ size_part size host path)
      (begin_value, [])
    ∙ ap (scan (encode_text identity ++ size_part size host path)) digest_name
    ∙ scan-encode_text (object_value ∷ []) identity (size_part size host path)
    ∙ size_part-scan size host path

observation-first_byte :
    (identity : Bytes) (size : ℕ) (host path : Bytes)
    → first_byte (observation identity size host path) ≡ b'{'
unfolding observation first_byte
observation-first_byte identity size host path = refl

observation-valid :
    (identity : Bytes) (size : ℕ) (host path : Bytes)
    → unmarshal_map (observation identity size host path) ≡ filled_map
unfolding unmarshal_map check_valid step
observation-valid identity size host path =
    rw (observation-scan identity size host path, observation-first_byte identity size host path)
      refl

-- Whatever the identity, the size, the host and the path, whatever bytes are in them, the
-- observation that `Put` appends is an event that `Validate` accepts: its content is a JSON object
-- to encoding/json's scanner. So an append of `Put` is never rejected as invalid.
pub observation_event-valid :
    (identity : Bytes) (size : ℕ) (host path : Bytes)
    → validate (observation_event identity size host path) ≡ none
unfolding validate validate_object valid_string runes trim_space
observation_event-valid identity size host path =
    rw (observation-valid identity size host path) refl
