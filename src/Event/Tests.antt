-- ===== src/Event/Tests.antt =====
-- Runs of the event package.
use duro_ledger.Base.{◌≡◌, refl, true, false, some, none, str, [], ◌∷◌}
use duro_ledger.Go.Json.{unmarshal_map, filled_map, nil_map, type_error, syntax_error}
use duro_ledger.Go.Utf8.{runes}
use duro_ledger.Event.Types.{validate, blank_event_type, null_object, content_field}
use duro_ledger.Event.Id.{valid_id}

id_runs : valid_id (str "01926a3e-1c2d-7000-8abc-0123456789ab") ≡ true
unfolding valid_id
id_runs = refl

id_version : valid_id (str "01926a3e-1c2d-4000-8abc-0123456789ab") ≡ false
unfolding valid_id
id_version = refl

json_runs : unmarshal_map (str " {\"a\" : [1, -2.5e+3, true,null],\"b\":{}} ") ≡ filled_map
unfolding unmarshal_map
json_runs = refl

json_bad : unmarshal_map (str "{\"a\":01}") ≡ syntax_error
unfolding unmarshal_map
json_bad = refl

json_null : unmarshal_map (str " null ") ≡ nil_map
unfolding unmarshal_map
json_null = refl

json_array : unmarshal_map (str "[{}]") ≡ type_error
unfolding unmarshal_map
json_array = refl

json_number : unmarshal_map (str "12") ≡ type_error
unfolding unmarshal_map
json_number = refl

runes_run : runes (0x61 ∷ 0xe2 ∷ 0x82 ∷ 0xac ∷ 0xff ∷ []) ≡ 0x61 ∷ 0x20ac ∷ 0xfffd ∷ []
unfolding runes
runes_run = refl

-- A no-break space is blank.
blank_runs :
    validate (record { event_type = 0xc2 ∷ 0xa0 ∷ []; content = none; refs = none })
    ≡ some blank_event_type
unfolding validate
blank_runs = refl

null_runs :
    validate (record { event_type = str "a"; content = some (str "null"); refs = none })
    ≡ some (null_object content_field)
unfolding validate
null_runs = refl
