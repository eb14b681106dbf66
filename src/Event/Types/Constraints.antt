-- ===== src/Event/Types/Constraints.antt =====
-- `Validate` against the constraints of the table.
use mathlib.Core.Bool.{not}
use duro_ledger.Base.{
  ℕ, ◌≡◌, ◌↔◌, refl, arith, Bool, true, Option, none, some, List, [], ◌∷◌, all, is_empty, Bytes,
}
use duro_ledger.Go.Utf8.{runes, valid_string}
use duro_ledger.Go.Space.{is_space, trim_space}
use duro_ledger.Go.Space.Blank.{is_empty-trim}
use duro_ledger.Event.Types.{New, content_field, refs_field, validate, validate_object, first_error}
use duro_ledger.Postgres.Schema.{one_of, trim_set, event_type_nonblank, event_type_max_bytes}

-- The trim set of the constraint is the white space of Go.
one_of-trim_set : (c : ℕ) → one_of trim_set c ≡ is_space c
unfolding one_of is_space
one_of-trim_set c = ground arith

all_ext : (p q : ℕ → Bool) (s : List ℕ) → ((c : ℕ) → p c ≡ q c) → all p s ≡ all q s
all_ext p q [] h = refl
all_ext p q (c ∷ s) h = rw (h c, all_ext p q s h)

-- The constraint's test for blank texts is the client's.
nonblank-trim_space :
    (event_type : Bytes)
    → event_type_nonblank event_type ≡ not (is_empty (trim_space (runes event_type)))
unfolding event_type_nonblank trim_space
nonblank-trim_space event_type = rw (
  is_empty-trim (one_of trim_set) _,
  is_empty-trim is_space _,
  all_ext (one_of trim_set) is_space _ one_of-trim_set,
)

first_error-none {ℓ} :
    {E : Type ℓ} (a b : Option E) → (first_error a b ≡ none) ↔ ((a ≡ none) × (b ≡ none))
first_error-none none b = ground arith
first_error-none (some e) b = ground arith

-- `Validate` accepts an input exactly when its event type is valid UTF-8 and meets both CHECK
-- constraints that schema.sql puts on event_type (nonblank, at most 255 bytes), and content and
-- refs are each nil or decode as a JSON object.
pub validate_iff :
    (n : New)
    → (validate n ≡ none) ↔ (
        (valid_string n.event_type ≡ true)
        × (event_type_nonblank n.event_type ≡ true)
        × (event_type_max_bytes n.event_type ≡ true)
        × (validate_object content_field n.content ≡ none)
        × (validate_object refs_field n.refs ≡ none))
unfolding validate event_type_max_bytes
validate_iff n = ground (
  arith,
  nonblank-trim_space n.event_type,
  first_error-none (validate_object content_field n.content) (validate_object refs_field n.refs),
)
