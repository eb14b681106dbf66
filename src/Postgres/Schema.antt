-- ===== src/Postgres/Schema.antt =====
-- The CHECK constraints on `event_type` in schema.sql, for a text in a UTF-8 database.
use mathlib.Core.Bool.{not}
use duro_ledger.Base.{ℕ, Bool, false, ◌||◌, List, [], ◌∷◌, leb, ◌==◌, Bytes, length, is_empty}
use duro_ledger.Go.Utf8.{runes}
use duro_ledger.Go.Space.{trim}

-- The characters that `events_event_type_nonblank` trims.
abbrev pub trim_set : List ℕ
trim_set =
    0x0009 ∷ 0x000a ∷ 0x000b ∷ 0x000c ∷ 0x000d ∷ 0x0020 ∷ 0x0085 ∷ 0x00a0 ∷ 0x1680 ∷ 0x2000 ∷ 0x2001
    ∷ 0x2002 ∷ 0x2003 ∷ 0x2004 ∷ 0x2005 ∷ 0x2006 ∷ 0x2007 ∷ 0x2008 ∷ 0x2009 ∷ 0x200a ∷ 0x2028
    ∷ 0x2029 ∷ 0x202f ∷ 0x205f ∷ 0x3000 ∷ []

-- Whether a character is one of a list.
unfoldable pub one_of : List ℕ → ℕ → Bool
one_of [] c = false
one_of (x ∷ xs) c = c == x || one_of xs c

-- `events_event_type_nonblank`
unfoldable pub event_type_nonblank : Bytes → Bool
unfolding trim one_of
event_type_nonblank event_type = not (is_empty (trim (one_of trim_set) (runes event_type)))

-- `events_event_type_max_bytes`
unfoldable pub event_type_max_bytes : Bytes → Bool
event_type_max_bytes event_type = leb (length event_type) 255
