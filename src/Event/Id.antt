-- ===== src/Event/Id.antt =====
-- `ValidID` and `isHex` of event.go.
pub mod Shape
use duro_ledger.Base.{
  ℕ, ◌+◌, Bool, true, false, ◌&&◌, ◌||◌, Option, none, some, List, [], ◌∷◌, leb, ◌==◌,
  if◌then◌else◌, Bytes, length, get_elem?, not,
}

-- `isHex`
unfoldable pub is_hex : ℕ → Bool
is_hex c = (leb b'0' c && leb c b'9') || ((leb b'a' c && leb c b'f') || (leb b'A' c && leb c b'F'))

-- The case label of the switch in the loop.
abbrev pub is_hyphen_place : ℕ → Bool
is_hyphen_place i = i == 8 || (i == 13 || (i == 18 || i == 23))

-- The `for` loop over the bytes from place `i` on; `false` is its early return.
unfoldable pub id_loop : ℕ → Bytes → Bool
unfolding is_hex
id_loop i [] = true
id_loop i (c ∷ s) =
    let rest = id_loop (i + 1) s in
    if is_hyphen_place i
    then if c == b'-' then rest else false
    else if is_hex c
    then rest
    else false

abbrev pub is_variant : ℕ → Bool
is_variant c = c == b'8' || (c == b'9' || (c == b'a' || (c == b'A' || (c == b'b' || c == b'B'))))

-- A test of `id[i]`, whose index is in range here.
abbrev pub test_at : (ℕ → Bool) → Option ℕ → Bool
test_at p none = false
test_at p (some c) = p c

-- `ValidID`
unfoldable pub valid_id : Bytes → Bool
unfolding id_loop
valid_id id =
    if length id == 36
    then if id_loop 0 id
      then if test_at (λ c. c == b'7') (get_elem? id 14)
        then test_at is_variant (get_elem? id 19)
        else false
      else false
    else false
