-- ===== src/Go/Json/Compact/Lines.antt =====
-- No control character is left in a compacted text.
use duro_ledger.Base.{
  ℕ, zero, suc, ◌≡◌, ◌≢◌, refl, arith, inl, inr, Bool, true, false, ◌&&◌, Bool-cases, some, List,
  [], ◌∷◌, Bytes, leb,
}
use duro_ledger.Go.Json.{
  Scan, begin_value, begin_value_or_empty, begin_string, begin_string_or_empty, end_value, end_top,
  in_string, in_escape, minus, zero_digit, digits, point, fraction, exponent, exponent_sign,
  exponent_digits, failed, hex, letters, Context, object_key, object_value, array_value, Machine,
  push, pop, json_space, step, scan, scan_value, scan_end, scan_string, scan_empty_object, escaped,
  check_valid,
}
use duro_ledger.Go.Json.Encode.{escape_html, separator?}
use duro_ledger.Go.Json.Encode.Lines.{is_line, as_u-is_line, append-is_line}
use duro_ledger.Go.Json.Encode.Scanned.{separator?-cases}
use duro_ledger.Go.Json.Compact.{outside_string, emit_escaped, emit, compact_from, compact}

scan_end-control :
    (c : ℕ) (stack : List Context)
    → leb 0x20 c ≡ false
    → json_space c ≡ false
    → (scan_end c stack).0 ≡ failed
unfolding scan_end
scan_end-control c [] h k = rw k refl
scan_end-control c (object_key ∷ stack) h k = ground arith
scan_end-control c (object_value ∷ stack) h k = ground arith
scan_end-control c (array_value ∷ stack) h k = ground arith

-- The letters of a literal are no control characters.
abbrev sound : Scan → Bool
sound (letters ls) = is_line ls
sound _ = true

scan_value-sound : (c : ℕ) (stack : List Context) → sound (scan_value c stack).0 ≡ true
unfolding scan_value push
scan_value-sound c stack = ground arith

scan_end-sound : (c : ℕ) (stack : List Context) → sound (scan_end c stack).0 ≡ true
unfolding scan_end pop
scan_end-sound c [] = ground arith
scan_end-sound c (object_key ∷ stack) = ground arith
scan_end-sound c (object_value ∷ []) = ground arith
scan_end-sound c (object_value ∷ x ∷ stack) = ground arith
scan_end-sound c (array_value ∷ []) = ground arith
scan_end-sound c (array_value ∷ x ∷ stack) = ground arith

scan_string-sound : (c : ℕ) (stack : List Context) → sound (scan_string c stack).0 ≡ true
unfolding scan_string
scan_string-sound c stack = ground arith

step-sound :
    (c : ℕ) (state : Scan) (stack : List Context)
    → sound state ≡ true
    → sound (step c state stack).0 ≡ true
unfolding step scan_empty_object
step-sound c begin_value stack h = scan_value-sound c stack
step-sound c begin_value_or_empty stack h =
    let v = scan_value-sound c stack in let e = scan_end-sound c stack in ground arith
step-sound c begin_string stack h = scan_string-sound c stack
step-sound c begin_string_or_empty [] h = refl
step-sound c begin_string_or_empty (x ∷ stack) h =
    let v = scan_string-sound c (x ∷ stack) in
    let e = scan_end-sound c (object_value ∷ stack) in ground arith
step-sound c end_value stack h = scan_end-sound c stack
step-sound c end_top stack h = ground arith
step-sound c in_string stack h = ground arith
step-sound c in_escape stack h = ground arith
step-sound c (hex n) stack h = ground arith
step-sound c minus stack h = ground arith
step-sound c digits stack h = let e = scan_end-sound c stack in ground arith
step-sound c zero_digit stack h = let e = scan_end-sound c stack in ground arith
step-sound c point stack h = ground arith
step-sound c fraction stack h = let e = scan_end-sound c stack in ground arith
step-sound c exponent stack h = ground arith
step-sound c exponent_sign stack h = ground arith
step-sound c exponent_digits stack h = let e = scan_end-sound c stack in ground arith
step-sound c (letters []) stack h = scan_end-sound c stack
step-sound c (letters (l ∷ [])) stack h = ground arith
step-sound c (letters (l ∷ m ∷ ls)) stack h = ground arith
step-sound c failed stack h = refl

step-control :
    (c : ℕ) (state : Scan) (stack : List Context)
    → sound state ≡ true
    → leb 0x20 c ≡ false
    → (outside_string state && json_space c) ≡ false
    → (step c state stack).0 ≡ failed
unfolding step scan_value scan_string scan_empty_object escaped
step-control c begin_value stack h low k = ground arith
step-control c begin_value_or_empty stack h low k = ground arith
step-control c begin_string stack h low k = ground arith
step-control c begin_string_or_empty [] h low k = refl
step-control c begin_string_or_empty (x ∷ stack) h low k = ground arith
step-control c end_value stack h low k = scan_end-control c stack low k
step-control c end_top stack h low k = ground arith
step-control c in_string stack h low k = ground arith
step-control c in_escape stack h low k = ground arith
step-control c (hex n) stack h low k = ground arith
step-control c minus stack h low k = ground arith
step-control c digits stack h low k = let e = scan_end-control c stack low k in ground arith
step-control c zero_digit stack h low k = let e = scan_end-control c stack low k in ground arith
step-control c point stack h low k = ground arith
step-control c fraction stack h low k = let e = scan_end-control c stack low k in ground arith
step-control c exponent stack h low k = ground arith
step-control c exponent_sign stack h low k = ground arith
step-control c exponent_digits stack h low k =
    let e = scan_end-control c stack low k in ground arith
step-control c (letters []) stack h low k = scan_end-control c stack low k
step-control c (letters (l ∷ [])) stack h low k = ground arith
step-control c (letters (l ∷ m ∷ ls)) stack h low k = ground arith
step-control c failed stack h low k = refl

scan-failed :
    (s : Bytes) (state : Scan) (stack : List Context)
    → state ≡ failed
    → (scan s (state, stack)).0 ≡ failed
unfolding scan step
scan-failed [] state stack h = h
scan-failed (c ∷ s) state stack h = rw h (scan-failed s failed stack refl)

-- The scanner goes through the text without an error.
abbrev Accepts : Bytes → Machine → Type 0
Accepts s m = (scan s m).0 ≢ failed

visible :
    (c : ℕ) (s : Bytes) (state : Scan) (stack : List Context)
    → sound state ≡ true
    → Accepts s (step c state stack)
    → (outside_string state && json_space c) ≡ false
    → leb 0x20 c ≡ true
visible c s state stack h accepted inside = elim (Bool-cases (leb 0x20 c)) [
  | inl fine ↦ fine
  | inr low ↦
      let m = step c state stack in
      absurd (accepted (scan-failed s m.0 m.1 (step-control c state stack h low inside)))
]

escape_html-is_line : (c : ℕ) → leb 0x20 c ≡ true → is_line (escape_html c) ≡ true
unfolding escape_html
escape_html-is_line c h = let u = as_u-is_line c in ground arith

emit_escaped-is_line :
    (c : ℕ) (s : Bytes) → leb 0x20 c ≡ true → is_line (emit_escaped c (separator? c s)).0 ≡ true
emit_escaped-is_line c s h = elim (separator?-cases c s) [
  | inl plain ↦ rw plain (escape_html-is_line c h)
  | inr (inl line) ↦ rw line refl
  | inr (inr paragraph) ↦ rw paragraph refl
]

emit-is_line :
    (c : ℕ) (s : Bytes) (state : Scan) (stack : List Context)
    → sound state ≡ true
    → Accepts s (step c state stack)
    → is_line (emit state c s).0 ≡ true
emit-is_line c s state stack h accepted = elim (Bool-cases (outside_string state && json_space c)) [
  | inl space ↦ rw space refl
  | inr inside ↦ rw inside (emit_escaped-is_line c s (visible c s state stack h accepted inside))
]

compact_from-is_line :
    (state : Scan) (stack : List Context) (skip : ℕ) (s : Bytes)
    → sound state ≡ true
    → Accepts s (state, stack)
    → is_line (compact_from (state, stack) skip s) ≡ true
unfolding compact_from scan
compact_from-is_line state stack skip [] h accepted = refl
compact_from-is_line state stack (suc skip) (c ∷ s) h accepted =
    let m = step c state stack in
    compact_from-is_line m.0 m.1 skip s (step-sound c state stack h) accepted
compact_from-is_line state stack zero (c ∷ s) h accepted =
    let e = emit state c s in
    let m = step c state stack in
    append-is_line e.0 (compact_from m e.1 s) (emit-is_line c s state stack h accepted)
      (compact_from-is_line m.0 m.1 e.1 s (step-sound c state stack h) accepted)

check_valid-Accepts : (s : Bytes) → check_valid s ≡ true → Accepts s (begin_value, [])
unfolding check_valid step
check_valid-Accepts s h wrong = (let k = rw wrong at h in cc)

-- What `compact` writes is one line.
pub compact-is_line : (s b : Bytes) → compact s ≡ some b → is_line b ≡ true
unfolding compact
compact-is_line s b h = elim (Bool-cases (check_valid s)) [
  | inl valid ↦
      let written = compact_from (begin_value, []) 0 s in
      let line = compact_from-is_line begin_value [] 0 s refl (check_valid-Accepts s valid) in
      let same : some written ≡ some b = rw valid at h in ground (arith, same, line)
  | inr invalid ↦ (let k = rw invalid at h in cc)
]
