-- ===== src/Go/Json/Encode.antt =====
-- What `json.Marshal` writes for a text and for an integer that is not negative.
pub mod Scanned
pub mod Lines
use duro_ledger.Base.{
  ℕ, zero, suc, ◌+◌, ◌-◌, ◌/◌, ◌%◌, ◌&&◌, ◌||◌, Bool, Option, none, some, [], ◌∷◌, ◌++◌, ltb, ◌==◌,
  if◌then◌else◌, Bytes, str, take,
}
use duro_ledger.Go.Utf8.{Decoded, decode_rune}

abbrev pub hex_digit : ℕ → ℕ
hex_digit n = if ltb n 10 then b'0' + n else b'a' + (n - 10)

abbrev pub as_u : ℕ → Bytes
as_u c = str "\\u00" ++ (hex_digit (c / 16) ∷ hex_digit (c % 16) ∷ [])

-- `<`, `>` and `&`
abbrev pub is_html : ℕ → Bool
is_html c = c == b'<' || (c == b'>' || c == b'&')

-- The characters of HTML, as they are escaped also in a text that is JSON already.
unfoldable pub escape_html : ℕ → Bytes
escape_html c = if is_html c then as_u c else c ∷ []

-- A byte that is a code point, as `json.Marshal` escapes it.
unfoldable pub escape : ℕ → Bytes
escape c =
    if c == b'"' || c == 92
    then 92 ∷ c ∷ []
    else if c == 8
    then str "\\b"
    else if c == 12
    then str "\\f"
    else if c == 10
    then str "\\n"
    else if c == 13
    then str "\\r"
    else if c == 9
    then str "\\t"
    else if ltb c 32 || is_html c
    then as_u c
    else c ∷ []

-- What the two bytes behind 0xe2 make of it: the line separator U+2028 or the paragraph separator
-- U+2029, which are escaped.
unfoldable pub separator? : ℕ → Bytes → Option Bytes
separator? a (b ∷ c ∷ s) =
    if a == 0xe2 && (b == 0x80 && c == 0xa8)
    then some (str "\\u2028")
    else if a == 0xe2 && (b == 0x80 && c == 0xa9)
    then some (str "\\u2029")
    else none
separator? a _ = none

-- The text written and the number of bytes behind this one that it stands for.
abbrev pub Emitted : Type 0
Emitted = Bytes × ℕ

abbrev pub emit_long : Decoded → ℕ → Bytes → Option Bytes → Emitted
emit_long d c s (some escape_sequence) = (escape_sequence, 2)
emit_long d c s none = (c ∷ take (d.width - 1) s, d.width - 1)

abbrev pub emit_decoded : Decoded → ℕ → Bytes → Emitted
emit_decoded d c s =
    if d.ok
    then if d.width == 1 then (escape c, 0) else emit_long d c s (separator? c s)
    else (str "\\ufffd", 0)

unfoldable pub escaped : ℕ → Bytes → Bytes
unfolding escape separator? decode_rune
escaped skip [] = []
escaped (suc skip) (c ∷ s) = escaped skip s
escaped zero (c ∷ s) = let e = emit_decoded (decode_rune c s) c s in e.0 ++ escaped e.1 s

unfoldable pub encode_text : Bytes → Bytes
unfolding escaped
encode_text s = b'"' ∷ (escaped 0 s ++ (b'"' ∷ []))

-- The digits of `n` in front of `out`; a number has fewer digits than its value and one.
unfoldable pub digits : ℕ → ℕ → Bytes → Bytes
digits zero n out = out
digits (suc fuel) n out =
    let rest = digits fuel (n / 10) ((b'0' + n % 10) ∷ out) in
    if ltb n 10 then (b'0' + n) ∷ out else rest

unfoldable pub encode_number : ℕ → Bytes
unfolding digits
encode_number n = digits (n + 1) n []
