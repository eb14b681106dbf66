-- ===== src/Go/Json/Encode/Lines.antt =====
-- No control character is left in an encoded text.
use duro_ledger.Base.{
  ℕ, zero, suc, ◌-◌, ◌/◌, ◌%◌, ◌≡◌, refl, ◌∙◌, arith, inl, inr, Bool, true, Bool-cases, [], ◌∷◌,
  ◌++◌, Bytes, all, all-append, leb, ◌==◌, take,
}
use duro_ledger.Go.Utf8.{Decoded, decode_rune}
use duro_ledger.Go.Json.Encode.{
  as_u, hex_digit, escape, separator?, emit_long, emit_decoded, escaped, encode_text,
}
use duro_ledger.Go.Json.Encode.Scanned.{decode_rune-high, separator?-cases}

-- A text without control characters, and so without a line break.
abbrev pub is_line : Bytes → Bool
is_line = all (leb 0x20)

hex_digit-visible : (n : ℕ) → leb 0x20 (hex_digit n) ≡ true
hex_digit-visible n = ground arith

pub as_u-is_line : (c : ℕ) → is_line (as_u c) ≡ true
as_u-is_line c = rw (hex_digit-visible (c / 16), hex_digit-visible (c % 16)) refl

pub escape-is_line : (c : ℕ) → is_line (escape c) ≡ true
unfolding escape
escape-is_line c = let u = as_u-is_line c in ground arith

high-is_line : (s : Bytes) → all (leb 0x80) s ≡ true → is_line s ≡ true
high-is_line [] h = refl
high-is_line (c ∷ s) h = ground (arith, h, high-is_line s)

pub append-is_line : (a b : Bytes) → is_line a ≡ true → is_line b ≡ true → is_line (a ++ b) ≡ true
append-is_line a b h k = all-append (leb 0x20) a b ∙ rw (h, k) refl

emit_long-is_line :
    (d : Decoded) (c : ℕ) (s : Bytes)
    → all (leb 0x80) (c ∷ take (d.width - 1) s) ≡ true
    → is_line (emit_long d c s (separator? c s)).0 ≡ true
emit_long-is_line d c s h = elim (separator?-cases c s) [
  | inl plain ↦ rw plain (high-is_line (c ∷ take (d.width - 1) s) h)
  | inr (inl line) ↦ rw line refl
  | inr (inr paragraph) ↦ rw paragraph refl
]

emit_decoded-is_line : (c : ℕ) (s : Bytes) → is_line (emit_decoded (decode_rune c s) c s).0 ≡ true
emit_decoded-is_line c s = elim (Bool-cases (decode_rune c s).ok) [
  | inr wrong ↦ rw wrong refl
  | inl right ↦ elim (Bool-cases ((decode_rune c s).width == 1)) [
    | inl single ↦ rw (right, single) (escape-is_line c)
    | inr long ↦
        rw (right, long) (emit_long-is_line (decode_rune c s) c s (decode_rune-high c s right long))
  ]
]

escaped-is_line : (skip : ℕ) (s : Bytes) → is_line (escaped skip s) ≡ true
unfolding escaped
escaped-is_line skip [] = refl
escaped-is_line (suc skip) (c ∷ s) = escaped-is_line skip s
escaped-is_line zero (c ∷ s) =
    let e = emit_decoded (decode_rune c s) c s in
    append-is_line e.0 (escaped e.1 s) (emit_decoded-is_line c s) (escaped-is_line e.1 s)

pub encode_text-is_line : (s : Bytes) → is_line (encode_text s) ≡ true
unfolding encode_text
encode_text-is_line s = append-is_line (escaped 0 s) (b'"' ∷ []) (escaped-is_line 0 s) refl
