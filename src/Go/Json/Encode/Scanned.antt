-- ===== src/Go/Json/Encode/Scanned.antt =====
-- What the scanner makes of encoded texts and numbers.
use duro_ledger.Base.{
  ℕ, zero, suc, ◌+◌, ◌-◌, ◌/◌, ◌%◌, ◌<◌, ◌≡◌, refl, ap, sym, subst, ==_iff, ◌∙◌, arith, inl, inr,
  ◌⊎◌, Bool, true, false, ◌&&◌, ◌||◌, Bool-cases, none, some, List, [], ◌∷◌, ◌++◌, Bytes, str, all,
  leb, ltb, ◌==◌, take, if◌then◌else◌,
}
use duro_ledger.Go.Utf8.{Decoded, decode_rune}
use duro_ledger.Go.Json.{
  scan_value, digit, in_string, begin_value, end_value, digits, Context, Machine, step, scan,
  hex_digit as json_hex_digit,
}
use duro_ledger.Go.Json.Encode.{
  as_u, hex_digit, is_html, escape, separator?, emit_long, emit_decoded, escaped, encode_text,
  encode_number,
}
use duro_ledger.Go.Json.Encode.{digits as write_digits}

pub scan-append : (a b : Bytes) (m : Machine) → scan (a ++ b) m ≡ scan b (scan a m)
unfolding scan
scan-append [] b m = refl
scan-append (c ∷ a) b (state, stack) = scan-append a b (step c state stack)

hex_digit-hex : (n : ℕ) → n < 16 → json_hex_digit (hex_digit n) ≡ true
hex_digit-hex n h = ground (arith, h)

module _ (stack : List Context) where
  -- A piece of text that leaves the scanner in the string.
  abbrev Stays : Bytes → Type 0
  Stays s = scan s (in_string, stack) ≡ (in_string, stack)

  -- `\u00XY`
  as_u-Stays : (c : ℕ) → c < 256 → Stays (as_u c)
  unfolding scan step
  as_u-Stays c h =
      let high : c / 16 < 16 = omega (arith, h) in
      let low : c % 16 < 16 = omega arith in
      rw (hex_digit-hex (c / 16) high, hex_digit-hex (c % 16) low) refl

  plain-Stays :
      (c : ℕ) → (c == b'"') ≡ false → (c == 92) ≡ false → ltb c 32 ≡ false → Stays (c ∷ [])
  unfolding scan step
  plain-Stays c quote back low = rw (quote, back, low) refl

  at-Stays : (k c : ℕ) → (c == k) ≡ true → Stays (escape k) → Stays (escape c)
  at-Stays k c h here = subst (λ x. Stays (escape x)) (sym ((==_iff c k).0 h)) here

  rest-Stays :
      (c : ℕ) (b : Bool)
      → (ltb c 32 || is_html c) ≡ b
      → (c == b'"') ≡ false
      → (c == 92) ≡ false
      → Stays (if b then as_u c else c ∷ [])
  rest-Stays c true h quote back = as_u-Stays c (ground (arith, h))
  rest-Stays c false h quote back = plain-Stays c quote back (ground (arith, h))

  escape-Stays : (c : ℕ) → Stays (escape c)
  unfolding scan step escape
  escape-Stays c = elim (Bool-cases (c == b'"')) [
    | inl q ↦ at-Stays b'"' c q refl
    | inr quote ↦ elim (Bool-cases (c == 92)) [
      | inl q ↦ at-Stays 92 c q refl
      | inr back ↦ elim (Bool-cases (c == 8)) [
        | inl q ↦ at-Stays 8 c q refl
        | inr n8 ↦ elim (Bool-cases (c == 12)) [
          | inl q ↦ at-Stays 12 c q refl
          | inr n12 ↦ elim (Bool-cases (c == 10)) [
            | inl q ↦ at-Stays 10 c q refl
            | inr n10 ↦ elim (Bool-cases (c == 13)) [
              | inl q ↦ at-Stays 13 c q refl
              | inr n13 ↦ elim (Bool-cases (c == 9)) [
                | inl q ↦ at-Stays 9 c q refl
                | inr n9 ↦ rw (quote, back, n8, n12, n10, n13, n9) (rest-Stays c _ refl quote back)
              ]
            ]
          ]
        ]
      ]
    ]
  ]

  -- Bytes that are not ASCII.
  high-Stays : (s : Bytes) → all (leb 0x80) s ≡ true → Stays s
  unfolding scan step
  high-Stays [] h = refl
  high-Stays (c ∷ s) h =
      let quote : (c == b'"') ≡ false = ground (arith, h) in
      let back : (c == 92) ≡ false = ground (arith, h) in
      let low : ltb c 32 ≡ false = ground (arith, h) in
      rw (quote, back, low) (high-Stays s (ground (arith, h)))

pub decode_rune-high :
    (c : ℕ) (s : Bytes)
    → (decode_rune c s).ok ≡ true
    → ((decode_rune c s).width == 1) ≡ false
    → all (leb 0x80) (c ∷ take ((decode_rune c s).width - 1) s) ≡ true
unfolding decode_rune
decode_rune-high c [] h k = ground arith
decode_rune-high c (x ∷ []) h k = ground arith
decode_rune-high c (x ∷ y ∷ []) h k = ground arith
decode_rune-high c (x ∷ y ∷ z ∷ s) h k = ground arith

pub separator?-cases :
    (c : ℕ) (s : Bytes)
    → (separator? c s ≡ none)
      ⊎ ((separator? c s ≡ some (str "\\u2028")) ⊎ (separator? c s ≡ some (str "\\u2029")))
unfolding separator?
separator?-cases c [] = inl refl
separator?-cases c (x ∷ []) = inl refl
separator?-cases c (x ∷ y ∷ s) = elim (Bool-cases (c == 0xe2 && (x == 0x80 && y == 0xa8))) [
  | inl line ↦ inr (inl (rw line refl))
  | inr other ↦ elim (Bool-cases (c == 0xe2 && (x == 0x80 && y == 0xa9))) [
    | inl paragraph ↦ inr (inr (rw (other, paragraph) refl))
    | inr neither ↦ inl (rw (other, neither) refl)
  ]
]

module _ (stack : List Context) where
  emit_long-Stays :
      (d : Decoded) (c : ℕ) (s : Bytes)
      → all (leb 0x80) (c ∷ take (d.width - 1) s) ≡ true
      → Stays stack (emit_long d c s (separator? c s)).0
  unfolding scan step
  emit_long-Stays d c s h = elim (separator?-cases c s) [
    | inl plain ↦ rw plain (high-Stays stack (c ∷ take (d.width - 1) s) h)
    | inr (inl line) ↦ rw line refl
    | inr (inr paragraph) ↦ rw paragraph refl
  ]

  emit_decoded-Stays : (c : ℕ) (s : Bytes) → Stays stack (emit_decoded (decode_rune c s) c s).0
  unfolding scan step
  emit_decoded-Stays c s = elim (Bool-cases (decode_rune c s).ok) [
    | inr wrong ↦ rw wrong refl
    | inl right ↦ elim (Bool-cases ((decode_rune c s).width == 1)) [
      | inl single ↦ rw (right, single) (escape-Stays stack c)
      | inr long ↦
          rw (right, long) (emit_long-Stays (decode_rune c s) c s (decode_rune-high c s right long))
    ]
  ]

  escaped-Stays : (skip : ℕ) (s : Bytes) → Stays stack (escaped skip s)
  unfolding escaped scan
  escaped-Stays skip [] = refl
  escaped-Stays (suc skip) (c ∷ s) = escaped-Stays skip s
  escaped-Stays zero (c ∷ s) =
      let e = emit_decoded (decode_rune c s) c s in
      scan-append e.0 (escaped e.1 s) (in_string, stack)
      ∙ ap (scan (escaped e.1 s)) (emit_decoded-Stays c s)
      ∙ escaped-Stays e.1 s

  -- An encoded text is one value, whatever the text.
  pub scan-encode_text :
      (s rest : Bytes)
      → scan (encode_text s ++ rest) (begin_value, stack) ≡ scan rest (end_value, stack)
  unfolding encode_text scan step
  scan-encode_text s rest =
      let quote = b'"' ∷ [] in
      scan-append (escaped 0 s ++ quote) rest (in_string, stack)
      ∙ ap (scan rest)
          (scan-append (escaped 0 s) quote (in_string, stack) ∙ ap (scan quote) (escaped-Stays 0 s))

  first_digit : (n : ℕ) → n < 10 → 0 < n → step (b'0' + n) begin_value stack ≡ (digits, stack)
  unfolding step scan_value
  first_digit zero h p = ground arith
  first_digit (suc zero) h p = refl
  first_digit (suc (suc zero)) h p = refl
  first_digit (suc (suc (suc zero))) h p = refl
  first_digit (suc (suc (suc (suc zero)))) h p = refl
  first_digit (suc (suc (suc (suc (suc zero))))) h p = refl
  first_digit (suc (suc (suc (suc (suc (suc zero)))))) h p = refl
  first_digit (suc (suc (suc (suc (suc (suc (suc zero))))))) h p = refl
  first_digit (suc (suc (suc (suc (suc (suc (suc (suc zero)))))))) h p = refl
  first_digit (suc (suc (suc (suc (suc (suc (suc (suc (suc zero))))))))) h p = refl
  first_digit (suc (suc (suc (suc (suc (suc (suc (suc (suc (suc n)))))))))) h p = ground arith

  next_digit : (n : ℕ) → step (b'0' + n % 10) digits stack ≡ (digits, stack)
  unfolding step
  next_digit n = let d : digit (b'0' + n % 10) ≡ true = ground arith in rw d refl

  -- The digits of a number that is not 0, in front of more text.
  scan-digits :
      (fuel n : ℕ) (out rest : Bytes)
      → n < fuel
      → 0 < n
      → scan (write_digits fuel n out ++ rest) (begin_value, stack)
        ≡ scan (out ++ rest) (digits, stack)
  unfolding write_digits scan step
  scan-digits zero n out rest h p = ground arith
  scan-digits (suc fuel) n out rest h p = elim (Bool-cases (ltb n 10)) [
    | inl last ↦ rw last (ap (scan (out ++ rest)) (first_digit n (ground (arith, last)) p))
    | inr more ↦
        let smaller : n / 10 < fuel = ground (arith, more, h) in
        let left : 0 < n / 10 = ground (arith, more) in
        rw more (
          scan-digits fuel (n / 10) ((b'0' + n % 10) ∷ out) rest smaller left
          ∙ ap (scan (out ++ rest)) (next_digit n))
  ]

  -- An encoded number and the comma behind it.
  pub scan-encode_number :
      (n : ℕ) (rest : Bytes)
      → scan (encode_number n ++ (b',' ∷ rest)) (begin_value, stack)
        ≡ scan (b',' ∷ rest) (end_value, stack)
  unfolding encode_number scan step
  scan-encode_number zero rest = refl
  scan-encode_number (suc n) rest =
      scan-digits (suc n + 1) (suc n) [] (b',' ∷ rest) (omega arith) (omega arith)
