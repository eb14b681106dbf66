-- ===== src/Go/Utf8/Ascii.antt =====
-- A test that holds of ASCII characters only may look at bytes in place of code points.
use duro_ledger.Base.{
  ℕ, ◌<◌, ◌≤◌, ◌≡◌, refl, arith, Bool, true, false, [], ◌∷◌, all, ltb, Bytes, Bool-cases, inl, inr,
}
use duro_ledger.Go.Utf8.{decode_rune, runes_after, runes}

decode_rune-ascii :
    (a : ℕ) (s : Bytes) → a < 0x80 → ((decode_rune a s).rune ≡ a) × ((decode_rune a s).width ≡ 1)
unfolding decode_rune
decode_rune-ascii a s h = ground arith

decode_rune-high : (a : ℕ) (s : Bytes) → 0x80 ≤ a → 0x80 ≤ (decode_rune a s).rune
unfolding decode_rune
decode_rune-high a [] h = ground arith
decode_rune-high a (b ∷ []) h = ground arith
decode_rune-high a (b ∷ c ∷ []) h = ground arith
decode_rune-high a (b ∷ c ∷ d ∷ s) h = ground arith

module _ (p : ℕ → Bool) (ascii : (c : ℕ) → p c ≡ true → c < 0x80) where
  -- Where the first code point is not ASCII, both sides fail.
  high_fails : (c : ℕ) → 0x80 ≤ c → p c ≡ false
  high_fails c h = elim (Bool-cases (p c)) [
    | inl e ↦ absurd (let low : c < 0x80 = ascii c e in omega arith)
    | inr e ↦ e
  ]

  all-runes_after : (s : Bytes) → all p (runes_after 0 s) ≡ all p s
  unfolding runes_after
  all-runes_after [] = refl
  all-runes_after (a ∷ s) = elim (Bool-cases (ltb a 0x80)) [
    | inl low ↦
        let d = decode_rune-ascii a s (ground arith) in rw (d.0, d.1) (rw (all-runes_after s))
    | inr high ↦
        rw (high_fails _ (decode_rune-high a s (ground arith)), high_fails a (ground arith))
  ]

  pub all-runes : (s : Bytes) → all p (runes s) ≡ all p s
  unfolding runes
  all-runes = all-runes_after
