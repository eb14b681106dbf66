-- ===== src/Go/Utf8.antt =====
-- unicode/utf8: decoding of one code point, `range` over a string, `utf8.ValidString`.
pub mod Ascii
use duro_ledger.Base.{
  ℕ, zero, suc, ◌+◌, ◌-◌, ◌*◌, Bool, true, false, ◌&&◌, List, [], ◌∷◌, ltb, leb, ◌==◌,
  if◌then◌else◌, Bytes,
}

-- `utf8.RuneError`
abbrev pub rune_error : ℕ
rune_error = 0xfffd

-- A code point, the bytes that it takes, and whether they are its encoding.
pub record Decoded : Type 0 where
  pub rune : ℕ
  pub width : ℕ
  pub ok : Bool

abbrev bad : Decoded
bad = record { rune = rune_error; width = 1; ok = false }

abbrev pub between : ℕ → ℕ → ℕ → Bool
between lo hi c = leb lo c && leb c hi

abbrev continuation : ℕ → Bool
continuation = between 0x80 0xbf

-- The range of the second byte after a lead byte of a three-byte form.
abbrev second_of_three : ℕ → ℕ → Bool
second_of_three a b =
    if a == 0xe0
    then between 0xa0 0xbf b
    else if a == 0xed
    then between 0x80 0x9f b
    else continuation b

abbrev second_of_four : ℕ → ℕ → Bool
second_of_four a b =
    if a == 0xf0
    then between 0x90 0xbf b
    else if a == 0xf4
    then between 0x80 0x8f b
    else continuation b

decode_two : ℕ → Bytes → Decoded
decode_two a [] = bad
decode_two a (b ∷ s) =
    if continuation b
    then record { rune = (a - 0xc0) * 64 + (b - 0x80); width = 2; ok = true }
    else bad

decode_three : ℕ → Bytes → Decoded
decode_three a (b ∷ c ∷ s) =
    if second_of_three a b && continuation c
    then record { rune = (a - 0xe0) * 4096 + (b - 0x80) * 64 + (c - 0x80); width = 3; ok = true }
    else bad
decode_three a _ = bad

decode_four : ℕ → Bytes → Decoded
decode_four a (b ∷ c ∷ d ∷ s) =
    if second_of_four a b && (continuation c && continuation d)
    then record {
      rune = (a - 0xf0) * 262144 + (b - 0x80) * 4096 + (c - 0x80) * 64 + (d - 0x80);
      width = 4;
      ok = true;
    }
    else bad
decode_four a _ = bad

-- `utf8.DecodeRuneInString` of a nonempty string, its first byte apart.
unfoldable pub decode_rune : ℕ → Bytes → Decoded
unfolding decode_two decode_three decode_four
decode_rune a s =
    if ltb a 0x80
    then record { rune = a; width = 1; ok = true }
    else if between 0xc2 0xdf a
    then decode_two a s
    else if between 0xe0 0xef a
    then decode_three a s
    else if between 0xf0 0xf4 a
    then decode_four a s
    else bad

-- The code points that `range` yields; the number counts the bytes still to pass over.
unfoldable pub runes_after : ℕ → Bytes → List ℕ
unfolding decode_rune
runes_after skip [] = []
runes_after (suc skip) (a ∷ s) = runes_after skip s
runes_after zero (a ∷ s) = let d = decode_rune a s in d.rune ∷ runes_after (d.width - 1) s

unfoldable pub runes : Bytes → List ℕ
unfolding runes_after
runes = runes_after 0

unfoldable pub valid_after : ℕ → Bytes → Bool
unfolding decode_rune
valid_after skip [] = true
valid_after (suc skip) (a ∷ s) = valid_after skip s
valid_after zero (a ∷ s) = let d = decode_rune a s in d.ok && valid_after (d.width - 1) s

-- `utf8.ValidString`
unfoldable pub valid_string : Bytes → Bool
unfolding valid_after
valid_string = valid_after 0
