-- ===== src/Cas/Identity/Forms.antt =====
-- Digests and identities: what is accepted, and that formatting and parsing are inverse.
use duro_ledger.Base.{
  ℕ, ◌*◌, ◌/◌, ◌%◌, ◌<◌, ◌≡◌, ◌↔◌, refl, arith, true, Option, none, some, [], ◌∷◌, ltb, all, length,
  Bytes, strip_prefix?, strip_prefix?-append, strip_prefix?-eq_some,
}
use duro_ledger.Go.Utf8.Ascii.{all-runes}
use duro_ledger.Cas.Identity.{
  is_lower_hex, valid_digest, format_identity, parse_identity, identity_prefix, encode_to_string,
  hex_digit_of, check_rest, Sha256, digest_of,
}

is_lower_hex-ascii : (c : ℕ) → is_lower_hex c ≡ true → c < 0x80
is_lower_hex-ascii c h = ground arith

-- `ValidDigest` ranges over code points, yet accepts exactly the texts of 64 bytes that are
-- each a lowercase hex digit.
pub valid_digest_iff :
    (digest : Bytes)
    → (valid_digest digest ≡ true) ↔ ((length digest ≡ 64) × (all is_lower_hex digest ≡ true))
unfolding valid_digest
valid_digest_iff digest = ground (arith, all-runes is_lower_hex is_lower_hex-ascii digest)

hex_digit_of-is_lower_hex : (n : ℕ) → n < 16 → is_lower_hex (hex_digit_of n) ≡ true
hex_digit_of-is_lower_hex n h = ground arith

length-encode_to_string : (s : Bytes) → length (encode_to_string s) ≡ 2 * length s
unfolding encode_to_string
length-encode_to_string [] = omega arith
length-encode_to_string (c ∷ s) = omega (arith, length-encode_to_string s)

all-encode_to_string :
    (s : Bytes) → all (λ c. ltb c 256) s ≡ true → all is_lower_hex (encode_to_string s) ≡ true
unfolding encode_to_string
all-encode_to_string [] h = refl
all-encode_to_string (c ∷ s) h = ground (
  arith,
  hex_digit_of-is_lower_hex (c / 16),
  hex_digit_of-is_lower_hex (c % 16),
  all-encode_to_string s,
)

-- Every computed digest is well-formed.
pub digest_of-valid_digest : (H : Sha256) (s : Bytes) → valid_digest (digest_of H s) ≡ true
unfolding digest_of
digest_of-valid_digest H s = (valid_digest_iff _).1 (
  omega (arith, length-encode_to_string (H.sum s), H.length-sum s),
  all-encode_to_string (H.sum s) (H.sum_bytes s),
)

check_rest-some :
    (o : Option Bytes) (digest : Bytes)
    → check_rest o ≡ some digest
    → (o ≡ some digest) × (valid_digest digest ≡ true)
check_rest-some none digest h = cc
check_rest-some (some d) digest h = ground arith

-- `ParseIdentity` accepts exactly what `FormatIdentity` makes of a well-formed digest, and gives
-- that digest back.
pub parse_identity_iff :
    (identity digest : Bytes)
    → (parse_identity identity ≡ some digest)
      ↔ ((identity ≡ format_identity digest) × (valid_digest digest ≡ true))
unfolding parse_identity format_identity
parse_identity_iff identity digest = (to, from)
  where
    to :
        parse_identity identity ≡ some digest
        → (identity ≡ format_identity digest) × (valid_digest digest ≡ true)
    to h = ground (
      arith,
      check_rest-some (strip_prefix? identity_prefix identity) digest,
      strip_prefix?-eq_some identity_prefix identity digest,
    )

    from :
        (identity ≡ format_identity digest) × (valid_digest digest ≡ true)
        → parse_identity identity ≡ some digest
    from (same, valid) = rw (same, strip_prefix?-append identity_prefix digest) (ground arith)
