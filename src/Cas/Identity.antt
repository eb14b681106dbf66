-- ===== src/Cas/Identity.antt =====
-- `ValidDigest`, `FormatIdentity` and `ParseIdentity` of cas.go, and `hex.EncodeToString`.
pub mod Forms
use duro_ledger.Base.{
  ℕ, ◌+◌, ◌*◌, ◌-◌, ◌/◌, ◌%◌, Bool, true, false, ◌&&◌, ◌||◌, Option, none, some, List, [], ◌∷◌,
  ◌++◌, ltb, leb, ◌==◌, ◌≡◌, if◌then◌else◌, Bytes, str, length, all, strip_prefix?,
}
use duro_ledger.Go.Utf8.{runes}

-- The bytes of a SHA-256 digest: `sha256.Size`.
abbrev pub size : ℕ
size = 32

abbrev pub is_lower_hex : ℕ → Bool
is_lower_hex c = (leb b'0' c && leb c b'9') || (leb b'a' c && leb c b'f')

-- `ValidDigest`
unfoldable pub valid_digest : Bytes → Bool
unfolding runes
valid_digest digest = if length digest == size * 2 then all is_lower_hex (runes digest) else false

abbrev pub identity_prefix : Bytes
identity_prefix = str "sha256:"

-- `FormatIdentity`
unfoldable pub format_identity : Bytes → Bytes
format_identity digest = identity_prefix ++ digest

abbrev pub checked : Bytes → Option Bytes
checked digest = if valid_digest digest then some digest else none

abbrev pub check_rest : Option Bytes → Option Bytes
check_rest none = none
check_rest (some digest) = checked digest

-- `ParseIdentity`; `none` is the error `ErrInvalidDigest`.
unfoldable pub parse_identity : Bytes → Option Bytes
parse_identity identity = check_rest (strip_prefix? identity_prefix identity)

abbrev pub hex_digit_of : ℕ → ℕ
hex_digit_of n = if ltb n 10 then b'0' + n else b'a' + (n - 10)

-- `hex.EncodeToString`
unfoldable pub encode_to_string : Bytes → Bytes
encode_to_string [] = []
encode_to_string (c ∷ s) = hex_digit_of (c / 16) ∷ hex_digit_of (c % 16) ∷ encode_to_string s

-- crypto/sha256, of which the store uses that the sum of the bytes written has 32 bytes.
pub record Sha256 : Type 0 where
  pub sum : Bytes → Bytes
  pub length-sum : (s : Bytes) → length (sum s) ≡ size
  pub sum_bytes : (s : Bytes) → all (λ c. ltb c 256) (sum s) ≡ true

-- The digest of some bytes, as the store names it.
unfoldable pub digest_of : Sha256 → Bytes → Bytes
unfolding encode_to_string
digest_of H s = encode_to_string (H.sum s)
