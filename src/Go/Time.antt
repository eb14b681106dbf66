-- ===== src/Go/Time.antt =====
-- Package time: the reading of a `time.Time` in its location, and its text in the layout
-- `time.RFC3339Nano`.
use duro_ledger.Base.{
  ℕ, ◌/◌, ◌%◌, ◌+◌, ◌≡◌, refl, ◌&&◌, [], ◌∷◌, ◌++◌, ltb, ◌==◌, if◌then◌else◌, Bytes, str, is_empty,
}
use duro_ledger.Go.Json.Encode.{encode_number}

-- The offset from UTC, in minutes.
pub data Zone : Type 0 where
  east west : ℕ → Zone

pub record Time : Type 0 where
  pub year : ℕ
  pub month : ℕ
  pub day : ℕ
  pub hour : ℕ
  pub minute : ℕ
  pub second : ℕ
  pub nanosecond : ℕ
  pub zone : Zone

abbrev digit_of : ℕ → ℕ
digit_of n = b'0' + n % 10

unfoldable pub two_digits : ℕ → Bytes
two_digits n = digit_of (n / 10) ∷ digit_of n ∷ []

-- At least four digits.
unfoldable pub year_digits : ℕ → Bytes
unfolding two_digits encode_number
year_digits n = if ltb n 10000 then two_digits (n / 100) ++ two_digits n else encode_number n

-- A text without the zeros at its end.
unfoldable pub trim_zeros : Bytes → Bytes
trim_zeros [] = []
trim_zeros (c ∷ s) = let rest = trim_zeros s in if is_empty rest && c == b'0' then [] else c ∷ rest

abbrev with_point : Bytes → Bytes
with_point [] = []
with_point (c ∷ s) = b'.' ∷ c ∷ s

-- `.999999999`
unfoldable pub fraction : ℕ → Bytes
unfolding trim_zeros two_digits
fraction n = with_point (
    trim_zeros (
      digit_of (n / 100000000) ∷ []
      ++ two_digits (n / 1000000)
      ++ two_digits (n / 10000)
      ++ two_digits (n / 100)
      ++ two_digits n))

abbrev offset_digits : ℕ → ℕ → Bytes
offset_digits sign m =
    if m == 0 then str "Z" else sign ∷ two_digits (m / 60) ++ (b':' ∷ two_digits (m % 60))

-- `Z07:00`
unfoldable pub offset : Zone → Bytes
unfolding two_digits
offset (east m) = offset_digits b'+' m
offset (west m) = offset_digits b'-' m

-- `Format(time.RFC3339Nano)`
unfoldable pub rfc3339_nano : Time → Bytes
unfolding year_digits two_digits fraction offset
rfc3339_nano t =
    year_digits t.year
    ++ (b'-' ∷ two_digits t.month)
    ++ (b'-' ∷ two_digits t.day)
    ++ (b'T' ∷ two_digits t.hour)
    ++ (b':' ∷ two_digits t.minute)
    ++ (b':' ∷ two_digits t.second)
    ++ fraction t.nanosecond
    ++ offset t.zone

-- A fraction that ends with zeros, and an hour and a half behind UTC.
format_runs :
    rfc3339_nano (record {
      year = 2026;
      month = 1;
      day = 31;
      hour = 9;
      minute = 5;
      second = 7;
      nanosecond = 12030000;
      zone = west 90;
    })
    ≡ str "2026-01-31T09:05:07.01203-01:30"
unfolding rfc3339_nano year_digits two_digits fraction trim_zeros offset
format_runs = refl
