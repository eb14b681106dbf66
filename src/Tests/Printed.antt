-- ===== src/Tests/Printed.antt =====
-- The theorem on printed lines at an event with a line break in its type and in its content.
use duro_ledger.Base.{◌≡◌, refl, true, some, [], ◌∷◌, ◌++◌, Bytes, str, ok}
use duro_ledger.Go.Utf8.{decode_rune}
use duro_ledger.Go.Time.{rfc3339_nano, year_digits, two_digits, fraction, trim_zeros, offset}
use duro_ledger.Go.Json.{step, scan, scan_value, check_valid}
use duro_ledger.Go.Json.Encode.{encode_text, escaped, escape, separator?, escape_html}
use duro_ledger.Go.Json.Encode.Lines.{is_line}
use duro_ledger.Go.Json.Compact.{compact, compact_from}
use duro_ledger.Os.Stream.{write}
use duro_ledger.Postgres.Types.{StoredEvent}
use duro_ledger.Cmd.{put_out, encode_line}
use duro_ledger.Cmd.Output.{member, members, event_json}
use duro_ledger.Cmd.Output.Lines.{event_line, encode_line-printed}
use duro_ledger.Tests.Server.{new_year, lists}
use duro_ledger.Tests.Cmd.{fresh}

abbrev two_lines : StoredEvent
two_lines = record {
  id = str "7";
  received_at = new_year;
  event_type = b'a' ∷ b'\n' ∷ b'b' ∷ [];
  actor = str "writer";
  content = b'{' ∷ b'\n' ∷ b'}' ∷ [];
  refs = str "{ }";
}

abbrev one_line : Bytes
one_line =
    str
      "{\"id\":\"7\",\"received_at\":\"2026-01-01T00:00:00Z\",\"event_type\":\"a\\nb\",\"actor\":\"writer\",\"content\":{},\"refs\":{}}"

two_lines_printed : event_json two_lines ≡ some one_line
unfolding event_json members member compact check_valid scan step scan_value compact_from
    escape_html separator? encode_text escaped escape decode_rune rfc3339_nano year_digits
    two_digits fraction trim_zeros offset
two_lines_printed = refl

two_lines_succeed : (encode_line lists (event_json two_lines) fresh).0 ≡ ok tt
unfolding encode_line put_out write
two_lines_succeed = rw two_lines_printed refl

encode_line-printed_example :
    (b : Bytes) × (event_json two_lines ≡ some b)
    × (is_line b ≡ true)
    × ((encode_line lists (event_json two_lines) fresh).1.stores.os.out
        ≡ fresh.stores.os.out ++ (b ++ (b'\n' ∷ [])))
encode_line-printed_example =
    encode_line-printed lists (event_json two_lines) fresh (event_line two_lines) two_lines_succeed
