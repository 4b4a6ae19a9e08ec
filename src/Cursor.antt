-- ===== src/Cursor.antt =====
-- Stream cursors, `{streamId}:{sequence}` (`StreamCursor` of src/app_server/event_store.rs, and
-- `parse_cursor` of src/notification_stream.rs).
pub mod RoundTrip
mod Tests
use Prim.Native.String
use baijimu_digital_employee.Base.{
  ℕ, String, ◌≡◌, ◌≤◌, Bool, true, false, ◌||◌, Option, none, some, Result, ok, err, [],
}
use baijimu_digital_employee.Json.{json}
use baijimu_digital_employee.Http.{Http, coded}
use baijimu_digital_employee.Text.{
  ◌⁺⁺◌, is_control, any_char, is_empty, rsplit_once, parse_uint, to_decimal, max_u64,
}

pub record StreamCursor : Type 0 where
  pub stream_id : String
  pub sequence : ℕ

abbrev pub with_sequence : String → Option ℕ → Option StreamCursor
with_sequence id none = none
with_sequence id (some n) = some (record { stream_id = id; sequence = n })

abbrev pub of_parts : Option (String × String) → Option StreamCursor
of_parts none = none
of_parts (some (id, digits)) = elim (is_empty id || any_char is_control id) [
  | true ↦ none
  | false ↦ with_sequence id (parse_uint max_u64 digits)
]

-- `StreamCursor::parse`
unfoldable pub parse : String → Option StreamCursor
parse value = of_parts (rsplit_once b':' value)

-- `StreamCursor::encode`
unfoldable pub encode : StreamCursor → String
encode c = c.stream_id ⁺⁺ ":" ⁺⁺ to_decimal c.sequence

abbrev pub invalid_cursor : Option StreamCursor → Http (Option StreamCursor)
invalid_cursor none = err (coded 400 "Last-Event-ID 不是有效的流游标" "INVALID_STREAM_CURSOR" (json []))
invalid_cursor (some c) = ok (some c)

-- `parse_cursor`: no header is no cursor, and a malformed one is refused.
unfoldable pub parse_cursor : Option String → Http (Option StreamCursor)
unfolding parse
parse_cursor none = ok none
parse_cursor (some value) = invalid_cursor (parse value)
