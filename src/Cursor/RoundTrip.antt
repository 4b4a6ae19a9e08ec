-- ===== src/Cursor/RoundTrip.antt =====
-- Which cursors the text form stands for.

use text.Mathlib.TextLemmas.{cons-append, nil-append}
use baijimu_digital_employee.Base.{String, ◌≡◌, ◌≤◌, false, Option, none, some, arith}
use baijimu_digital_employee.Text.{is_control, any_char, is_empty, rsplit_once, to_decimal, max_u64}
use baijimu_digital_employee.Text.Laws.{
  parse_uint-to_decimal, parse_uint-le, rsplit_once-append, AllDigits-no_sep, to_decimal-AllDigits,
}
use baijimu_digital_employee.Cursor.{StreamCursor, of_parts, parse, encode}

-- A cursor that can be sent: its stream has a name with no control character, and its position is
-- a u64.
pub record IsCursor (c : StreamCursor) : Type 0 where
  pub named : is_empty c.stream_id ≡ false
  pub printable : any_char is_control c.stream_id ≡ false
  pub in_range : c.sequence ≤ max_u64

rsplit_once-encode :
    (c : StreamCursor) → rsplit_once b':' (encode c) ≡ some (c.stream_id, to_decimal c.sequence)
unfolding encode
rsplit_once-encode c =
    rw (cons-append, nil-append)
      (rsplit_once-append ":" c.stream_id (to_decimal c.sequence) (
        AllDigits-no_sep b':' (to_decimal c.sequence) (omega arith)
          (to_decimal-AllDigits c.sequence)))

-- A cursor with a named stream, no control character in the name and a u64 position is read back from
-- its text form.
pub parse-encode : (c : StreamCursor) → IsCursor c → parse (encode c) ≡ some c
unfolding parse
parse-encode c h =
    rw (rsplit_once-encode c) (ground (arith, parse_uint-to_decimal max_u64 c.sequence h.in_range))

of_parts-IsCursor :
    (o : Option (String × String)) (c : StreamCursor) → of_parts o ≡ some c → IsCursor c
of_parts-IsCursor none c e = cc
of_parts-IsCursor (some (id, digits)) c e = record {
  named = ground arith;
  printable = ground arith;
  in_range = ground (arith, parse_uint-le max_u64 digits {r = c.sequence});
}

-- Whatever text is accepted, the cursor has a named stream, no control character in the name and a u64
-- position, and its own text form is accepted as the same cursor.
pub parse_sound :
    (s : String) (c : StreamCursor) → parse s ≡ some c → IsCursor c × (parse (encode c) ≡ some c)
parse_sound s c e =
    let h : IsCursor c = of_parts-IsCursor (rsplit_once b':' s) c (unfold parse in e) in
    (h, parse-encode c h)
