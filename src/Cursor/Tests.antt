-- ===== src/Cursor/Tests.antt =====
-- The examples of the source's own tests, and instances of the theorems about cursors.
use baijimu_digital_employee.Base.{◌≡◌, refl, none, some, arith}
use baijimu_digital_employee.Text.{rsplit_once, parse_uint, to_decimal}
use baijimu_digital_employee.Cursor.{StreamCursor, parse, encode}
use baijimu_digital_employee.Cursor.RoundTrip.{IsCursor, parse-encode, parse_sound}

abbrev abc_12 : StreamCursor
abc_12 = record { stream_id = "a:b"; sequence = 12 }

encode-abc_12 : encode abc_12 ≡ "a:b:12"
unfolding encode to_decimal
encode-abc_12 = refl

parse-abc_12 : parse "a:b:+12" ≡ some abc_12
unfolding parse rsplit_once parse_uint
parse-abc_12 = refl

malformed :
    (parse "" ≡ none)
    × (parse "abc" ≡ none)
    × (parse ":3" ≡ none)
    × (parse "abc:" ≡ none)
    × (parse "abc:-1" ≡ none)
    × (parse "abc:x" ≡ none)
    × (parse "a\nb:1" ≡ none)
    × (parse "abc:18446744073709551616" ≡ none)
unfolding parse rsplit_once parse_uint
malformed = (refl, refl, refl, refl, refl, refl, refl, refl)

parse-encode_example : parse (encode abc_12) ≡ some abc_12
parse-encode_example =
    parse-encode abc_12 (record { named = refl; printable = refl; in_range = omega arith })

parse_sound_example : IsCursor abc_12 × (parse (encode abc_12) ≡ some abc_12)
parse_sound_example = parse_sound "a:b:+12" abc_12 parse-abc_12
