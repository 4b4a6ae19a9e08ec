-- ===== src/Text.antt =====
-- The functions of Rust's `str`, `char` and integer types that the connector calls on text.
pub mod Laws
pub mod Search
use Prim.Native.String
use baijimu_digital_employee.Base.{
  ℕ, zero, suc, ◌+◌, ◌-◌, ◌*◌, ◌/◌, ◌%◌, ◌^◌, Char, code, String, Bool, true, false, ◌&&◌, ◌||◌,
  Option, none, some, List, [], ◌∷◌, leb, ltb, eqb, when, if◌then◌else◌,
}

infixr 65 ◌⁺⁺◌
abbrev pub ◌⁺⁺◌ : String → String → String
s ⁺⁺ t = String.◌++◌ s t

-- `char::is_control`: the general category Cc.
abbrev pub is_control : Char → Bool
is_control c = ltb (code c) 32 || (leb 127 (code c) && leb (code c) 159)

-- `s.chars().any(p)`
abbrev pub any_char : (Char → Bool) → String → Bool
any_char p String.[] = false
any_char p (String.◌∷◌ c s) = p c || any_char p s

abbrev pub is_empty : String → Bool
is_empty String.[] = true
is_empty (String.◌∷◌ _ _) = false

abbrev pub push_front : Char → Option (String × String) → Option (String × String)
push_front c none = none
push_front c (some (a, b)) = some (String.◌∷◌ c a, b)

abbrev pub is_char : Char → ℕ → Bool
is_char c sep = eqb (code c) sep

-- `s.rsplit_once(sep)` at a character: the split at its last occurrence.
unfoldable pub rsplit_once : ℕ → String → Option (String × String)
rsplit_once sep String.[] = none
rsplit_once sep (String.◌∷◌ c s) = elim (rsplit_once sep s) [
  | some (a, b) ↦ some (String.◌∷◌ c a, b)
  | none ↦ when (is_char c sep) ("", s)
]

-- `s.split_once(sep)` at a character: the split at its first occurrence.
unfoldable pub split_once : ℕ → String → Option (String × String)
split_once sep String.[] = none
split_once sep (String.◌∷◌ c s) =
    let rest = push_front c (split_once sep s) in if is_char c sep then some ("", s) else rest

abbrev pub max_u64 : ℕ
max_u64 = 2 ^ 64 - 1

abbrev pub is_digit : Char → Bool
is_digit c = leb b'0' (code c) && leb (code c) b'9'

-- The digits of an unsigned integer; `none` stands for a bad digit and for an overflow.
unfoldable pub scan : ℕ → ℕ → String → Option ℕ
scan bound n String.[] = some n
scan bound n (String.◌∷◌ c s) =
    let m = n * 10 + (code c - b'0') in
    let rest = scan bound m s in if is_digit c && leb m bound then rest else none

-- `str::parse` into an unsigned type with the largest value `bound`. One leading `+` is allowed.
unfoldable pub parse_uint : ℕ → String → Option ℕ
unfolding scan
parse_uint bound String.[] = none
parse_uint bound (String.◌∷◌ c s) =
    if is_char c b'+'
    then (if is_empty s then none else scan bound 0 s)
    else scan bound 0 (String.◌∷◌ c s)

unfoldable pub digit_char : ℕ → Char
digit_char zero = "0"
digit_char (suc zero) = "1"
digit_char (suc (suc zero)) = "2"
digit_char (suc (suc (suc zero))) = "3"
digit_char (suc (suc (suc (suc zero)))) = "4"
digit_char (suc (suc (suc (suc (suc zero))))) = "5"
digit_char (suc (suc (suc (suc (suc (suc zero)))))) = "6"
digit_char (suc (suc (suc (suc (suc (suc (suc zero))))))) = "7"
digit_char (suc (suc (suc (suc (suc (suc (suc (suc zero)))))))) = "8"
digit_char _ = "9"

-- The digits of `n` in front of `out`. Each round divides by ten, so `n` rounds are enough.
unfoldable pub emit : ℕ → ℕ → String → String
unfolding digit_char
emit zero n out = out
emit (suc f) n out =
    let rest = emit f (n / 10) (String.◌∷◌ (digit_char (n % 10)) out) in
    if eqb n 0 then out else rest

-- `n.to_string()`
unfoldable pub to_decimal : ℕ → String
unfolding emit
to_decimal n = if eqb n 0 then "0" else emit n n ""

-- `char::is_whitespace`: the property White_Space.
abbrev pub is_whitespace : Char → Bool
is_whitespace c =
    let n = code c in
    (leb 9 n && leb n 13)
    || eqb n 32
    || eqb n 0x85
    || eqb n 0xa0
    || eqb n 0x1680
    || (leb 0x2000 n && leb n 0x200a)
    || eqb n 0x2028
    || eqb n 0x2029
    || eqb n 0x202f
    || eqb n 0x205f
    || eqb n 0x3000

abbrev pub trim_start : String → String
trim_start String.[] = ""
trim_start (String.◌∷◌ c s) =
    let rest = trim_start s in if is_whitespace c then rest else String.◌∷◌ c s

-- White space is dropped where nothing but white space follows.
abbrev pub trim_end : String → String
trim_end String.[] = ""
trim_end (String.◌∷◌ c s) =
    let rest = trim_end s in if is_whitespace c && is_empty rest then "" else String.◌∷◌ c rest

-- `s.trim()`
unfoldable pub trim : String → String
trim s = trim_end (trim_start s)

-- The bytes of a character in UTF-8.
abbrev pub utf8_len : Char → ℕ
utf8_len c =
    let n = code c in
    if ltb n 0x80 then 1 else if ltb n 0x800 then 2 else if ltb n 0x10000 then 3 else 4

-- `s.len()`
unfoldable pub byte_len : String → ℕ
byte_len String.[] = 0
byte_len (String.◌∷◌ c s) = utf8_len c + byte_len s

-- `Path::is_absolute` on Unix.
abbrev pub is_absolute : String → Bool
is_absolute String.[] = false
is_absolute (String.◌∷◌ c s) = is_char c b'/'
