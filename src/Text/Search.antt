-- ===== src/Text/Search.antt =====
-- Prefixes, suffixes, lines and paths: the searches in a text that the readers of configuration use.

use baijimu_digital_employee.Base.{
  ℕ, ◌+◌, Char, code, String, Bool, true, false, ◌&&◌, ◌||◌, Option, none, some, List, [], ◌∷◌, leb,
  eqb, ◌==◌, if◌then◌else◌,
}
use baijimu_digital_employee.Text.{◌⁺⁺◌, is_empty, is_char, is_absolute, is_whitespace}

-- `s.strip_prefix(p)`
unfoldable pub strip_prefix : String → String → Option String
strip_prefix String.[] s = some s
strip_prefix (String.◌∷◌ d p) String.[] = none
strip_prefix (String.◌∷◌ d p) (String.◌∷◌ c s) =
    let rest = strip_prefix p s in if String.◌∷◌ d "" == String.◌∷◌ c "" then rest else none

abbrev pub cons_front : Char → Option String → Option String
cons_front c none = none
cons_front c (some s) = some (String.◌∷◌ c s)

-- `s.strip_suffix(p)`
unfoldable pub strip_suffix : String → String → Option String
strip_suffix p String.[] = if is_empty p then some "" else none
strip_suffix p (String.◌∷◌ c s) =
    let rest = cons_front c (strip_suffix p s) in if String.◌∷◌ c s == p then some "" else rest

unfoldable pub starts_with : String → String → Bool
unfolding strip_prefix
starts_with s p = elim (strip_prefix p s) [ none ↦ false | some _ ↦ true ]

-- `s.contains(p)`
unfoldable pub contains : String → String → Bool
unfolding strip_prefix
contains String.[] p = is_empty p
contains (String.◌∷◌ c s) p = starts_with (String.◌∷◌ c s) p || contains s p

abbrev pub push_line : Char → List String → List String
push_line c [] = String.◌∷◌ c "" ∷ []
push_line c (l ∷ ls) = String.◌∷◌ c l ∷ ls

abbrev pub at_newline : String → Bool
at_newline String.[] = false
at_newline (String.◌∷◌ c s) = is_char c 10

-- `s.lines()`
unfoldable pub lines : String → List String
lines String.[] = []
lines (String.◌∷◌ c s) =
    let rest = lines s in
    if is_char c 10
    then "" ∷ rest
    else if is_char c 13 && at_newline s
    then rest
    else push_line c rest

-- `s.trim_start_matches(c)` and `s.trim_end_matches(c)`, in one `s.trim_matches(c)`
abbrev pub trim_start_matches : ℕ → String → String
trim_start_matches sep String.[] = ""
trim_start_matches sep (String.◌∷◌ c s) =
    let rest = trim_start_matches sep s in if is_char c sep then rest else String.◌∷◌ c s

abbrev pub trim_end_matches : ℕ → String → String
trim_end_matches sep String.[] = ""
trim_end_matches sep (String.◌∷◌ c s) =
    let rest = trim_end_matches sep s in
    if is_char c sep && is_empty rest then "" else String.◌∷◌ c rest

unfoldable pub trim_matches : ℕ → String → String
trim_matches sep s = trim_end_matches sep (trim_start_matches sep s)

abbrev pub drop_backslash : Char → String → Bool
drop_backslash c String.[] = false
drop_backslash c (String.◌∷◌ d s) = is_char c b'\\' && is_char d b'"'

-- `s.replace("\\\"", "\"")`: a backslash before a quotation mark is dropped.
unfoldable pub unescape_quotes : String → String
unescape_quotes String.[] = ""
unescape_quotes (String.◌∷◌ c s) =
    let rest = unescape_quotes s in if drop_backslash c s then rest else String.◌∷◌ c rest

-- `Path::join` on Unix.
unfoldable pub join : String → String → String
unfolding strip_suffix
join base path =
    if is_absolute path || is_empty base
    then path
    else elim (strip_suffix "/" base) [ some _ ↦ base ⁺⁺ path | none ↦ base ⁺⁺ "/" ⁺⁺ path ]

abbrev pub split_first : Char → List String → List String
split_first c [] = String.◌∷◌ c "" ∷ []
split_first c (l ∷ ls) = if is_char c b'/' then "" ∷ l ∷ ls else String.◌∷◌ c l ∷ ls

-- The parts between the slashes.
unfoldable pub path_parts : String → List String
path_parts String.[] = "" ∷ []
path_parts (String.◌∷◌ c s) = split_first c (path_parts s)

abbrev pub last_part : Option String → List String → Option String
last_part found [] = found
last_part found (p ∷ ps) = last_part (if is_empty p || p == "." then found else some p) ps

abbrev pub not_parent : Option String → Option String
not_parent none = none
not_parent (some p) = if p == ".." then none else some p

-- `Path::file_name` on Unix: the last component, unless it is `..`.
unfoldable pub file_name : String → Option String
unfolding path_parts
file_name path = not_parent (last_part none (path_parts path))

abbrev pub flush_word : String → List String → List String
flush_word w ws = if is_empty w then ws else w ∷ ws

abbrev pub push_word : Char → String × List String → String × List String
push_word c (w, ws) = (String.◌∷◌ c w, ws)

-- The word at the front, and the words behind it.
abbrev pub words_from : String → String × List String
words_from String.[] = ("", [])
words_from (String.◌∷◌ c s) =
    let rest = words_from s in
    if is_whitespace c then ("", flush_word rest.0 rest.1) else push_word c rest

-- `s.split_whitespace()`
unfoldable pub split_whitespace : String → List String
split_whitespace s = flush_word (words_from s).0 (words_from s).1

abbrev pub lower : Char → ℕ
lower c = let n = code c in if leb b'A' n && leb n b'Z' then n + 32 else n

-- `s.eq_ignore_ascii_case(t)`
unfoldable pub eq_ignore_ascii_case : String → String → Bool
eq_ignore_ascii_case String.[] String.[] = true
eq_ignore_ascii_case String.[] (String.◌∷◌ d t) = false
eq_ignore_ascii_case (String.◌∷◌ c s) String.[] = false
eq_ignore_ascii_case (String.◌∷◌ c s) (String.◌∷◌ d t) =
    eqb (lower c) (lower d) && eq_ignore_ascii_case s t
