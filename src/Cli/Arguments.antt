-- ===== src/Cli/Arguments.antt =====
-- The arguments of the command line (src/cli.rs, `parse_args`, `string_arg`, `required_u64_arg`). The case
-- mapping of characters is an argument.
use baijimu_digital_employee.Base.{
  ℕ, Char, String, Bool, true, false, not, ◌||◌, Option, none, some, List, [], ◌∷◌, Result, ok, err,
  ok_or, eqb, unwrap_or, and_then, when, ◌==◌, ◌>>=◌, if◌then◌else◌,
}
use baijimu_digital_employee.Text.{◌⁺⁺◌, is_empty, trim, split_once, parse_uint, max_u64}
use baijimu_digital_employee.Text.Search.{strip_prefix}
use baijimu_digital_employee.Json.{Fields, end, string, boolean, as_str, as_bool}
use baijimu_digital_employee.Json.Object
use baijimu_digital_employee.Process.{to_camel_case, to_kebab_case}

-- `ParsedArgs`
pub record ParsedArgs : Type 0 where
  pub command : String
  pub values : Fields
  pub flags : Fields

-- The loop of `parse_args` between two arguments: the key that waits for its value, with the option as it
-- was written, and what is parsed so far.
pub record Scan : Type 0 where
  pub awaiting : Option (String × String)
  pub parsed : ParsedArgs

abbrev pub with_value : String → String → ParsedArgs → ParsedArgs
with_value key value p = record p { values = Object.insert p.values key (string value) }

abbrev pub with_flag : String → ParsedArgs → ParsedArgs
with_flag key p = record p { flags = Object.insert p.flags key (boolean true) }

abbrev pub is_flag : String → Bool
is_flag key = key == "daemon" || key == "help" || key == "version"

abbrev keyed : String → String → String → Scan → Result String Scan
keyed raw key inline s =
    if key == "codexBinary"
    then err "--codex-binary is no longer supported; Codex CLI discovery is automatic"
    else if is_flag key
    then ok (record s { parsed = with_flag key s.parsed })
    else if is_empty inline
    then ok (record s { awaiting = some (key, raw) })
    else ok (record s { parsed = with_value key inline s.parsed })

-- An argument, as the value that is awaited or by itself.
unfoldable pub take_argument : (Char → String) → Scan → String → Result String Scan
unfolding Object.insert split_once strip_prefix to_camel_case
take_argument upper s arg = elim s.awaiting [
  | some (key, raw) ↦ ok (record { awaiting = none; parsed = with_value key arg s.parsed })
  | none ↦ elim (strip_prefix "--" arg) [
    | none ↦ ok s
    | some raw ↦
        let split = unwrap_or (split_once b'=' raw) (raw, "") in
        keyed raw (to_camel_case upper split.0) split.1 s
  ]
]

-- The loop of `parse_args`
unfoldable pub scan_arguments : (Char → String) → Scan → List String → Result String Scan
unfolding take_argument
scan_arguments upper s [] = ok s
scan_arguments upper s (arg ∷ rest) = take_argument upper s arg >>= λ t. scan_arguments upper t rest

abbrev pub finish : Scan → Result String ParsedArgs
finish s = elim s.awaiting [
  | some (key, raw) ↦ err ("missing value for --" ⁺⁺ raw)
  | none ↦
      if unwrap_or (and_then (Object.get s.parsed.flags "version") as_bool) false
      then ok (record s.parsed { command = "--version" })
      else ok s.parsed
]

abbrev pub started : String → Scan
started command = record {
  awaiting = none;
  parsed = record { command = command; values = end; flags = end };
}

-- `parse_args`
unfoldable pub parse_args : (Char → String) → List String → Result String ParsedArgs
unfolding scan_arguments Object.get
parse_args upper [] = finish (started "help")
parse_args upper (command ∷ rest) = scan_arguments upper (started command) rest >>= finish

abbrev pub value_of : ParsedArgs → String → Option String
value_of p key = and_then (Object.get p.values key) as_str

-- `string_arg`
unfoldable pub string_arg : ParsedArgs → String → Option String
unfolding Object.get trim
string_arg p key = and_then (value_of p key) (λ v. when (not (is_empty (trim v))) (trim v))

unfoldable pub positive_arg : String → ℕ → Result String ℕ
unfolding to_kebab_case
positive_arg key value =
    if eqb value 0
    then err ("--" ⁺⁺ to_kebab_case key ⁺⁺ " must be greater than zero")
    else ok value

-- `required_u64_arg`
unfoldable pub required_u64_arg : ParsedArgs → String → Result String ℕ
unfolding string_arg positive_arg parse_uint
required_u64_arg p key = do
  text ← ok_or (string_arg p key) ("--" ⁺⁺ to_kebab_case key ⁺⁺ " is required")
  value ←
      ok_or (parse_uint max_u64 text) ("--" ⁺⁺ to_kebab_case key ⁺⁺ " must be a positive integer")
  positive_arg key value
