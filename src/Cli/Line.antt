-- ===== src/Cli/Line.antt =====
-- A command line and the number that is read at one of its options.
use baijimu_digital_employee.Base.{
  ◌≡◌, true, ◌∙◌, refl, ℕ, ◌≤◌, ◌<◌, Char, String, ◌++◌, false, none, some, List, [], ◌∷◌, ok,
  arith, eqb, ◌>>=◌, ◌==◌, eq_refl,
}
use baijimu_digital_employee.Text.{is_char, trim, trim_end, split_once, to_decimal, max_u64}
use baijimu_digital_employee.Text.Laws.{
  AllDigits, to_decimal-AllDigits, to_decimal-is_empty, parse_uint-to_decimal,
}
use baijimu_digital_employee.Text.Search.{strip_prefix}
use baijimu_digital_employee.Json.{string, boolean, end}
use baijimu_digital_employee.Json.Object
use baijimu_digital_employee.Json.Laws.{get-insert}
use baijimu_digital_employee.Process.{to_kebab_case}
use baijimu_digital_employee.Process.Names.{
  IsFree, Raises, to_kebab_case-IsFree, to_camel_case-to_kebab_case,
}
use baijimu_digital_employee.Cli.Arguments.{
  is_flag, ParsedArgs, with_value, with_flag, take_argument, scan_arguments, started, parse_args,
  string_arg, positive_arg, required_u64_arg,
}

-- Digits are not white space.
trim_end-AllDigits : (s : String) → AllDigits s → trim_end s ≡ s
trim_end-AllDigits String.[] h = refl
trim_end-AllDigits (String.◌∷◌ c s) (lo, hi, h) = ground (arith, trim_end-AllDigits s h)

trim-AllDigits : (s : String) → AllDigits s → trim s ≡ s
unfolding trim
trim-AllDigits String.[] h = refl
trim-AllDigits (String.◌∷◌ c s) (lo, hi, h) = ground (arith, trim_end-AllDigits s h)

split_once-IsFree : (s : String) → IsFree (λ c. is_char c b'=') s → split_once b'=' s ≡ none
unfolding split_once
split_once-IsFree String.[] h = refl
split_once-IsFree (String.◌∷◌ c s) h = ground (arith, split_once-IsFree s)

-- A name that an option can have: without `-` and `=`, neither a flag nor the option that is refused.
abbrev pub IsKey : String → Type 0
IsKey key =
    IsFree (λ c. is_char c b'-') key
    × IsFree (λ c. is_char c b'=') key
    × (is_flag key ≡ false)
    × ((key == "codexBinary") ≡ false)

abbrev pub option_of : String → String
option_of key = String.◌∷◌ "-" (String.◌∷◌ "-" (to_kebab_case key))

take_argument-option :
    (upper : Char → String) (key : String) (p : ParsedArgs)
    → Raises upper key
    → IsKey key
    → take_argument upper (record { awaiting = none; parsed = p }) (option_of key)
      ≡ ok (record { awaiting = some (key, to_kebab_case key); parsed = p })
unfolding take_argument strip_prefix
take_argument-option upper key p r (dash, eqs, flag, binary) =
    rw
      (
        split_once-IsFree (to_kebab_case key) (to_kebab_case-IsFree key eqs),
        to_camel_case-to_kebab_case upper key r dash,
        flag,
        binary,
      )
      refl

-- A part of the command line: an option with its value behind it, the flag `--daemon`, or a word that is no
-- option.
pub data Item : Type 0 where
  valued : String → String → Item
  daemon_flag : Item
  word : String → Item

abbrev pub args_of : List Item → List String
args_of [] = []
args_of (valued key value ∷ items) = option_of key ∷ value ∷ args_of items
args_of (daemon_flag ∷ items) = "--daemon" ∷ args_of items
args_of (word w ∷ items) = w ∷ args_of items

abbrev pub IsLine : (Char → String) → List Item → Type 0
IsLine upper [] = Unit
IsLine upper (valued key value ∷ items) = (Raises upper key × IsKey key) × IsLine upper items
IsLine upper (daemon_flag ∷ items) = IsLine upper items
IsLine upper (word w ∷ items) = (strip_prefix "--" w ≡ none) × IsLine upper items

-- What each part stands for.
abbrev applied : List Item → ParsedArgs → ParsedArgs
applied [] p = p
applied (valued key value ∷ items) p = applied items (with_value key value p)
applied (daemon_flag ∷ items) p = applied items (with_flag "daemon" p)
applied (word w ∷ items) p = applied items p

take_argument-word :
    (upper : Char → String) (w : String) (p : ParsedArgs)
    → strip_prefix "--" w ≡ none
    → take_argument upper (record { awaiting = none; parsed = p }) w
      ≡ ok (record { awaiting = none; parsed = p })
unfolding take_argument
take_argument-word upper w p plain = rw (plain, take_argument) refl

scan_arguments-applied :
    (upper : Char → String) (items : List Item) (p : ParsedArgs)
    → IsLine upper items
    → scan_arguments upper (record { awaiting = none; parsed = p }) (args_of items)
      ≡ ok (record { awaiting = none; parsed = applied items p })
unfolding scan_arguments take_argument
scan_arguments-applied upper [] p h = refl
scan_arguments-applied upper (valued key value ∷ items) p ((r, k), h) =
    rw (take_argument-option upper key p r k)
      (scan_arguments-applied upper items (with_value key value p) h)
scan_arguments-applied upper (daemon_flag ∷ items) p h =
    scan_arguments-applied upper items (with_flag "daemon" p) h
scan_arguments-applied upper (word w ∷ items) p (plain, h) =
    rw (take_argument-word upper w p plain) (scan_arguments-applied upper items p h)

applied-version :
    (items : List Item) (p : ParsedArgs)
    → Object.get p.flags "version" ≡ none
    → Object.get (applied items p).flags "version" ≡ none
applied-version [] p h = h
applied-version (valued key value ∷ items) p h = applied-version items (with_value key value p) h
applied-version (daemon_flag ∷ items) p h =
    applied-version items (with_flag "daemon" p)
      (get-insert p.flags "daemon" "version" (boolean true) ∙ h)
applied-version (word w ∷ items) p h = applied-version items p h

get-end : (k : String) → Object.get end k ≡ none
unfolding Object.get
get-end k = refl

parse_args-applied :
    (upper : Char → String) (command : String) (items : List Item)
    → IsLine upper items
    → parse_args upper (command ∷ args_of items) ≡ ok (applied items (started command).parsed)
unfolding parse_args
parse_args-applied upper command items h =
    rw
      (
        scan_arguments-applied upper items (started command).parsed h,
        applied-version items (started command).parsed (get-end "version"),
      )
      refl

-- An option is not given.
abbrev pub IsAbsent : String → List Item → Type 0
IsAbsent key [] = Unit
IsAbsent key (valued k value ∷ items) = ((k == key) ≡ false) × IsAbsent key items
IsAbsent key (daemon_flag ∷ items) = IsAbsent key items
IsAbsent key (word w ∷ items) = IsAbsent key items

applied-get :
    (items : List Item) (key : String) (p : ParsedArgs)
    → IsAbsent key items
    → Object.get (applied items p).values key ≡ Object.get p.values key
applied-get [] key p h = refl
applied-get (valued k value ∷ items) key p (ne, h) =
    applied-get items key (with_value k value p) h
    ∙ get-insert p.values k key (string value)
    ∙ rw ne refl
applied-get (daemon_flag ∷ items) key p h = applied-get items key (with_flag "daemon" p) h
applied-get (word w ∷ items) key p h = applied-get items key p h

applied-given :
    (before after : List Item) (key value : String) (p : ParsedArgs)
    → IsAbsent key after
    → Object.get (applied (before ++ valued key value ∷ after) p).values key ≡ some (string value)
applied-given [] after key value p h =
    applied-get after key (with_value key value p) h
    ∙ get-insert p.values key key (string value)
    ∙ rw (eq_refl key) refl
applied-given (valued k w ∷ before) after key value p h =
    applied-given before after key value (with_value k w p) h
applied-given (daemon_flag ∷ before) after key value p h =
    applied-given before after key value (with_flag "daemon" p) h
applied-given (word w ∷ before) after key value p h = applied-given before after key value p h

positive : (n : ℕ) → 0 < n → eqb n 0 ≡ false
positive n h = ground arith

-- A command line of options with their values, of `--daemon` and of words that are no options, in any order
-- and number. A positive number up to 2^64 - 1 that is the value of an option, written with two dashes and
-- the kebab case of a key, is what `required_u64_arg` reads at the key, if the option is not given again
-- behind it. The keys have no `-` and no `=` and are neither flags nor the option that is refused, and
-- `to_uppercase` raises again the letters of each that kebab case lowers.
pub required_u64_arg-option :
    (upper : Char → String) (command key : String) (n : ℕ) (before after : List Item)
    → IsLine upper (before ++ valued key (to_decimal n) ∷ after)
    → IsAbsent key after
    → 0 < n
    → n ≤ max_u64
    → (parse_args upper (command ∷ args_of (before ++ valued key (to_decimal n) ∷ after)) >>= λ p.
        required_u64_arg p key)
      ≡ ok n
unfolding required_u64_arg string_arg positive_arg
required_u64_arg-option upper command key n before after line absent lo hi =
    rw (parse_args-applied upper command (before ++ valued key (to_decimal n) ∷ after) line) (
      rw
        (
          applied-given before after key (to_decimal n) (started command).parsed absent,
          trim-AllDigits (to_decimal n) (to_decimal-AllDigits n),
          to_decimal-is_empty n,
          parse_uint-to_decimal max_u64 n hi,
          positive n lo,
        )
        refl)
