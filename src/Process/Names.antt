-- ===== src/Process/Names.antt =====
-- Names of options in camel case and in kebab case.
use text.Mathlib.TextLemmas.{nil-append, cons-append}
use baijimu_digital_employee.Base.{
  ◌≡◌, refl, ap, ℕ, zero, suc, Char, code, String, Bool, true, false, arith, Bool-cases, ◌-◌, inl,
  inr,
}
use baijimu_digital_employee.Text.{any_char, is_char}
use baijimu_digital_employee.Process.{
  char_at, is_ascii_uppercase, to_lower, camel_from, to_camel_case, to_kebab_case,
}

-- A text without a character that `p` holds of.
abbrev pub IsFree : (Char → Bool) → String → Type 0
IsFree p s = any_char p s ≡ false

any_char-first : (p : Char → Bool) (c : Char) (s : String) → IsFree p (String.◌∷◌ c s) → p c ≡ false
any_char-first p c s h = ground arith

any_char-rest : (p : Char → Bool) (c : Char) (s : String) → IsFree p (String.◌∷◌ c s) → IsFree p s
any_char-rest p c s h = ground arith

pub char_at-IsFree :
    (p : Char → Bool) (s : String) (n : ℕ) → p "?" ≡ false → IsFree p s → p (char_at s n) ≡ false
char_at-IsFree p String.[] n q h = q
char_at-IsFree p (String.◌∷◌ c s) zero q h = ground arith
char_at-IsFree p (String.◌∷◌ c s) (suc n) q h = char_at-IsFree p s n q (ground arith)

-- The lower case letters are neither of the characters that separate.
to_lower-is_char :
    (c : Char) → (is_char (to_lower c) b'-' ≡ false) × (is_char (to_lower c) b'=' ≡ false)
to_lower-is_char c = (
  char_at-IsFree (λ d. is_char d b'-') "abcdefghijklmnopqrstuvwxyz" (code c - 65) refl refl,
  char_at-IsFree (λ d. is_char d b'=') "abcdefghijklmnopqrstuvwxyz" (code c - 65) refl refl,
)

pub to_kebab_case-IsFree :
    (s : String) → IsFree (λ c. is_char c b'=') s → IsFree (λ c. is_char c b'=') (to_kebab_case s)
unfolding to_kebab_case
to_kebab_case-IsFree String.[] h = refl
to_kebab_case-IsFree (String.◌∷◌ c s) h = ground (arith, to_kebab_case-IsFree s, to_lower-is_char c)

-- What is used of `char::to_uppercase`: it raises what was lowered from the letters of a text.
abbrev pub Raises : (Char → String) → String → Type 0
Raises upper String.[] = Unit
Raises upper (String.◌∷◌ c s) =
    (is_ascii_uppercase c ≡ true → upper (to_lower c) ≡ String.◌∷◌ c "") × Raises upper s

-- Camel case undoes kebab case.
pub to_camel_case-to_kebab_case :
    (upper : Char → String) (s : String)
    → Raises upper s
    → IsFree (λ c. is_char c b'-') s
    → to_camel_case upper (to_kebab_case s) ≡ s
unfolding to_camel_case to_kebab_case camel_from
to_camel_case-to_kebab_case upper String.[] r h = refl
to_camel_case-to_kebab_case upper (String.◌∷◌ c s) (r, rs) h =
    let free : IsFree (λ d. is_char d b'-') s = any_char-rest (λ d. is_char d b'-') c s h in
    let rest = to_camel_case-to_kebab_case upper s rs free in
    let plain : is_char c b'-' ≡ false = any_char-first (λ d. is_char d b'-') c s h in
    elim (Bool-cases (is_ascii_uppercase c))
      as (λ _. to_camel_case upper (to_kebab_case (String.◌∷◌ c s)) ≡ String.◌∷◌ c s) [
        | inl p ↦
            rw (p, (to_lower-is_char c).0, r p, cons-append, nil-append) (ap (String.◌∷◌ c) rest)
        | inr p ↦ rw (p, plain) (ap (String.◌∷◌ c) rest)
      ]
