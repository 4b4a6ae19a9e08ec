-- ===== src/Text/Laws.antt =====
-- Printing and parsing of unsigned integers, and splitting at a separator.

use text.Mathlib.TextLemmas.{nil-append, cons-append}
use mathlib.Core.Option.{some-injective}
use baijimu_digital_employee.Base.{
  sym, ap, ◌∙◌, ℕ, zero, suc, ◌+◌, ◌-◌, ◌*◌, ◌/◌, ◌%◌, ◌≤◌, ◌<◌, Char, code, String, ◌≡◌, refl,
  false, none, some, arith,
}
use baijimu_digital_employee.Text.{
  ◌⁺⁺◌, is_empty, rsplit_once, scan, parse_uint, digit_char, emit, to_decimal,
}

code-digit_char : (d : ℕ) → d < 10 → code (digit_char d) ≡ 48 + d
unfolding digit_char
code-digit_char zero h = refl
code-digit_char (suc zero) h = refl
code-digit_char (suc (suc zero)) h = refl
code-digit_char (suc (suc (suc zero))) h = refl
code-digit_char (suc (suc (suc (suc zero)))) h = refl
code-digit_char (suc (suc (suc (suc (suc zero))))) h = refl
code-digit_char (suc (suc (suc (suc (suc (suc zero)))))) h = refl
code-digit_char (suc (suc (suc (suc (suc (suc (suc zero))))))) h = refl
code-digit_char (suc (suc (suc (suc (suc (suc (suc (suc zero)))))))) h = refl
code-digit_char (suc (suc (suc (suc (suc (suc (suc (suc (suc zero))))))))) h = refl
code-digit_char (suc (suc (suc (suc (suc (suc (suc (suc (suc (suc d)))))))))) h =
    absurd (omega arith)

-- Reading the last digit after the digits before it gives the number.
scan_last :
    (bound n : ℕ) (out : String)
    → n ≤ bound
    → scan bound (n / 10) (String.◌∷◌ (digit_char (n % 10)) out) ≡ scan bound n out
unfolding scan
scan_last bound n out h = ground (arith, code-digit_char (n % 10))

scan-emit :
    (bound f n : ℕ) (out : String)
    → n ≤ bound
    → n ≤ f
    → scan bound 0 (emit f n out) ≡ scan bound n out
unfolding emit
scan-emit bound zero n out h k = ground arith
scan-emit bound (suc f) n out h k = ground (
  arith,
  scan-emit bound f (n / 10) (String.◌∷◌ (digit_char (n % 10)) out),
  scan_last bound n out h,
)

-- What `to_decimal` prints: digits alone, at least one.
abbrev pub AllDigits : String → Type 0
AllDigits String.[] = Unit
AllDigits (String.◌∷◌ c s) = (48 ≤ code c) × (code c ≤ 57) × AllDigits s

emit-AllDigits : (f n : ℕ) (out : String) → AllDigits out → AllDigits (emit f n out)
unfolding emit
emit-AllDigits zero n out h = h
emit-AllDigits (suc f) n out h = ground (
  arith,
  emit-AllDigits f (n / 10) (String.◌∷◌ (digit_char (n % 10)) out),
  code-digit_char (n % 10),
)

pub to_decimal-AllDigits : (n : ℕ) → AllDigits (to_decimal n)
unfolding to_decimal
to_decimal-AllDigits zero = omega arith
to_decimal-AllDigits (suc n) = ground (arith, emit-AllDigits (suc n) (suc n) "" tt)

emit-is_empty : (f n : ℕ) (out : String) → is_empty out ≡ false → is_empty (emit f n out) ≡ false
unfolding emit
emit-is_empty zero n out h = h
emit-is_empty (suc f) n out h =
    ground (arith, emit-is_empty f (n / 10) (String.◌∷◌ (digit_char (n % 10)) out))

pub to_decimal-is_empty : (n : ℕ) → is_empty (to_decimal n) ≡ false
unfolding to_decimal
to_decimal-is_empty zero = refl
to_decimal-is_empty (suc n) =
    ground (arith, emit-is_empty n (suc n / 10) (String.◌∷◌ (digit_char (suc n % 10)) ""))

-- With digits alone no sign is read.
parse_uint-scan :
    (bound : ℕ) (s : String)
    → AllDigits s
    → is_empty s ≡ false
    → parse_uint bound s ≡ scan bound 0 s
unfolding parse_uint
parse_uint-scan bound String.[] h k = cc
parse_uint-scan bound (String.◌∷◌ c s) h k = ground arith

scan-to_decimal : (bound n : ℕ) → n ≤ bound → scan bound 0 (to_decimal n) ≡ some n
unfolding to_decimal scan
scan-to_decimal bound zero h = ground arith
scan-to_decimal bound (suc n) h = ground (arith, scan-emit bound (suc n) (suc n) "" h)

-- Every integer in range is read back from its decimal print.
pub parse_uint-to_decimal : (bound n : ℕ) → n ≤ bound → parse_uint bound (to_decimal n) ≡ some n
parse_uint-to_decimal bound n h =
    rw (parse_uint-scan bound (to_decimal n) (to_decimal-AllDigits n) (to_decimal-is_empty n))
      (scan-to_decimal bound n h)

scan-le : (bound n : ℕ) (s : String) {r : ℕ} → n ≤ bound → scan bound n s ≡ some r → r ≤ bound
unfolding scan
scan-le bound n String.[] h e = ground arith
scan-le bound n (String.◌∷◌ c s) {r} h e =
    ground (arith, scan-le bound (n * 10 + (code c - 48)) s {r = r})

-- What is parsed is in range.
pub parse_uint-le : (bound : ℕ) (s : String) {r : ℕ} → parse_uint bound s ≡ some r → r ≤ bound
unfolding parse_uint
parse_uint-le bound String.[] e = cc
parse_uint-le bound (String.◌∷◌ c s) {r} e =
    ground (arith, scan-le bound 0 s {r = r}, scan-le bound 0 (String.◌∷◌ c s) {r = r})

pub AllDigits-no_sep : (sep : ℕ) (s : String) → 57 < sep → AllDigits s → rsplit_once sep s ≡ none
unfolding rsplit_once
AllDigits-no_sep sep String.[] k h = refl
AllDigits-no_sep sep (String.◌∷◌ c s) k (lo, hi, h) = ground (arith, AllDigits-no_sep sep s k h)

-- A text without the separator stays whole behind it.
pub rsplit_once-append :
    (c : Char) (s t : String)
    → rsplit_once (code c) t ≡ none
    → rsplit_once (code c) (s ⁺⁺ String.◌∷◌ c t) ≡ some (s, t)
unfolding rsplit_once
rsplit_once-append c String.[] t h = rw nil-append (ground arith)
rsplit_once-append c (String.◌∷◌ d s) t h =
    rw cons-append (ground (arith, rsplit_once-append c s t h))

-- Numbers in range that print alike are equal.
pub to_decimal_inj : (bound n m : ℕ) → n ≤ bound → m ≤ bound → to_decimal n ≡ to_decimal m → n ≡ m
to_decimal_inj bound n m hn hm e = some-injective n m (
    sym (parse_uint-to_decimal bound n hn)
    ∙ ap (parse_uint bound) e
    ∙ parse_uint-to_decimal bound m hm)
