-- ===== src/Server/Token.antt =====
-- The management token (src/main.rs, `management_authorized`): texts are compared by their bytes, in a
-- time that does not depend on where they differ.

use baijimu_digital_employee.Base.{
  ℕ, zero, suc, ◌+◌, ◌*◌, ◌/◌, ◌%◌, Char, code, String, Bool, false, not, Option, List, [], ◌∷◌,
  ◌++◌, length, ltb, eqb, and_then, unwrap_or, if◌then◌else◌,
}
use baijimu_digital_employee.Text.Search.{strip_prefix}

-- The bytes of a character in UTF-8; a code is below 2^21.
abbrev pub utf8_char : Char → List ℕ
utf8_char c =
    let n = code c in
    if ltb n 0x80
    then n ∷ []
    else if ltb n 0x800
    then (0xc0 + n / 64) ∷ (0x80 + n % 64) ∷ []
    else if ltb n 0x10000
    then (0xe0 + n / 4096) ∷ (0x80 + n / 64 % 64) ∷ (0x80 + n % 64) ∷ []
    else (0xf0 + n / 262144 % 8)
      ∷ (0x80 + n / 4096 % 64)
      ∷ (0x80 + n / 64 % 64)
      ∷ (0x80 + n % 64)
      ∷ []

-- `s.as_bytes()`
unfoldable pub utf8 : String → List ℕ
utf8 String.[] = []
utf8 (String.◌∷◌ c s) = utf8_char c ++ utf8 s

abbrev pub xor_bit : ℕ → ℕ → ℕ
xor_bit a b = (a + b) % 2

abbrev pub or_bit : ℕ → ℕ → ℕ
or_bit a b = if eqb (a % 2 + b % 2) 0 then 0 else 1

-- `left ^ right` and `difference | …` on the low bits.
unfoldable pub bit_xor : ℕ → ℕ → ℕ → ℕ
bit_xor zero a b = 0
bit_xor (suc bits) a b = xor_bit a b + 2 * bit_xor bits (a / 2) (b / 2)

unfoldable pub bit_or : ℕ → ℕ → ℕ → ℕ
bit_or zero a b = 0
bit_or (suc bits) a b = or_bit a b + 2 * bit_or bits (a / 2) (b / 2)

-- `zip` and `fold`
unfoldable pub difference : ℕ → List ℕ → List ℕ → ℕ
unfolding bit_xor bit_or
difference d (a ∷ left) (b ∷ right) = difference (bit_or 8 d (bit_xor 8 a b)) left right
difference d _ _ = d

-- What the header gives.
abbrev pub token_of : Option String → String
token_of header = unwrap_or (and_then header (strip_prefix "Bearer ")) ""

unfoldable pub management_authorized : Option String → String → Bool
unfolding utf8 difference strip_prefix
management_authorized header expected =
    if not (eqb (length (utf8 (token_of header))) (length (utf8 expected)))
    then false
    else eqb (difference 0 (utf8 (token_of header)) (utf8 expected)) 0
