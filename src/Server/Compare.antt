-- ===== src/Server/Compare.antt =====
-- The comparison of tokens accepts the same bytes alone.

use baijimu_digital_employee.Base.{
  ℕ, zero, suc, ◌*◌, ◌/◌, ◌<◌, ◌≡◌, refl, ◌↔◌, inl, inr, Char, code, String, true, Option, List, [],
  ◌∷◌, arith, All, All-append, length, ltb, eqb, eqb_iff, eqb_refl, if_cases, Bool-cases,
}
use baijimu_digital_employee.Server.Token.{
  utf8_char, utf8, bit_xor, bit_or, difference, token_of, management_authorized,
}

bit_xor_self : (f a : ℕ) → bit_xor f a a ≡ 0
unfolding bit_xor
bit_xor_self zero a = refl
bit_xor_self (suc f) a = ground (arith, bit_xor_self f (a / 2))

bit_or_zero : (f : ℕ) → bit_or f 0 0 ≡ 0
unfolding bit_or
bit_or_zero zero = refl
bit_or_zero (suc f) = ground (arith, bit_or_zero f)

abbrev two_to : ℕ → ℕ
two_to zero = 1
two_to (suc f) = 2 * two_to f

bit_xor-eq : (f a b : ℕ) → a < two_to f → b < two_to f → bit_xor f a b ≡ 0 → a ≡ b
unfolding bit_xor
bit_xor-eq zero a b ha hb e = omega arith
bit_xor-eq (suc f) a b ha hb e =
    let k = bit_xor-eq f (a / 2) (b / 2) (omega arith) (omega arith) (omega arith) in omega arith

bit_or-zero : (f a b : ℕ) → a < two_to f → b < two_to f → bit_or f a b ≡ 0 → (a ≡ 0) × (b ≡ 0)
unfolding bit_or
bit_or-zero zero a b ha hb e = (omega arith, omega arith)
bit_or-zero (suc f) a b ha hb e = ground (arith, bit_or-zero f (a / 2) (b / 2))

bit_xor-lt : (f a b : ℕ) → bit_xor f a b < two_to f
unfolding bit_xor
bit_xor-lt zero a b = omega arith
bit_xor-lt (suc f) a b = omega (arith, bit_xor-lt f (a / 2) (b / 2))

bit_or-lt : (f a b : ℕ) → bit_or f a b < two_to f
unfolding bit_or
bit_or-lt zero a b = omega arith
bit_or-lt (suc f) a b = ground (arith, bit_or-lt f (a / 2) (b / 2))

abbrev IsByte : ℕ → Type 0
IsByte b = b < 256

difference_self : (l : List ℕ) → difference 0 l l ≡ 0
unfolding difference
difference_self [] = refl
difference_self (a ∷ l) = rw (bit_xor_self 8 a) (rw (bit_or_zero 8) (difference_self l))

difference-eq :
    (d : ℕ) (l r : List ℕ)
    → d < 256
    → All IsByte l
    → All IsByte r
    → length l ≡ length r
    → difference d l r ≡ 0
    → (d ≡ 0) × (l ≡ r)
unfolding difference
difference-eq d [] [] hd hl hr n e = (e, refl)
difference-eq d [] (b ∷ r) hd hl hr n e = absurd (omega arith)
difference-eq d (a ∷ l) [] hd hl hr n e = absurd (omega arith)
difference-eq d (a ∷ l) (b ∷ r) hd hl hr n e =
    let (z, p) =
      difference-eq (bit_or 8 d (bit_xor 8 a b)) l r (bit_or-lt 8 d (bit_xor 8 a b)) hl.1 hr.1
        (omega arith) e in
    let (d0, x0) = bit_or-zero 8 d (bit_xor 8 a b) hd (bit_xor-lt 8 a b) z in
    (d0, cc (p, bit_xor-eq 8 a b hl.0 hr.0 x0))

utf8_char-IsByte : (c : Char) → All IsByte (utf8_char c)
utf8_char-IsByte c =
    if_cases (All IsByte) (ltb (code c) 0x80) (λ p. (ground arith, tt))
      (λ _.
        if_cases (All IsByte) (ltb (code c) 0x800) (λ p. (ground arith, (omega arith, tt)))
          (λ _.
            if_cases (All IsByte) (ltb (code c) 0x10000)
              (λ p. (ground arith, (omega arith, (omega arith, tt))))
              (λ _. (omega arith, (omega arith, (omega arith, (omega arith, tt)))))))

utf8-IsByte : (s : String) → All IsByte (utf8 s)
unfolding utf8
utf8-IsByte String.[] = tt
utf8-IsByte (String.◌∷◌ c s) =
    All-append IsByte (utf8_char c) (utf8 s) (utf8_char-IsByte c) (utf8-IsByte s)

-- The test of the management token accepts a header exactly if what follows `Bearer ` in it (nothing, if it
-- is of another form) has the bytes of the token.
pub management_authorized_iff :
    (header : Option String) (expected : String)
    → (management_authorized header expected ≡ true) ↔ (utf8 (token_of header) ≡ utf8 expected)
unfolding management_authorized
management_authorized_iff header expected = (
  elim (Bool-cases (eqb (length (utf8 (token_of header))) (length (utf8 expected))))
      as (λ _.
        management_authorized header expected ≡ true → utf8 (token_of header) ≡ utf8 expected) [
          | inl p ↦
              rw (p, management_authorized)
                (λ h.
                  (difference-eq 0 (utf8 (token_of header)) (utf8 expected) (omega arith)
                    (utf8-IsByte (token_of header)) (utf8-IsByte expected) ((eqb_iff _ _).0 p)
                    ((eqb_iff _ 0).0 h)).1)
          | inr p ↦ rw (p, management_authorized) (λ h. cc)
        ],
  λ e.
      rw (e, management_authorized)
        (ground (arith, eqb_refl (length (utf8 expected)), difference_self (utf8 expected))),
)
