-- ===== src/Json/Double.antt =====
-- Doubles by their bits: `serde_json::Number::as_f64` and `f64::partial_cmp`.
use Prim.Native.Nat.{compare, Ordering}
use baijimu_digital_employee.Base.{
  ℕ, zero, suc, ◌+◌, ◌-◌, ◌*◌, ◌/◌, ◌%◌, ◌^◌, Bool, true, false, ◌&&◌, ◌||◌, Option, none, some,
  ltb, eqb, if◌then◌else◌,
}
use baijimu_digital_employee.Json.Data.{Number, pos_int, neg_int, float}

-- The exponent of the greatest power of two up to `n`. Each round halves `n`; 64 are enough for a u64.
unfoldable pub log2 : ℕ → ℕ → ℕ
log2 zero n = 0
log2 (suc f) n = let rest = log2 f (n / 2) in if ltb n 2 then 0 else suc rest

-- One more where the remainder `r` of a shift by `k` bits is above the half, or at it with `q` odd.
abbrev round_up : ℕ → ℕ → ℕ → ℕ
round_up q r k =
    let half = 2 ^ (k - 1) in if ltb half r || (eqb half r && eqb (q % 2) 1) then 1 else 0

-- The bits of `n as f64` for a positive `n`: exact up to 53 bits, then rounded to the nearest, ties to
-- even. A carry out of the fraction goes on into the exponent.
unfoldable pub magnitude : ℕ → ℕ
unfolding log2
magnitude zero = 0
magnitude (suc m) =
    let n = suc m in
    let e = log2 64 n in
    if ltb e 53
    then (e + 1023) * 2 ^ 52 + (n * 2 ^ (52 - e) - 2 ^ 52)
    else (e + 1023) * 2 ^ 52
      + (n / 2 ^ (e - 52) - 2 ^ 52)
      + round_up (n / 2 ^ (e - 52)) (n % 2 ^ (e - 52)) (e - 52)

-- A double as its sign and the bits under the sign.
abbrev pub Double : Type 0
Double = Bool × ℕ

-- `as_f64`
unfoldable pub as_f64 : Number → Double
unfolding magnitude
as_f64 (pos_int n) = (false, magnitude n)
as_f64 (neg_int n) = (true, magnitude (suc n))
as_f64 (float bits) = (eqb (bits / 2 ^ 63) 1, bits % 2 ^ 63)

abbrev is_nan : Double → Bool
is_nan (s, m) = ltb (0x7ff * 2 ^ 52) m

abbrev ordered : Double → Double → Ordering
ordered (false, m) (false, n) = compare m n
ordered (true, m) (true, n) = compare n m
ordered (false, m) (true, n) = if eqb (m + n) 0 then Ordering.eq else Ordering.gt
ordered (true, m) (false, n) = if eqb (m + n) 0 then Ordering.eq else Ordering.lt

-- `partial_cmp`: bits of one sign are in the order of the numbers, and both zeros are equal.
unfoldable pub partial_cmp : Double → Double → Option Ordering
partial_cmp a b = if is_nan a || is_nan b then none else some (ordered a b)
