-- ===== src/Base/Results.antt =====
-- Rust's `Result`, its `?` as a bind, and `map_err`.
use mathlib.Core.Path.{◌≡◌, refl}
use mathlib.Core.Bool.{Bool, true, false}
use mathlib.Core.Option.{Option, none, some}

pub data Result {ℓ κ} (E : Type ℓ) (A : Type κ) : Type (ℓ ⊔ κ) where
  err : E → Result E A
  ok : A → Result E A

-- Operations with any one type of errors.
module _ {ε} {E : Type ε} where
  abbrev pub is_ok {ℓ} : {A : Type ℓ} → Result E A → Bool
  is_ok (err _) = false
  is_ok (ok _) = true

  abbrev pub ok_or {ℓ} : {A : Type ℓ} → Option A → E → Result E A
  ok_or (some a) _ = ok a
  ok_or none why = err why

  infixl 5 ◌>>=◌
  abbrev pub ◌>>=◌ {ℓ κ} : {A : Type ℓ} {B : Type κ} → Result E A → (A → Result E B) → Result E B
  err why >>= next = err why
  ok a >>= next = next a

  abbrev pub guard : Bool → E → Result E (Unit {0})
  guard false why = err why
  guard true _ = ok tt

  infixl 5 ◌>>◌
  abbrev pub ◌>>◌ {ℓ} : {A : Type ℓ} → Result E (Unit {0}) → Result E A → Result E A
  check >> next = check >>= λ _. next

  -- Inversion of a successful bind.
  pub >>=-eq-ok {ℓ κ} :
      {A : Type ℓ} {B : Type κ} (r : Result E A) (next : A → Result E B) {b : B}
      → (r >>= next) ≡ ok b
      → (a : A) × (r ≡ ok a) × (next a ≡ ok b)
  >>=-eq-ok (err why) next e = cc
  >>=-eq-ok (ok a) next e = (a, refl, e)

abbrev pub map_err {ℓ κ μ} :
    {E : Type ℓ} {F : Type κ} {A : Type μ} → (E → F) → Result E A → Result F A
map_err f (ok a) = ok a
map_err f (err e) = err (f e)

-- What each step of a chain that succeeds has given.
pub guard-then :
    {E A : Type 0} (b : Bool) (why : E) (f : Unit {0} → Result E A) (a : A)
    → (guard b why >>= f) ≡ ok a
    → (b ≡ true) × (f tt ≡ ok a)
guard-then true why f a h = (refl, h)
guard-then false why f a h = cc

pub ok_or-then :
    {E A B : Type 0} (o : Option A) (why : E) (f : A → Result E B) (b : B)
    → (ok_or o why >>= f) ≡ ok b
    → (a : A) × (o ≡ some a) × (f a ≡ ok b)
ok_or-then none why f b h = cc
ok_or-then (some a) why f b h = (a, refl, h)

pub ok-injective : {E A : Type 0} (a b : A) → ◌≡◌ {A = Result E A} (ok a) (ok b) → a ≡ b
ok-injective a b h = cc
