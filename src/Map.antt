-- ===== src/Map.antt =====
-- `HashMap` and `BTreeMap`: a finite map as its entries in the order of the keys, so that equal maps
-- are equal lists. The iteration order of a `HashMap` is used nowhere in what is modelled.
pub mod Laws
pub mod Sorted
use Prim.Native.Nat.{compare as compare_ℕ, Ordering}
use Prim.Native.String.compare
use Prim.Native.String
use Prim.Native.String.{then as and_then_cmp}
use text.Mathlib.TextEquality.{path_by_compare}
use text.Mathlib.TextPositions.{compare_refl}
use baijimu_digital_employee.Base.{
  ℕ, Char, code, String, ◌≡◌, Bool, true, false, Option, none, some, List, [], ◌∷◌, arith, is_some,
  if◌then◌else◌,
}

-- What a type of keys must give.
pub record Order (K : Type 0) : Type 0 where
  pub cmp : K → K → Ordering
  pub path_of_eq : (a b : K) → cmp a b ≡ Ordering.eq → a ≡ b
  pub self : (a : K) → cmp a a ≡ Ordering.eq
  pub flip : (a b : K) → cmp a b ≡ Ordering.gt → cmp b a ≡ Ordering.lt

pub nat_path : (a b : ℕ) → compare_ℕ a b ≡ Ordering.eq → a ≡ b
nat_path a b h = ground arith

pub nat_self : (a : ℕ) → compare_ℕ a a ≡ Ordering.eq
nat_self a = ground arith

pub nat_flip : (a b : ℕ) → compare_ℕ a b ≡ Ordering.gt → compare_ℕ b a ≡ Ordering.lt
nat_flip a b h = ground arith

pub nil_cons : (c : Char) (s : String) → String.compare "" (String.◌∷◌ c s) ≡ Ordering.lt
nil_cons c s = compare.nil-cons c s

pub cons_cons :
    (c d : Char) (s t : String)
    → String.compare (String.◌∷◌ c s) (String.◌∷◌ d t)
      ≡ and_then_cmp (compare_ℕ (code c) (code d)) (String.compare s t)
cons_cons c d s t = compare.cons-cons c d s t

pub string_flip :
    (s t : String) → String.compare s t ≡ Ordering.gt → String.compare t s ≡ Ordering.lt
string_flip String.[] String.[] h = cc
string_flip String.[] (String.◌∷◌ d t) h = cc (nil_cons d t)
string_flip (String.◌∷◌ c s) String.[] h = nil_cons c s
string_flip (String.◌∷◌ c s) (String.◌∷◌ d t) h =
    rw cons_cons (ground (arith, string_flip s t, cons_cons c d s t))

instance abbrev pub nat_order : Order ℕ
nat_order = record { cmp = compare_ℕ; path_of_eq = nat_path; self = nat_self; flip = nat_flip }

instance abbrev pub string_order : Order String
string_order = record {
  cmp = String.compare;
  path_of_eq = path_by_compare;
  self = compare_refl;
  flip = string_flip;
}

abbrev pub Map {ℓ} : Type 0 → Type ℓ → Type ℓ
Map K V = List (K × V)

abbrev pub same : {K : Type 0} ⦃o : Order K⦄ → K → K → Bool
same ⦃o⦄ a b = elim (o.cmp a b) [ Ordering.eq ↦ true | _ ↦ false ]

module _ {ℓ} {K : Type 0} {V : Type ℓ} ⦃o : Order K⦄ where
  unfoldable pub get : Map K V → K → Option V
  get [] k = none
  get ((j, v) ∷ m) k = if same j k then some v else get m k

  unfoldable pub insert : Map K V → K → V → Map K V
  insert [] k v = (k, v) ∷ []
  insert ((j, w) ∷ m) k v = elim (o.cmp k j) [
    | Ordering.lt ↦ (k, v) ∷ (j, w) ∷ m
    | Ordering.eq ↦ (k, v) ∷ m
    | Ordering.gt ↦ (j, w) ∷ insert m k v
  ]

  unfoldable pub remove : Map K V → K → Map K V
  remove [] k = []
  remove ((j, w) ∷ m) k = let rest = remove m k in if same j k then rest else (j, w) ∷ rest

  unfoldable pub contains_key : Map K V → K → Bool
  unfolding get
  contains_key m k = is_some (get m k)

-- `retain` by a test on the value.
unfoldable pub retain {ℓ} : {K : Type 0} {V : Type ℓ} → (V → Bool) → Map K V → Map K V
retain p [] = []
retain p ((k, v) ∷ m) = let rest = retain p m in if p v then (k, v) ∷ rest else rest

unfoldable pub values {ℓ} : {K : Type 0} {V : Type ℓ} → Map K V → List V
values [] = []
values ((k, v) ∷ m) = v ∷ values m
