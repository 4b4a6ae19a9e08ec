-- ===== src/Json/Sorted.antt =====
-- An object's keys stand in their strict order, each once.
use Prim.Native.Nat.{Ordering}
use Prim.Native.String.compare
use text.Mathlib.TextEquality.{path_by_compare}
use Prim.Native.String
use baijimu_digital_employee.Base.{String, ◌≡◌, refl, none, arith, eq_iff, compare-ne}
use baijimu_digital_employee.Json.Data.{Value, Fields, field, end}
use baijimu_digital_employee.Json.Object
use baijimu_digital_employee.Map.{string_flip, cons_cons, nil_cons}

pub string_trans :
    (a b c : String)
    → String.compare a b ≡ Ordering.lt
    → String.compare b c ≡ Ordering.lt
    → String.compare a c ≡ Ordering.lt
string_trans String.[] String.[] c h k = k
string_trans String.[] (String.◌∷◌ d b) String.[] h k = cc (compare.cons-nil d b)
string_trans String.[] (String.◌∷◌ d b) (String.◌∷◌ e c) h k = nil_cons e c
string_trans (String.◌∷◌ x a) String.[] c h k = cc (compare.cons-nil x a)
string_trans (String.◌∷◌ x a) (String.◌∷◌ y b) String.[] h k = cc (compare.cons-nil y b)
string_trans (String.◌∷◌ x a) (String.◌∷◌ y b) (String.◌∷◌ z c) h k =
    ground (arith, string_trans a b c, cons_cons x y a b, cons_cons y z b c, cons_cons x z a c)

abbrev pub Above : String → Fields → Type 0
Above k end = Unit
Above k (field j v fs) = (String.compare k j ≡ Ordering.lt) × Above k fs

abbrev pub IsSorted : Fields → Type 0
IsSorted end = Unit
IsSorted (field k v fs) = Above k fs × IsSorted fs

Above-trans :
    (fs : Fields) (j k : String) → String.compare j k ≡ Ordering.lt → Above k fs → Above j fs
Above-trans end j k h a = tt
Above-trans (field i v fs) j k h a = (string_trans j k i h a.0, Above-trans fs j k h a.1)

Above-insert :
    (fs : Fields) (j k : String) (v : Value)
    → Above j fs
    → String.compare j k ≡ Ordering.lt
    → Above j (Object.insert fs k v)
unfolding Object.insert
Above-insert end j k v a h = (h, tt)
Above-insert (field i w fs) j k v a h = ground (arith, Above-insert fs j k v a.1 h)

pub insert-IsSorted :
    (fs : Fields) (k : String) (v : Value) → IsSorted fs → IsSorted (Object.insert fs k v)
unfolding Object.insert
insert-IsSorted end k v h = (tt, tt)
insert-IsSorted (field j w fs) k v h = ground (
  arith,
  insert-IsSorted fs k v h.1,
  Above-insert fs j k v h.0,
  Above-trans fs k j,
  path_by_compare k j,
  string_flip k j,
)

pub get-Above : (fs : Fields) (k : String) → Above k fs → Object.get fs k ≡ none
unfolding Object.get
get-Above end k a = refl
get-Above (field j v fs) k a =
    ground (arith, get-Above fs k a.1, eq_iff j k, compare-ne k j {o = Ordering.lt})
