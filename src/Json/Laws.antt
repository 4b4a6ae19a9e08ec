-- ===== src/Json/Laws.antt =====
-- Lookups after an insertion or a removal in a JSON object, and the meaning of `==` on values.
use Prim.Native.Nat.{Ordering}
use text.Mathlib.TextEquality.{path_by_compare}
use baijimu_digital_employee.Base.{
  String, ◌≡◌, refl, ◌↔◌, true, false, none, some, arith, ◌==◌, eq_iff, compare-ne, if◌then◌else◌,
}
use baijimu_digital_employee.Json.Data.{Value, Fields, field, end, value_eq, Value-discrete}
use baijimu_digital_employee.Json.Object

pub value_eq_iff : (a b : Value) → (value_eq a b ≡ true) ↔ (a ≡ b)
unfolding value_eq
value_eq_iff a b =
    elim (Value-discrete a b)
      as (λ d. ((elim d [ yes _ ↦ true | no _ ↦ false ]) ≡ true) ↔ (a ≡ b)) [
        | yes p ↦ (λ _. p, λ _. refl)
        | no p ↦ (λ e. cc, λ q. absurd (p q))
      ]

-- One insertion, by the outcome of the comparison with the head's key.
abbrev place : Ordering → Fields → String → Value → String → Value → Fields → Fields
place Ordering.lt rest k v j w fs = field k v (field j w fs)
place Ordering.eq rest k v j w fs = field k v fs
place Ordering.gt rest k v j w fs = field j w rest

pub get-insert :
    (fs : Fields) (k j : String) (v : Value)
    → Object.get (Object.insert fs k v) j ≡ (if k == j then some v else Object.get fs j)
unfolding Object.get Object.insert
get-insert end k j v = refl
get-insert (field i w fs) k j v = ground (
  arith,
  get-insert fs k j v,
  eq_iff k j,
  eq_iff i j,
  path_by_compare k i,
  compare-ne k i {o = Ordering.gt},
)

pub get-remove :
    (fs : Fields) (k j : String)
    → Object.get (Object.remove fs k) j ≡ (if k == j then none else Object.get fs j)
unfolding Object.get Object.remove
get-remove end k j = ground arith
get-remove (field i w fs) k j =
    ground (arith, get-remove fs k j, eq_iff k j, eq_iff i j, eq_iff i k)
