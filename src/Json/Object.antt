-- ===== src/Json/Object.antt =====
-- The operations of `serde_json::Map` on an object's fields.
use Prim.Native.Nat.{Ordering}
use Prim.Native.String
use baijimu_digital_employee.Base.{String, Option, none, some, List, [], ◌∷◌, ◌==◌, if◌then◌else◌}
use baijimu_digital_employee.Json.Data.{Value, Fields, end, field}

-- `map.get(key)`
unfoldable pub get : Fields → String → Option Value
get end k = none
get (field j v fs) k = if j == k then some v else get fs k

-- `map.insert(key, value)`
unfoldable pub insert : Fields → String → Value → Fields
insert end k v = field k v end
insert (field j w fs) k v = elim (String.compare k j) [
  | Ordering.lt ↦ field k v (field j w fs)
  | Ordering.eq ↦ field k v fs
  | Ordering.gt ↦ field j w (insert fs k v)
]

-- `map.remove(key)`
unfoldable pub remove : Fields → String → Fields
remove end k = end
remove (field j w fs) k = let rest = remove fs k in if j == k then rest else field j w rest

abbrev pub to_list : Fields → List (String × Value)
to_list end = []
to_list (field k v fs) = (k, v) ∷ to_list fs
