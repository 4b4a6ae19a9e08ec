-- ===== src/Json.antt =====
-- JSON documents as `serde_json::Value` holds them, with the accessors that the connector calls.
mod Data
pub mod Object
pub mod Double
pub mod Sorted
pub mod Entries
pub mod Laws
pub use Data.{
  Number, pos_int, neg_int, float, Value, null, boolean, number, string, array, object, Items, nil,
  cons, Fields, end, field,
}
unfoldable pub use Data.{Number-discrete, Value-discrete, value_eq}
use baijimu_digital_employee.Json.Object
use baijimu_digital_employee.Base.{ℕ, String, Bool, Option, none, some, List, [], ◌∷◌, and_then}

-- The object that `json!({…})` builds from its entries.
abbrev pub fields_of : List (String × Value) → Fields
fields_of [] = end
fields_of ((k, v) ∷ l) = Object.insert (fields_of l) k v

abbrev pub json : List (String × Value) → Value
json l = object (fields_of l)

abbrev pub items_of : List Value → Items
items_of [] = nil
items_of (v ∷ l) = cons v (items_of l)

abbrev pub list_of : Items → List Value
list_of nil = []
list_of (cons v l) = v ∷ list_of l

abbrev pub as_object : Value → Option Fields
as_object (object fs) = some fs
as_object _ = none

abbrev pub as_array : Value → Option (List Value)
as_array (array l) = some (list_of l)
as_array _ = none

abbrev pub as_str : Value → Option String
as_str (string s) = some s
as_str _ = none

abbrev pub as_bool : Value → Option Bool
as_bool (boolean b) = some b
as_bool _ = none

abbrev pub as_u64 : Value → Option ℕ
as_u64 (number (pos_int n)) = some n
as_u64 _ = none

-- `value.get(key)`, which is `None` unless the value is an object.
abbrev pub get : Value → String → Option Value
get v k = and_then (as_object v) (λ fs. Object.get fs k)

abbrev pub get_str : Value → String → Option String
get_str v k = and_then (get v k) as_str
