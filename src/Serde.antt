-- ===== src/Serde.antt =====
-- What serde's derived `Deserialize` does with a `serde_json::Value`: a struct is read from an object
-- by name or from an array by position. `none` stands for a decoding error.
use baijimu_digital_employee.Base.{
  ℕ, String, Bool, true, ◌&&◌, Option, none, some, List, [], ◌∷◌, leb, eqb, length, and_then, any,
  ◌==◌, if◌then◌else◌,
}
use baijimu_digital_employee.Json.{Value, null, object, array, Fields, end, field, as_u64, list_of}
use baijimu_digital_employee.Json.Object
use baijimu_digital_employee.Map.{Map, insert, string_order}

abbrev add_field : String → Value → Option Fields → Option Fields
add_field n v none = none
add_field n v (some fs) = some (field n v fs)

abbrev zip_fields : List String → List Value → Option Fields
zip_fields ns [] = some end
zip_fields [] (v ∷ vs) = none
zip_fields (n ∷ ns) (v ∷ vs) = add_field n v (zip_fields ns vs)

-- The fields of a struct, by the names in the order of their declaration.
unfoldable pub struct_fields : List String → Value → Option Fields
struct_fields names (object fs) = some fs
struct_fields names (array items) = zip_fields names (list_of items)
struct_fields names _ = none

-- The fields of a struct that has an optional field without a default: from an array each is required.
unfoldable pub all_fields : List String → Value → Option Fields
unfolding struct_fields
all_fields names (array items) =
    if eqb (length names) (length (list_of items)) then struct_fields names (array items) else none
all_fields names v = struct_fields names v

-- `deny_unknown_fields`
unfoldable pub has_only : List String → Fields → Bool
has_only names end = true
has_only names (field k v fs) = any (λ n. n == k) names && has_only names fs

-- A field with no default.
abbrev pub required {ℓ} : {A : Type ℓ} → Fields → String → (Value → Option A) → Option A
required fs k f = and_then (Object.get fs k) f

-- A field with `#[serde(default)]`.
abbrev pub with_default {ℓ} : {A : Type ℓ} → Option Value → (Value → Option A) → A → Option A
with_default none f d = some d
with_default (some v) f d = f v

abbrev pub de_uint : ℕ → Value → Option ℕ
de_uint bound v = and_then (as_u64 v) (λ n. if leb n bound then some n else none)

abbrev lift_some {ℓ} : {A : Type ℓ} → Option A → Option (Option A)
lift_some none = none
lift_some (some a) = some (some a)

abbrev pub de_option {ℓ} : {A : Type ℓ} → (Value → Option A) → Value → Option (Option A)
de_option f null = some none
de_option f v = lift_some (f v)

abbrev pub de_value : Value → Option Value
de_value v = some v

abbrev pub de_list {ℓ} : {A : Type ℓ} → (Value → Option A) → List Value → Option (List A)
de_list f [] = some []
de_list f (v ∷ vs) = and_then (f v) (λ a. and_then (de_list f vs) (λ l. some (a ∷ l)))

-- A map with string keys.
unfoldable pub de_fields {ℓ} : {A : Type ℓ} → (Value → Option A) → Fields → Option (Map String A)
unfolding insert
de_fields f end = some []
de_fields f (field k v fs) =
    and_then (f v) (λ a. and_then (de_fields f fs) (λ m. some (insert m k a)))
