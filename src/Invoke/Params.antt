-- ===== src/Invoke/Params.antt =====
-- How the invoke handlers read their bodies (src/invoke.rs, the helpers at its end). A body is any JSON
-- document; `body.pointer("/params/key")` is the field `key` of the field `params`.
use baijimu_digital_employee.Base.{
  ℕ, String, Bool, not, Option, none, some, List, [], ◌∷◌, any, and_then, or_else, unwrap_or, when,
  ◌==◌, ◌++◌, ◌&&◌, if◌then◌else◌,
}
use baijimu_digital_employee.Text.{is_empty, trim}
use baijimu_digital_employee.Json.{
  Value, string, array, object, Fields, end, json, items_of, as_object, as_array, as_str, as_bool,
  as_u64, get, get_str,
}
use baijimu_digital_employee.Json.Object

-- `body.pointer("/params/{key}")`
abbrev pub nested : Value → String → Option Value
nested body key = and_then (get body "params") (λ p. get p key)

-- `body.get(key).or_else(|| body.pointer(…))`
abbrev pub field_or_param : Value → String → Option Value
field_or_param body key = or_else (get body key) (nested body key)

-- `if let Some(value) = … { map.insert(key, value); }`
abbrev pub insert_some : Fields → String → Option Value → Fields
insert_some fs key none = fs
insert_some fs key (some v) = Object.insert fs key v

unfoldable pub copy_keys : Value → List String → Fields → Fields
unfolding Object.get Object.insert
copy_keys body [] fs = fs
copy_keys body (key ∷ keys) fs = copy_keys body keys (insert_some fs key (get body key))

-- `merge_params`: the fields of the object that it returns.
unfoldable pub merge_params : Value → List String → Fields
unfolding copy_keys Object.get
merge_params body keys =
    copy_keys body keys (unwrap_or (and_then (get body "params") as_object) end)

-- `normalize_input`
unfoldable pub normalize_input : Value → Value
unfolding Object.insert
normalize_input (string text) =
    array (items_of (json (("type", string "text") ∷ ("text", string text) ∷ []) ∷ []))
normalize_input other = other

unfoldable pub string_field : Value → String → Option String
unfolding Object.get
string_field body key = and_then (get_str body key) (λ s. when (not (is_empty s)) s)

unfoldable pub timeout_ms : Value → Option ℕ
unfolding Object.get
timeout_ms body = and_then (get body "timeoutMs") as_u64

unfoldable pub string_param : Value → String → Option String
unfolding Object.get
string_param body key = and_then (field_or_param body key) as_str

unfoldable pub bool_param : Value → String → Bool → Bool
unfolding Object.get
bool_param body key default = unwrap_or (and_then (field_or_param body key) as_bool) default

unfoldable pub usize_param : Value → String → ℕ → ℕ
unfolding Object.get
usize_param body key default = unwrap_or (and_then (field_or_param body key) as_u64) default

-- `value.trim().is_empty()`
abbrev pub is_blank : String → Bool
is_blank s = is_empty (trim s)

abbrev pub strings_of : List Value → List String
strings_of [] = []
strings_of (string s ∷ l) = let rest = strings_of l in if is_blank s then rest else s ∷ rest
strings_of (_ ∷ l) = strings_of l

unfoldable pub array_strings : Option Value → List String
array_strings value =
    unwrap_or (and_then value (λ v. and_then (as_array v) (λ l. some (strings_of l)))) []

abbrev pub push_unique : List String → List String → List String
push_unique out [] = out
push_unique out (v ∷ vs) =
    let with_v = push_unique (out ++ v ∷ []) vs in
    let without = push_unique out vs in
    if not (is_blank v) && not (any (λ s. s == v) out) then with_v else without

unfoldable pub unique_strings : List String → List String
unique_strings values = push_unique [] values

abbrev pub first_some : Value → List String → Option Value
first_some v [] = none
first_some v (key ∷ keys) = or_else (get v key) (first_some v keys)

-- `thread_timestamp`
unfoldable pub thread_timestamp : Value → Option Value
unfolding Object.get
thread_timestamp thread =
    first_some thread
      ("recencyAt" ∷ "recency_at" ∷ "updatedAt" ∷ "updated_at" ∷ "createdAt" ∷ "created_at" ∷ [])

unfoldable pub insert_all : Fields → List (String × Value) → Fields
unfolding Object.insert
insert_all fs [] = fs
insert_all fs ((k, v) ∷ l) = insert_all (Object.insert fs k v) l

-- `normalize_thread_list_item`: the fields of the item's `thread` over its own.
unfoldable pub normalize_thread_list_item : Value → Value
unfolding Object.get
normalize_thread_list_item item = elim (and_then (get item "thread") as_object) [
  | none ↦ item
  | some thread ↦ object (insert_all (unwrap_or (as_object item) end) (Object.to_list thread))
]
