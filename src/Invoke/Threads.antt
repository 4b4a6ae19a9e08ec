-- ===== src/Invoke/Threads.antt =====
-- Threads that several rollouts or pages list more than once are shown once (src/invoke.rs,
-- `merge_unique_threads` and what it calls).
use Prim.Native.Nat.{Ordering}
use Prim.Native.String
use baijimu_digital_employee.Base.{
  ℕ, String, Bool, true, false, not, ◌&&◌, Option, none, some, List, [], ◌∷◌, ◌++◌, length, set,
  get_elem?, and_then, or_else, unwrap_or, is_some_and, when, ◌==◌, if◌then◌else◌,
}
use baijimu_digital_employee.Text.{is_empty, trim}
use baijimu_digital_employee.Json.{
  Value, null, string, number, object, Fields, end, field, as_str, get, get_str,
}
use baijimu_digital_employee.Json.Object
use baijimu_digital_employee.Json.Double.{as_f64, partial_cmp}
use baijimu_digital_employee.Map
use baijimu_digital_employee.Map.{Map, string_order}
use baijimu_digital_employee.Invoke.Params.{is_blank, thread_timestamp}

-- `logical_thread_id`
unfoldable pub logical_thread_id : Value → Option String
unfolding Object.get trim
logical_thread_id thread =
    and_then
      (or_else (get_str thread "threadId")
        (or_else (get_str thread "sessionId") (get_str thread "id")))
      (λ s. when (not (is_empty (trim s))) (trim s))

unfoldable pub value_is_missing : Value → Bool
value_is_missing null = true
value_is_missing (string s) = is_blank s
value_is_missing _ = false

abbrev pub status_is_live : Option Value → Bool
status_is_live (some (object status)) =
    is_some_and (and_then (Object.get status "type") as_str) (λ t. not (t == "notLoaded"))
status_is_live (some (string status)) = not (is_empty status) && not (status == "notLoaded")
status_is_live _ = false

-- `thread_is_live`
unfoldable pub thread_is_live : Value → Bool
unfolding Object.get
thread_is_live thread = elim (get_str thread "runtimeStatusAvailability") [
  | some availability ↦ availability == "live"
  | none ↦ status_is_live (get thread "status")
]

unfoldable pub compare_timestamps : Option Value → Option Value → Ordering
unfolding as_f64 partial_cmp
compare_timestamps (some (number a)) (some (number b)) =
    unwrap_or (partial_cmp (as_f64 a) (as_f64 b)) Ordering.eq
compare_timestamps (some (string a)) (some (string b)) = String.compare a b
compare_timestamps (some _) none = Ordering.gt
compare_timestamps none (some _) = Ordering.lt
compare_timestamps _ _ = Ordering.eq

unfoldable pub compare_thread_recency : Value → Value → Ordering
unfolding thread_timestamp compare_timestamps
compare_thread_recency left right =
    compare_timestamps (thread_timestamp left) (thread_timestamp right)

-- `false.cmp(&true)` is less; equal tests leave it to the recency.
abbrev pub compare_live : Bool → Bool → Ordering → Ordering
compare_live true false o = Ordering.gt
compare_live false true o = Ordering.lt
compare_live _ _ o = o

unfoldable pub compare_thread_projections : Value → Value → Ordering
unfolding thread_is_live compare_thread_recency
compare_thread_projections left right =
    compare_live (thread_is_live left) (thread_is_live right) (compare_thread_recency left right)

abbrev pub is_gt : Ordering → Bool
is_gt Ordering.gt = true
is_gt _ = false

-- `preferred_map.get(key).is_none_or(value_is_missing)`
unfoldable pub should_fill : Option Value → Bool
unfolding value_is_missing
should_fill none = true
should_fill (some v) = value_is_missing v

-- `for (key, value) in fallback_map`
unfoldable pub fill : Fields → Fields → Fields
unfolding value_is_missing should_fill Object.get Object.insert
fill preferred end = preferred
fill preferred (field key value fallback) =
    let filled = fill (Object.insert preferred key value) fallback in
    let kept = fill preferred fallback in
    if should_fill (Object.get preferred key) && not (value_is_missing value) then filled else kept

unfoldable pub filled : Value → Value → Value
unfolding fill
filled (object preferred) (object fallback) = object (fill preferred fallback)
filled preferred _ = preferred

-- `merge_thread_projections`
unfoldable pub merge_thread_projections : Value → Value → Value
unfolding compare_thread_projections filled
merge_thread_projections existing incoming =
    if is_gt (compare_thread_projections incoming existing)
    then filled incoming existing
    else filled existing incoming

-- The threads so far, and the index of each thread that has an id.
pub record Merged : Type 0 where
  pub threads : List Value
  pub indexes : Map String ℕ

-- `threads[index] = …`; out of range the source panics, and nothing is set here.
unfoldable pub merge_at : Merged → ℕ → Value → Merged
unfolding merge_thread_projections
merge_at m index thread = record m {
  threads = elim (get_elem? m.threads index) [
    | none ↦ m.threads
    | some existing ↦ set m.threads index (merge_thread_projections existing thread)
  ];
}

unfoldable pub merge_named : Merged → Value → Option String → Merged
unfolding merge_at Map.get Map.insert
merge_named m thread none = record m { threads = m.threads ++ thread ∷ [] }
merge_named m thread (some id) = elim (Map.get m.indexes id) [
  | some index ↦ merge_at m index thread
  | none ↦ record {
    threads = m.threads ++ thread ∷ [];
    indexes = Map.insert m.indexes id (length m.threads);
  }
]

-- `merge_unique_threads`
unfoldable pub merge_unique_threads : Merged → List Value → Merged
unfolding logical_thread_id merge_named
merge_unique_threads m [] = m
merge_unique_threads m (thread ∷ incoming) =
    merge_unique_threads (merge_named m thread (logical_thread_id thread)) incoming
