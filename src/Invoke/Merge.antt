-- ===== src/Invoke/Merge.antt =====
-- What merging two projections of one thread keeps.
use baijimu_digital_employee.Base.{
  ◌≡◌, refl, inl, inr, String, not, ◌&&◌, Option, none, some, arith, eq_iff, if◌then◌else◌,
  Bool-cases,
}
use baijimu_digital_employee.Json.{Value, object, Fields, end, field}
use baijimu_digital_employee.Json.Object
use baijimu_digital_employee.Json.Laws.{get-insert}
use baijimu_digital_employee.Json.Sorted.{IsSorted, get-Above, insert-IsSorted}
use baijimu_digital_employee.Invoke.Threads.{
  value_is_missing, should_fill, fill, filled, is_gt, compare_thread_projections,
  merge_thread_projections,
}

-- The value of one field: the preferred projection's, unless it is missing and the other's is not.
unfoldable pub chosen : Option Value → Option Value → Option Value
unfolding value_is_missing should_fill
chosen p none = p
chosen p (some v) = if should_fill p && not (value_is_missing v) then some v else p

pub get-fill :
    (preferred fallback : Fields) (k : String)
    → IsSorted fallback
    → Object.get (fill preferred fallback) k
      ≡ chosen (Object.get preferred k) (Object.get fallback k)
unfolding fill Object.get chosen
get-fill preferred end k h = refl
get-fill preferred (field j v fallback) k h = ground (
  arith,
  get-fill (Object.insert preferred j v) fallback k h.1,
  get-fill preferred fallback k h.1,
  get-insert preferred j k v,
  get-Above fallback j h.0,
  eq_iff j k,
)

pub fill-IsSorted :
    (preferred fallback : Fields) → IsSorted preferred → IsSorted (fill preferred fallback)
unfolding fill
fill-IsSorted preferred end h = h
fill-IsSorted preferred (field j v fallback) h = ground (
  arith,
  fill-IsSorted (Object.insert preferred j v) fallback,
  insert-IsSorted preferred j v h,
  fill-IsSorted preferred fallback h,
)

-- Both projections are objects: so is the result. The preferred one is the incoming one exactly if it
-- compares as greater, by being live and then by its timestamp. Each field has the preferred
-- projection's value, unless that is missing (absent, null or blank) and the other's is not.
pub merge_thread_projections-chosen :
    (existing incoming : Fields)
    → IsSorted existing
    → IsSorted incoming
    → (out : Fields) × (merge_thread_projections (object existing) (object incoming) ≡ object out)
      × ((k : String)
          → Object.get out k ≡ (
              if is_gt (compare_thread_projections (object incoming) (object existing))
              then chosen (Object.get incoming k) (Object.get existing k)
              else chosen (Object.get existing k) (Object.get incoming k)))
unfolding merge_thread_projections filled fill
merge_thread_projections-chosen existing incoming he hi =
    elim (Bool-cases (is_gt (compare_thread_projections (object incoming) (object existing)))) [
      | inl p ↦ (fill incoming existing, rw p refl, λ k. rw p (get-fill incoming existing k he))
      | inr p ↦ (fill existing incoming, rw p refl, λ k. rw p (get-fill existing incoming k hi))
    ]
