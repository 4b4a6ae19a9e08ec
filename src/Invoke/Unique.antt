-- ===== src/Invoke/Unique.antt =====
-- A merged list has each thread once.
use baijimu_digital_employee.Base.{
  ◌≡◌, refl, sym, subst, ◌∙◌, ap, String, not, Option, none, some, arith, and_then, or_else, when,
  if_cases,
}
use baijimu_digital_employee.Text.{trim, is_empty}
use baijimu_digital_employee.Json.{
  Value, null, boolean, number, array, string, object, Fields, as_str,
}
use baijimu_digital_employee.Json.Object
use baijimu_digital_employee.Json.Sorted.{IsSorted}
use baijimu_digital_employee.Map.{string_order}
use baijimu_digital_employee.Invoke.Threads.{
  value_is_missing, should_fill, logical_thread_id, fill, filled, merge_thread_projections,
}
use baijimu_digital_employee.Invoke.Merge.{chosen, get-fill, fill-IsSorted}

-- A field that holds an id is a text, null or absent.
abbrev pub IsText : Option Value → Type 0
IsText none = Unit
IsText (some null) = Unit
IsText (some (string s)) = Unit
IsText (some _) = ⊥

abbrev pub HasTextIds : Fields → Type 0
HasTextIds fs =
    IsText (Object.get fs "threadId")
    × IsText (Object.get fs "sessionId")
    × IsText (Object.get fs "id")

-- A listed thread: the map that an object is, with fields for ids that are texts.
abbrev pub IsThread : Value → Type 0
IsThread (object fs) = IsSorted fs × HasTextIds fs
IsThread _ = Unit

abbrev id_in : String → Option String
id_in s = when (not (is_empty (trim s))) (trim s)

-- The id that a field's value gives, or what the later fields give.
abbrev first_id : Option Value → Option String → Option String
first_id (some (string s)) rest = id_in s
first_id _ rest = rest

first_id-chosen :
    (p f : Option Value) (p' f' r : Option String) (a : String)
    → IsText p
    → IsText f
    → first_id p p' ≡ some a
    → first_id f f' ≡ some a
    → (p' ≡ some a → f' ≡ some a → r ≡ some a)
    → first_id (chosen p f) r ≡ some a
unfolding chosen should_fill value_is_missing trim
first_id-chosen none none p' f' r a hp hf e e' k = ground arith
first_id-chosen none (some null) p' f' r a hp hf e e' k = ground arith
first_id-chosen none (some (string t)) p' f' r a hp hf e e' k = ground arith
first_id-chosen none (some (boolean b)) p' f' r a hp hf e e' k = absurd hf
first_id-chosen none (some (number n)) p' f' r a hp hf e e' k = absurd hf
first_id-chosen none (some (array l)) p' f' r a hp hf e e' k = absurd hf
first_id-chosen none (some (object o)) p' f' r a hp hf e e' k = absurd hf
first_id-chosen (some null) none p' f' r a hp hf e e' k = ground arith
first_id-chosen (some null) (some null) p' f' r a hp hf e e' k = ground arith
first_id-chosen (some null) (some (string t)) p' f' r a hp hf e e' k = ground arith
first_id-chosen (some null) (some (boolean b)) p' f' r a hp hf e e' k = absurd hf
first_id-chosen (some null) (some (number n)) p' f' r a hp hf e e' k = absurd hf
first_id-chosen (some null) (some (array l)) p' f' r a hp hf e e' k = absurd hf
first_id-chosen (some null) (some (object o)) p' f' r a hp hf e e' k = absurd hf
first_id-chosen (some (string s)) none p' f' r a hp hf e e' k = ground arith
first_id-chosen (some (string s)) (some null) p' f' r a hp hf e e' k = ground arith
first_id-chosen (some (string s)) (some (string t)) p' f' r a hp hf e e' k = ground arith
first_id-chosen (some (string s)) (some (boolean b)) p' f' r a hp hf e e' k = absurd hf
first_id-chosen (some (string s)) (some (number n)) p' f' r a hp hf e e' k = absurd hf
first_id-chosen (some (string s)) (some (array l)) p' f' r a hp hf e e' k = absurd hf
first_id-chosen (some (string s)) (some (object o)) p' f' r a hp hf e e' k = absurd hf
first_id-chosen (some (boolean b)) f p' f' r a hp hf e e' k = absurd hp
first_id-chosen (some (number n)) f p' f' r a hp hf e e' k = absurd hp
first_id-chosen (some (array l)) f p' f' r a hp hf e e' k = absurd hp
first_id-chosen (some (object o)) f p' f' r a hp hf e e' k = absurd hp

IsText-chosen : (p f : Option Value) → IsText p → IsText f → IsText (chosen p f)
unfolding chosen
IsText-chosen p none hp hf = hp
IsText-chosen p (some v) hp hf = ground arith

first_id-or_else :
    (o : Option Value) (rest : Option String)
    → and_then (or_else (and_then o as_str) rest) id_in ≡ first_id o (and_then rest id_in)
first_id-or_else none rest = refl
first_id-or_else (some null) rest = refl
first_id-or_else (some (boolean b)) rest = refl
first_id-or_else (some (number n)) rest = refl
first_id-or_else (some (array l)) rest = refl
first_id-or_else (some (object o)) rest = refl
first_id-or_else (some (string s)) rest = refl

first_id-last : (o : Option Value) → and_then (and_then o as_str) id_in ≡ first_id o none
first_id-last none = refl
first_id-last (some null) = refl
first_id-last (some (boolean b)) = refl
first_id-last (some (number n)) = refl
first_id-last (some (array l)) = refl
first_id-last (some (object o)) = refl
first_id-last (some (string s)) = refl

abbrev ids_of : Fields → Option String
ids_of fs =
    first_id (Object.get fs "threadId")
      (first_id (Object.get fs "sessionId") (first_id (Object.get fs "id") none))

logical_thread_id-ids_of : (fs : Fields) → logical_thread_id (object fs) ≡ ids_of fs
unfolding logical_thread_id
logical_thread_id-ids_of fs =
    first_id-or_else (Object.get fs "threadId") _
    ∙ ap (first_id (Object.get fs "threadId")) (
        first_id-or_else (Object.get fs "sessionId") _
        ∙ ap (first_id (Object.get fs "sessionId")) (first_id-last (Object.get fs "id")))

-- Filling keeps an id that both projections have.
ids_of-fill :
    (p f : Fields) (a : String)
    → IsThread (object p)
    → IsThread (object f)
    → ids_of p ≡ some a
    → ids_of f ≡ some a
    → ids_of (fill p f) ≡ some a
ids_of-fill p f a (sp, (p1, p2, p3)) (sf, (f1, f2, f3)) e e' =
    rw (get-fill p f "threadId" sf, get-fill p f "sessionId" sf, get-fill p f "id" sf)
      (first_id-chosen _ _ _ _ _ a p1 f1 e e' (λ e e'.
        first_id-chosen _ _ _ _ _ a p2 f2 e e'
          (λ e e'. first_id-chosen _ _ _ _ _ a p3 f3 e e' (λ e e'. e))))

fill-IsThread :
    (p f : Fields) → IsThread (object p) → IsThread (object f) → IsThread (object (fill p f))
fill-IsThread p f (sp, (p1, p2, p3)) (sf, (f1, f2, f3)) = (
  fill-IsSorted p f sp,
  (
    rw (get-fill p f "threadId" sf) (IsText-chosen _ _ p1 f1),
    rw (get-fill p f "sessionId" sf) (IsText-chosen _ _ p2 f2),
    rw (get-fill p f "id" sf) (IsText-chosen _ _ p3 f3),
  ),
)

-- A thread with an id is an object.
named-object :
    (t : Value) (a : String)
    → logical_thread_id t ≡ some a
    → (fs : Fields) × (t ≡ object fs) × (ids_of fs ≡ some a)
unfolding logical_thread_id
named-object (object fs) a e = (fs, refl, sym (logical_thread_id-ids_of fs) ∙ e)
named-object null a e = cc
named-object (boolean b) a e = cc
named-object (number n) a e = cc
named-object (array l) a e = cc
named-object (string s) a e = cc

filled-named :
    (t u : Value) (a : String)
    → IsThread t
    → IsThread u
    → logical_thread_id t ≡ some a
    → logical_thread_id u ≡ some a
    → IsThread (filled t u) × (logical_thread_id (filled t u) ≡ some a)
unfolding filled
filled-named t u a ht hu et eu =
    let (p, q, e) = named-object t a et in
    let (f, r, e') = named-object u a eu in
    let hp = subst IsThread q ht in
    let hf = subst IsThread r hu in
    rw (q, r)
      (fill-IsThread p f hp hf, logical_thread_id-ids_of (fill p f) ∙ ids_of-fill p f a hp hf e e')

-- Merging two projections of a thread keeps its id.
pub merge_thread_projections-named :
    (t u : Value) (a : String)
    → IsThread t
    → IsThread u
    → logical_thread_id t ≡ some a
    → logical_thread_id u ≡ some a
    → IsThread (merge_thread_projections t u)
      × (logical_thread_id (merge_thread_projections t u) ≡ some a)
unfolding merge_thread_projections
merge_thread_projections-named t u a ht hu et eu =
    if_cases (λ v. IsThread v × (logical_thread_id v ≡ some a)) _
      (λ _. filled-named u t a hu ht eu et) (λ _. filled-named t u a ht hu et eu)
