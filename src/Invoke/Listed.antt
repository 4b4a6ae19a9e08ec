-- ===== src/Invoke/Listed.antt =====
-- What a listing of threads promises: each thread once, no more than were asked for, at most 100 calls.
use baijimu_digital_employee.Base.{
  ℕ, zero, suc, ◌+◌, ◌-◌, ◌≤◌, ◌≡◌, refl, sym, ◌∙◌, ap, inl, inr, String, Bool, true, false, ◌||◌,
  Option, none, some, List, [], ◌∷◌, arith, length, length-append, get_elem?, set, All, ok, err,
  eqb, and_then, unwrap_or, Bool-cases, Option-cases, if◌then◌else◌,
}
use mathlib.Core.Option.{some-injective}
use baijimu_digital_employee.Json.{
  Value, null, boolean, number, pos_int, array, string, object, Fields, Items, items_of, list_of,
  as_array, as_u64, get,
}
use baijimu_digital_employee.Json.Object
use baijimu_digital_employee.Json.Laws.{get-insert}
use baijimu_digital_employee.Http.{Http}
use baijimu_digital_employee.Map
use baijimu_digital_employee.Map.{Map, string_order}
use baijimu_digital_employee.Invoke.Threads.{
  Merged, logical_thread_id, merge_thread_projections, merge_at, merge_named, merge_unique_threads,
}
use baijimu_digital_employee.Invoke.Unique.{IsThread}
use baijimu_digital_employee.Invoke.Indexed.{shown}
use baijimu_digital_employee.Invoke.Once.{IsMerged, merge_unique_threads-first_occurrences}
use baijimu_digital_employee.Invoke.Paging.{
  Listing, Request, page_params, page_threads, requested_limit, add_page, is_last_page, to_next,
  first_listing, with_threads, with_cursor, result_of, no_result, after_page, received, collect,
  finish, request_unique_threads, max_thread_list_pages,
}
use baijimu_digital_employee.Invoke.Rounds.{collect-keeps, finish-eq-ok}

list_of-items_of : (l : List Value) → list_of (items_of l) ≡ l
list_of-items_of [] = refl
list_of-items_of (v ∷ l) = ap (λ l. v ∷ l) (list_of-items_of l)

with_threads-data :
    (v : Value) (l : Listing) (threads : Items)
    → get (with_threads v l) "data" ≡ some (array threads)
    → list_of threads ≡ l.merged.threads
with_threads-data (object fs) l threads h =
    let listed = Object.insert fs "data" (array (items_of l.merged.threads)) in
    some-injective _ _ (
      ap (λ o. and_then o as_array)
        (sym h
          ∙ get-insert listed "nextCursor" "data" l.next_cursor
          ∙ get-insert fs "data" "data" (array (items_of l.merged.threads))))
    ∙ list_of-items_of l.merged.threads
with_threads-data null l threads h = cc
with_threads-data (boolean b) l threads h = cc
with_threads-data (number n) l threads h = cc
with_threads-data (string s) l threads h = cc
with_threads-data (array a) l threads h = cc

result_of-data :
    (l : Listing) (threads : Items)
    → get (result_of l) "data" ≡ some (array threads)
    → list_of threads ≡ l.merged.threads
unfolding result_of
result_of-data l threads h = with_threads-data (unwrap_or l.result no_result) l threads h

length-set : (l : List Value) (i : ℕ) (v : Value) → length (set l i v) ≡ length l
length-set [] i v = refl
length-set (x ∷ l) zero v = refl
length-set (x ∷ l) (suc i) v = ap suc (length-set l i v)

merge_named-length :
    (m : Merged) (t : Value) (o : Option String)
    → length (merge_named m t o).threads ≤ length m.threads + 1
unfolding merge_named merge_at
merge_named-length m t none = omega (arith, length-append m.threads (t ∷ []))
merge_named-length m t (some id) = elim (Option-cases (Map.get m.indexes id)) [
  | inl p ↦ rw (p, merge_named) (omega (arith, length-append m.threads (t ∷ [])))
  | inr (i, p) ↦ elim (Option-cases (get_elem? m.threads i)) [
    | inl q ↦ rw (p, merge_named) (rw (q, merge_at) (omega arith))
    | inr (u, q) ↦
        rw (p, merge_named)
          (rw (q, merge_at) (omega (arith, length-set m.threads i (merge_thread_projections u t))))
  ]
]

merge_unique_threads-length :
    (m : Merged) (incoming : List Value)
    → length (merge_unique_threads m incoming).threads ≤ length m.threads + length incoming
unfolding merge_unique_threads
merge_unique_threads-length m [] = omega arith
merge_unique_threads-length m (t ∷ incoming) = omega (
  arith,
  merge_named-length m t (logical_thread_id t),
  merge_unique_threads-length (merge_named m t (logical_thread_id t)) incoming,
)

abbrev pub Answers : (S : Type 0) → Request S → (Value → Value → Type 0) → Type 0
Answers S request P =
    (method : String) (page : Value) (timeout : Option ℕ) (s : S) (answer : Value)
    → (request method page timeout s).0 ≡ ok answer
    → P page answer

if-none-eq-some :
    (b : Bool) (v w : Value) → ◌≡◌ {A = Option Value} (if b then none else some v) (some w) → v ≡ w
if-none-eq-some true v w h = cc
if-none-eq-some false v w h = some-injective v w h

-- The page that is asked for has room for no more than what is left.
page_params-limit :
    (fs : Fields) (cursor : Value) (limit n : ℕ) (page : Value)
    → page_params (object fs) cursor (some limit) n ≡ some page
    → and_then (get page "limit") as_u64 ≡ some (limit - n)
unfolding page_params
page_params-limit fs cursor limit n page h =
    let left = number (pos_int (limit - n)) in
    let asked = object (Object.insert (with_cursor fs cursor) "limit" left) in
    ap (λ v. and_then (get v "limit") as_u64)
      (sym (if-none-eq-some (eqb (limit - n) 0) asked page h))
    ∙ ap (λ o. and_then o as_u64) (get-insert (with_cursor fs cursor) "limit" "limit" left)

module _ {S : Type 0} (request : Request S) (print : Value → String) (method : String)
    (params : Value) (timeout : Option ℕ) where
  first_listing-IsMerged : IsMerged (first_listing print params).merged
  unfolding first_listing Map.get
  first_listing-IsMerged = (tt, (λ id i h. cc, λ id i h. cc))

  -- The app-server's pages list threads whose id fields are texts: the answer's threads have pairwise
  -- different ids.
  pub request_unique_threads-once :
      (s : S) (out : Value) (threads : Items) (id : String) (i j : ℕ)
      → Answers S request (λ page answer. All IsThread (page_threads answer))
      → (request_unique_threads request print method params timeout s).0 ≡ ok out
      → get out "data" ≡ some (array threads)
      → get_elem? (shown (list_of threads)) i ≡ some (some id)
      → get_elem? (shown (list_of threads)) j ≡ some (some id)
      → i ≡ j
  unfolding request_unique_threads add_page
  request_unique_threads-once s out threads id i j pages e d hi hj =
      let (l, p, q) = finish-eq-ok request print method params timeout _ out e in
      let merged =
        collect-keeps request print method params timeout (λ l. IsMerged l.merged)
          (λ l page s answer h a.
            (merge_unique_threads-first_occurrences l.merged (page_threads answer) h
              (pages method page timeout s answer a.1)).0)
          (λ l h. h) max_thread_list_pages (first_listing print params) s l first_listing-IsMerged
          p in
      let t = result_of-data l threads (ap (λ v. get v "data") q ∙ d) in
      some-injective _ _ (
        sym (merged.1.1 id i (ap (λ l. get_elem? (shown l) i) (sym t) ∙ hi))
        ∙ merged.1.1 id j (ap (λ l. get_elem? (shown l) j) (sym t) ∙ hj))

  -- The parameters are an object with a limit, brought into 1 to 100, and no page lists more threads
  -- than it was asked for: the answer lists no more threads than the limit.
  pub request_unique_threads-length :
      (fs : Fields) (limit : ℕ) (s : S) (out : Value) (threads : Items)
      → params ≡ object fs
      → requested_limit params ≡ some limit
      → Answers S request (λ page answer.
        (n : ℕ) → and_then (get page "limit") as_u64 ≡ some n → length (page_threads answer) ≤ n)
      → (request_unique_threads request print method params timeout s).0 ≡ ok out
      → get out "data" ≡ some (array threads)
      → length (list_of threads) ≤ limit
  unfolding request_unique_threads add_page first_listing
  request_unique_threads-length fs limit s out threads o m pages e d =
      let (l, p, q) = finish-eq-ok request print method params timeout _ out e in
      let bound =
        collect-keeps request print method params timeout (λ l. length l.merged.threads ≤ limit)
          (λ l page s answer h a. omega (
            arith,
            merge_unique_threads-length l.merged (page_threads answer),
            pages method page timeout s answer a.1 (limit - length l.merged.threads) (
                page_params-limit fs l.cursor limit (length l.merged.threads) page (
                  ap (λ v. page_params v l.cursor (some limit) (length l.merged.threads)) (sym o)
                  ∙ ap (λ x. page_params params l.cursor x (length l.merged.threads)) (sym m)
                  ∙ a.0)),
          ))
          (λ l h. h) max_thread_list_pages (first_listing print params) s l (omega arith) p in
      rw (result_of-data l threads (ap (λ v. get v "data") q ∙ d)) bound

  after_page-calls :
      (calls : S → ℕ) (more : Listing → S → Http Listing × S) (limit : Option ℕ) (answer : Value)
      (l : Listing) (s : S) (n : ℕ)
      → ((l : Listing) (s : S) → calls (more l s).1 ≤ calls s + n)
      → calls (after_page request print more limit answer l s).1 ≤ calls s + n
  unfolding after_page
  after_page-calls calls more limit answer l s n k =
      elim (Bool-cases
        (is_last_page limit answer l || Map.contains_key l.visited (print l.next_cursor))) [
          | inl p ↦ rw (p, after_page) (omega arith)
          | inr p ↦ rw (p, after_page) (k (to_next print l) s)
        ]

  received-calls :
      (calls : S → ℕ) (more : Listing → S → Http Listing × S) (limit : Option ℕ) (l : Listing)
      (r : Http Value × S) (n : ℕ)
      → ((l : Listing) (s : S) → calls (more l s).1 ≤ calls s + n)
      → calls (received request print more limit l r).1 ≤ calls r.1 + n
  received-calls calls more limit l (err e, s) n k = omega arith
  received-calls calls more limit l (ok answer, s) n k =
      after_page-calls calls more limit answer (add_page l answer) s n k

  collect-calls :
      (calls : S → ℕ)
      → ((page : Value) (s : S) → calls (request method page timeout s).1 ≤ calls s + 1)
      → (n : ℕ) (l : Listing) (s : S)
      → calls (collect request print n method params timeout l s).1 ≤ calls s + n
  unfolding collect
  collect-calls calls once zero l s = omega arith
  collect-calls calls once (suc n) l s =
      elim (Option-cases
        (page_params params l.cursor (requested_limit params) (length l.merged.threads))) [
          | inl p ↦ rw (p, collect) (omega arith)
          | inr (page, p) ↦
              rw (p, collect)
                (omega (
                  arith,
                  once page s,
                  received-calls calls (collect request print n method params timeout)
                      (requested_limit params) l (request method page timeout s) n
                      (collect-calls calls once n),
                ))
        ]

  finish-state : (r : Http Listing × S) → (finish request print r).1 ≡ r.1
  finish-state (err e, s) = refl
  finish-state (ok l, s) = refl

  -- However the app-server pages, a listing calls it at most 100 times.
  pub request_unique_threads-calls :
      (calls : S → ℕ) (s : S)
      → ((page : Value) (s : S) → calls (request method page timeout s).1 ≤ calls s + 1)
      → calls (request_unique_threads request print method params timeout s).1 ≤ calls s + 100
  unfolding request_unique_threads
  request_unique_threads-calls calls s once =
      let loop =
        collect request print max_thread_list_pages method params timeout
          (first_listing print params) s in
      rw (finish-state loop) (collect-calls calls once 100 (first_listing print params) s)
