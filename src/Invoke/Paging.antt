-- ===== src/Invoke/Paging.antt =====
-- The listing of threads page by page (src/invoke.rs, `request_unique_threads`). A call of the
-- app-server is a function of a state `S` of everything outside; `print` is the text of a JSON document.
use baijimu_digital_employee.Base.{
  ℕ, zero, suc, ◌-◌, min, max, String, Bool, true, false, not, ◌||◌, Option, none, some, List, [],
  ◌∷◌, map, length, ok, err, leb, eqb, is_some, is_some_and, and_then, unwrap_or, if◌then◌else◌,
}
use baijimu_digital_employee.Json.{
  Value, null, number, pos_int, array, object, Fields, nil, json, items_of, as_array, as_u64, get,
}
use baijimu_digital_employee.Json.Object
use baijimu_digital_employee.Http.{Http}
use baijimu_digital_employee.Map
use baijimu_digital_employee.Map.{Map, string_order}
use baijimu_digital_employee.History.{is_null}
use baijimu_digital_employee.Invoke.Params.{normalize_thread_list_item}
use baijimu_digital_employee.Invoke.Threads.{Merged, merge_unique_threads}

abbrev pub max_thread_list_pages : ℕ
max_thread_list_pages = 100

-- `requested_limit`
unfoldable pub requested_limit : Value → Option ℕ
unfolding Object.get
requested_limit params =
    and_then (and_then (get params "limit") as_u64) (λ n. some (max 1 (min n 100)))

-- The variables of the loop.
pub record Listing : Type 0 where
  pub result : Option Value
  pub merged : Merged
  pub next_cursor : Value
  pub cursor : Value
  pub visited : Map String (Unit {0})

abbrev pub with_cursor : Fields → Value → Fields
with_cursor fs cursor =
    if is_null cursor then Object.remove fs "cursor" else Object.insert fs "cursor" cursor

abbrev pub with_limit : Fields → Option ℕ → ℕ → Option Value
with_limit fs none n = some (object fs)
with_limit fs (some limit) n =
    if eqb (limit - n) 0
    then none
    else some (object (Object.insert fs "limit" (number (pos_int (limit - n)))))

-- The parameters of one page; `none` is the `break` at the limit.
unfoldable pub page_params : Value → Value → Option ℕ → ℕ → Option Value
unfolding Object.insert Object.remove
page_params (object fs) cursor limit n = with_limit (with_cursor fs cursor) limit n
page_params params cursor limit n = some params

unfoldable pub page_threads : Value → List Value
unfolding Object.get normalize_thread_list_item
page_threads page =
    map normalize_thread_list_item (unwrap_or (and_then (get page "data") as_array) [])

abbrev pub is_no_thread : List Value → Bool
is_no_thread [] = true
is_no_thread (_ ∷ _) = false

abbrev pub or_first : Option Value → Value → Option Value
or_first none page = some page
or_first (some result) page = some result

-- What a page changes.
unfoldable pub add_page : Listing → Value → Listing
unfolding page_threads merge_unique_threads Object.get
add_page l page = record l {
  result = or_first l.result page;
  merged = merge_unique_threads l.merged (page_threads page);
  next_cursor = unwrap_or (get page "nextCursor") null;
}

-- The first `break` after a page.
unfoldable pub is_last_page : Option ℕ → Value → Listing → Bool
unfolding page_threads
is_last_page limit page l =
    not (is_some limit)
    || is_some_and limit (λ n. leb n (length l.merged.threads))
    || is_null l.next_cursor
    || is_no_thread (page_threads page)

abbrev pub to_next : (Value → String) → Listing → Listing
to_next print l = record l {
  cursor = l.next_cursor;
  visited = Map.insert l.visited (print l.next_cursor) tt;
}

-- The listing before the first page.
unfoldable pub first_listing : (Value → String) → Value → Listing
unfolding Object.get Map.insert
first_listing print params =
    let cursor = unwrap_or (get params "cursor") null in
    record {
      result = none;
      merged = record { threads = []; indexes = [] };
      next_cursor = null;
      cursor = cursor;
      visited = if is_null cursor then [] else Map.insert [] (print cursor) tt;
    }

abbrev pub no_result : Value
no_result = json (("data", array nil) ∷ ("nextCursor", null) ∷ [])

abbrev pub with_threads : Value → Listing → Value
with_threads (object fs) l = object (
    Object.insert (Object.insert fs "data" (array (items_of l.merged.threads))) "nextCursor"
      l.next_cursor)
with_threads result l = result

unfoldable pub result_of : Listing → Value
unfolding Object.insert
result_of l = with_threads (unwrap_or l.result no_result) l

abbrev pub Request : Type 0 → Type 0
Request S = String → Value → Option ℕ → S → Http Value × S

module _ {S : Type 0} (request : Request S) (print : Value → String) where
  -- After a page: the loop ends, or goes on at the next cursor.
  unfoldable pub after_page :
      (Listing → S → Http Listing × S) → Option ℕ → Value → Listing → S → Http Listing × S
  unfolding is_last_page Map.contains_key
  after_page next limit page l s =
      elim (is_last_page limit page l || Map.contains_key l.visited (print l.next_cursor)) [
        | true ↦ (ok l, s)
        | false ↦ next (to_next print l) s
      ]

  abbrev pub received :
      (Listing → S → Http Listing × S) → Option ℕ → Listing → Http Value × S → Http Listing × S
  received next limit l (err e, s) = (err e, s)
  received next limit l (ok page, s) = after_page next limit page (add_page l page) s

  -- The loop, whose rounds the source bounds.
  unfoldable pub collect : ℕ → String → Value → Option ℕ → Listing → S → Http Listing × S
  unfolding page_params requested_limit add_page after_page
  collect zero method params timeout l s = (ok l, s)
  collect (suc n) method params timeout l s =
      let limit = requested_limit params in
      elim (page_params params l.cursor limit (length l.merged.threads)) [
        | none ↦ (ok l, s)
        | some page ↦
            received (collect n method params timeout) limit l (request method page timeout s)
      ]

  abbrev pub finish : Http Listing × S → Http Value × S
  finish (err e, s) = (err e, s)
  finish (ok l, s) = (ok (result_of l), s)

  unfoldable pub request_unique_threads : String → Value → Option ℕ → S → Http Value × S
  unfolding collect first_listing result_of
  request_unique_threads method params timeout s =
      finish (collect max_thread_list_pages method params timeout (first_listing print params) s)
