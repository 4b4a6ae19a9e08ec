-- ===== src/Invoke/Tests.antt =====
-- Tests of the invoke handlers, and instances of their theorems.
use baijimu_digital_employee.Base.{
  ℕ, zero, suc, ◌+◌, ◌≤◌, ◌≡◌, refl, sym, ◌∙◌, ap, subst, String, true, Option, none, some, List,
  [], ◌∷◌, map, length, get_elem?, All, ok, err, arith, and_then, ◌==◌, if◌then◌else◌,
}
use baijimu_digital_employee.Json.{
  Value, null, boolean, number, pos_int, string, array, object, Fields, Items, field, end, json,
  items_of, list_of, as_array, as_u64, get,
}
use baijimu_digital_employee.Json.Object
use baijimu_digital_employee.Json.Double.{magnitude, as_f64, partial_cmp, log2}
use baijimu_digital_employee.Http.{Http}
use baijimu_digital_employee.Map
use baijimu_digital_employee.Map.{string_order}
use baijimu_digital_employee.Text.{trim, to_decimal, emit, digit_char}
use baijimu_digital_employee.Text.Search.{file_name, path_parts, lines}
use baijimu_digital_employee.Invoke.Params.{thread_timestamp}
use baijimu_digital_employee.Invoke.Threads.{
  Merged, value_is_missing, should_fill, thread_is_live, compare_timestamps, compare_thread_recency,
  compare_thread_projections, fill, filled, is_gt, merge_thread_projections, merge_unique_threads,
  logical_thread_id,
}
use baijimu_digital_employee.Invoke.Merge.{chosen, merge_thread_projections-chosen}
use baijimu_digital_employee.Invoke.Unique.{IsThread}
use baijimu_digital_employee.Invoke.Indexed.{shown, first_occurrences}
use baijimu_digital_employee.Invoke.Once.{IsMerged, merge_unique_threads-first_occurrences}
use baijimu_digital_employee.Invoke.Pages.{usize_param-next_cursor}
use baijimu_digital_employee.Files.{bytes}
use baijimu_digital_employee.Invoke.Host.{Host}
use baijimu_digital_employee.Invoke.Catalog.{next_cursor, answer_of, list_projects}
use baijimu_digital_employee.Invoke.Handlers.{Client, bad_request}
use baijimu_digital_employee.Invoke.Dispatch.{handle_invoke}
use baijimu_digital_employee.Invoke.Sent.{StartsTurn, handle_invoke-StartsTurn}
use baijimu_digital_employee.Invoke.Distinct.{Distinct, list_projects-Distinct}
use baijimu_digital_employee.Invoke.Params.{usize_param, normalize_thread_list_item, insert_all}
use baijimu_digital_employee.Invoke.Paging.{
  Request, page_threads, requested_limit, collect, request_unique_threads,
}
use baijimu_digital_employee.Invoke.Listed.{
  Answers, request_unique_threads-length, request_unique_threads-calls,
}

-- 2^53 + 1 rounds to 2^53, and 2^53 + 3 to 2^53 + 4.
magnitude_one : magnitude 1 ≡ 0x3ff0000000000000
unfolding magnitude log2
magnitude_one = refl

magnitude_down : magnitude 9007199254740993 ≡ magnitude 9007199254740992
unfolding magnitude log2
magnitude_down = refl

magnitude_up : magnitude 9007199254740995 ≡ magnitude 9007199254740996
unfolding magnitude log2
magnitude_up = refl

file_name_plain : file_name "/home/a/project/" ≡ some "project"
unfolding file_name path_parts
file_name_plain = refl

file_name_parent : file_name "/home/.." ≡ none
unfolding file_name path_parts
file_name_parent = refl

lines_both : lines "a\r\nb\n\nc" ≡ "a" ∷ "b" ∷ "" ∷ "c" ∷ []
unfolding lines
lines_both = refl

abbrev history : Fields
history = field "cwd" (string "/project") (
    field "id" (string "thread-1") (
      field "status" (json (("type", string "notLoaded") ∷ []))
        (field "title" (string "history") (field "updatedAt" (number (pos_int 20)) end))))

abbrev live : Fields
live = field "cwd" null (
    field "id" (string "thread-1") (
      field "status" (json (("type", string "active") ∷ []))
        (field "title" (string "live") (field "updatedAt" (number (pos_int 10)) end))))

-- The live projection wins, and its missing directory is filled.
live_wins :
    merge_thread_projections (object history) (object live)
    ≡ object (Object.insert live "cwd" (string "/project"))
unfolding merge_thread_projections compare_thread_projections filled fill thread_is_live
    compare_thread_recency compare_timestamps thread_timestamp should_fill value_is_missing trim
    Object.get Object.insert as_f64 partial_cmp magnitude log2
live_wins = refl

merge_thread_projections-chosen_example :
    (out : Fields) × (merge_thread_projections (object history) (object live) ≡ object out)
    × ((k : String)
        → Object.get out k ≡ (
            if is_gt (compare_thread_projections (object live) (object history))
            then chosen (Object.get live k) (Object.get history k)
            else chosen (Object.get history k) (Object.get live k)))
merge_thread_projections-chosen_example =
    merge_thread_projections-chosen history live
      (
        (refl, (refl, (refl, (refl, tt)))),
        ((refl, (refl, (refl, tt))), ((refl, (refl, tt)), ((refl, tt), (tt, tt)))),
      )
      (
        (refl, (refl, (refl, (refl, tt)))),
        ((refl, (refl, (refl, tt))), ((refl, (refl, tt)), ((refl, tt), (tt, tt)))),
      )

abbrev three : List Value
three = object history ∷ json (("title", string "no id") ∷ []) ∷ object live ∷ []

abbrev empty : Merged
empty = record { threads = []; indexes = [] }

empty-IsMerged : IsMerged empty
unfolding Map.get
empty-IsMerged = (tt, (λ id i h. cc, λ id i h. cc))

three-IsThread : All IsThread three
unfolding Object.get Object.insert
three-IsThread = (
  (
    (
      (refl, (refl, (refl, (refl, tt)))),
      ((refl, (refl, (refl, tt))), ((refl, (refl, tt)), ((refl, tt), (tt, tt)))),
    ),
    (tt, tt, tt),
  ),
  (
    ((tt, tt), (tt, tt, tt)),
    (
      (
        (
          (refl, (refl, (refl, (refl, tt)))),
          ((refl, (refl, (refl, tt))), ((refl, (refl, tt)), ((refl, tt), (tt, tt)))),
        ),
        (tt, tt, tt),
      ),
      tt,
    ),
  ),
)

merge_unique_threads-first_occurrences_example :
    IsMerged (merge_unique_threads empty three)
    × (shown (merge_unique_threads empty three).threads
        ≡ first_occurrences (shown empty.threads) (shown three))
merge_unique_threads-first_occurrences_example =
    merge_unique_threads-first_occurrences empty three empty-IsMerged three-IsThread

abbrev cursor_sent_back : Value
cursor_sent_back = json (("cursor", string "100") ∷ [])

sent_back : get cursor_sent_back "cursor" ≡ some (next_cursor 0 100 250)
unfolding Object.get Object.insert next_cursor to_decimal emit digit_char
sent_back = refl

usize_param-next_cursor_example : usize_param cursor_sent_back "cursor" 0 ≡ 0
usize_param-next_cursor_example = usize_param-next_cursor cursor_sent_back 0 100 250 sent_back

-- An app-server that counts its calls and lists one thread on a page with room for it. Its pages go on
-- without an end.
abbrev page_for : Option ℕ → Value
page_for none = json []
page_for (some zero) = json []
page_for (some (suc n)) =
    json (("data", array (items_of (object live ∷ []))) ∷ ("nextCursor", string "next") ∷ [])

abbrev serve : Request ℕ
serve method page timeout s = (ok (page_for (and_then (get page "limit") as_u64)), s + 1)

abbrev unwrap : Value → Http Value → Value
unwrap v (err e) = v
unwrap v (ok w) = w

page_for-IsThread : (o : Option ℕ) → All IsThread (page_threads (page_for o))
unfolding page_threads normalize_thread_list_item insert_all Object.get Object.insert
page_for-IsThread none = tt
page_for-IsThread (some zero) = tt
page_for-IsThread (some (suc n)) = (
  (
    (
      (refl, (refl, (refl, (refl, tt)))),
      ((refl, (refl, (refl, tt))), ((refl, (refl, tt)), ((refl, tt), (tt, tt)))),
    ),
    (tt, tt, tt),
  ),
  tt,
)

page_for-length : (n : ℕ) → length (page_threads (page_for (some n))) ≤ n
unfolding page_threads normalize_thread_list_item insert_all Object.get Object.insert
page_for-length zero = omega arith
page_for-length (suc n) = omega arith

abbrev two_asked : Fields
two_asked = field "limit" (number (pos_int 2)) end

abbrev live_once : Value
live_once =
    json (("data", array (items_of (object live ∷ []))) ∷ ("nextCursor", string "next") ∷ [])

abbrev print : Value → String
print v = "cursor"

listed_once :
    request_unique_threads serve print "thread/list" (object two_asked) none 0 ≡ (ok live_once, 2)
unfolding request_unique_threads collect
listed_once = refl

abbrev live_list : Items
live_list = items_of (object live ∷ [])

live_data : get live_once "data" ≡ some (array live_list)
unfolding Object.get Object.insert
live_data = refl

live_shown : get_elem? (shown (list_of live_list)) 0 ≡ some (some "thread-1")
unfolding logical_thread_id Object.get trim
live_shown = refl

answers-IsThread : Answers ℕ serve (λ page answer. All IsThread (page_threads answer))
answers-IsThread method page timeout s answer e =
    subst (λ v. All IsThread (page_threads v)) (ap (unwrap null) e)
      (page_for-IsThread (and_then (get page "limit") as_u64))

answers-length : Answers ℕ serve (λ page answer.
    (n : ℕ) → and_then (get page "limit") as_u64 ≡ some n → length (page_threads answer) ≤ n)
answers-length method page timeout s answer e n h =
    subst (λ v. length (page_threads v) ≤ n) (ap page_for (sym h) ∙ ap (unwrap null) e)
      (page_for-length n)

two_limit : requested_limit (object two_asked) ≡ some 2
unfolding requested_limit
two_limit = refl

request_unique_threads-length_example : length (list_of live_list) ≤ 2
request_unique_threads-length_example =
    request_unique_threads-length serve print "thread/list" (object two_asked) none two_asked 2 0
      live_once live_list refl two_limit answers-length (ap (λ r. r.0) listed_once) live_data

request_unique_threads-calls_example :
    (request_unique_threads serve print "thread/list" (object two_asked) none 0).1 ≤ 0 + 100
request_unique_threads-calls_example =
    request_unique_threads-calls serve print "thread/list" (object two_asked) none (λ n. n) 0
      (λ page s. omega arith)

abbrev host : Host
host = record {
  home_dir = "/home/a";
  current_dir = none;
  exists = λ path. path == "/project";
  read_file = λ path. bytes (0 ∷ []);
  read_text = λ path. some "[projects.\"/trusted\"]\ntrust_level = \"full\"\n";
  roots_order = λ m. m;
  to_lowercase = λ s. s;
  codec = record {
    from_slice = λ b. ok (
        json (
          ("project-order", array (items_of (string "/project" ∷ string "~/other" ∷ [])))
          ∷ ("pinned-project-ids", array (items_of (string "/home/a/other" ∷ [])))
          ∷ []));
    to_vec = λ v. [];
  };
}

abbrev all_projects : Value
all_projects = json (
    ("includeThreadStats", boolean true)
    ∷ ("threadPageLimit", number (pos_int 1))
    ∷ ("maxThreadPages", number (pos_int 1))
    ∷ [])

abbrev paths_of : Value → List (Option Value)
paths_of out = elim (and_then (get out "result") (λ r. and_then (get r "items") as_array)) [
  | none ↦ []
  | some l ↦ map (λ v. get v "path") l
]

-- The pinned project first, then the saved one, then the trusted.
projects_listed :
    paths_of (unwrap null (list_projects host serve "/home/a/.codex" all_projects 0).0)
    ≡ some (string "/home/a/other") ∷ some (string "/project") ∷ some (string "/trusted") ∷ []
unfolding list_projects
projects_listed = refl

abbrev projects_answer : Value
projects_answer = unwrap null (list_projects host serve "/home/a/.codex" all_projects 0).0

projects_answered :
    (list_projects host serve "/home/a/.codex" all_projects 0).0 ≡ ok projects_answer
unfolding list_projects
projects_answered = refl

list_projects-Distinct_example :
    (items : List Value) × Distinct items
    × (answer_of host "/home/a/.codex" all_projects items ≡ projects_answer)
list_projects-Distinct_example =
    list_projects-Distinct host serve "/home/a/.codex" all_projects 0 projects_answer
      projects_answered

-- A client whose app-server is the one above; nothing else of it does anything.
abbrev counting_client : Client ℕ
counting_client = record {
  request = serve;
  status = λ s. (null, s);
  recent_events = λ body s. array (items_of []);
  respond = λ body s. (none, s);
  pending_server_requests = λ id s. (ok null, s);
  set_thread_read_state = λ id unread at s. (ok null, s);
  enrich_thread_list = λ items s. (ok items, s);
  list_projects = λ body s. (ok null, s);
}

abbrev start : Value
start = json (
    ("threadId", string "thread-1")
    ∷ ("input", string "hello")
    ∷ ("params", json (("threadId", string "another") ∷ []))
    ∷ [])

handle_invoke-StartsTurn_example :
    StartsTurn counting_client print start 0
      (handle_invoke counting_client print "/invoke/startTurn" start 0)
handle_invoke-StartsTurn_example = handle_invoke-StartsTurn counting_client print start 0

-- A start with no input is refused, and no call is made.
start_refused :
    handle_invoke counting_client print "/invoke/startTurn"
      (json (("threadId", string "thread-1") ∷ []))
      0
    ≡ (err (bad_request "input is required"), 0)
unfolding handle_invoke
start_refused = refl

abbrev other_path : Http Value × ℕ
unfolding handle_invoke
other_path = handle_invoke counting_client print "/invoke/other" null 0

unknown_path : other_path.1 ≡ 0
unfolding other_path
unknown_path = refl
