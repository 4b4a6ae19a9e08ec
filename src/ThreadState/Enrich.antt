-- ===== src/ThreadState/Enrich.antt =====
-- The operations on the store: `enrich_thread_list`, `set_thread_read_state`, `mark_thread_unread`.

use baijimu_digital_employee.Base.{
  String, Bool, true, false, ◌&&◌, ◌||◌, not, Option, none, some, List, [], ◌∷◌, Result, ok, err,
  ◌>>=◌, ◌==◌, and_then, or_else, unwrap_or, is_some, is_some_and, any, when, if◌then◌else◌,
  String-discrete,
}
use baijimu_digital_employee.Json.{
  Value, null, boolean, string, array, object, Fields, json, items_of, as_array, as_str, get,
  get_str, value_eq, Value-discrete,
}
use baijimu_digital_employee.Json.Object
use baijimu_digital_employee.Map
use baijimu_digital_employee.Map.{string_order}
use baijimu_digital_employee.Text.{is_empty}
use baijimu_digital_employee.Files.{Codec}
use baijimu_digital_employee.ThreadState.Disk.{
  ThreadReadEntry, default_entry, Threads, ThreadReadStore, StateError, Disk, SaveFaults,
  load_store, desktop_unread_thread_ids, save_store,
}

abbrev first_str : Fields → List String → Option String
first_str fs [] = none
first_str fs (k ∷ ks) = or_else (and_then (Object.get fs k) as_str) (first_str fs ks)

abbrev non_empty : Option String → Option String
non_empty none = none
non_empty (some s) = when (not (is_empty s)) s

-- `thread_id`: the first of the keys that holds a string, if that is not empty.
unfoldable pub thread_id : Fields → Option String
thread_id fs = non_empty (first_str fs ("threadId" ∷ "sessionId" ∷ "id" ∷ []))

abbrev not_loaded : Value
not_loaded = json (("type", string "notLoaded") ∷ [])

-- `normalize_runtime_status`
unfoldable pub normalize_runtime_status : Option Value → Value
normalize_runtime_status (some (object fs)) = object fs
normalize_runtime_status (some (string s)) =
    if is_empty s then not_loaded else json (("type", string s) ∷ [])
normalize_runtime_status _ = not_loaded

abbrev last : List Value → Option Value
last [] = none
last (v ∷ []) = some v
last (v ∷ w ∷ vs) = last (w ∷ vs)

abbrev turn_status : Value → Option String
turn_status v = get_str (unwrap_or (get v "turn") v) "status"

abbrev pub is_str : Option String → String → Bool
is_str o s = is_some_and o (λ t. t == s)

-- `latest_turn_status`
unfoldable pub latest_turn_status : Fields → Value → Option String
latest_turn_status fs status =
    or_else (and_then (and_then (and_then (Object.get fs "turns") as_array) last) turn_status)
      (when (is_str (get_str status "type") "active") "inProgress")

-- What one list item says of its thread.
pub record Observation : Type 0 where
  pub updated_at : Option Value
  pub desktop_unread : Bool
  pub status_type : String
  pub turn_status : Option String

unfoldable pub observation : List String → String → Fields → Observation
unfolding normalize_runtime_status latest_turn_status
observation desktop id fs =
    let status = normalize_runtime_status (Object.get fs "status") in
    record {
      updated_at = Object.get fs "updatedAt";
      desktop_unread = any (λ k. k == id) desktop;
      status_type = unwrap_or (get_str status "type") "notLoaded";
      turn_status = latest_turn_status fs status;
    }

-- `or_insert_with`
abbrev pub fresh_entry : Observation → ThreadReadEntry
fresh_entry o = record {
  has_unread_turn = o.desktop_unread;
  observed_updated_at = o.updated_at;
  observed_runtime_status_type = some o.status_type;
  observed_latest_turn_status = o.turn_status;
  observed_desktop_unread = o.desktop_unread;
}

abbrev pub option_eq : Option Value → Option Value → Bool
option_eq none none = true
option_eq (some a) (some b) = value_eq a b
option_eq _ _ = false

unfoldable pub revision_advanced : ThreadReadEntry → Observation → Bool
revision_advanced e o =
    is_some e.observed_updated_at
    && is_some o.updated_at
    && not (option_eq e.observed_updated_at o.updated_at)

unfoldable pub activity_finished : ThreadReadEntry → Observation → Bool
activity_finished e o =
    (is_str e.observed_runtime_status_type "active" && not (o.status_type == "active"))
    || (is_str e.observed_latest_turn_status "inProgress"
        && not (is_str o.turn_status "inProgress"))

-- The update of an entry by what was observed.
unfoldable pub observe : Observation → ThreadReadEntry → ThreadReadEntry
unfolding revision_advanced activity_finished
observe o e = record {
  has_unread_turn =
      e.has_unread_turn
      || (revision_advanced e o && activity_finished e o)
      || (not e.observed_desktop_unread && o.desktop_unread);
  observed_updated_at = or_else o.updated_at e.observed_updated_at;
  observed_runtime_status_type = some o.status_type;
  observed_latest_turn_status = o.turn_status;
  observed_desktop_unread = o.desktop_unread;
}

abbrev text_or_null : Option String → Value
text_or_null none = null
text_or_null (some s) = string s

-- The keys that are written into the item.
unfoldable pub project : Fields → Observation → ThreadReadEntry → Fields
unfolding normalize_runtime_status
project fs o e =
    let status = normalize_runtime_status (Object.get fs "status") in
    let busy = is_str (get_str status "type") "active" || is_str o.turn_status "inProgress" in
    let flags = unwrap_or (and_then (get status "activeFlags") as_array) [] in
    let live = if o.status_type == "notLoaded" then "persistedOnly" else "live" in
    let m1 = Object.insert fs "threadRuntimeStatus" status in
    let m2 = Object.insert m1 "runtimeStatusAvailability" (string live) in
    let m3 = Object.insert m2 "runtimeStatusSource" (string "codexAppServer") in
    let m4 = Object.insert m3 "activeFlags" (array (items_of flags)) in
    let m5 = Object.insert m4 "isInProgress" (boolean busy) in
    let m6 = Object.insert m5 "latestTurnStatus" (text_or_null o.turn_status) in
    Object.insert m6 "hasUnreadTurn" (boolean e.has_unread_turn)

-- The entry of a thread after an item was seen.
unfoldable pub next_entry : List String → String → Fields → Threads → ThreadReadEntry
next_entry desktop id fs threads =
    let o = observation desktop id fs in observe o (unwrap_or (Map.get threads id) (fresh_entry o))

abbrev pub enrich_named : List String → Fields → Threads → Option String → Value × Threads
enrich_named desktop fs threads none = (object fs, threads)
enrich_named desktop fs threads (some id) =
    let e = next_entry desktop id fs threads in
    (object (project fs (observation desktop id fs) e), Map.insert threads id e)

-- One round of the loop; an item that is no object, or names no thread, is left alone.
unfoldable pub enrich_item : List String → Value → Threads → Value × Threads
unfolding thread_id next_entry project Map.insert
enrich_item desktop (object fs) threads = enrich_named desktop fs threads (thread_id fs)
enrich_item desktop v threads = (v, threads)

unfoldable pub enrich_items : List String → List Value → Threads → List Value × Threads
unfolding enrich_item
enrich_items desktop [] threads = ([], threads)
enrich_items desktop (v ∷ vs) threads =
    let (w, threads') = enrich_item desktop v threads in
    let (ws, threads'') = enrich_items desktop vs threads' in (w ∷ ws, threads'')

unfoldable pub ThreadReadEntry-discrete : Discrete ThreadReadEntry
ThreadReadEntry-discrete = hlevel (String-discrete, Value-discrete)

unfoldable pub Threads-discrete : Discrete Threads
Threads-discrete = hlevel (String-discrete, ThreadReadEntry-discrete)

-- `a == b` on the entries.
unfoldable pub threads_eq : Threads → Threads → Bool
unfolding Threads-discrete ThreadReadEntry-discrete Value-discrete String-discrete
threads_eq a b = elim (Threads-discrete a b) [ yes _ ↦ true | no _ ↦ false ]

abbrev pub carry {ℓ} :
    {A : Type ℓ} → A → Result StateError (Unit {0}) × Disk → Result StateError A × Disk
carry a (ok _, disk) = (ok a, disk)
carry a (err e, disk) = (err e, disk)

abbrev pub entry_or_default : Threads → String → ThreadReadEntry
entry_or_default threads id = unwrap_or (Map.get threads id) default_entry

abbrev read_reply : String → Bool → Option Value → Value
read_reply id unread updated_at = json (
    ("threadId", string id)
    ∷ ("hasUnreadTurn", boolean unread)
    ∷ ("observedUpdatedAt", unwrap_or updated_at null)
    ∷ [])

-- The entry that `set_thread_read_state` writes.
unfoldable pub read_entry : List String → String → Bool → Option Value → Threads → ThreadReadEntry
unfolding Map.get
read_entry desktop id unread updated_at threads =
    let e = entry_or_default threads id in
    record e {
      has_unread_turn = unread;
      observed_updated_at = or_else updated_at e.observed_updated_at;
      observed_desktop_unread = any (λ k. k == id) desktop;
    }

-- `threads.entry(id).or_default().has_unread_turn = true`
unfoldable pub marked : ThreadReadStore → String → ThreadReadStore
unfolding Map.get Map.insert
marked store id =
    let e = record (entry_or_default store.threads id) { has_unread_turn = true } in
    record store { threads = Map.insert store.threads id e }

module _ (codec : Codec) (io : SaveFaults) where
  -- The end of `enrich_thread_list`: the store is written only where an entry changed.
  unfoldable pub save_changed :
      Threads → List Value × ThreadReadStore → Disk → Result StateError (List Value) × Disk
  save_changed original (items, store) disk =
      if threads_eq store.threads original
      then (ok items, disk)
      else carry items (save_store codec io store disk)

  abbrev enrich_loaded :
      List Value
      → Disk
      → Result StateError (ThreadReadStore × List String)
      → Result StateError (List Value) × Disk
  enrich_loaded items disk (err e) = (err e, disk)
  enrich_loaded items disk (ok (store, desktop)) =
      let (items', threads') = enrich_items desktop items store.threads in
      save_changed store.threads (items', record store { threads = threads' }) disk

  -- `enrich_thread_list`
  unfoldable pub enrich_thread_list : List Value → Disk → Result StateError (List Value) × Disk
  enrich_thread_list items disk = enrich_loaded items disk (do
    store ← load_store codec disk
    desktop ← desktop_unread_thread_ids codec disk
    ok (store, desktop))

  abbrev set_loaded :
      String
      → Bool
      → Option Value
      → Disk
      → Result StateError (ThreadReadStore × List String)
      → Result StateError Value × Disk
  set_loaded id unread updated_at disk (err e) = (err e, disk)
  set_loaded id unread updated_at disk (ok (store, desktop)) =
      let e = read_entry desktop id unread updated_at store.threads in
      carry (read_reply id unread e.observed_updated_at)
        (save_store codec io (record store { threads = Map.insert store.threads id e }) disk)

  -- `set_thread_read_state`
  unfoldable pub set_thread_read_state :
      String → Bool → Option Value → Disk → Result StateError Value × Disk
  set_thread_read_state id unread updated_at disk = set_loaded id unread updated_at disk (do
    store ← load_store codec disk
    desktop ← desktop_unread_thread_ids codec disk
    ok (store, desktop))

  abbrev pub mark_loaded :
      String → Disk → Result StateError ThreadReadStore → Result StateError (Unit {0}) × Disk
  mark_loaded id disk (err e) = (err e, disk)
  mark_loaded id disk (ok store) = save_store codec io (marked store id) disk

  -- `mark_thread_unread`
  unfoldable pub mark_thread_unread : String → Disk → Result StateError (Unit {0}) × Disk
  mark_thread_unread id disk = mark_loaded id disk (load_store codec disk)
