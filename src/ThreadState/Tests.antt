-- ===== src/ThreadState/Tests.antt =====
-- The scenarios of the source's own tests, and instances of the theorems about the read state.
use baijimu_digital_employee.Base.{
  String, ◌≡◌, refl, ◌↔◌, ◌⊎◌, true, false, none, some, [], ◌∷◌, ok, err, ◌==◌, if◌then◌else◌,
}
use baijimu_digital_employee.Json.{
  boolean, number, pos_int, string, array, object, Fields, json, fields_of, items_of, get, value_eq,
}
use baijimu_digital_employee.Json.Object
use baijimu_digital_employee.Map
use baijimu_digital_employee.Map.{string_order}
use baijimu_digital_employee.Files.{not_found, Codec, from_slice}
use baijimu_digital_employee.ThreadState.Disk.{
  ThreadReadEntry, Threads, ThreadReadStore, StateError, Disk, no_faults, default_store,
  encode_store, load_store, read_optional_json, checked_store,
}
use baijimu_digital_employee.ThreadState.Enrich.{
  observation, thread_id, enrich_item, marked, mark_thread_unread, next_entry, observe,
  revision_advanced, activity_finished, project, normalize_runtime_status, latest_turn_status,
  read_entry,
}
use baijimu_digital_employee.ThreadState.Unread.{IsUnreadAfter, enrich_item-unread}
use baijimu_digital_employee.ThreadState.Reload.{
  IsReadable, ReadsBack, is_unread, mark_thread_unread-load,
}
use baijimu_digital_employee.ThreadState.Repeat.{enrich_item-repeat}

-- An active thread that the desktop marks unread, and the same thread when its turn is over.
abbrev active_fields : Fields
active_fields = fields_of (
    ("id", string "thread-1")
    ∷ ("updatedAt", number (pos_int 10))
    ∷ ("status", json (("type", string "active") ∷ []))
    ∷ [])

abbrev finished_fields : Fields
finished_fields = fields_of (
    ("id", string "thread-1")
    ∷ ("updatedAt", number (pos_int 11))
    ∷ ("status", json (("type", string "idle") ∷ []))
    ∷ ("turns", array (items_of (json (("status", string "completed") ∷ []) ∷ [])))
    ∷ [])

abbrev after_active : Threads
after_active = (enrich_item ("thread-1" ∷ []) (object active_fields) []).1

abbrev marked_read : Threads
marked_read =
    Map.insert after_active "thread-1"
      (read_entry ("thread-1" ∷ []) "thread-1" false (some (number (pos_int 10))) after_active)

-- Unread from the desktop; read after `set_thread_read_state`; unread when the turn is over.
scenario :
    (is_unread after_active "thread-1" ≡ true)
    × (is_unread marked_read "thread-1" ≡ false)
    × (is_unread (enrich_item ("thread-1" ∷ []) (object active_fields) marked_read).1 "thread-1"
        ≡ false)
    × (is_unread (enrich_item ("thread-1" ∷ []) (object finished_fields) marked_read).1 "thread-1"
        ≡ true)
unfolding enrich_item thread_id next_entry observation observe revision_advanced activity_finished
    normalize_runtime_status latest_turn_status read_entry Map.get Map.insert Object.get
    Object.insert value_eq
scenario = (refl, refl, refl, refl)

history_only :
    get (enrich_item [] (json (("id", string "h") ∷ [])) []).0 "runtimeStatusAvailability"
    ≡ some (string "persistedOnly")
unfolding enrich_item thread_id next_entry observation observe revision_advanced activity_finished
    project normalize_runtime_status latest_turn_status Map.get Map.insert Object.get Object.insert
    value_eq
history_only = refl

named : thread_id active_fields ≡ some "thread-1"
unfolding thread_id Object.get Object.insert
named = refl

enrich_item-unread_example :
    (e : ThreadReadEntry) × (Map.get (enrich_item [] (object active_fields) []).1 "thread-1"
      ≡ some e)
    × (get (enrich_item [] (object active_fields) []).0 "hasUnreadTurn"
        ≡ some (boolean e.has_unread_turn))
    × ((e.has_unread_turn ≡ true)
        ↔ IsUnreadAfter
            (Map.get {K = String} {V = ThreadReadEntry} [] "thread-1")
            (observation [] "thread-1" active_fields))
enrich_item-unread_example = enrich_item-unread [] active_fields [] "thread-1" named

enrich_item-repeat_example :
    enrich_item [] (object active_fields) (enrich_item [] (object active_fields) []).1
    ≡ enrich_item [] (object active_fields) []
enrich_item-repeat_example = enrich_item-repeat [] (object active_fields) []

-- A JSON library that knows one document.
abbrev one_document : Codec
one_document = record {
  from_slice = λ _. ok (encode_store (marked default_store "t"));
  to_vec = λ _. 0xef ∷ 0xbb ∷ 0xbf ∷ [];
}

abbrev blank : Disk
blank = record { state_file = not_found; desktop_file = not_found; temporary = none }

loads_blank : load_store one_document blank ≡ ok default_store
unfolding load_store read_optional_json checked_store
loads_blank = refl

reads_back : ReadsBack one_document (marked default_store "t")
unfolding from_slice
reads_back = refl

default-IsReadable : IsReadable default_store
default-IsReadable = record { current = refl; sorted = tt; storable = tt }

mark_thread_unread-load_example :
    (((mark_thread_unread one_document no_faults "t" blank).0 ≡ ok tt)
      × ((s' : ThreadReadStore) × (load_store one_document
              (mark_thread_unread one_document no_faults "t" blank).1
            ≡ ok s')
          × ((j : String)
              → is_unread s'.threads j
                ≡ (if "t" == j then true else is_unread default_store.threads j))))
    ⊎ ((e : StateError) × ((mark_thread_unread one_document no_faults "t" blank).0 ≡ err e)
        × ((mark_thread_unread one_document no_faults "t" blank).1.state_file ≡ blank.state_file))
mark_thread_unread-load_example =
    mark_thread_unread-load one_document no_faults "t" default_store blank loads_blank
      default-IsReadable reads_back
