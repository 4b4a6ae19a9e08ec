-- ===== src/ThreadState/Disk.antt =====
-- Loading and saving the store (`load_store`, `save_store`, `desktop_unread_thread_ids`).
use mathlib.Core.Option
use baijimu_digital_employee.Base.{
  ℕ, ◌-◌, ◌^◌, String, Bool, false, Option, none, some, List, [], ◌∷◌, ◌++◌, Result, ok, err, ◌>>=◌,
  map_err, ok_or, and_then, eqb, if◌then◌else◌,
}
use baijimu_digital_employee.Json.{
  Value, boolean, string, number, pos_int, object, Fields, end, json, as_object, as_array, as_str,
  as_bool, get,
}
use baijimu_digital_employee.Json.Object
use baijimu_digital_employee.Map.{Map}
use baijimu_digital_employee.Serde.{
  struct_fields, required, with_default, de_uint, de_option, de_value, de_fields,
}
use baijimu_digital_employee.Files.{FileRead, not_found, failed, bytes, Codec, from_slice}

-- `ThreadReadEntry`
pub record ThreadReadEntry : Type 0 where
  pub has_unread_turn : Bool
  pub observed_updated_at : Option Value
  pub observed_runtime_status_type : Option String
  pub observed_latest_turn_status : Option String
  pub observed_desktop_unread : Bool

-- `ThreadReadEntry::default()`
abbrev pub default_entry : ThreadReadEntry
default_entry = record {
  has_unread_turn = false;
  observed_updated_at = none;
  observed_runtime_status_type = none;
  observed_latest_turn_status = none;
  observed_desktop_unread = false;
}

abbrev pub Threads : Type 0
Threads = Map String ThreadReadEntry

-- `ThreadReadStore`
pub record ThreadReadStore : Type 0 where
  pub version : ℕ
  pub threads : Threads

abbrev pub state_version : ℕ
state_version = 1

abbrev pub default_store : ThreadReadStore
default_store = record { version = state_version; threads = [] }

-- The messages of the source, with what they carry.
pub data StateError : Type 0 where
  read_failed : String → StateError
  invalid_json : String → StateError
  invalid_state : StateError
  unsupported_version : ℕ → StateError
  unread_not_object : StateError
  local_not_array : StateError
  prepare_failed : String → StateError
  write_failed : String → StateError
  protect_failed : String → StateError
  publish_failed : String → StateError

-- The files, and the pending temporary file.
pub record Disk : Type 0 where
  pub state_file : FileRead
  pub desktop_file : FileRead
  pub temporary : Option (List ℕ)

-- What each I/O step of a save will answer. A write that fails may leave part of the text behind.
pub record SaveFaults : Type 0 where
  pub create_dir : Option String
  pub write : Option (String × Option (List ℕ))
  pub set_permissions : Option String
  pub rename : Option String

abbrev pub no_faults : SaveFaults
no_faults = record { create_dir = none; write = none; set_permissions = none; rename = none }

-- `read_optional_json`
unfoldable pub read_optional_json : Codec → FileRead → Result StateError (Option Value)
unfolding from_slice
read_optional_json codec not_found = ok none
read_optional_json codec (failed e) = err (read_failed e)
read_optional_json codec (bytes s) = do v ← map_err invalid_json (from_slice codec s); ok (some v)

abbrev entry_names : List String
entry_names =
    "hasUnreadTurn" ∷ "observedUpdatedAt" ∷ "observedRuntimeStatusType" ∷ "observedLatestTurnStatus"
    ∷ "observedDesktopUnread" ∷ []

-- A missing key of an `Option` field is `none`.
abbrev option_field {ℓ} : {A : Type ℓ} → Fields → String → (Value → Option A) → Option (Option A)
option_field fs k f = with_default (Object.get fs k) (de_option f) none

abbrev entry_of : Fields → Option ThreadReadEntry
entry_of fs = and_then (required fs "hasUnreadTurn" as_bool) λ unread.
    and_then (option_field fs "observedUpdatedAt" de_value) λ updated_at.
      and_then (option_field fs "observedRuntimeStatusType" as_str) λ status_type.
        and_then (option_field fs "observedLatestTurnStatus" as_str) λ turn_status.
          and_then (with_default (Object.get fs "observedDesktopUnread") as_bool false) λ desktop.
            some (record {
              has_unread_turn = unread;
              observed_updated_at = updated_at;
              observed_runtime_status_type = status_type;
              observed_latest_turn_status = turn_status;
              observed_desktop_unread = desktop;
            })

unfoldable pub decode_entry : Value → Option ThreadReadEntry
unfolding struct_fields
decode_entry v = and_then (struct_fields entry_names v) entry_of

abbrev max_u32 : ℕ
max_u32 = 2 ^ 32 - 1

abbrev decode_threads : Value → Option Threads
decode_threads v = and_then (as_object v) (de_fields decode_entry)

abbrev store_of : Fields → Option ThreadReadStore
store_of fs = and_then (required fs "version" (de_uint max_u32)) λ version.
    and_then (with_default (Object.get fs "threads") decode_threads [])
      λ threads. some (record { version = version; threads = threads })

unfoldable pub decode_store : Value → Option ThreadReadStore
unfolding struct_fields decode_entry de_fields
decode_store v = and_then (struct_fields ("version" ∷ "threads" ∷ []) v) store_of

-- `skip_serializing_if = "Option::is_none"`
abbrev pub optional : String → Option Value → List (String × Value)
optional k none = []
optional k (some v) = (k, v) ∷ []

unfoldable pub encode_entry : ThreadReadEntry → Value
encode_entry e = json (
    (("hasUnreadTurn", boolean e.has_unread_turn) ∷ [])
    ++ optional "observedUpdatedAt" e.observed_updated_at
    ++ optional "observedRuntimeStatusType" (Option.map string e.observed_runtime_status_type)
    ++ optional "observedLatestTurnStatus" (Option.map string e.observed_latest_turn_status)
    ++ ("observedDesktopUnread", boolean e.observed_desktop_unread) ∷ [])

abbrev pub encode_threads : Threads → Fields
encode_threads [] = end
encode_threads ((k, e) ∷ m) = Object.insert (encode_threads m) k (encode_entry e)

unfoldable pub encode_store : ThreadReadStore → Value
unfolding encode_entry
encode_store s =
    json (
      ("version", number (pos_int s.version)) ∷ ("threads", object (encode_threads s.threads)) ∷ [])

-- The document of the state file; none is the empty store.
unfoldable pub checked_store : Option Value → Result StateError ThreadReadStore
unfolding decode_store
checked_store none = ok default_store
checked_store (some document) = do
  store ← ok_or (decode_store document) invalid_state
  if eqb store.version state_version then ok store else err (unsupported_version store.version)

-- `load_store`
unfoldable pub load_store : Codec → Disk → Result StateError ThreadReadStore
unfolding read_optional_json checked_store
load_store codec disk = do
  document ← read_optional_json codec disk.state_file
  checked_store document

abbrev strings_of : List Value → List String
strings_of [] = []
strings_of (v ∷ vs) = elim (as_str v) [ some s ↦ s ∷ strings_of vs | none ↦ strings_of vs ]

abbrev local_ids : Option Value → Result StateError (List String)
local_ids none = ok []
local_ids (some v) = do items ← ok_or (as_array v) local_not_array; ok (strings_of items)

abbrev unread_ids : Option Value → Result StateError (List String)
unread_ids none = ok []
unread_ids (some v) = do
  hosts ← ok_or (as_object v) unread_not_object
  local_ids (Object.get hosts "local")

abbrev ids_of : Option Value → Result StateError (List String)
ids_of none = ok []
ids_of (some document) = unread_ids (get document "unread-thread-ids-by-host-v1")

-- `desktop_unread_thread_ids`; the set is a list, of which only membership is asked.
unfoldable pub desktop_unread_thread_ids : Codec → Disk → Result StateError (List String)
unfolding read_optional_json
desktop_unread_thread_ids codec disk = do
  document ← read_optional_json codec disk.desktop_file
  ids_of document

-- `save_store` on Unix: directory, temporary file, its mode, and the rename that publishes it.
unfoldable pub save_store :
    Codec → SaveFaults → ThreadReadStore → Disk → Result StateError (Unit {0}) × Disk
unfolding encode_store
save_store codec io store disk =
    let content = codec.to_vec (encode_store store) in
    let written = record disk { temporary = some content } in
    elim io.create_dir [
      | some e ↦ (err (prepare_failed e), disk)
      | none ↦ elim io.write [
        | some (e, left) ↦ (err (write_failed e), record disk { temporary = left })
        | none ↦ elim io.set_permissions [
          | some e ↦ (err (protect_failed e), written)
          | none ↦ elim io.rename [
            | some e ↦ (err (publish_failed e), written)
            | none ↦ (ok tt, record disk { state_file = bytes content; temporary = none })
          ]
        ]
      ]
    ]
