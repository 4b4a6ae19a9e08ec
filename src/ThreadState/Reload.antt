-- ===== src/ThreadState/Reload.antt =====
-- What a save leaves on disk: a store that is read back whole, or the files as they were.

use baijimu_digital_employee.Base.{
  String, ◌≡◌, ◌≢◌, refl, Bool, true, Option, none, some, [], ◌∷◌, ok, err, arith, All, ◌⊎◌, inl,
  inr, is_some_and, Option-cases, ◌==◌, if◌then◌else◌,
}
use baijimu_digital_employee.Json.{Value, null, field}
use baijimu_digital_employee.Json.Object
use baijimu_digital_employee.Map
use baijimu_digital_employee.Map.{string_order, Map}
use baijimu_digital_employee.ThreadState.Enrich.{marked, entry_or_default, mark_thread_unread}
use baijimu_digital_employee.Map.Laws.{get-insert, All-get, All-insert}
use baijimu_digital_employee.Map.Sorted.{HeadAbove, IsSorted, insert-IsSorted, insert-front}
use baijimu_digital_employee.Serde.{de_fields}
use baijimu_digital_employee.Files.{Codec, from_slice}
use baijimu_digital_employee.ThreadState.Disk.{
  ThreadReadEntry, Threads, ThreadReadStore, StateError, Disk, SaveFaults, decode_entry,
  encode_entry, encode_threads, encode_store, default_entry, checked_store, read_optional_json,
  load_store, save_store, state_version,
}

-- Serde reads `null` in an `Option<Value>` field as no value, so an entry that holds it changes in a
-- round trip.
abbrev pub IsStorable : ThreadReadEntry → Type 0
IsStorable e = e.observed_updated_at ≢ some null

abbrev entry : Bool → Option Value → Option String → Option String → Bool → ThreadReadEntry
entry a b c d f = record {
  has_unread_turn = a;
  observed_updated_at = b;
  observed_runtime_status_type = c;
  observed_latest_turn_status = d;
  observed_desktop_unread = f;
}

decode_entry-entry :
    (a : Bool) (b : Option Value) (c d : Option String) (f : Bool)
    → b ≢ some null
    → decode_entry (encode_entry (entry a b c d f)) ≡ some (entry a b c d f)
unfolding decode_entry encode_entry Object.get Object.insert
decode_entry-entry a none none none f h = refl
decode_entry-entry a none none (some d) f h = refl
decode_entry-entry a none (some c) none f h = refl
decode_entry-entry a none (some c) (some d) f h = refl
decode_entry-entry a (some null) c d f h = absurd (h refl)
decode_entry-entry a (some b) none none f h = refl
decode_entry-entry a (some b) none (some d) f h = refl
decode_entry-entry a (some b) (some c) none f h = refl
decode_entry-entry a (some b) (some c) (some d) f h = refl

decode_entry-encode_entry :
    (e : ThreadReadEntry) → IsStorable e → decode_entry (encode_entry e) ≡ some e
decode_entry-encode_entry e = decode_entry-entry _ _ _ _ _

-- Entries in the order of their keys are written in that order.
encode_threads-cons :
    (k : String) (e : ThreadReadEntry) (m : Threads)
    → HeadAbove k m
    → IsSorted m
    → encode_threads ((k, e) ∷ m) ≡ field k (encode_entry e) (encode_threads m)
unfolding Object.insert
encode_threads-cons k e [] h s = refl
encode_threads-cons k e ((j, w) ∷ m) h s = rw (encode_threads-cons j w m s.0 s.1, h, Object.insert)

de_fields-encode_threads :
    (m : Threads)
    → IsSorted m
    → All (λ p. IsStorable p.1) m
    → de_fields decode_entry (encode_threads m) ≡ some m
unfolding de_fields
de_fields-encode_threads [] s h = refl
de_fields-encode_threads ((k, e) ∷ m) s h = rw (
  encode_threads-cons k e m s.0 s.1,
  decode_entry-encode_entry e h.0,
  de_fields-encode_threads m s.1 h.1,
  insert-front m k e s.0,
)

-- A store that a load gives back: of this version, in order, with entries that survive a round trip.
pub record IsReadable (s : ThreadReadStore) : Type 0 where
  pub current : s.version ≡ state_version
  pub sorted : IsSorted s.threads
  pub storable : All (λ p. IsStorable p.1) s.threads

checked_store-encode_store :
    (s : ThreadReadStore) → IsReadable s → checked_store (some (encode_store s)) ≡ ok s
unfolding checked_store encode_store Object.get Object.insert
checked_store-encode_store s h =
    rw (h.current, de_fields-encode_threads s.threads h.sorted h.storable)

-- The JSON library reads the document that it printed.
abbrev pub ReadsBack : Codec → ThreadReadStore → Type 0
ReadsBack codec s = from_slice codec (codec.to_vec (encode_store s)) ≡ ok (encode_store s)

module _ (codec : Codec) (io : SaveFaults) where
  -- A save that succeeds is read back whole; one that fails leaves the published file alone. The
  -- desktop's file is never written.
  pub save_store-load :
      (s : ThreadReadStore) (disk : Disk)
      → IsReadable s
      → ReadsBack codec s
      → ((((save_store codec io s disk).0 ≡ ok tt)
            × (load_store codec (save_store codec io s disk).1 ≡ ok s))
          ⊎ ((e : StateError) × ((save_store codec io s disk).0 ≡ err e)
              × ((save_store codec io s disk).1.state_file ≡ disk.state_file)))
        × ((save_store codec io s disk).1.desktop_file ≡ disk.desktop_file)
  unfolding save_store load_store read_optional_json
  save_store-load s disk h r = ground (arith, checked_store-encode_store s h)

-- The flag of a thread; a thread with no entry is read.
abbrev pub is_unread : Threads → String → Bool
is_unread threads id = is_some_and (Map.get threads id) (λ e. e.has_unread_turn)

default-IsStorable : IsStorable default_entry
default-IsStorable = cc

entry_or_default-IsStorable :
    (m : Threads) (id : String) → All (λ p. IsStorable p.1) m → IsStorable (entry_or_default m id)
entry_or_default-IsStorable m id h = elim (Option-cases (Map.get m id)) [
  | inl e ↦ rw e default-IsStorable
  | inr (x, e) ↦ rw e (All-get IsStorable m id x h e)
]

marked-IsReadable : (s : ThreadReadStore) (id : String) → IsReadable s → IsReadable (marked s id)
unfolding marked
marked-IsReadable s id h = record {
  current = h.current;
  sorted = insert-IsSorted s.threads id _ h.sorted;
  storable =
      All-insert IsStorable s.threads id _ h.storable
        (entry_or_default-IsStorable s.threads id h.storable);
}

is_unread-marked :
    (s : ThreadReadStore) (id j : String)
    → is_unread (marked s id).threads j ≡ (if id == j then true else is_unread s.threads j)
unfolding marked
is_unread-marked s id j = rw get-insert (ground arith)

module _ (codec : Codec) (io : SaveFaults) where
  -- Marking a thread unread, from a state file that loads as a readable store and with a JSON library
  -- that reads back what it prints: if it succeeds, the next load gives a store in which that thread
  -- is unread and every other thread has the flag that it had; if it fails, the published file is as
  -- it was.
  pub mark_thread_unread-load :
      (id : String) (s : ThreadReadStore) (disk : Disk)
      → load_store codec disk ≡ ok s
      → IsReadable s
      → ReadsBack codec (marked s id)
      → (((mark_thread_unread codec io id disk).0 ≡ ok tt)
          × ((s' : ThreadReadStore) × (load_store codec (mark_thread_unread codec io id disk).1
                ≡ ok s')
              × ((j : String)
                  → is_unread s'.threads j ≡ (if id == j then true else is_unread s.threads j))))
        ⊎ ((e : StateError) × ((mark_thread_unread codec io id disk).0 ≡ err e)
            × ((mark_thread_unread codec io id disk).1.state_file ≡ disk.state_file))
  unfolding mark_thread_unread
  mark_thread_unread-load id s disk loaded h r =
      rw loaded (elim (save_store-load codec io (marked s id) disk (marked-IsReadable s id h) r).0 [
        | inl (done, back) ↦ inl (done, (marked s id, back, is_unread-marked s id))
        | inr failed ↦ inr failed
      ])
