-- ===== src/EventStore/Tests.antt =====
-- A store that is pushed to, subscribed to and read, and instances of the theorems about it.
use baijimu_digital_employee.Base.{
  ℕ, ◌-◌, min, ◌≤◌, ◌≡◌, refl, ◌⊎◌, true, err, none, some, List, [], ◌∷◌, ◌++◌, map, length, drop,
  get_elem?, arith,
}
use baijimu_digital_employee.Json.{Value, number, pos_int, json}
use baijimu_digital_employee.Json.Object
use baijimu_digital_employee.Cursor.{StreamCursor}
use baijimu_digital_employee.EventStore.{
  ConnectorEvent, Subscriber, EventStore, max_events, stream_subscriber_capacity, new_store,
  event_at, record_event, subscribe, recent_events, limit_of, after_of, into_entry, push, continues,
  newer, plan, trim, offer,
}
use baijimu_digital_employee.EventStore.Retention.{Holds, new_store-Holds, record_event-Holds}
use baijimu_digital_employee.EventStore.Log.{InWindow, subscribe-backlog}
use baijimu_digital_employee.EventStore.Delivery.{World, pushed, Run, done, more, subscriber-no_gap}
use baijimu_digital_employee.Files.{not_found, Codec}
use baijimu_digital_employee.ThreadState.Disk.{Disk, no_faults}
use baijimu_digital_employee.EventStore.Recent.{behind, recent_events-newest}

abbrev empty_store : EventStore
empty_store = new_store none "run"

abbrev delta : ℕ → ConnectorEvent
delta n = record {
  sequence = n;
  received_at = "t";
  method = "item/delta";
  params = number (pos_int n);
}

abbrev one_store : EventStore
one_store = record_event "t" "item/delta" (number (pos_int 1)) empty_store

abbrev two_store : EventStore
two_store = record_event "t" "item/delta" (number (pos_int 2)) one_store

abbrev first_log : List ConnectorEvent
first_log = event_at "t" "item/delta" (number (pos_int 1)) empty_store ∷ []

abbrev two_log : List ConnectorEvent
two_log = first_log ++ event_at "t" "item/delta" (number (pos_int 2)) one_store ∷ []

one-Holds : Holds first_log one_store
one-Holds =
    record_event-Holds "t" "item/delta" (number (pos_int 1)) [] empty_store
      (new_store-Holds none "run") (omega arith)

two-Holds : Holds two_log two_store
unfolding record_event
two-Holds =
    record_event-Holds "t" "item/delta" (number (pos_int 2)) first_log one_store one-Holds
      (omega arith)

abbrev first_cursor : StreamCursor
first_cursor = record { stream_id = "run"; sequence = 1 }

-- A cursor of this run is continued behind its event; one of another run is not.
replayed :
    ((subscribe (some first_cursor) two_store).0.backlog ≡ into_entry "run" (delta 2) ∷ [])
    × ((subscribe (some (record first_cursor { stream_id = "old" })) two_store).0.resync
        ≡ some (record { stream_id = "run"; sequence = 2 }))
    × (recent_events (json (("limit", number (pos_int 1)) ∷ [])) two_store ≡ delta 2 ∷ [])
unfolding subscribe plan continues newer record_event trim offer recent_events Object.get
    Object.insert
replayed = (refl, refl, refl)

subscribe-backlog_example :
    (InWindow two_log two_store first_cursor
      × ((subscribe (some first_cursor) two_store).0.resync ≡ none)
      × ((subscribe (some first_cursor) two_store).0.backlog
          ≡ map (into_entry two_store.stream_id) (drop 1 two_log)))
    ⊎ ((¬ InWindow two_log two_store first_cursor)
        × ((subscribe (some first_cursor) two_store).0.resync
            ≡ some (record { stream_id = two_store.stream_id; sequence = length two_log }))
        × ((subscribe (some first_cursor) two_store).0.backlog ≡ []))
subscribe-backlog_example = subscribe-backlog two_log two_store two-Holds first_cursor

abbrev one_of : Value
one_of = json (("limit", number (pos_int 1)) ∷ [])

recent_events-newest_example :
    (recent_events one_of two_store
      ≡ drop
          (length (behind (after_of one_of) two_log) - limit_of one_of)
          (behind (after_of one_of) two_log))
    × (length (recent_events one_of two_store)
        ≡ min
            (limit_of one_of)
            (min max_events (length two_log) - (after_of one_of - (length two_log - max_events))))
    × (1 ≤ limit_of one_of)
    × (limit_of one_of ≤ 500)
recent_events-newest_example = recent_events-newest one_of two_log two_store two-Holds

-- A client that joins after the first event, and a second event.
abbrev idle_codec : Codec
idle_codec = record { from_slice = λ _. err "no document"; to_vec = λ _. [] }

abbrev blank : Disk
blank = record { state_file = not_found; desktop_file = not_found; temporary = none }

abbrev world_one : World
world_one = record {
  store = (subscribe (some first_cursor) one_store).1;
  log = first_log;
  seen = [];
}

abbrev world_two : World
world_two = record {
  store =
      (push idle_codec no_faults (λ s. s) "t" "item/delta" (number (pos_int 2))
        (world_one.store, blank)).0;
  log = first_log ++ event_at "t" "item/delta" (number (pos_int 2)) world_one.store ∷ [];
  seen = [];
}

runs :
    Run idle_codec no_faults
      (λ s. s)
      (subscribe (some first_cursor) one_store).0.live
      world_one
      world_two
unfolding subscribe record_event
runs = more done (pushed "t" "item/delta" (number (pos_int 2)) blank world_one (omega arith))

in_window : InWindow first_log one_store first_cursor
unfolding record_event
in_window = (refl, omega arith, omega arith)

subscriber-no_gap_example :
    (s : Subscriber) × (lost : List ConnectorEvent) × (get_elem? world_two.store.subscribers
        (subscribe (some first_cursor) one_store).0.live
      ≡ some s)
    × ((subscribe (some first_cursor) one_store).0.backlog
          ++ map (into_entry one_store.stream_id) ((world_two.seen ++ s.queue) ++ lost)
        ≡ map (into_entry one_store.stream_id) (drop 1 world_two.log))
    × (s.subscribed ≡ true → lost ≡ [])
    × (length s.queue ≤ stream_subscriber_capacity)
subscriber-no_gap_example =
    subscriber-no_gap idle_codec no_faults (λ s. s) first_log one_store first_cursor world_two
      one-Holds in_window runs
