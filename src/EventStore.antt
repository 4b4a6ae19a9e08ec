-- ===== src/EventStore.antt =====
-- The event store (src/app_server/event_store.rs): the retained notifications, the live subscribers,
-- and the hand-over of domain events.
-- A subscriber is kept under its index after the store has dropped it, since its receiver may still
-- be drained. `sequence += 1` wraps, as in a release build. The mutex makes each operation one step.
pub mod Retention
pub mod Log
pub mod Reads
pub mod Delivery
pub mod Recent
mod Tests
use mathlib.Core.List.{reverse}
use baijimu_digital_employee.Base.{
  ℕ, ◌+◌, ◌-◌, ◌%◌, ◌^◌, max, min, String, Bool, true, false, ◌&&◌, Option, none, some, List, [],
  ◌∷◌, ◌++◌, map, Result, ok, err, ltb, leb, length, take, keep_if, get_elem?, set, and_then,
  unwrap_or, ◌==◌, if◌then◌else◌,
}
use baijimu_digital_employee.Json.{
  Value, string, number, pos_int, array, items_of, json, get, get_str, as_u64,
}
use baijimu_digital_employee.Cursor.{StreamCursor}
use baijimu_digital_employee.Events.{DomainEvent, normalize_codex_notification}
use baijimu_digital_employee.Files.{Codec}
use baijimu_digital_employee.ThreadState.Disk.{Disk, SaveFaults}
use baijimu_digital_employee.ThreadState.Enrich.{mark_thread_unread}

abbrev pub max_events : ℕ
max_events = 1000

abbrev pub stream_subscriber_capacity : ℕ
stream_subscriber_capacity = 1024

-- `ConnectorEvent`
pub record ConnectorEvent : Type 0 where
  pub sequence : ℕ
  pub received_at : String
  pub method : String
  pub params : Value

-- The two ends of a `sync_channel(1024)`: what waits in it, whether the receiver is alive, and whether
-- the store still holds the sender.
pub record Subscriber : Type 0 where
  pub queue : List ConnectorEvent
  pub receiving : Bool
  pub subscribed : Bool

-- `PublishJob`
pub record PublishJob : Type 0 where
  pub event_name : String
  pub event_id : String
  pub occurred_at : String
  pub payload : Value

-- `EventStore` with its `EventState`. The publisher is the jobs that were handed to its worker: a full
-- hand-over queue makes `send` wait, and no job is dropped.
pub record EventStore : Type 0 where
  pub sequence : ℕ
  pub retained : List ConnectorEvent
  pub subscribers : List Subscriber
  pub publisher : Option (List PublishJob)
  pub stream_id : String

-- `EventStore::new`
abbrev pub new_store : Option (List PublishJob) → String → EventStore
new_store publisher stream_id = record {
  sequence = 0;
  retained = [];
  subscribers = [];
  publisher = publisher;
  stream_id = stream_id;
}

abbrev pub next_sequence : ℕ → ℕ
next_sequence n = (n + 1) % 2 ^ 64

-- `while retained.len() > MAX_EVENTS { retained.pop_front(); }`
unfoldable pub trim : List ConnectorEvent → List ConnectorEvent
trim [] = []
trim (e ∷ es) = let rest = trim es in if ltb max_events (length (e ∷ es)) then rest else e ∷ es

-- `retain` with `try_send`: a subscriber that is full, or whose receiver is gone, is dropped.
unfoldable pub offer : ConnectorEvent → Subscriber → Subscriber
offer event s =
    if s.subscribed && s.receiving && ltb (length s.queue) stream_subscriber_capacity
    then record s { queue = s.queue ++ event ∷ [] }
    else record s { subscribed = false }

-- The event that `push` makes.
abbrev pub event_at : String → String → Value → EventStore → ConnectorEvent
event_at received_at method params store = record {
  sequence = next_sequence store.sequence;
  received_at = received_at;
  method = method;
  params = params;
}

-- The part of `push` under the lock.
unfoldable pub record_event : String → String → Value → EventStore → EventStore
unfolding trim offer
record_event received_at method params store =
    let event = event_at received_at method params store in
    record store {
      sequence = event.sequence;
      retained = trim (store.retained ++ event ∷ []);
      subscribers = map (offer event) store.subscribers;
    }

-- `publish_domain`
abbrev pub job_of : DomainEvent → PublishJob
job_of e = record {
  event_name = e.name;
  event_id = e.event_id;
  occurred_at = e.occurred_at;
  payload = e.payload;
}

abbrev pub publish : Result String (Option DomainEvent) → EventStore → EventStore
publish (ok (some event)) store = elim store.publisher [
  | some jobs ↦ record store { publisher = some (jobs ++ job_of event ∷ []) }
  | none ↦ store
]
publish _ store = store

module _ (codec : Codec) (io : SaveFaults) (sha256_hex : String → String) where
  -- The thread of a completed turn is marked unread; a failure is only logged.
  unfoldable pub mark_completed : String → Value → Disk → Disk
  mark_completed method params disk =
      elim (if method == "turn/completed" then get_str params "threadId" else none) [
        | some id ↦ (mark_thread_unread codec io id disk).1
        | none ↦ disk
      ]

  -- `EventStore::push`
  unfoldable pub push : String → String → Value → EventStore × Disk → EventStore × Disk
  unfolding mark_completed record_event
  push received_at method params (store, disk) =
      let disk' = mark_completed method params disk in
      let store' = record_event received_at method params store in
      let domain_event =
        normalize_codex_notification sha256_hex method params received_at store.stream_id
          store'.sequence in
      (publish domain_event store', disk')

-- `ConnectorEvent::payload`
unfoldable pub payload : ConnectorEvent → Value
payload e = json (
    ("sequence", number (pos_int e.sequence))
    ∷ ("receivedAt", string e.received_at)
    ∷ ("method", string e.method)
    ∷ ("params", e.params)
    ∷ [])

-- `StreamEntry`
pub record StreamEntry : Type 0 where
  pub cursor : StreamCursor
  pub content : Value

-- `ConnectorEvent::into_entry`
unfoldable pub into_entry : String → ConnectorEvent → StreamEntry
unfolding payload
into_entry stream_id e = record {
  cursor = record { stream_id = stream_id; sequence = e.sequence };
  content = payload e;
}

-- `StreamSubscription`; the receiver is the index of the new subscriber.
pub record StreamSubscription : Type 0 where
  pub resync : Option StreamCursor
  pub backlog : List StreamEntry
  pub live : ℕ
  pub stream_id : String

abbrev pub fresh_subscriber : Subscriber
fresh_subscriber = record { queue = []; receiving = true; subscribed = true }

-- The position before the oldest retained event.
abbrev pub oldest_of : ℕ → List ConnectorEvent → ℕ
oldest_of sequence [] = sequence
oldest_of sequence (e ∷ es) = e.sequence - 1

-- Whether a cursor can be continued.
unfoldable pub continues : StreamCursor → EventStore → Bool
continues after store =
    after.stream_id == store.stream_id
    && leb (oldest_of store.sequence store.retained) after.sequence
    && leb after.sequence store.sequence

-- The retained events behind a position.
unfoldable pub newer : ℕ → List ConnectorEvent → List ConnectorEvent
newer after es = keep_if (λ e. ltb after e.sequence) es

unfoldable pub plan : Option StreamCursor → EventStore → Option StreamCursor × List StreamEntry
unfolding continues newer into_entry
plan none store = (none, [])
plan (some after) store =
    if continues after store
    then (none, map (into_entry store.stream_id) (newer after.sequence store.retained))
    else (some (record { stream_id = store.stream_id; sequence = store.sequence }), [])

-- `EventStore::subscribe`
unfoldable pub subscribe : Option StreamCursor → EventStore → StreamSubscription × EventStore
unfolding plan
subscribe after store = (
  record {
    resync = (plan after store).0;
    backlog = (plan after store).1;
    live = length store.subscribers;
    stream_id = store.stream_id;
  },
  record store { subscribers = store.subscribers ++ fresh_subscriber ∷ [] },
)

-- `value.clamp(low, high)`
abbrev pub clamp : ℕ → ℕ → ℕ → ℕ
clamp low high n = if ltb n low then low else if ltb high n then high else n

abbrev pub limit_of : Value → ℕ
limit_of body = clamp 1 500 (unwrap_or (and_then (get body "limit") as_u64) 100)

abbrev pub after_of : Value → ℕ
after_of body = unwrap_or (and_then (get body "afterSequence") as_u64) 0

-- The events that `recent` shows: of those behind the position, the last ones, in order.
unfoldable pub recent_events : Value → EventStore → List ConnectorEvent
unfolding newer
recent_events body store =
    reverse (take (limit_of body) (reverse (newer (after_of body) store.retained)))

-- `EventStore::recent`
unfoldable pub recent : Value → EventStore → Value
unfolding recent_events payload
recent body store = json (
    ("latestSequence", number (pos_int store.sequence))
    ∷ ("events", array (items_of (map payload (recent_events body store))))
    ∷ [])

-- `EventStore::summary`
unfoldable pub summary : EventStore → ℕ × ℕ
summary store = (store.sequence, length store.retained)

-- What `recv_timeout` gives a receiver, and the channel afterwards.
pub data Received : Type 0 where
  event : ConnectorEvent → Received
  timeout : Received
  disconnected : Received

unfoldable pub receive : Subscriber → Received × Subscriber
receive s = elim s.queue [
  | e ∷ es ↦ (event e, record s { queue = es })
  | [] ↦ (if s.subscribed then timeout else disconnected, s)
]

-- The client drops its receiver.
abbrev pub close : Subscriber → Subscriber
close s = record s { receiving = false; queue = [] }
