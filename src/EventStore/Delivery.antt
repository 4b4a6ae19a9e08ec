-- ===== src/EventStore/Delivery.antt =====
-- A subscriber in a run of the connector: pushes, other subscriptions and receivers in any order. What
-- its client has read, and what waits for it, joins its replay without a gap or a repetition.
use baijimu_digital_employee.Base.{
  ℕ, ◌+◌, ◌^◌, ◌≤◌, ◌<◌, ◌≡◌, refl, sym, ◌∙◌, ap, subst, ◌≢◌, String, true, Option, none, some,
  List, [], ◌∷◌, ◌++◌, map, arith, Result, ok, err, length, drop, get_elem?, set, drop-append,
  drop-length, drop_all, length-append, get_elem?-append, get_elem?-last, get_elem?-set_self,
  get_elem?-set_other, get_elem?-map, append_assoc, append-nil, map-append,
}
use baijimu_digital_employee.Json.{Value}
use baijimu_digital_employee.Cursor.{StreamCursor}
use baijimu_digital_employee.Events.{DomainEvent, normalize_codex_notification}
use baijimu_digital_employee.Files.{Codec}
use baijimu_digital_employee.ThreadState.Disk.{Disk, SaveFaults}
use baijimu_digital_employee.EventStore.{
  ConnectorEvent, Subscriber, EventStore, PublishJob, job_of, event, stream_subscriber_capacity,
  event_at, next_sequence, offer, record_event, publish, push, subscribe, receive, into_entry,
  fresh_subscriber,
}
use baijimu_digital_employee.EventStore.Retention.{Holds, record_event-Holds}
use baijimu_digital_employee.EventStore.Reads.{Reads, Reads-offer, Reads-read}
use baijimu_digital_employee.EventStore.Log.{InWindow, backlog-InWindow}

-- The store, the log of all events, and what the client of one subscriber has read.
pub record World : Type 0 where
  pub store : EventStore
  pub log : List ConnectorEvent
  pub seen : List ConnectorEvent

abbrev pub replaced : ℕ → Subscriber → EventStore → EventStore
replaced i s store = record store { subscribers = set store.subscribers i s }

module _ (codec : Codec) (io : SaveFaults) (sha256_hex : String → String) (i : ℕ) where
  -- The steps while the client of subscriber `i` reads on.
  pub data Step : World → World → Type 0 where
    pushed :
        (received_at method : String) (params : Value) (disk : Disk) (w : World)
        → w.store.sequence + 1 < 2 ^ 64
        → Step w (record {
          store = (push codec io sha256_hex received_at method params (w.store, disk)).0;
          log = w.log ++ event_at received_at method params w.store ∷ [];
          seen = w.seen;
        })
    joined :
        (after : Option StreamCursor) (w : World)
        → Step w (record w { store = (subscribe after w.store).1 })
    -- Another client receives or hangs up.
    other :
        (j : ℕ) (s : Subscriber) (w : World)
        → i ≢ j
        → Step w (record w { store = replaced j s w.store })
    read :
        (s s' : Subscriber) (e : ConnectorEvent) (w : World)
        → get_elem? w.store.subscribers i ≡ some s
        → receive s ≡ (event e, s')
        → Step w (record { store = replaced i s' w.store; log = w.log; seen = w.seen ++ e ∷ [] })

  pub data Run : World → World → Type 0 where
    done : {w : World} → Run w w
    more : {u v w : World} → Run u v → Step v w → Run u w

-- The hand-over to the host leaves the rest of the store as it is.
publish-state :
    (r : Result String (Option DomainEvent)) (store : EventStore)
    → (j : Option (List PublishJob)) × (publish r store ≡ record store { publisher = j })
publish-state (ok (some e)) store = go store.publisher refl
  where
    go :
        (o : Option (List PublishJob))
        → store.publisher ≡ o
        → (j : Option (List PublishJob)) × (publish (ok (some e)) store
            ≡ record store { publisher = j })
    go none p = (store.publisher, rw p refl)
    go (some jobs) p = (some (jobs ++ job_of e ∷ []), rw p refl)
publish-state (ok none) store = (store.publisher, refl)
publish-state (err e) store = (store.publisher, refl)

-- The subscriber `i` in a world, with the store's own invariant.
pub record Follows (i : ℕ) (first : List ConnectorEvent) (stream_id : String) (w : World)
    : Type 0 where
  pub holds : Holds w.log w.store
  pub stream : w.store.stream_id ≡ stream_id
  pub begun : length first ≤ length w.log
  pub since : List ConnectorEvent
  pub extends : w.log ≡ first ++ since
  pub subscriber : Subscriber
  pub found : get_elem? w.store.subscribers i ≡ some subscriber
  pub reads : Reads (length first) w.log w.seen subscriber

module _ (codec : Codec) (io : SaveFaults) (sha256_hex : String → String) where
  module _ (i : ℕ) (first : List ConnectorEvent) (stream_id : String) where
    Follows-push :
        (received_at method : String) (params : Value) (disk : Disk) (w : World)
        → w.store.sequence + 1 < 2 ^ 64
        → Follows i first stream_id w
        → Follows i first stream_id (record {
          store = (push codec io sha256_hex received_at method params (w.store, disk)).0;
          log = w.log ++ event_at received_at method params w.store ∷ [];
          seen = w.seen;
        })
    unfolding push record_event
    Follows-push received_at method params disk w small f =
        let (j, p) =
          publish-state
            (normalize_codex_notification sha256_hex method params received_at w.store.stream_id
              (next_sequence w.store.sequence))
            (record_event received_at method params w.store) in
        let e = event_at received_at method params w.store in
        let held = record_event-Holds received_at method params w.log w.store f.holds small in
        subst
          (λ st.
            Follows i first stream_id (record { store = st; log = w.log ++ e ∷ []; seen = w.seen }))
          (sym p)
          (record {
            holds = record { counts = held.counts; keeps = held.keeps; numbered = held.numbered };
            stream = f.stream;
            begun = omega (arith, f.begun, length-append w.log (e ∷ []));
            since = f.since ++ e ∷ [];
            extends = ap (λ l. l ++ e ∷ []) f.extends ∙ append_assoc first f.since (e ∷ []);
            subscriber = offer e f.subscriber;
            found = get_elem?-map (offer e) w.store.subscribers i f.subscriber f.found;
            reads = Reads-offer (length first) w.log w.seen f.subscriber e f.begun f.reads;
          })

    Step-Follows :
        (u v : World)
        → Step codec io sha256_hex i u v
        → Follows i first stream_id u
        → Follows i first stream_id v
    unfolding subscribe
    Step-Follows _ _ (pushed received_at method params disk w small) f =
        Follows-push received_at method params disk w small f
    Step-Follows _ _ (joined after w) f = record {
      holds = record {
        counts = f.holds.counts;
        keeps = f.holds.keeps;
        numbered = f.holds.numbered;
      };
      stream = f.stream;
      begun = f.begun;
      since = f.since;
      extends = f.extends;
      subscriber = f.subscriber;
      found = get_elem?-append w.store.subscribers (fresh_subscriber ∷ []) i f.subscriber f.found;
      reads = f.reads;
    }
    Step-Follows _ _ (other j s w n) f = record {
      holds = record {
        counts = f.holds.counts;
        keeps = f.holds.keeps;
        numbered = f.holds.numbered;
      };
      stream = f.stream;
      begun = f.begun;
      since = f.since;
      extends = f.extends;
      subscriber = f.subscriber;
      found = get_elem?-set_other w.store.subscribers i j s n ∙ f.found;
      reads = f.reads;
    }
    Step-Follows _ _ (read s s' e w at r) f = record {
      holds = record {
        counts = f.holds.counts;
        keeps = f.holds.keeps;
        numbered = f.holds.numbered;
      };
      stream = f.stream;
      begun = f.begun;
      since = f.since;
      extends = f.extends;
      subscriber = s';
      found = get_elem?-set_self w.store.subscribers i s s' at;
      reads =
          Reads-read (length first) w.log w.seen s s' e r
            (subst (Reads (length first) w.log w.seen) {x = f.subscriber} {y = s} (cc) f.reads);
    }

    Run-Follows :
        (u v : World)
        → Run codec io sha256_hex i u v
        → Follows i first stream_id u
        → Follows i first stream_id v
    Run-Follows u _ done f = f
    Run-Follows u w (more {v = v} r s) f = Step-Follows v w s (Run-Follows u v r f)

  subscribe-Follows :
      (log : List ConnectorEvent) (store : EventStore) (after : StreamCursor)
      → Holds log store
      → Follows
          (length store.subscribers)
          log
          store.stream_id
          (record { store = (subscribe (some after) store).1; log = log; seen = [] })
  unfolding subscribe
  subscribe-Follows log store after h = record {
    holds = record { counts = h.counts; keeps = h.keeps; numbered = h.numbered };
    stream = refl;
    begun = omega arith;
    since = [];
    extends = sym (append-nil log);
    subscriber = fresh_subscriber;
    found = get_elem?-last store.subscribers fresh_subscriber;
    reads = record {
      alive = refl;
      rest = [];
      joins = sym (drop_all (length log) log (omega arith));
      live = λ _. refl;
      bounded = omega arith;
    };
  }

  -- A store of a log, a subscription after a cursor in the window, and any run of pushes,
  -- subscriptions, other clients' steps and reads (the counter below its wrap-around): the replay,
  -- then what the client has read, then what waits for it, and then what a dropped subscriber lost,
  -- are exactly the events of the log behind the cursor. While the store holds the subscriber
  -- nothing is lost, and at most 1024 events wait.
  pub subscriber-no_gap :
      (log : List ConnectorEvent) (store : EventStore) (after : StreamCursor) (w : World)
      → Holds log store
      → InWindow log store after
      → Run codec io sha256_hex
          (subscribe (some after) store).0.live
          (record { store = (subscribe (some after) store).1; log = log; seen = [] })
          w
      → (s : Subscriber) × (lost : List ConnectorEvent) × (get_elem? w.store.subscribers
            (subscribe (some after) store).0.live
          ≡ some s)
        × ((subscribe (some after) store).0.backlog
              ++ map (into_entry store.stream_id) ((w.seen ++ s.queue) ++ lost)
            ≡ map (into_entry store.stream_id) (drop after.sequence w.log))
        × (s.subscribed ≡ true → lost ≡ [])
        × (length s.queue ≤ stream_subscriber_capacity)
  unfolding subscribe
  subscriber-no_gap log store after w h win run =
      let f =
        Run-Follows (length store.subscribers) log store.stream_id
          (record { store = (subscribe (some after) store).1; log = log; seen = [] }) w run
          (subscribe-Follows log store after h) in
      (
        f.subscriber,
        f.reads.rest,
        f.found,
        ap
              (λ es.
                es
                ++ map (into_entry store.stream_id)
                    ((w.seen ++ f.subscriber.queue) ++ f.reads.rest))
              (backlog-InWindow log store h after win)
            ∙ sym (
                map-append (into_entry store.stream_id) (drop after.sequence log)
                  ((w.seen ++ f.subscriber.queue) ++ f.reads.rest))
            ∙ ap (map (into_entry store.stream_id)) (
                ap (λ l. drop after.sequence log ++ l)
                  (f.reads.joins ∙ ap (drop (length log)) f.extends ∙ drop-length log f.since)
                ∙ sym (drop-append after.sequence log f.since win.2)
                ∙ ap (drop after.sequence) (sym f.extends)),
        f.reads.live,
        f.reads.bounded,
      )
