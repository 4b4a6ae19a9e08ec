-- ===== src/EventStore/Retention.antt =====
-- What the store retains of the log of all its events: the last ones, under consecutive positions.
use baijimu_digital_employee.Base.{
  ℕ, zero, suc, ◌+◌, ◌-◌, ◌^◌, ◌≤◌, ◌<◌, ◌≡◌, refl, sym, ◌∙◌, ap, subst, String, Option, List, [],
  ◌∷◌, ◌++◌, arith, ltb, length, drop, length-append, length-drop, drop-append, drop-drop, drop_all,
  Bool-cases, inl, inr,
}
use baijimu_digital_employee.Json.{Value}
use baijimu_digital_employee.EventStore.{
  ConnectorEvent, PublishJob, EventStore, new_store, max_events, next_sequence, event_at, trim,
  record_event, newer,
}

-- The events are numbered in order, from the position after `n`.
abbrev pub Positions : ℕ → List ConnectorEvent → Type 0
Positions n [] = Unit
Positions n (e ∷ es) = (e.sequence ≡ suc n) × Positions (suc n) es

-- The store against the log of all its events.
pub record Holds (log : List ConnectorEvent) (store : EventStore) : Type 0 where
  pub counts : store.sequence ≡ length log
  pub keeps : store.retained ≡ drop (length log - max_events) log
  pub numbered : Positions 0 log

pub Positions-append :
    (n : ℕ) (es : List ConnectorEvent) (e : ConnectorEvent)
    → Positions n es
    → e.sequence ≡ suc (n + length es)
    → Positions n (es ++ e ∷ [])
Positions-append n [] e h p = (omega (arith, p), tt)
Positions-append n (x ∷ xs) e h p = (h.0, Positions-append (suc n) xs e h.1 (omega (arith, p)))

pub Positions-drop :
    (n m : ℕ) (es : List ConnectorEvent)
    → Positions n es
    → m ≤ length es
    → Positions (n + m) (drop m es)
Positions-drop n zero es h l = subst (λ k. Positions k es) (omega arith) h
Positions-drop n (suc m) [] h l = absurd (omega arith)
Positions-drop n (suc m) (x ∷ xs) h l =
    subst (λ k. Positions k (drop m xs)) (omega arith)
      (Positions-drop (suc n) m xs h.1 (omega arith))

drop-eq-suc :
    (k d : ℕ) (e : ConnectorEvent) (es : List ConnectorEvent)
    → k ≡ suc d
    → drop k (e ∷ es) ≡ drop d es
drop-eq-suc k d e es p = ap (λ n. drop n (e ∷ es)) p

drop-eq-zero : (k : ℕ) (es : List ConnectorEvent) → k ≡ 0 → drop k es ≡ es
drop-eq-zero k es p = ap (λ n. drop n es) p

trim-drop : (es : List ConnectorEvent) → trim es ≡ drop (length es - max_events) es
unfolding trim
trim-drop [] = sym (drop-eq-zero (0 - max_events) [] (omega arith))
trim-drop (e ∷ es) = elim (Bool-cases (ltb max_events (length (e ∷ es)))) [
  | inl h ↦ rw h (
      trim-drop es
      ∙ sym
          (drop-eq-suc (length (e ∷ es) - max_events) (length es - max_events) e es (ground arith)))
  | inr h ↦ rw h (sym (drop-eq-zero (length (e ∷ es) - max_events) (e ∷ es) (ground arith)))
]

-- Behind a position, numbered events are those after as many elements.
pub newer-all : (k n : ℕ) (es : List ConnectorEvent) → Positions n es → k ≤ n → newer k es ≡ es
unfolding newer
newer-all k n [] h l = refl
newer-all k n (e ∷ es) h l = ground (arith, newer-all k (suc n) es h.1 (omega arith))

pub newer-drop :
    (k n : ℕ) (es : List ConnectorEvent) → Positions n es → n ≤ k → newer k es ≡ drop (k - n) es
unfolding newer
newer-drop k n [] h l = sym (drop_all (k - n) [] (omega arith))
newer-drop k n (e ∷ es) h l = elim (Bool-cases (ltb k e.sequence)) [
  | inl q ↦ rw q (
      rw (newer-all k (suc n) es h.1 (ground arith))
        (sym (drop-eq-zero (k - n) (e ∷ es) (ground arith))))
  | inr q ↦ rw q (
      newer-drop k (suc n) es h.1 (ground arith)
      ∙ sym (drop-eq-suc (k - n) (k - suc n) e es (ground arith)))
]

-- The counter stays below its wrap-around.
pub next_sequence-small : (n : ℕ) → n + 1 < 2 ^ 64 → next_sequence n ≡ n + 1
next_sequence-small n h = ground arith

-- Dropping from the front after an append keeps the last events of the whole log.
trim-last :
    (log : List ConnectorEvent) (e : ConnectorEvent)
    → trim (drop (length log - max_events) log ++ e ∷ [])
      ≡ drop (length (log ++ e ∷ []) - max_events) (log ++ e ∷ [])
trim-last log e =
    ap trim joined
    ∙ trim-drop kept
    ∙ drop-drop (length kept - max_events) d whole
    ∙ ap (λ k. drop k whole) counted
  where
    d : ℕ
    d = length log - max_events

    whole : List ConnectorEvent
    whole = log ++ e ∷ []

    kept : List ConnectorEvent
    kept = drop d whole

    joined : drop d log ++ e ∷ [] ≡ kept
    joined = sym (drop-append d log (e ∷ []) (omega arith))

    counted : d + (length kept - max_events) ≡ length whole - max_events
    counted = omega (arith, length-drop d whole, length-append log (e ∷ []))

-- One more event.
pub record_event-Holds :
    (received_at method : String) (params : Value) (log : List ConnectorEvent) (store : EventStore)
    → Holds log store
    → store.sequence + 1 < 2 ^ 64
    → Holds
        (log ++ event_at received_at method params store ∷ [])
        (record_event received_at method params store)
unfolding record_event
record_event-Holds received_at method params log store h small = record {
  counts =
      next_sequence-small store.sequence small
      ∙ omega (arith, h.counts, length-append log (e ∷ []));
  keeps = ap (λ es. trim (es ++ e ∷ [])) h.keeps ∙ trim-last log e;
  numbered =
      Positions-append 0 log e h.numbered
        (next_sequence-small store.sequence small ∙ omega (arith, h.counts));
}
  where
    e : ConnectorEvent
    e = event_at received_at method params store

pub new_store-Holds :
    (publisher : Option (List PublishJob)) (stream_id : String)
    → Holds [] (new_store publisher stream_id)
new_store-Holds publisher stream_id = record {
  counts = refl;
  keeps = sym (drop-eq-zero (0 - max_events) [] (omega arith));
  numbered = tt;
}
