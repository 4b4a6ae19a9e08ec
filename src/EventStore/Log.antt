-- ===== src/EventStore/Log.antt =====
-- `subscribe` against the log of all events: the replay of a cursor in the window, or a resync.
use baijimu_digital_employee.Base.{
  ℕ, ◌+◌, ◌-◌, ◌≤◌, ◌≡◌, refl, sym, ◌∙◌, ap, subst, ◌⊎◌, true, max, none, some, List, [], ◌∷◌, map,
  arith, leb, length, drop, length-drop, drop-drop, eq_iff, eq_refl, Bool-cases, inl, inr,
}
use baijimu_digital_employee.Cursor.{StreamCursor}
use baijimu_digital_employee.EventStore.{
  ConnectorEvent, EventStore, max_events, oldest_of, continues, newer, plan, into_entry, subscribe,
}
use baijimu_digital_employee.EventStore.Retention.{
  Positions, Holds, Positions-drop, newer-all, newer-drop,
}

-- The cursor is of this run of the connector, and every event behind it is still retained.
abbrev pub InWindow : List ConnectorEvent → EventStore → StreamCursor → Type 0
InWindow log store after =
    (after.stream_id ≡ store.stream_id)
    × (length log ≤ after.sequence + max_events)
    × (after.sequence ≤ length log)

oldest_of-Positions :
    (n d : ℕ) (es : List ConnectorEvent) → Positions d es → n ≡ d + length es → oldest_of n es ≡ d
oldest_of-Positions n d [] h p = omega (arith, p)
oldest_of-Positions n d (e ∷ es) h p = omega (arith, h.0)

module _ (log : List ConnectorEvent) (store : EventStore) (h : Holds log store) where
  retained-Positions : Positions (length log - max_events) store.retained
  retained-Positions = subst (Positions (length log - max_events)) (sym h.keeps) (
      subst (λ k. Positions k (drop (length log - max_events) log))
        {x = 0 + (length log - max_events)} (omega arith)
        (Positions-drop 0 (length log - max_events) log h.numbered (omega arith)))

  oldest_of-retained : oldest_of store.sequence store.retained ≡ length log - max_events
  oldest_of-retained =
      oldest_of-Positions store.sequence (length log - max_events) store.retained retained-Positions
        (h.counts
          ∙ (omega (arith, length-drop (length log - max_events) log)
              ∙ ap (λ es. (length log - max_events) + length es) (sym h.keeps)))

  newer-retained : (k : ℕ) → length log ≤ k + max_events → newer k store.retained ≡ drop k log
  newer-retained k l =
      newer-drop k (length log - max_events) store.retained retained-Positions (omega arith)
      ∙ ap (drop (k - (length log - max_events))) h.keeps
      ∙ drop-drop (k - (length log - max_events)) (length log - max_events) log
      ∙ ap (λ n. drop n log) (omega arith)

  pub newer-behind : (k : ℕ) → newer k store.retained ≡ drop (max k (length log - max_events)) log
  newer-behind k = elim (Bool-cases (leb (length log) (k + max_events))) [
    | inl q ↦
        newer-retained k (ground arith)
        ∙ ap (λ n. drop n log) {x = k} {y = max k (length log - max_events)} (ground arith)
    | inr q ↦
        newer-all k (length log - max_events) store.retained retained-Positions (ground arith)
        ∙ h.keeps
        ∙ ap (λ n. drop n log) {y = max k (length log - max_events)} (ground arith)
  ]

  continues-InWindow :
      (after : StreamCursor) → InWindow log store after → continues after store ≡ true
  unfolding continues
  continues-InWindow after w =
      rw (w.0, eq_refl store.stream_id) (ground (arith, oldest_of-retained, h.counts, w.1, w.2))

  InWindow-continues :
      (after : StreamCursor) → continues after store ≡ true → InWindow log store after
  unfolding continues
  InWindow-continues after q = (
    ground (arith, eq_iff after.stream_id store.stream_id),
    ground (arith, oldest_of-retained),
    ground (arith, h.counts),
  )

  -- In the store of a log of all events: a subscription after a cursor in the window has no resync and
  -- replays exactly the events of the log behind the cursor, oldest first; after any other cursor it
  -- replays nothing and has a resync at the log's end.
  pub subscribe-backlog :
      (after : StreamCursor)
      → (InWindow log store after
          × ((subscribe (some after) store).0.resync ≡ none)
          × ((subscribe (some after) store).0.backlog
              ≡ map (into_entry store.stream_id) (drop after.sequence log)))
        ⊎ ((¬ InWindow log store after)
            × ((subscribe (some after) store).0.resync
                ≡ some (record { stream_id = store.stream_id; sequence = length log }))
            × ((subscribe (some after) store).0.backlog ≡ []))
  unfolding subscribe plan
  subscribe-backlog after = elim (Bool-cases (continues after store)) [
    | inl q ↦ rw q (
        inl (
          InWindow-continues after q,
          refl,
          ap (map (into_entry store.stream_id))
              (newer-retained after.sequence (InWindow-continues after q).1),
        ))
    | inr q ↦ rw q (
        inr (
          λ w. ground (arith, continues-InWindow after w),
          ap (λ n. some (record { stream_id = store.stream_id; sequence = n })) h.counts,
          refl,
        ))
  ]

  pub backlog-InWindow :
      (after : StreamCursor)
      → InWindow log store after
      → (subscribe (some after) store).0.backlog
        ≡ map (into_entry store.stream_id) (drop after.sequence log)
  backlog-InWindow after w = elim (subscribe-backlog after) [ inl h ↦ h.2 | inr h ↦ absurd (h.0 w) ]
