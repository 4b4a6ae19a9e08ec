-- ===== src/EventStore/Recent.antt =====
-- What `recent` shows: the newest retained events behind a position, oldest first.
use mathlib.Core.List.{reverse, reverse-cons, reverse-reverse}
use baijimu_digital_employee.Base.{
  ℕ, zero, suc, ◌-◌, min, max, ◌≤◌, ◌≡◌, refl, ◌∙◌, ap, List, [], ◌∷◌, ◌++◌, arith, leb, length,
  take, drop, length-append, length-drop, Bool-cases, inl, inr,
}
use baijimu_digital_employee.Json.{Value}
use baijimu_digital_employee.EventStore.{
  ConnectorEvent, EventStore, max_events, newer, limit_of, after_of, recent_events,
}
use baijimu_digital_employee.EventStore.Retention.{Holds}
use baijimu_digital_employee.EventStore.Log.{newer-behind}

module _ {ℓ} {A : Type ℓ} where
  length-reverse : (xs : List A) → length (reverse xs) ≡ length xs
  length-reverse [] = refl
  length-reverse (x ∷ xs) =
      ap length (reverse-cons x xs)
      ∙ omega (arith, length-append (reverse xs) (x ∷ []), length-reverse xs)

  take_all : (n : ℕ) (xs : List A) → length xs ≤ n → take n xs ≡ xs
  take_all zero [] h = refl
  take_all zero (x ∷ xs) h = absurd (omega arith)
  take_all (suc n) [] h = refl
  take_all (suc n) (x ∷ xs) h = ap (λ l. x ∷ l) (take_all n xs (omega arith))

  take-append : (n : ℕ) (xs ys : List A) → n ≤ length xs → take n (xs ++ ys) ≡ take n xs
  take-append zero xs ys h = refl
  take-append (suc n) [] ys h = absurd (omega arith)
  take-append (suc n) (x ∷ xs) ys h = ap (λ l. x ∷ l) (take-append n xs ys (omega arith))

  -- The last elements, taken from behind and put in order again.
  pub take-reverse : (n : ℕ) (xs : List A) → reverse (take n (reverse xs)) ≡ drop (length xs - n) xs
  take-reverse n [] =
      ap reverse (take_all n [] (omega arith))
      ∙ ap (λ k. drop k []) {x = 0} {y = 0 - n} (omega arith)
  take-reverse n (x ∷ xs) = elim (Bool-cases (leb n (length xs))) [
    | inl h ↦
        ap (λ l. reverse (take n l)) (reverse-cons x xs)
        ∙ ap reverse (take-append n (reverse xs) (x ∷ []) (ground (arith, length-reverse xs)))
        ∙ take-reverse n xs
        ∙ ap (λ k. drop k (x ∷ xs)) {x = suc (length xs - n)} {y = suc (length xs) - n}
            (ground arith)
    | inr h ↦
        ap reverse (take_all n (reverse (x ∷ xs)) (ground (arith, length-reverse (x ∷ xs))))
        ∙ reverse-reverse (x ∷ xs)
        ∙ ap (λ k. drop k (x ∷ xs)) {x = 0} {y = suc (length xs) - n} (ground arith)
  ]

-- The retained events of a log that are behind a position.
abbrev pub behind : ℕ → List ConnectorEvent → List ConnectorEvent
behind k log = drop (max k (length log - max_events)) log

-- In the store of a log of all events: of the log's last 1000 events, `recent` shows those behind the
-- given position, and of these the last ones up to the limit, oldest first. The limit is at least 1
-- and at most 500.
pub recent_events-newest :
    (body : Value) (log : List ConnectorEvent) (store : EventStore)
    → Holds log store
    → (recent_events body store
        ≡ drop (length (behind (after_of body) log) - limit_of body) (behind (after_of body) log))
      × (length (recent_events body store)
          ≡ min
              (limit_of body)
              (min max_events (length log) - (after_of body - (length log - max_events))))
      × (1 ≤ limit_of body)
      × (limit_of body ≤ 500)
unfolding recent_events
recent_events-newest body log store h = (newest, counted, ground arith, ground arith)
  where
    newest :
        recent_events body store
        ≡ drop (length (behind (after_of body) log) - limit_of body) (behind (after_of body) log)
    newest =
        take-reverse (limit_of body) (newer (after_of body) store.retained)
        ∙ ap (λ es. drop (length es - limit_of body) es) (newer-behind log store h (after_of body))

    counted :
        length (recent_events body store)
        ≡ min
            (limit_of body)
            (min max_events (length log) - (after_of body - (length log - max_events)))
    counted =
        ap length newest
        ∙ omega (
          arith,
          length-drop (length (behind (after_of body) log) - limit_of body)
              (behind (after_of body) log),
          length-drop (max (after_of body) (length log - max_events)) log,
        )
