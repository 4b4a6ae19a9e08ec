-- ===== src/Events/Projection.antt =====
-- What an event shows of the notification that it was made from.

use text.Mathlib.TextLemmas.{cons≢nil}
use baijimu_digital_employee.Base.{
  ℕ, String, ◌≡◌, ◌≢◌, ◌↔◌, ◌⊎◌, Bool, true, false, Option, some, Result, ok, arith, and_then,
  eq_iff, Option-cases, is_some, inl, inr,
}
use baijimu_digital_employee.Json.{Value, Fields, get, get_str, as_object, as_str}
use baijimu_digital_employee.Json.Object
use baijimu_digital_employee.Text.{is_empty}
use baijimu_digital_employee.Events.{
  DomainEvent, is_final, required_string, normalize_turn_completed, normalize_codex_notification,
}

abbrev pub turn_field : Value → String → Option Value
turn_field params k = and_then (and_then (get params "turn") as_object) (λ turn. Object.get turn k)

abbrev turn_text : Value → String → Option String
turn_text params k = and_then (turn_field params k) as_str

abbrev turn_of : Value → Option Fields
turn_of params = and_then (get params "turn") as_object

-- All that an event of a completed turn may depend on.
pub record SameTurn (p q : Value) : Type 0 where
  pub thread : get p "threadId" ≡ get q "threadId"
  pub shape : is_some (turn_of p) ≡ is_some (turn_of q)
  pub id : turn_field p "id" ≡ turn_field q "id"
  pub status : turn_field p "status" ≡ turn_field q "status"
  pub completed_at : turn_field p "completedAt" ≡ turn_field q "completedAt"
  pub duration : turn_field p "durationMs" ≡ turn_field q "durationMs"
  pub failure : turn_field p "error" ≡ turn_field q "error"

abbrev pub is_event : Result String (Option DomainEvent) → Bool
is_event (ok (some event)) = true
is_event _ = false

-- Thread, turn and a final status are there.
abbrev pub IsCompletedTurn : Value → Type 0
IsCompletedTurn p =
    (t : String) × (u : String) × (s : String) × (get_str p "threadId" ≡ some t)
    × (turn_text p "id" ≡ some u)
    × (turn_text p "status" ≡ some s)
    × (t ≢ "")
    × (u ≢ "")
    × ((s ≡ "completed") ⊎ (s ≡ "interrupted") ⊎ (s ≡ "failed"))

is_empty_iff : (s : String) → (is_empty s ≡ true) ↔ (s ≡ "")
is_empty_iff String.[] = ground arith
is_empty_iff (String.◌∷◌ c s) = (λ h. cc, λ e. absurd (cons≢nil e))

is_final_iff :
    (s : String) → (is_final s ≡ true) ↔ ((s ≡ "completed") ⊎ (s ≡ "interrupted") ⊎ (s ≡ "failed"))
is_final_iff s = ground (arith, eq_iff s "completed", eq_iff s "interrupted", eq_iff s "failed")

module _ (sha256_hex : String → String) where
  turn_event_of :
      (p : Value) (time : String)
      → IsCompletedTurn p
      → is_event (normalize_turn_completed sha256_hex p time) ≡ true
  unfolding normalize_turn_completed required_string
  turn_event_of p time (t, u, s, ht, hu, hs, nt, nu, final) =
      ground (arith, is_empty_iff t, is_empty_iff u, is_final_iff s)

  of_turn_event :
      (p : Value) (time : String)
      → is_event (normalize_turn_completed sha256_hex p time) ≡ true
      → IsCompletedTurn p
  unfolding normalize_turn_completed required_string
  of_turn_event p time h = elim (Option-cases (get_str p "threadId")) [
    | inl e ↦ ground arith
    | inr (t, ht) ↦ elim (Option-cases (turn_text p "id")) [
      | inl e ↦ ground arith
      | inr (u, hu) ↦ elim (Option-cases (turn_text p "status")) [
        | inl e ↦ ground arith
        | inr (s, hs) ↦ (
          t,
          u,
          s,
          ht,
          hu,
          hs,
          ground (arith, is_empty_iff t),
          ground (arith, is_empty_iff u),
          ground (arith, is_final_iff s),
        )
      ]
    ]
  ]

  -- A notification of a completed turn makes an event exactly if it has a thread id and a turn id,
  -- neither empty, and one of the three final statuses; the stream and the position do not matter.
  pub turn_event_iff :
      (p : Value) (time stream : String) (n : ℕ)
      → (is_event (normalize_codex_notification sha256_hex "turn/completed" p time stream n) ≡ true)
        ↔ IsCompletedTurn p
  unfolding normalize_codex_notification
  turn_event_iff p time stream n = (of_turn_event p time, turn_event_of p time)

  SameTurn-objects :
      (p q : Value) (time : String) (a b : Fields)
      → turn_of p ≡ some a
      → turn_of q ≡ some b
      → SameTurn p q
      → normalize_turn_completed sha256_hex p time ≡ normalize_turn_completed sha256_hex q time
  unfolding normalize_turn_completed required_string
  SameTurn-objects p q time a b ha hb h =
      let id : Object.get a "id" ≡ Object.get b "id" = cc (h.id) in
      let status : Object.get a "status" ≡ Object.get b "status" = cc (h.status) in
      let completed : Object.get a "completedAt" ≡ Object.get b "completedAt" =
        cc (h.completed_at) in
      let duration : Object.get a "durationMs" ≡ Object.get b "durationMs" = cc (h.duration) in
      let failure : Object.get a "error" ≡ Object.get b "error" = cc (h.failure) in
      rw (ha, hb, h.thread, id, status, completed, duration, failure)

  same_turn :
      (p q : Value) (time : String)
      → SameTurn p q
      → normalize_turn_completed sha256_hex p time ≡ normalize_turn_completed sha256_hex q time
  unfolding normalize_turn_completed required_string
  same_turn p q time h = elim (Option-cases (turn_of p)) [
    | inl e ↦ ground arith
    | inr (a, ha) ↦ elim (Option-cases (turn_of q)) [
      | inl e ↦ ground arith
      | inr (b, hb) ↦ SameTurn-objects p q time a b ha hb h
    ]
  ]

  -- The event of a completed turn, or the error, depends on nothing but the time, the thread id, and
  -- the id, status, completion time, duration and error of the turn: not on the turn's items, the
  -- stream or the position.
  pub turn_event_projection :
      (p q : Value) (time stream stream' : String) (n n' : ℕ)
      → SameTurn p q
      → normalize_codex_notification sha256_hex "turn/completed" p time stream n
        ≡ normalize_codex_notification sha256_hex "turn/completed" q time stream' n'
  unfolding normalize_codex_notification
  turn_event_projection p q time stream stream' n n' h = same_turn p q time h
