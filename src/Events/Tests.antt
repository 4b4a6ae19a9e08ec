-- ===== src/Events/Tests.antt =====
-- The notifications of the source's own tests, and instances of the theorems about events.

use baijimu_digital_employee.Base.{
  ℕ, String, ◌≡◌, refl, ◌↔◌, true, some, [], ◌∷◌, ok, err, List, arith,
}
use baijimu_digital_employee.Json.{Value, string, array, nil, number, pos_int, json}
use baijimu_digital_employee.Json.Object
use baijimu_digital_employee.Text.{to_decimal}
use baijimu_digital_employee.Events.{
  DomainEvent, turn_completed_name, thread_closed_name, stable_event_id, required_string,
  normalize_turn_completed, normalize_thread_lifecycle, normalize_codex_notification,
}
use baijimu_digital_employee.Events.Identity.{turn_event-event_id_iff, lifecycle_event-event_id_iff}
use baijimu_digital_employee.Events.Projection.{SameTurn, IsCompletedTurn, is_event, turn_event_iff}

abbrev turn_params : List (String × Value) → Value
turn_params more = json (
    ("threadId", string "thr_123")
    ∷ ("turn", json (("id", string "turn_456") ∷ ("status", string "failed") ∷ more))
    ∷ [])

abbrev plain : Value
plain = turn_params []

abbrev with_items : Value
with_items = turn_params (("items", array nil) ∷ [])

-- A digest that gives back its text stands in for SHA-256.
abbrev same_text : String → String
same_text s = s

abbrev turn_event : DomainEvent
turn_event = record {
  name = turn_completed_name;
  event_id = "codex_domain_v1_baijimu-codex-domain-event-v1\0codexTurnCompleted\0thr_123\0turn_456";
  occurred_at = "101";
  payload = json (
      ("schemaVersion", number (pos_int 1))
      ∷ ("threadId", string "thr_123")
      ∷ ("turnId", string "turn_456")
      ∷ ("status", string "failed")
      ∷ ("completedAt", Value.null)
      ∷ ("durationMs", Value.null)
      ∷ ("error", Value.null)
      ∷ ("occurredAt", string "101")
      ∷ ("source", string "codex-app-server")
      ∷ ("sourceMethod", string "turn/completed")
      ∷ ("connectorVersion", string "4.0.0")
      ∷ []);
}

completed :
    normalize_codex_notification same_text "turn/completed" with_items "101" "stream-a" 7
    ≡ ok (some turn_event)
unfolding normalize_codex_notification normalize_turn_completed required_string stable_event_id
    Object.get Object.insert
completed = refl

in_progress :
    normalize_codex_notification same_text "turn/completed"
      (json (
        ("threadId", string "thr_123")
        ∷ ("turn", json (("id", string "turn_456") ∷ ("status", string "inProgress") ∷ []))
        ∷ []))
      "101"
      "stream-a"
      7
    ≡ err "turn/completed has no final turn.status"
unfolding normalize_codex_notification normalize_turn_completed required_string Object.get
    Object.insert
in_progress = refl

turn_event-event_id_iff_example :
    (turn_event.event_id ≡ turn_event.event_id)
    ↔ ((◌≡◌ {A = String} "thr_123" "thr_123") × (◌≡◌ {A = String} "turn_456" "turn_456"))
unfolding Object.get Object.insert
turn_event-event_id_iff_example =
    turn_event-event_id_iff same_text with_items with_items "101" "101" "stream-a" "stream-a" 7 7
      "thr_123" "turn_456" "thr_123" "turn_456" turn_event turn_event refl refl refl refl completed
      completed (omega arith) (omega arith) (λ e. e)

abbrev closed_params : Value
closed_params = json (("threadId", string "thr_123") ∷ [])

abbrev closed_event : String → DomainEvent
closed_event position = record {
  name = thread_closed_name;
  event_id = position;
  occurred_at = "101";
  payload = json (
      ("schemaVersion", number (pos_int 1))
      ∷ ("threadId", string "thr_123")
      ∷ ("occurredAt", string "101")
      ∷ ("source", string "codex-app-server")
      ∷ ("sourceMethod", string "thread/closed")
      ∷ ("connectorVersion", string "4.0.0")
      ∷ []);
}

abbrev id_at_7 : String
id_at_7 = "codex_domain_v1_baijimu-codex-domain-event-v1\0codexThreadClosed\0stream-a\07\0thr_123"

abbrev id_at_8 : String
id_at_8 = "codex_domain_v1_baijimu-codex-domain-event-v1\0codexThreadClosed\0stream-a\08\0thr_123"

closed_at_7 :
    normalize_thread_lifecycle same_text thread_closed_name "thread/closed" closed_params "101"
      "stream-a" 7
    ≡ ok (some (closed_event id_at_7))
unfolding normalize_thread_lifecycle required_string stable_event_id to_decimal Object.get
    Object.insert
closed_at_7 = refl

closed_at_8 :
    normalize_thread_lifecycle same_text thread_closed_name "thread/closed" closed_params "101"
      "stream-a" 8
    ≡ ok (some (closed_event id_at_8))
unfolding normalize_thread_lifecycle required_string stable_event_id to_decimal Object.get
    Object.insert
closed_at_8 = refl

lifecycle_event-event_id_iff_example : (◌≡◌ {A = String} id_at_7 id_at_8) ↔ (
    (◌≡◌ {A = String} thread_closed_name thread_closed_name)
    × (◌≡◌ {A = String} "stream-a" "stream-a")
    × (◌≡◌ {A = ℕ} 7 8)
    × (◌≡◌ {A = String} "thr_123" "thr_123"))
unfolding Object.get Object.insert
lifecycle_event-event_id_iff_example =
    lifecycle_event-event_id_iff same_text thread_closed_name thread_closed_name "thread/closed"
      "thread/closed" closed_params closed_params "101" "101" "stream-a" "stream-a" 7 8 "thr_123"
      "thr_123" (closed_event id_at_7) (closed_event id_at_8) refl refl closed_at_7 closed_at_8
      (omega arith) (omega arith) (omega arith) (omega arith) (λ e. e)

turn_event_iff_example :
    (is_event (normalize_codex_notification same_text "turn/completed" plain "101" "stream-a" 7)
      ≡ true)
    ↔ IsCompletedTurn plain
turn_event_iff_example = turn_event_iff same_text plain "101" "stream-a" 7

same_but_items : SameTurn plain with_items
unfolding Object.get Object.insert
same_but_items = record {
  thread = refl;
  shape = refl;
  id = refl;
  status = refl;
  completed_at = refl;
  duration = refl;
  failure = refl;
}
