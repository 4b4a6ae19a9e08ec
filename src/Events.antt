-- ===== src/Events.antt =====
-- Domain events (src/events.rs). SHA-256 is a parameter: `sha256_hex` takes the text whose bytes are
-- hashed to the digest in hexadecimal.
pub mod Identity
pub mod Projection
mod Tests
use baijimu_digital_employee.Base.{
  ℕ, String, Bool, true, false, ◌||◌, not, Option, none, some, List, [], ◌∷◌, Result, ok, err,
  ◌>>=◌, ok_or, and_then, unwrap_or, when, ◌==◌, if◌then◌else◌,
}
use baijimu_digital_employee.Json.{
  Value, null, string, number, pos_int, Fields, json, as_object, as_str, get, get_str,
}
use baijimu_digital_employee.Json.Object
use baijimu_digital_employee.Text.{◌⁺⁺◌, is_empty, to_decimal}

-- `DomainEvent`
pub record DomainEvent : Type 0 where
  pub name : String
  pub event_id : String
  pub occurred_at : String
  pub payload : Value

abbrev pub turn_completed_name : String
turn_completed_name = "codexTurnCompleted"

abbrev pub thread_closed_name : String
thread_closed_name = "codexThreadClosed"

abbrev pub thread_archived_name : String
thread_archived_name = "codexThreadArchived"

abbrev pub thread_deleted_name : String
thread_deleted_name = "codexThreadDeleted"

-- CARGO_PKG_VERSION
abbrev pub version : String
version = "4.0.0"

abbrev pub non_empty : Option String → Option String
non_empty none = none
non_empty (some s) = when (not (is_empty s)) s

-- `required_string`
unfoldable pub required_string : Value → String → String → Result String String
required_string value name method =
    ok_or (non_empty (get_str value name)) (method ⁺⁺ " is missing string field " ⁺⁺ name)

abbrev pub is_final : String → Bool
is_final s = s == "completed" || s == "interrupted" || s == "failed"

abbrev pub final_status : Option String → Option String
final_status none = none
final_status (some s) = when (is_final s) s

abbrev pub joined : List String → String
joined [] = ""
joined (p ∷ ps) = "\0" ⁺⁺ p ⁺⁺ joined ps

-- The text that is hashed for an event.
unfoldable pub preimage : String → List String → String
preimage name parts = "baijimu-codex-domain-event-v1\0" ⁺⁺ name ⁺⁺ joined parts

abbrev pub value_or_null : Fields → String → Value
value_or_null fs k = unwrap_or (Object.get fs k) null

module _ (sha256_hex : String → String) where
  -- `stable_event_id`
  unfoldable pub stable_event_id : String → List String → String
  unfolding preimage
  stable_event_id name parts = "codex_domain_v1_" ⁺⁺ sha256_hex (preimage name parts)

  -- `normalize_turn_completed`
  unfoldable pub normalize_turn_completed : Value → String → Result String (Option DomainEvent)
  normalize_turn_completed params occurred_at = do
    thread ← required_string params "threadId" "turn/completed"
    turn ←
        ok_or (and_then (get params "turn") as_object) "turn/completed is missing object field turn"
    turn_id ←
        ok_or (non_empty (and_then (Object.get turn "id") as_str))
          "turn/completed is missing turn.id"
    status ←
        ok_or (final_status (and_then (Object.get turn "status") as_str))
          "turn/completed has no final turn.status"
    ok (
        some (record {
          name = turn_completed_name;
          event_id = stable_event_id turn_completed_name (thread ∷ turn_id ∷ []);
          occurred_at = occurred_at;
          payload = json (
              ("schemaVersion", number (pos_int 1))
              ∷ ("threadId", string thread)
              ∷ ("turnId", string turn_id)
              ∷ ("status", string status)
              ∷ ("completedAt", value_or_null turn "completedAt")
              ∷ ("durationMs", value_or_null turn "durationMs")
              ∷ ("error", value_or_null turn "error")
              ∷ ("occurredAt", string occurred_at)
              ∷ ("source", string "codex-app-server")
              ∷ ("sourceMethod", string "turn/completed")
              ∷ ("connectorVersion", string version)
              ∷ []);
        }))

  -- `normalize_thread_lifecycle`
  unfoldable pub normalize_thread_lifecycle :
      String → String → Value → String → String → ℕ → Result String (Option DomainEvent)
  normalize_thread_lifecycle event_name method params occurred_at stream_id sequence = do
    thread ← required_string params "threadId" method
    ok (
        some (record {
          name = event_name;
          event_id = stable_event_id event_name (stream_id ∷ to_decimal sequence ∷ thread ∷ []);
          occurred_at = occurred_at;
          payload = json (
              ("schemaVersion", number (pos_int 1))
              ∷ ("threadId", string thread)
              ∷ ("occurredAt", string occurred_at)
              ∷ ("source", string "codex-app-server")
              ∷ ("sourceMethod", string method)
              ∷ ("connectorVersion", string version)
              ∷ []);
        }))

  -- `normalize_codex_notification`
  unfoldable pub normalize_codex_notification :
      String → Value → String → String → ℕ → Result String (Option DomainEvent)
  normalize_codex_notification method params occurred_at stream_id sequence =
      let lifecycle = λ (name : String).
        normalize_thread_lifecycle name method params occurred_at stream_id sequence in
      if method == "turn/completed"
      then normalize_turn_completed params occurred_at
      else if method == "thread/closed"
      then lifecycle thread_closed_name
      else if method == "thread/archived"
      then lifecycle thread_archived_name
      else if method == "thread/deleted"
      then lifecycle thread_deleted_name
      else ok none
