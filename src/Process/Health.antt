-- ===== src/Process/Health.antt =====
-- The health answer of a running connector (src/process_runtime.rs, `connector_health`,
-- `verified_connector_pid`, `wait_for_connector_health`). The connection is the answer that it gives.
use baijimu_digital_employee.Base.{
  ℕ, ◌^◌, ◌-◌, ◌*◌, String, Bool, true, false, ◌&&◌, ◌||◌, Option, none, some, List, [], ◌∷◌,
  Result, ok, err, ok_or, leb, eqb, is_some_and, unwrap_or, and_then, when, ◌==◌, guard, ◌>>◌,
  ◌>>=◌, if◌then◌else◌,
}
use baijimu_digital_employee.Text.Search.{starts_with, strip_prefix}
use baijimu_digital_employee.Json.{Value, get, as_str, as_u64, as_bool}
use baijimu_digital_employee.Json.Object

abbrev pub max_u32 : ℕ
max_u32 = 2 ^ 32 - 1

-- `pointer("/status/connector/{key}")`
unfoldable pub connector_field : Value → String → Option Value
unfolding Object.get
connector_field health key =
    and_then (and_then (get health "status") (λ s. get s "connector")) (λ c. get c key)

abbrev pub is_connector : Value → Bool
is_connector health =
    is_some_and (and_then (connector_field health "name") as_str)
      (λ n. n == "@baijimu/digital-employee-connector")

-- `verified_connector_pid`
unfoldable pub verified_connector_pid : Value → Result String ℕ
unfolding connector_field
verified_connector_pid health =
    guard (is_connector health) "health endpoint does not belong to the Codex connector"
    >> ok_or
        (and_then (and_then (connector_field health "pid") as_u64)
          (λ pid. when (leb pid max_u32) pid))
        "connector health response does not contain a valid pid"

-- The text behind the first `sep`, and the one in front of it.
unfoldable pub behind : String → String → Option String
unfolding strip_prefix
behind sep String.[] = strip_prefix sep ""
behind sep (String.◌∷◌ c s) = elim (strip_prefix sep (String.◌∷◌ c s)) [
  | some rest ↦ some rest
  | none ↦ behind sep s
]

unfoldable pub in_front : String → String → String
unfolding starts_with
in_front sep String.[] = ""
in_front sep (String.◌∷◌ c s) =
    let rest = String.◌∷◌ c (in_front sep s) in
    if starts_with (String.◌∷◌ c s) sep then "" else rest

-- `connector_health` of the bytes' number and their text.
unfoldable pub connector_health : (String → Result String Value) → ℕ → String → Result String Value
unfolding behind in_front starts_with
connector_health from_str size text = do
  _ ← guard (leb size (64 * 1024)) "connector health response exceeds 65536 bytes"
  _ ← guard (starts_with text "HTTP/1.1 200" || starts_with text "HTTP/1.0 200") text
  from_str (in_front "\r\n\r\n" (unwrap_or (behind "\r\n\r\n" text) ""))

abbrev pub is_well : Value → Bool
is_well body = unwrap_or (and_then (get body "ok") as_bool) false

abbrev pub has_pid : Option ℕ → Value → Bool
has_pid none body = true
has_pid (some pid) body =
    is_some_and (and_then (connector_field body "pid") as_u64) (λ p. eqb p pid)

abbrev latest : String → Result String Value → String
latest last (ok _) = last
latest last (err e) = e

abbrev accepted : Option ℕ → Result String Value → Option Value
accepted pid (ok body) = when (is_well body && has_pid pid body) body
accepted pid (err _) = none

-- The loop of `wait_for_connector_health` over the answers that come before the deadline.
unfoldable pub poll : Option ℕ → String → List (Result String Value) → Result String Value
unfolding connector_field Object.get
poll pid last [] = err last
poll pid last (answer ∷ rest) = elim (accepted pid answer) [
  | some body ↦ ok body
  | none ↦ poll pid (latest last answer) rest
]

-- `wait_for_connector_health`
unfoldable pub wait_for_connector_health :
    Option ℕ → List (Result String Value) → Result String Value
unfolding poll
wait_for_connector_health pid answers = poll pid "not started" answers
