-- ===== src/Publisher.antt =====
-- The worker that hands domain events to the host: `PublisherWorker` of
-- src/app_server/event_store.rs, and the receipt of src/app_server/host_receipt.rs.
-- What the host answers to each attempt is an argument. Where a name of a JSON object is repeated, the
-- source's decoder fails, and the answer counts here as one with no document.
pub mod Contract
pub mod Receipt
pub mod Retries
mod Tests
use baijimu_digital_employee.Base.{
  ℕ, zero, suc, ◌+◌, ◌*◌, ◌^◌, min, String, Bool, true, false, ◌&&◌, ◌||◌, Option, none, some, List,
  [], ◌∷◌, ltb, leb, and_then, is_some_and, ◌==◌, if◌then◌else◌,
}
use baijimu_digital_employee.Json.{Value, null, string, object, Fields, end, field, json, as_str}
use baijimu_digital_employee.Json.Object
use baijimu_digital_employee.Serde.{struct_fields, has_only, required}
use baijimu_digital_employee.EventStore.{PublishJob}

-- `HostEventReceipt`, without the two fields that only have to be decoded
pub record HostEventReceipt : Type 0 where
  pub event_id : String
  pub app_id : String

-- A variant that holds nothing: its name, or an object of the name and null.
abbrev pub variant_of : Value → Option String
variant_of (string s) = some s
variant_of (object (field k null end)) = some k
variant_of _ = none

-- `HandoffContractVersion`
abbrev pub contract_version : Value → Option (Unit {0})
contract_version v = and_then (variant_of v) (λ s. if s == "2.0.0" then some tt else none)

-- `HostAcceptance`
abbrev pub host_acceptance : Value → Option (Unit {0})
host_acceptance v =
    and_then (variant_of v) (λ s. if s == "queued" || s == "no_subscribers" then some tt else none)

abbrev pub receipt_names : List String
receipt_names = "contractVersion" ∷ "eventId" ∷ "appId" ∷ "status" ∷ []

abbrev pub receipt_of : Fields → Option HostEventReceipt
receipt_of fs =
    if has_only receipt_names fs
    then and_then (required fs "contractVersion" contract_version) (λ _.
      and_then (required fs "eventId" as_str) (λ event_id.
        and_then (required fs "appId" as_str) (λ app_id.
          and_then (required fs "status" host_acceptance)
            (λ _. some (record { event_id = event_id; app_id = app_id })))))
    else none

unfoldable pub de_receipt : Value → Option HostEventReceipt
unfolding struct_fields has_only Object.get
de_receipt v = and_then (struct_fields receipt_names v) receipt_of

-- `accepts`
abbrev pub accepts : HostEventReceipt → String → String → Bool
accepts receipt app_id event_id = receipt.app_id == app_id && receipt.event_id == event_id

-- What the host answers: nothing in time, or a status and the body's document.
pub data Answer : Type 0 where
  no_answer : Answer
  answered : ℕ → Option Value → Answer

-- `accepted`
unfoldable pub is_accepted : String → String → Answer → Bool
unfolding de_receipt
is_accepted app_id event_id no_answer = false
is_accepted app_id event_id (answered status body) =
    leb 200 status
    && ltb status 300
    && is_some_and (and_then body de_receipt) (λ receipt. accepts receipt app_id event_id)

-- The body of each request.
unfoldable pub request_of : String → PublishJob → Value
request_of app_id job = json (
    ("appId", string app_id)
    ∷ ("event", string job.event_name)
    ∷ ("eventId", string job.event_id)
    ∷ ("payload", job.payload)
    ∷ ("occurredAt", string job.occurred_at)
    ∷ [])

-- The wait after an attempt, in milliseconds.
abbrev pub delay : ℕ → ℕ
delay attempt = 100 * 2 ^ min attempt 8

-- `attempt.saturating_add(1)`
abbrev pub next_attempt : ℕ → ℕ
next_attempt attempt = min (attempt + 1) 4294967295

abbrev pub after_delay : ℕ → Option (List ℕ) → Option (List ℕ)
after_delay ms none = none
after_delay ms (some l) = some (ms ∷ l)

-- The loop of `publish` from the answer to request `k` on: the waits until the host has accepted, or
-- `none` when the fuel is used up.
unfoldable pub publish_from : String → String → (ℕ → Answer) → ℕ → ℕ → ℕ → Option (List ℕ)
unfolding is_accepted
publish_from app_id event_id host zero k attempt = none
publish_from app_id event_id host (suc fuel) k attempt =
    let rest = publish_from app_id event_id host fuel (k + 1) (next_attempt attempt) in
    if is_accepted app_id event_id (host k) then some [] else after_delay (delay attempt) rest

-- `publish`
unfoldable pub publish : String → PublishJob → (ℕ → Answer) → ℕ → Option (List ℕ)
unfolding publish_from
publish app_id job host fuel = publish_from app_id job.event_id host fuel 0 0
