-- ===== src/Publisher/Tests.antt =====
-- The answers of the source's own test, and instances of the theorems about the worker.
use baijimu_digital_employee.Base.{
  ℕ, zero, suc, ◌+◌, ◌≤◌, ◌<◌, ◌≡◌, refl, ◌↔◌, String, true, false, none, some, List, [], ◌∷◌,
  arith, length, All,
}
use baijimu_digital_employee.Json.{Value, Fields, boolean, string, json}
use baijimu_digital_employee.Json.Object
use baijimu_digital_employee.EventStore.{PublishJob}
use baijimu_digital_employee.Publisher.{
  Answer, answered, receipt_names, de_receipt, is_accepted, publish,
}
use baijimu_digital_employee.Publisher.Retries.{IsWait, publish-waits}
use baijimu_digital_employee.Publisher.Contract.{IsReceipt}
use baijimu_digital_employee.Publisher.Receipt.{is_accepted_iff}
use baijimu_digital_employee.Serde.{struct_fields}

abbrev job : PublishJob
job = record {
  event_name = "codexNotification";
  event_id = "stable";
  occurred_at = "time";
  payload = json [];
}

abbrev receipt : String → Value
receipt event_id = json (
    ("contractVersion", string "2.0.0")
    ∷ ("eventId", string event_id)
    ∷ ("appId", string "app")
    ∷ ("status", string "queued")
    ∷ [])

-- A refusal, a malformed receipt, another event's receipt, and then the event's own.
abbrev host : ℕ → Answer
host zero = answered 503 none
host (suc zero) = answered 202 (some (json (("accepted", boolean true) ∷ [])))
host (suc (suc zero)) = answered 202 (some (receipt "other"))
host (suc (suc (suc n))) = answered 202 (some (receipt "stable"))

accepted_last : is_accepted "app" "stable" (host 3) ≡ true
unfolding is_accepted de_receipt Object.get Object.insert
accepted_last = refl

refused_before : (j : ℕ) → j < 3 → is_accepted "app" "stable" (host j) ≡ false
unfolding is_accepted de_receipt Object.get Object.insert
refused_before zero h = refl
refused_before (suc zero) h = refl
refused_before (suc (suc zero)) h = refl
refused_before (suc (suc (suc n))) h = absurd (omega arith)

publish-waits_example :
    (ms : List ℕ) × (publish "app" job host (3 + 1) ≡ some ms) × (length ms ≡ 3) × All IsWait ms
publish-waits_example = publish-waits "app" job host 3 accepted_last refused_before

is_accepted_iff_example :
    (is_accepted "app" "stable" (answered 202 (some (receipt "stable"))) ≡ true) ↔ (
      (status : ℕ) × (body : Value) × (fs : Fields) × (answered 202 (some (receipt "stable"))
        ≡ answered status (some body))
      × (200 ≤ status)
      × (status < 300)
      × (struct_fields receipt_names body ≡ some fs)
      × IsReceipt "app" "stable" fs)
is_accepted_iff_example = is_accepted_iff "app" "stable" (answered 202 (some (receipt "stable")))
