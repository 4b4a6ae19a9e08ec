-- ===== src/ServerRequests/Tests.antt =====
-- A reply of the source's own test, and an instance of the theorem about replies.
use baijimu_digital_employee.Base.{◌≡◌, ◌↔◌, ok, []}
use baijimu_digital_employee.Json.{pos_int, json}
use baijimu_digital_employee.ServerRequests.{
  ServerRequest, Reply, number_id, decision, accept, validate_reply,
}
use baijimu_digital_employee.ServerRequests.Validation.{Fits, validate_reply_iff}

abbrev approval : ServerRequest
approval = record {
  request_id = number_id (pos_int 1);
  method = "item/commandExecution/requestApproval";
  thread_id = "thread";
  turn_id = "turn";
  params = json [];
}

abbrev acceptance : Reply
acceptance = record {
  thread_id = "thread";
  turn_id = "turn";
  request_id = number_id (pos_int 1);
  result = decision accept;
}

validate_reply_iff_example : (validate_reply approval acceptance ≡ ok tt) ↔ (
    (acceptance.thread_id ≡ approval.thread_id)
    × (acceptance.turn_id ≡ approval.turn_id)
    × (acceptance.request_id ≡ approval.request_id)
    × Fits approval acceptance.result)
validate_reply_iff_example = validate_reply_iff approval acceptance
