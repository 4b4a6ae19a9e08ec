-- ===== src/ServerRequests.antt =====
-- The requests that the Codex app-server sends to the connector, and the replies to them
-- (src/app_server/server_requests.rs): the data, and the test of a reply against its request.
pub mod Validation
mod Tests
use baijimu_digital_employee.Base.{
  ◌^◌, String, Bool, false, not, ◌&&◌, ◌||◌, Option, none, some, List, [], ◌∷◌, map, err, ltb, eqb,
  length, any, and_then, ok_or, is_some_and, ◌==◌, ◌>>=◌, ◌>>◌, guard, if◌then◌else◌,
}
use baijimu_digital_employee.Json.{
  Number, pos_int, neg_int, Value, number, string, array, object, items_of, json, fields_of,
  as_array, get, get_str, value_eq,
}
use baijimu_digital_employee.Map.{Map, string_order, contains_key}
use baijimu_digital_employee.Http.{http_error, Http}

-- `RequestId`; a number is one of the integers in the range of i64.
pub data RequestId : Type 0 where
  number_id : Number → RequestId
  text_id : String → RequestId

abbrev pub request_id_eq : RequestId → RequestId → Bool
request_id_eq (number_id m) (number_id n) = value_eq (number m) (number n)
request_id_eq (text_id s) (text_id t) = s == t
request_id_eq _ _ = false

-- `serde_json::from_value::<RequestId>`
unfoldable pub de_request_id : Value → Option RequestId
de_request_id (number (pos_int n)) = if ltb n (2 ^ 63) then some (number_id (pos_int n)) else none
de_request_id (number (neg_int n)) = if ltb n (2 ^ 63) then some (number_id (neg_int n)) else none
de_request_id (string s) = some (text_id s)
de_request_id _ = none

abbrev pub encode_request_id : RequestId → Value
encode_request_id (number_id n) = number n
encode_request_id (text_id s) = string s

-- `ServerRequest`
pub record ServerRequest : Type 0 where
  pub request_id : RequestId
  pub method : String
  pub thread_id : String
  pub turn_id : String
  pub params : Value

abbrev pub encode_request : ServerRequest → Value
encode_request r = json (
    ("requestId", encode_request_id r.request_id)
    ∷ ("method", string r.method)
    ∷ ("threadId", string r.thread_id)
    ∷ ("turnId", string r.turn_id)
    ∷ ("params", r.params)
    ∷ [])

-- `Decision`
pub data Decision : Type 0 where
  accept : Decision
  decline : Decision
  cancel : Decision

-- `ReplyResult`, with `DecisionReply`, `AnswersReply` and `Answer`
pub data ReplyResult : Type 0 where
  decision : Decision → ReplyResult
  answers : Map String (List String) → ReplyResult

-- `Reply`
pub record Reply : Type 0 where
  pub thread_id : String
  pub turn_id : String
  pub request_id : RequestId
  pub result : ReplyResult

abbrev decision_name : Decision → String
decision_name accept = "accept"
decision_name decline = "decline"
decision_name cancel = "cancel"

abbrev answer_entry : String × List String → String × Value
answer_entry (k, l) = (k, json (("answers", array (items_of (map (λ s. string s) l))) ∷ []))

abbrev pub encode_result : ReplyResult → Value
encode_result (decision d) = json (("decision", string (decision_name d)) ∷ [])
encode_result (answers m) = json (("answers", object (fields_of (map answer_entry m))) ∷ [])

abbrev pub is_approval : String → Bool
is_approval m =
    m == "item/commandExecution/requestApproval" || m == "item/fileChange/requestApproval"

abbrev pub is_question : String → Bool
is_question m = m == "item/tool/requestUserInput"

abbrev pub fill_request : RequestId → Value → String → Option ServerRequest
fill_request request_id params method = and_then (get_str params "threadId") (λ thread_id.
    and_then (get_str params "turnId") (λ turn_id. some (record {
      request_id = request_id;
      method = method;
      thread_id = thread_id;
      turn_id = turn_id;
      params = params;
    })))

-- The request in a message of the app-server.
unfoldable pub read_request : Value → Value → String → Option ServerRequest
unfolding de_request_id
read_request id params method = and_then (de_request_id id) (λ request_id.
    if is_approval method || is_question method
    then fill_request request_id params method
    else none)

-- A question that the answers leave out.
unfoldable pub is_unanswered : Map String (List String) → Value → Bool
unfolding contains_key
is_unanswered m q = not (is_some_and (get_str q "id") (λ id. contains_key m id))

unfoldable pub check_answers : Map String (List String) → Value → Http (Unit {0})
unfolding is_unanswered
check_answers m params =
    ok_or (and_then (get params "questions") as_array) (http_error 400 "invalid pending questions")
    >>= λ questions.
        guard (eqb (length m) (length questions) && not (any (is_unanswered m) questions))
          (http_error 400 "answers do not match pending questions")

unfoldable pub check_result : ServerRequest → ReplyResult → Http (Unit {0})
unfolding check_answers
check_result request (decision d) =
    guard (is_approval request.method)
      (http_error 400 "response does not match server request method")
check_result request (answers m) =
    if is_question request.method
    then check_answers m request.params
    else err (http_error 400 "response does not match server request method")

-- `validate_reply`
unfoldable pub validate_reply : ServerRequest → Reply → Http (Unit {0})
unfolding check_result
validate_reply request reply =
    guard
      (reply.thread_id == request.thread_id
        && reply.turn_id == request.turn_id
        && request_id_eq reply.request_id request.request_id)
      (http_error 403 "server request belongs to another thread or turn")
    >> check_result request reply.result
