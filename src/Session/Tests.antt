-- ===== src/Session/Tests.antt =====
-- The exchange of the source's own test, and instances of the theorems about a session.
use baijimu_digital_employee.Base.{
  ◌≡◌, refl, ◌⊎◌, String, true, false, none, some, [], ◌∷◌, arith, ok, err,
}
use baijimu_digital_employee.Text.{to_decimal}
use baijimu_digital_employee.Json.{Value, number, pos_int, string, json, get, value_eq}
use baijimu_digital_employee.Json
use baijimu_digital_employee.Json.Object
use baijimu_digital_employee.Map
use baijimu_digital_employee.Map.{nat_order, string_order}
use baijimu_digital_employee.Http.{HttpError, http_error}
use baijimu_digital_employee.ServerRequests.{
  ServerRequest, Reply, accept, decision, number_id, validate_reply,
}
use baijimu_digital_employee.Session.{
  Session, transport, new_session, take_id, entered, write_message, call_message, WriteFault,
  beginning, dispatch_value, mark_exited, respond, await,
}
use baijimu_digital_employee.Session.Calls.{Accounts}
use baijimu_digital_employee.Session.Reach.{
  called, entered_it, wrote, read_line, Reach, start, step, reachable-Accounts,
}
use baijimu_digital_employee.Session.Answers.{
  Fails, Ends, Answers, mark_exited-Fails, dispatch_value-response,
}
use baijimu_digital_employee.Session.Requests.{Filed}
use baijimu_digital_employee.Session.Capacity.{reachable-Filed}
use baijimu_digital_employee.Session.Replies.{Belongs, TakenOut, Sent, key, respond-outcome}

-- The text of an id, for numbers and strings.
abbrev text_of : Value → String
text_of (number (pos_int n)) = to_decimal n
text_of (string s) = s
text_of _ = ""

abbrev one_call : Session
one_call =
    (write_message none (call_message "turn/start" 1 (json []))
      (entered 1 (take_id new_session).1)).1

abbrev approval : Value
approval = json (
    ("id", number (pos_int 1))
    ∷ ("method", string "item/fileChange/requestApproval")
    ∷ ("params", json (("threadId", string "thread") ∷ ("turnId", string "turn") ∷ []))
    ∷ [])

abbrev response : Value
response = json (("id", number (pos_int 1)) ∷ ("result", string "done") ∷ [])

abbrev asked : Session
asked = (dispatch_value text_of none approval one_call).1

abbrev reply : Reply
reply = record {
  thread_id = "thread";
  turn_id = "turn";
  request_id = number_id (pos_int 1);
  result = decision accept;
}

asked-Reach : Reach text_of [] asked
unfolding take_id Map.insert Map.remove Map.contains_key
asked-Reach =
    step
      (step
        (step (step start (called [] new_session (omega arith)))
          (entered_it ((1, tt) ∷ []) 1 (take_id new_session).1 refl))
        (wrote [] none "turn/start" (json []) 1 (entered 1 (take_id new_session).1)))
      (read_line [] none approval one_call)

reachable-Accounts_example : Accounts asked
reachable-Accounts_example = reachable-Accounts text_of [] asked asked-Reach

reachable-Filed_example : Filed text_of asked.server_requests
reachable-Filed_example = reachable-Filed text_of [] asked asked-Reach

mark_exited-Fails_example :
    Fails
      (transport "codex app-server exited")
      one_call
      (mark_exited "t" (transport "codex app-server exited") one_call)
    × Ends
        (json (("error", string "codex app-server exited") ∷ ("at", string "t") ∷ []))
        one_call
        (mark_exited "t" (transport "codex app-server exited") one_call)
mark_exited-Fails_example = mark_exited-Fails "t" (transport "codex app-server exited") one_call

no_method : get response "method" ≡ none
unfolding Object.get Object.insert
no_method = refl

has_id : Json.get response "id" ≡ some (number (pos_int 1))
unfolding Object.get Object.insert
has_id = refl

dispatch_value-response_example :
    ((Map.contains_key one_call.pending 1 ≡ true)
      × Answers 1 response one_call (dispatch_value text_of none response one_call))
    ⊎ ((Map.contains_key one_call.pending 1 ≡ false)
        × (dispatch_value text_of none response one_call
            ≡ (some ("connector/unmatchedResponse", response), one_call)))
dispatch_value-response_example =
    dispatch_value-response text_of none response 1 one_call no_method (rw has_id refl)

-- The write of the reply fails after the pipe has taken the beginning of the line.
abbrev broken_pipe : WriteFault
broken_pipe = record { message = "Broken pipe"; reached = beginning }

respond-outcome_example :
    ((Map.get asked.server_requests (key text_of reply) ≡ none)
      × (respond text_of (some broken_pipe) reply asked
          ≡ (err (http_error 409 "request no longer pending"), asked)))
    ⊎ ((r : ServerRequest) × (e : HttpError) × (Map.get asked.server_requests (key text_of reply)
          ≡ some r)
        × (validate_reply r reply ≡ err e)
        × (respond text_of (some broken_pipe) reply asked ≡ (err e, asked)))
    ⊎ ((r : ServerRequest) × (Map.get asked.server_requests (key text_of reply) ≡ some r)
        × Belongs r reply
        × TakenOut text_of reply asked (respond text_of (some broken_pipe) reply asked).1
        × Sent text_of
            (some broken_pipe)
            reply
            asked
            (respond text_of (some broken_pipe) reply asked))
respond-outcome_example = respond-outcome text_of (some broken_pipe) reply asked

-- The ids of the two directions do not meet: the request with the call's id waits beside it, the
-- response ends the call, and a second reply is refused.
bidirectional :
    (Map.contains_key asked.pending 1 ≡ true)
    × (Map.contains_key asked.server_requests "1" ≡ true)
    × ((await false "turn/start" 1 (dispatch_value text_of none response asked).1).0
        ≡ some (ok (string "done")))
unfolding take_id write_message dispatch_value await Map.get Map.insert Object.get Object.insert
    to_decimal Map.contains_key
bidirectional = (refl, refl, refl)
