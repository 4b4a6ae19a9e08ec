-- ===== src/Session.antt =====
-- One run of the Codex app-server (`ProcessSession` of src/app_server.rs, and its methods in
-- src/app_server/server_requests.rs): the calls that wait for a response, the app-server's own
-- requests, and the end of the process.
-- The channel of a call is kept under the call's id. What the pipe and the operating system answer is
-- an argument: a write's error with what of the line reached the pipe, and the exit of the child. The
-- operations are the steps between which another thread can come in, each under its lock; a poisoned
-- lock (a panic in another thread) is left out.
pub mod Calls
pub mod Keeps
pub mod Taken
pub mod Reach
pub mod Answers
pub mod Requests
pub mod Replies
pub mod Capacity
mod Tests
use baijimu_digital_employee.Base.{
  ℕ, ◌+◌, ◌%◌, ◌^◌, String, Bool, true, false, not, ◌&&◌, ◌||◌, Option, none, some, List, [], ◌∷◌,
  ◌++◌, Result, ok, err, leb, length, keep_if, and_then, is_some, is_some_and, unwrap_or, ok_or,
  ◌==◌, ◌>>=◌, map_err, if◌then◌else◌,
}
use baijimu_digital_employee.Text.{◌⁺⁺◌}
use baijimu_digital_employee.Json
use baijimu_digital_employee.Json.{
  Value, null, boolean, number, neg_int, string, json, as_str, as_u64, get, get_str,
}
use baijimu_digital_employee.Map
use baijimu_digital_employee.Map.{Map, nat_order, string_order}
use baijimu_digital_employee.Http.{HttpError, http_error, internal, Http}
use baijimu_digital_employee.ServerRequests.{
  ServerRequest, Reply, encode_request, encode_request_id, encode_result, read_request,
  validate_reply,
}

-- `RpcFailure`
pub record RpcFailure : Type 0 where
  pub message : String
  pub code : Option Value
  pub details : Option Value

abbrev pub transport : String → RpcFailure
transport message = record { message = message; code = none; details = none }

abbrev or_null : Option Value → Value
or_null o = unwrap_or o null

-- `into_http_error`
abbrev pub into_http_error : RpcFailure → HttpError
into_http_error f = record {
  status = 500;
  message = f.message;
  code = some (string "CODEX_RPC_ERROR");
  details = some (json (("rpcCode", or_null f.code) ∷ ("rpcData", or_null f.details) ∷ []));
}

abbrev pub Answered : Type 0
Answered = Result RpcFailure Value

-- What is in the pipe of a message: its line, or the beginning of it.
pub data Line : Type 0 where
  whole : Value → Line
  part : Value → Line

-- A write that fails: its error, and how much of the line the pipe took before. A flush that fails
-- leaves the whole line.
pub data Reached : Type 0 where
  nothing : Reached
  beginning : Reached
  everything : Reached

pub record WriteFault : Type 0 where
  pub message : String
  pub reached : Reached

abbrev pub left_in_pipe : Reached → Value → List Line
left_in_pipe nothing message = []
left_in_pipe beginning message = part message ∷ []
left_in_pipe everything message = whole message ∷ []

-- `ProcessSession`. `stdin` is what was written while the pipe is held; `pending` is the set of calls
-- with a sender, and `replies` what was sent to the call of an id and not yet received.
pub record Session : Type 0 where
  pub child : Bool
  pub stdin : Option (List Line)
  pub pending : Map ℕ (Unit {0})
  pub replies : Map ℕ Answered
  pub server_requests : Map String ServerRequest
  pub next_id : ℕ
  pub initialized : Bool
  pub alive : Bool
  pub exit : Option Value

-- The session of a process that has just been started.
abbrev pub new_session : Session
new_session = record {
  child = true;
  stdin = some [];
  pending = [];
  replies = [];
  server_requests = [];
  next_id = 1;
  initialized = false;
  alive = true;
  exit = none;
}

-- `write_message`
unfoldable pub write_message : Option WriteFault → Value → Session → Http (Unit {0}) × Session
write_message fault message s = elim s.stdin [
  | none ↦ (err (internal "codex app-server is not writable"), s)
  | some lines ↦ elim fault [
    | some f ↦ (
      err (internal f.message),
      record s { stdin = some (lines ++ left_in_pipe f.reached message) },
    )
    | none ↦ (ok tt, record s { stdin = some (lines ++ whole message ∷ []) })
  ]
]

-- `send_notification`
abbrev pub send_notification :
    Option WriteFault → String → Value → Session → Http (Unit {0}) × Session
send_notification fault method params s =
    write_message fault (json (("method", string method) ∷ ("params", params) ∷ [])) s

-- `remove_pending`
abbrev pub remove_pending : ℕ → Session → Session
remove_pending id s = record s { pending = Map.remove s.pending id }

abbrev pub call_message : String → ℕ → Value → Value
call_message method id params =
    json (("method", string method) ∷ ("id", number (Json.pos_int id)) ∷ ("params", params) ∷ [])

-- The first step of `request`: the test that the process is not known to have ended.
unfoldable pub check_alive : Session → Http (Unit {0})
check_alive s = if s.alive then ok tt else err (internal "codex app-server exited")

-- The second: an id is taken.
unfoldable pub take_id : Session → ℕ × Session
take_id s = (s.next_id, record s { next_id = (s.next_id + 1) % 2 ^ 64 })

-- The third: the sender of the call is entered under its id.
abbrev pub entered : ℕ → Session → Session
entered id s = record s { pending = Map.insert s.pending id tt }

-- A write that fails gives the call up.
abbrev pub end_call : ℕ → Http (Unit {0}) × Session → Http (Unit {0}) × Session
end_call id (ok _, t) = (ok tt, t)
end_call id (err e, t) = (err e, remove_pending id t)

-- The fourth: the call is written, and given up if that fails. What other threads do between the steps is
-- steps of their own (Session/Reach), also between the write and the giving up.
unfoldable pub write_call :
    Option WriteFault → String → Value → ℕ → Session → Http (Unit {0}) × Session
unfolding write_message
write_call fault method params id s =
    end_call id (write_message fault (call_message method id params) s)

-- The wait of `request`: nothing yet, or the call's result. The argument says that the time is over.
unfoldable pub await : Bool → String → ℕ → Session → Option (Http Value) × Session
unfolding Map.get Map.remove Map.contains_key
await timed_out method id s = elim (Map.get s.replies id) [
  | some r ↦ (some (map_err into_http_error r), record s { replies = Map.remove s.replies id })
  | none ↦
      if timed_out
      then (
        some (err (internal ("codex app-server request timed out: " ⁺⁺ method))),
        remove_pending id s,
      )
      else if Map.contains_key s.pending id
      then (none, s)
      else (some (err (internal "codex app-server response dispatcher stopped")), s)
]

-- The result in a response.
unfoldable pub read_result : Value → Answered
read_result value = elim (get value "error") [
  | some e ↦ err (record {
    message = unwrap_or (get_str e "message") "codex app-server error";
    code = get e "code";
    details = get e "data";
  })
  | none ↦ ok (or_null (get value "result"))
]

-- `sender.send`: the channel has room for the one result.
unfoldable pub answer : ℕ → Answered → Session → Session
unfolding Map.remove Map.insert
answer id r s = record s { pending = Map.remove s.pending id; replies = Map.insert s.replies id r }

-- What `dispatch_value` hands to `EventStore::push`, its last action.
abbrev pub Pushed : Type 0
Pushed = Option (String × Value)

abbrev pub max_pending_requests : ℕ
max_pending_requests = 128

-- The answer to a request that is refused. Codes are negative: `neg_int n` is -(n + 1).
abbrev pub refusal : Value → ℕ → String → Value
refusal id code_below message = json (
    ("id", id)
    ∷ ("error", json (("code", number (neg_int code_below)) ∷ ("message", string message) ∷ []))
    ∷ [])

abbrev pub refuse : Option WriteFault → Value → ℕ → String → Session → Session
refuse fault id code_below message s = (write_message fault (refusal id code_below message) s).1

abbrev pub end_reply : Http (Unit {0}) × Session → Http Value × Session
end_reply (ok _, t) = (ok (json (("accepted", boolean true) ∷ [])), t)
end_reply (err e, t) = (err e, t)

module _ (id_text : Value → String) where
  -- `receive_server_request`; the argument is the text of an id, `Value::to_string`.
  unfoldable pub receive_server_request : Option WriteFault → Value → Session → Pushed × Session
  unfolding write_message read_request Map.contains_key Map.insert
  receive_server_request fault value s =
      let id = or_null (get value "id") in
      elim (read_request id (or_null (get value "params"))
        (unwrap_or (get_str value "method") "")) [
          | none ↦ (none, refuse fault id 32600 "Unsupported connector server request" s)
          | some request ↦
              if leb max_pending_requests (length s.server_requests)
                || Map.contains_key s.server_requests (id_text id)
              then (none, refuse fault id 31999 "Server request capacity or identity conflict" s)
              else (
                some ("connector/serverRequest", encode_request request),
                record s { server_requests = Map.insert s.server_requests (id_text id) request },
              )
        ]

  -- `serverRequest/resolved`
  unfoldable pub resolved : Value → Session → Session
  unfolding Map.get Map.remove
  resolved params s = elim (get params "requestId") [
    | none ↦ s
    | some id ↦ elim (get_str params "threadId") [
      | none ↦ s
      | some thread ↦
          if is_some_and (Map.get s.server_requests (id_text id)) (λ r. r.thread_id == thread)
          then record s { server_requests = Map.remove s.server_requests (id_text id) }
          else s
    ]
  ]

  -- `turn/completed`
  unfoldable pub turn_completed : Value → Session → Session
  unfolding Map.retain
  turn_completed params s = elim (get_str params "threadId") [
    | none ↦ s
    | some thread ↦ elim (and_then (get params "turn") (λ turn. get_str turn "id")) [
      | none ↦ s
      | some turn ↦ record s {
        server_requests =
            Map.retain (λ r. not (r.thread_id == thread) || not (r.turn_id == turn))
              s.server_requests;
      }
    ]
  ]

  -- A message with no numeric id and not a request.
  unfoldable pub notified : Value → Session → Pushed × Session
  unfolding resolved turn_completed
  notified value s =
      let method = unwrap_or (get_str value "method") "codex/notification" in
      let params = unwrap_or (get value "params") value in
      let t = if method == "serverRequest/resolved" then resolved params s else s in
      let u = if method == "turn/completed" then turn_completed params t else t in
      (some (method, params), u)

  -- A message with a numeric id and no method.
  unfoldable pub responded : ℕ → Value → Session → Pushed × Session
  unfolding answer read_result Map.contains_key
  responded id value s =
      if Map.contains_key s.pending id
      then (none, answer id (read_result value) s)
      else (some ("connector/unmatchedResponse", value), s)

  -- `dispatch_value`
  unfoldable pub dispatch_value : Option WriteFault → Value → Session → Pushed × Session
  unfolding receive_server_request responded notified
  dispatch_value fault value s =
      if is_some (get value "method") && is_some (get value "id")
      then receive_server_request fault value s
      else elim (and_then (get value "id") as_u64) [
        | some id ↦ responded id value s
        | none ↦ notified value s
      ]

  -- The session after a request was taken out, and the write of its result.
  unfoldable pub send_reply : Option WriteFault → Reply → Session → Http Value × Session
  unfolding write_message Map.remove
  send_reply fault reply s =
      let id = encode_request_id reply.request_id in
      end_reply (
        write_message fault (json (("id", id) ∷ ("result", encode_result reply.result) ∷ []))
          (record s { server_requests = Map.remove s.server_requests (id_text id) }))

  -- `respond`
  unfoldable pub respond : Option WriteFault → Reply → Session → Http Value × Session
  unfolding send_reply validate_reply Map.get
  respond fault reply s =
      elim (Map.get s.server_requests (id_text (encode_request_id reply.request_id))) [
        | none ↦ (err (http_error 409 "request no longer pending"), s)
        | some request ↦ elim (validate_reply request reply) [
          | err e ↦ (err e, s)
          | ok _ ↦ send_reply fault reply s
        ]
      ]

-- `pending_server_requests` on a session.
unfoldable pub pending_server_requests : String → Session → List ServerRequest
unfolding Map.values
pending_server_requests thread s =
    keep_if (λ r. r.thread_id == thread) (Map.values s.server_requests)

-- `set_exit`
unfoldable pub set_exit : Value → Session → Session
set_exit exit s =
    if s.alive then record s { alive = false; initialized = false; exit = some exit } else s

-- The results of calls that get a failure.
unfoldable pub fail_all : RpcFailure → Map ℕ (Unit {0}) → Map ℕ Answered → Map ℕ Answered
unfolding Map.insert
fail_all f [] replies = replies
fail_all f ((id, _) ∷ calls) replies = fail_all f calls (Map.insert replies id (err f))

-- `fail_pending`
unfoldable pub fail_pending : RpcFailure → Session → Session
unfolding fail_all
fail_pending f s = record s { pending = []; replies = fail_all f s.pending s.replies }

-- `mark_exited`
unfoldable pub mark_exited : String → RpcFailure → Session → Session
unfolding set_exit fail_pending
mark_exited now f s =
    fail_pending f (set_exit (json (("error", string f.message) ∷ ("at", string now) ∷ [])) s)

abbrev pub exit_value : Value → String → Value
exit_value code now = json (("code", code) ∷ ("signal", null) ∷ ("at", string now) ∷ [])

-- `refresh_process_state`; the argument is the code of a child that has ended.
unfoldable pub refresh_process_state : Option Value → String → Session → Session
unfolding set_exit fail_pending
refresh_process_state status now s =
    if s.alive && s.child
    then elim status [
      | none ↦ s
      | some code ↦
          fail_pending (transport "codex app-server exited") (set_exit (exit_value code now) s)
    ]
    else s

-- `shutdown` of a session; the code is `null` where the wait gives none.
unfoldable pub shutdown : Value → String → Session → Session
unfolding set_exit fail_pending
shutdown code now s =
    let t = record s { stdin = none } in
    let u = if t.child then set_exit (exit_value code now) (record t { child = false }) else t in
    fail_pending (transport "codex app-server was stopped") u
