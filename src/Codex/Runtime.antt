-- ===== src/Codex/Runtime.antt =====
-- The client that keeps one app-server running (`CodexClient` of src/app_server.rs). What the operating
-- system answers is an argument: the polls of the child, the inspection of the CLI, the start of the
-- process, and the exchange of the first call with the app-server. The locks make `ensure_session` one
-- step, and a poisoned lock is left out.
use baijimu_digital_employee.Base.{
  ℕ, String, Bool, true, false, not, ◌&&◌, Option, none, some, [], ◌∷◌, Result, ok, err, is_some,
  unwrap_or, when, if◌then◌else◌,
}
use baijimu_digital_employee.Text.{◌⁺⁺◌}
use baijimu_digital_employee.Json.{
  Value, null, boolean, number, pos_int, string, array, json, items_of,
}
use baijimu_digital_employee.Http.{HttpError, http_error, internal, coded, Http}
use baijimu_digital_employee.ServerRequests.{Reply, encode_request}
use baijimu_digital_employee.Session
use baijimu_digital_employee.Session.{
  WriteFault, Session, new_session, send_notification, refresh_process_state,
  pending_server_requests, respond,
}
use baijimu_digital_employee.Codex.Binary.{
  CliInspection, CommandError, command_name, command_error_text, command_error_data,
  command_error_status, inspection_status, path_status,
}
use baijimu_digital_employee.Base.{map}

-- A session with what its process was started as.
pub record Process : Type 0 where
  pub pid : ℕ
  pub started_at : String
  pub session : Session

-- `ClientRuntime`
pub record ClientRuntime : Type 0 where
  pub active_codex_home : String
  pub session : Option Process
  pub last_exit : Option Value
  pub codex_binary_error : Option CommandError
  pub codex_cli_inspection : Option CliInspection

-- `CodexClient::new_with_home`
abbrev pub new_runtime : String → ClientRuntime
new_runtime home = record {
  active_codex_home = home;
  session = none;
  last_exit = none;
  codex_binary_error = none;
  codex_cli_inspection = none;
}

-- A poll of the child: the code of one that has ended, and the time.
pub record Poll : Type 0 where
  pub status : Option Value
  pub now : String

abbrev pub refreshed : Poll → Process → Process
refreshed poll p = record p { session = refresh_process_state poll.status poll.now p.session }

-- `current_live_session`
unfoldable pub current_live_session : Poll → ClientRuntime → Option Process × ClientRuntime
unfolding refresh_process_state
current_live_session poll r = elim r.session [
  | none ↦ (none, r)
  | some p ↦ (
    when (refreshed poll p).session.alive (refreshed poll p),
    record r { session = some (refreshed poll p) },
  )
]

abbrev pub if_ready : Option Process × ClientRuntime → Option Process × ClientRuntime
if_ready (none, r) = (none, r)
if_ready (some p, r) = (when p.session.initialized p, r)

-- `current_ready_session`
unfoldable pub current_ready_session : Poll → ClientRuntime → Option Process × ClientRuntime
unfolding current_live_session
current_ready_session poll r = if_ready (current_live_session poll r)

-- How the start of the process ends.
pub data Spawn : Type 0 where
  home_failed : String → Spawn
  not_spawned : String → Spawn
  no_stdin : Spawn
  no_stdout : Spawn
  spawned : ℕ → String → Spawn

abbrev pub binary_failed : CommandError → ClientRuntime → ClientRuntime
binary_failed e r = record r { codex_binary_error = some e; codex_cli_inspection = none }

abbrev pub binary_found : CliInspection → ClientRuntime → ClientRuntime
binary_found i r = record r { codex_cli_inspection = some i; codex_binary_error = none }

abbrev pub started : ℕ → String → Process
started pid now = record { pid = pid; started_at = now; session = new_session }

-- `start_private_process_locked`
unfoldable pub start_private_process :
    Spawn → CliInspection → ClientRuntime → Http Process × ClientRuntime
start_private_process (home_failed e) i r = (err (internal e), r)
start_private_process (not_spawned e) i r = (
  err (
      coded 500 ("failed to start Codex command '" ⁺⁺ command_name ⁺⁺ "': " ⁺⁺ e)
        "CODEX_PROCESS_START_FAILED"
        (json (("command", string command_name) ∷ ("error", string e) ∷ []))),
  binary_failed (record { reason = e }) r,
)
start_private_process no_stdin i r =
    (err (internal "codex app-server stdin is unavailable after process start"), r)
start_private_process no_stdout i r =
    (err (internal "codex app-server stdout is unavailable after process start"), r)
start_private_process (spawned pid now) i r = (
  ok (started pid now),
  record r {
    session = some (started pid now);
    last_exit = none;
    codex_cli_inspection = some i;
    codex_binary_error = none;
  },
)

abbrev pub unsupported_message : CliInspection → String
unsupported_message i = unwrap_or i.error "the selected Codex CLI does not support app-server"

abbrev pub unsupported : CliInspection → HttpError
unsupported i =
    coded 500 (unsupported_message i) "CODEX_APP_SERVER_UNSUPPORTED"
      (json (("command", string command_name) ∷ ("error", string (unsupported_message i)) ∷ []))

abbrev pub incompatible : String → CliInspection → HttpError
incompatible minimum i =
    coded 503 ("Codex CLI 不满足 app-server 协议要求（最低版本 " ⁺⁺ minimum ⁺⁺ "），请通过管理入口升级")
      "CODEX_CLI_VERSION_INCOMPATIBLE"
      (json (("minimumVersion", string minimum) ∷ ("inspection", inspection_status i) ∷ []))

-- What one call of `ensure_session` meets. `exchange` is the call of `initialize` on the session, `fault`
-- the error of the write of the notification behind it.
pub record Machine : Type 0 where
  pub first_poll : Poll
  pub second_poll : Poll
  pub third_poll : Poll
  pub inspection : Result CommandError CliInspection
  pub spawn : Spawn
  pub exchange : Session → Http Value × Session
  pub fault : Option WriteFault

-- The options' `extra_args` is empty or not; `is_new_enough` is `satisfies` at the protocol's minimum, and
-- `minimum` its text.
module _ (no_extra_args : Bool) (is_new_enough : CliInspection → Bool) (minimum : String) where
  abbrev pub start_inspected :
      Spawn → Result CommandError CliInspection → ClientRuntime → Http Process × ClientRuntime
  start_inspected spawn (err e) r = (
    err (coded 500 (command_error_text e) "CODEX_BINARY_NOT_FOUND" (command_error_data e)),
    binary_failed e r,
  )
  start_inspected spawn (ok i) r =
      if no_extra_args && not i.app_server_supported
      then (err (unsupported i), binary_found i r)
      else if no_extra_args && not (is_new_enough i)
      then (err (incompatible minimum i), binary_found i r)
      else start_private_process spawn i r

  -- `start_process_locked`
  unfoldable pub start_process : Machine → ClientRuntime → Http Process × ClientRuntime
  unfolding start_private_process command_error_text command_error_data inspection_status
  start_process m r = start_inspected m.spawn m.inspection r

  abbrev pub live_or_started :
      Machine → Option Process × ClientRuntime → Http Process × ClientRuntime
  live_or_started m (some p, r) = (ok p, r)
  live_or_started m (none, r) = start_process m r

  abbrev pub kept : Process → ClientRuntime → ClientRuntime
  kept p r = record r { session = some p }

  abbrev pub with_session : Process → Session → Process
  with_session p s = record p { session = s }

  -- The session is ready after the notification is written, whatever has happened to it meanwhile.
  abbrev pub notified :
      Process → ClientRuntime → Http (Unit {0}) × Session → Http Process × ClientRuntime
  notified p r (err e, s) = (err e, kept (with_session p s) r)
  notified p r (ok _, s) =
      let q = with_session p (record s { initialized = true }) in (ok q, kept q r)

  abbrev pub exchanged :
      Machine → Process → ClientRuntime → Http Value × Session → Http Process × ClientRuntime
  exchanged m p r (err e, s) = (err e, kept (with_session p s) r)
  exchanged m p r (ok _, s) = notified p r (send_notification m.fault "initialized" (json []) s)

  abbrev pub initialized_or_not :
      Machine → Http Process × ClientRuntime → Http Process × ClientRuntime
  initialized_or_not m (err e, r) = (err e, r)
  initialized_or_not m (ok p, r) =
      if p.session.initialized then (ok p, r) else exchanged m p r (m.exchange p.session)

  abbrev pub ready_or_not_locked :
      Machine → Option Process × ClientRuntime → Http Process × ClientRuntime
  ready_or_not_locked m (some p, r) = (ok p, r)
  ready_or_not_locked m (none, r) =
      initialized_or_not m (live_or_started m (current_live_session m.third_poll r))

  abbrev pub ready_or_not : Machine → Option Process × ClientRuntime → Http Process × ClientRuntime
  ready_or_not m (some p, r) = (ok p, r)
  ready_or_not m (none, r) = ready_or_not_locked m (current_ready_session m.second_poll r)

  -- `ensure_session`
  unfoldable pub ensure_session : Machine → ClientRuntime → Http Process × ClientRuntime
  unfolding current_live_session current_ready_session start_process Session.write_message
  ensure_session m r = ready_or_not m (current_ready_session m.first_poll r)

-- `shutdown_locked`; the code of the exit is `null` where the wait gives none.
unfoldable pub shutdown_locked : Value → String → ClientRuntime → ClientRuntime
unfolding Session.shutdown
shutdown_locked code now r = elim r.session [
  | none ↦ r
  | some p ↦ record r { session = none; last_exit = (Session.shutdown code now p.session).exit }
]

abbrev pub answer_pending : String → Option Process × ClientRuntime → Http Value × ClientRuntime
answer_pending thread (none, r) = (ok (array (items_of [])), r)
answer_pending thread (some p, r) =
    (ok (array (items_of (map encode_request (pending_server_requests thread p.session)))), r)

-- `CodexClient::pending_server_requests`
unfoldable pub client_pending_requests : Poll → String → ClientRuntime → Http Value × ClientRuntime
unfolding current_ready_session pending_server_requests
client_pending_requests poll thread r = answer_pending thread (current_ready_session poll r)

abbrev pub end_respond : Process → ClientRuntime → Http Value × Session → Http Value × ClientRuntime
end_respond p r (v, s) = (v, record r { session = some (record p { session = s }) })

abbrev pub answer_reply :
    (Value → String)
    → Option WriteFault
    → Reply
    → Option Process × ClientRuntime
    → Http Value × ClientRuntime
answer_reply id_text fault reply (none, r) =
    (err (http_error 409 "Codex connection no longer active"), r)
answer_reply id_text fault reply (some p, r) =
    end_respond p r (respond id_text fault reply p.session)

-- `CodexClient::respond_to_server_request`
unfoldable pub respond_to_server_request :
    (Value → String) → Option WriteFault → Poll → Reply → ClientRuntime → Http Value × ClientRuntime
unfolding current_ready_session respond
respond_to_server_request id_text fault poll reply r =
    answer_reply id_text fault reply (current_ready_session poll r)

-- The part of the status about the binary.
abbrev pub binary_status : ClientRuntime → Value
binary_status r = elim r.codex_cli_inspection [
  | some i ↦ inspection_status i
  | none ↦ elim r.codex_binary_error [
    | some e ↦ command_error_status e
    | none ↦ path_status null null null null
  ]
]

-- The session after a poll, and its exit once it is not alive.
unfoldable pub polled : Poll → ClientRuntime → ClientRuntime
unfolding refresh_process_state
polled poll r = elim r.session [
  | none ↦ r
  | some p ↦
      let q = refreshed poll p in
      record r {
        session = some q;
        last_exit = if q.session.alive then r.last_exit else q.session.exit;
      }
]

abbrev pub alive_process : Option Process → Option Process
alive_process none = none
alive_process (some p) = when p.session.alive p

abbrev pub process_field : Option Process → (Process → Value) → Value
process_field none f = null
process_field (some p) f = f p

abbrev pub is_initialized : Option Process → Bool
is_initialized none = false
is_initialized (some p) = p.session.initialized

-- The fields under `appServer`.
unfoldable pub app_server_status : String → ClientRuntime → Value
unfolding inspection_status command_error_status
app_server_status listen r =
    let p = alive_process r.session in
    json (
      ("running", boolean (is_some p))
      ∷ ("initialized", boolean (is_initialized p))
      ∷ ("pid", process_field p (λ p. number (pos_int p.pid)))
      ∷ ("transport", process_field p (λ _. string "private_stdio"))
      ∷ ("shared", boolean false)
      ∷ ("codexBinary", string command_name)
      ∷ ("codexBinaryResolution", binary_status r)
      ∷ ("listen", string listen)
      ∷ ("startedAt", process_field p (λ p. string p.started_at))
      ∷ ("lastExit", unwrap_or r.last_exit null)
      ∷ ("codexHome", string r.active_codex_home)
      ∷ [])

-- `status`; the arguments are the version, the connector's own process id, and the summary of the events.
unfoldable pub status : String → ℕ → ℕ × ℕ → String → Poll → ClientRuntime → Value × ClientRuntime
unfolding polled app_server_status
status version own_pid (latest, retained) listen poll r = (
  json (
      (
        "connector",
        json (
            ("name", string "@baijimu/digital-employee-connector")
            ∷ ("version", string version)
            ∷ ("pid", number (pos_int own_pid))
            ∷ []),
      )
      ∷ ("appServer", app_server_status listen (polled poll r))
      ∷ (
        "events",
        json (
            ("latestSequence", number (pos_int latest))
            ∷ ("retained", number (pos_int retained))
            ∷ []),
      )
      ∷ []),
  polled poll r,
)
