-- ===== src/Server/Routes.antt =====
-- The routes behind the token (src/management.rs; src/invoke_dispatch.rs; `handle_connection` of
-- src/main.rs).
use baijimu_digital_employee.Base.{
  ℕ, String, Bool, true, false, not, ◌&&◌, ◌||◌, Option, none, some, List, [], ◌∷◌, Result, ok, err,
  ok_or, map_err, ◌>>=◌, ◌>>◌, ◌==◌, if◌then◌else◌,
}
use baijimu_digital_employee.Text.{split_once}
use baijimu_digital_employee.Text.Search.{starts_with}
use baijimu_digital_employee.Json.{Value, null, boolean, number, pos_int, string, json}
use baijimu_digital_employee.Http.{HttpError, http_error, coded, Http}
use baijimu_digital_employee.Cursor.{StreamCursor, parse_cursor}
use baijimu_digital_employee.Employee.{Employee, authorize}
use baijimu_digital_employee.Employee.Invocation.{Method, parameters, profile}
use baijimu_digital_employee.Employee.Management.{Canonical, local_directory}
use baijimu_digital_employee.Invoke.Paging.{Request}
use baijimu_digital_employee.Server.Token.{management_authorized}
use baijimu_digital_employee.Server.Framing.{HttpRequest}

-- What the routes call. `employee` reads the employee's file, `employee_routes` is the local management of
-- the employee, `invoke` is `handle_invoke`, `subscribe` the subscription to the notifications, and
-- `from_slice` the parser of JSON.
pub record Service (S : Type 0) (Stream : Type 0) : Type 0 where
  pub request : Request S
  pub status : S → Value × S
  pub employee : S → Http Employee
  pub employee_routes : String → String → Value → S → Option (Http Value × S)
  pub checkout : Value → S → Http Value × S
  pub invoke : String → Value → S → Http Value × S
  pub subscribe : Option StreamCursor → S → Stream × S
  pub from_slice : List ℕ → Result String Value

abbrev pub account_call : String → String → Option (String × Value)
account_call method path =
    if method == "GET" && path == "/management/account/read"
    then some ("account/read", json (("refreshToken", boolean false) ∷ []))
    else if method == "POST" && path == "/management/account/login"
    then some ("account/login/start", json (("type", string "chatgpt") ∷ []))
    else if method == "POST" && path == "/management/account/logout"
    then some ("account/logout", json [])
    else none

abbrev pub not_supported : String → HttpError
not_supported path =
    coded 404 "接口不受此 Connector 支持" "METHOD_NOT_SUPPORTED" (json (("path", string path) ∷ []))

abbrev pub no_workspace : HttpError
no_workspace = coded 400 "本地应用调用缺少可信工作区上下文" "WORKSPACE_CONTEXT_REQUIRED" (json [])

abbrev pub is_setup : String → String → Bool
is_setup method path =
    method == "GET" && path == "/management/v1/setup/state"
    || method == "POST" && path == "/management/v1/setup/ensure-ready"

abbrev pub is_checkout : String → String → Bool
is_checkout method path = method == "POST" && path == "/management/v1/projects/checkout"

-- An answer: a status with a JSON body, or a stream of notifications.
pub data Answer (Stream : Type 0) : Type 0 where
  json_body : ℕ → Value → Answer Stream
  event_stream : Stream → Answer Stream

abbrev pub opt : Option Value → Value
opt none = null
opt (some v) = v

abbrev pub error_body : Value → String → Value
error_body code message = json (
    ("ok", boolean false)
    ∷ ("error", json (("code", code) ∷ ("message", string message) ∷ []))
    ∷ [])

abbrev pub failure : HttpError → Value
failure e = json (
    ("ok", boolean false)
    ∷ (
      "error",
      json (("code", opt e.code) ∷ ("message", string e.message) ∷ ("data", opt e.details) ∷ []),
    )
    ∷ [])

abbrev pub before_query : String → String
before_query path = elim (split_once b'?' path) [ none ↦ path | some p ↦ p.0 ]

abbrev pub is_public : HttpRequest → String → Bool
is_public r path = r.method == "GET" && (path == "/healthz" || path == "/readyz")

module _ {S Stream : Type 0} (service : Service S Stream) where
  -- `route` of the management, with `account`
  unfoldable pub route : String → String → Value → S → Http Value × S
  route method path body s = elim (account_call method path) [
    | some (rpc, params) ↦ service.request rpc params none s
    | none ↦ elim (service.employee_routes method path body s) [
      | some r ↦ r
      | none ↦
          if is_setup method path
          then (ok (service.status s).0, (service.status s).1)
          else if is_checkout method path
          then service.checkout body s
          else (err (not_supported path), s)
    ]
  ]

  -- The body of a request; an empty one is an object.
  abbrev pub decoded : List ℕ → Http Value
  decoded [] = ok (json [])
  decoded (b ∷ bs) = map_err (http_error 400) (service.from_slice (b ∷ bs))

module _ {S Stream : Type 0} (service : Service S Stream) (methods : List Method)
    (reason : Value → String) (canonicalize : String → Canonical) where
  -- The employee admits the workspace, and the parameters are its.
  unfoldable pub admitted : String → List ℕ → ℕ → S → Http (Employee × Value)
  unfolding authorize parameters
  admitted path bytes workspace s = service.employee s >>= λ e.
      authorize e workspace >> decoded service bytes >>= λ body.
      parameters methods reason path body e >>= λ params. ok (e, params)

  abbrev pub prepared : Employee → Http Value
  prepared e = ok_or e.working_directory (http_error 409 "员工工作目录尚未配置") >>= λ d.
      local_directory canonicalize d >>= λ text.
      ok (json (("directory", string text) ∷ ("projectId", null) ∷ []))

  abbrev pub run_admitted : String → Http (Employee × Value) → S → Http Value × S
  run_admitted path (err e) s = (err e, s)
  run_admitted path (ok (e, params)) s =
      if path == "/invoke/employeeProfile"
      then (ok (profile e), s)
      else if path == "/invoke/prepareProject"
      then (prepared e, s)
      else service.invoke path params s

  -- `invoke_http`
  unfoldable pub invoke_http : String → List ℕ → ℕ → S → Http Value × S
  unfolding admitted local_directory profile
  invoke_http path bytes workspace s = run_admitted path (admitted path bytes workspace s) s

  abbrev pub answered : Http Value × S → Answer Stream × S
  answered (ok v, s) = (json_body 200 (json (("ok", boolean true) ∷ ("data", v) ∷ [])), s)
  answered (err e, s) = (json_body e.status (failure e), s)

  abbrev pub refused : HttpError → S → Answer Stream × S
  refused e s = (json_body e.status (failure e), s)

  abbrev pub streamed : Stream × S → Answer Stream × S
  streamed (t, s) = (event_stream t, s)

  abbrev pub subscribe_at : Http (Option StreamCursor) → S → Answer Stream × S
  subscribe_at (err e) s = refused e s
  subscribe_at (ok after) s = streamed (service.subscribe after s)

  abbrev pub notifications : HttpRequest → S → Answer Stream × S
  notifications r s = elim r.workspace_id [
    | none ↦ refused no_workspace s
    | some _ ↦ subscribe_at (parse_cursor r.last_event_id) s
  ]

  abbrev pub manage : HttpRequest → String → Http Value → S → Http Value × S
  manage r path (err e) s = (err e, s)
  manage r path (ok body) s = route service r.method path body s

  abbrev pub is_remote : HttpRequest → String → Bool
  is_remote r path = r.method == "POST" && starts_with path "/invoke/"

  abbrev pub remote : HttpRequest → String → S → Http Value × S
  remote r path s = elim r.workspace_id [
    | none ↦ (err no_workspace, s)
    | some workspace ↦ invoke_http path r.body workspace s
  ]

  abbrev pub dispatched : HttpRequest → String → S → Answer Stream × S
  dispatched r path s =
      if r.method == "GET" && path == "/streams/notifications"
      then notifications r s
      else answered
          (if is_remote r path then remote r path s else manage r path (decoded service r.body) s)

  abbrev pub health : String → ℕ → Value
  health version pid = json (
      ("ok", boolean true)
      ∷ (
        "status",
        json (
            (
              "connector",
              json (
                  ("name", string "@baijimu/digital-employee-connector")
                  ∷ ("version", string version)
                  ∷ ("pid", number (pos_int pid))
                  ∷ []),
            )
            ∷ []),
      )
      ∷ [])

  -- `handle_connection` up to the write of the answer; the arguments are the version, the process id and
  -- the token.
  unfoldable pub handle_connection :
      String → ℕ → String → Result String HttpRequest → S → Answer Stream × S
  unfolding management_authorized route invoke_http split_once parse_cursor starts_with
  handle_connection version pid token (err e) s =
      (json_body 400 (error_body (string "INVALID_HTTP_REQUEST") e), s)
  handle_connection version pid token (ok r) s =
      let path = before_query r.path in
      if not (is_public r path) && not (management_authorized r.authorization token)
      then (
        json_body 401 (error_body (string "UNAUTHORIZED") "local app authorization required"),
        s,
      )
      else if is_public r path
      then (json_body 200 (health version pid), s)
      else dispatched r path s
