-- ===== src/Server/Tests.antt =====
-- Tests of the server, and instances of its theorems.
use baijimu_digital_employee.Base.{
  ◌≡◌, refl, ℕ, ◌+◌, code, String, true, false, none, some, List, [], ◌∷◌, ok, err,
}
use baijimu_digital_employee.Json.{Value, null, string, json}
use baijimu_digital_employee.Employee.{Employee}
use baijimu_digital_employee.Employee.Management.{Canonical, inaccessible}
use baijimu_digital_employee.Employee.Invocation.{Method, input_schema, no_property, no_branch}
use baijimu_digital_employee.Server.Token.{management_authorized, bit_xor}
use baijimu_digital_employee.Server.Framing.{HttpRequest, read_http_request}
use baijimu_digital_employee.Server.Routes.{Service, Answer, json_body, handle_connection, health}
use baijimu_digital_employee.Server.Guarded.{IsGuarded, handle_connection-IsGuarded}

xor_example : bit_xor 8 0b1100 0b1010 ≡ 0b0110
unfolding bit_xor
xor_example = refl

right_token : management_authorized (some "Bearer s3cret") "s3cret" ≡ true
unfolding management_authorized
right_token = refl

wrong_token : management_authorized (some "Bearer s3creT") "s3cret" ≡ false
unfolding management_authorized
wrong_token = refl

no_scheme : management_authorized (some "s3cret") "s3cret" ≡ false
unfolding management_authorized
no_scheme = refl

-- ASCII texts are their own bytes here.
abbrev codes : String → List ℕ
codes String.[] = []
codes (String.◌∷◌ c s) = code c ∷ codes s

abbrev head_text : String
head_text =
    "POST /invoke/status?x HTTP/1.1\r\nauthorization: Bearer s3cret\r\nX-Baijimu-Workspace-Id: 7\r\nContent-Length: 2\r\n\r\n"

-- The decoder of this one head.
abbrev lossy : List ℕ → String
lossy b =
    "POST /invoke/status?x HTTP/1.1\r\nauthorization: Bearer s3cret\r\nX-Baijimu-Workspace-Id: 7\r\nContent-Length: 2"

abbrev request : HttpRequest
request = record {
  method = "POST";
  path = "/invoke/status?x";
  authorization = some "Bearer s3cret";
  last_event_id = none;
  workspace_id = some 7;
  body = 123 ∷ 125 ∷ [];
}

-- The body comes with a second read.
request_read :
    read_http_request lossy (ok (codes head_text) ∷ ok (123 ∷ 125 ∷ []) ∷ []) ≡ ok request
unfolding read_http_request
request_read = refl

body_missing :
    read_http_request lossy (ok (codes head_text) ∷ ok (123 ∷ []) ∷ [])
    ≡ err "HTTP body length mismatch"
unfolding read_http_request
body_missing = refl

abbrev employee : Employee
employee = record {
  schema_version = "1.0.0";
  name = "n";
  description = "d";
  enabled = true;
  working_directory = some "/work";
  authorized_workspace_ids = (7, tt) ∷ [];
}

-- A service whose state counts the remote calls that were run.
abbrev service : Service ℕ ℕ
service = record {
  request = λ method params timeout s. (ok null, s);
  status = λ s. (null, s);
  employee = λ s. ok employee;
  employee_routes = λ method path body s. none;
  checkout = λ body s. (ok null, s);
  invoke = λ path body s. (ok (string "done"), s + 1);
  subscribe = λ after s. (0, s);
  from_slice = λ b. ok (json []);
}

abbrev status_method : Method
status_method = record { path = "/invoke/status"; schema = input_schema no_property no_branch }

abbrev no_directory : String → Canonical
no_directory path = inaccessible "no such directory"

abbrev no_reason : Value → String
no_reason v = ""

abbrev serve : HttpRequest → Answer ℕ × ℕ
unfolding handle_connection
serve r =
    handle_connection service (status_method ∷ []) no_reason no_directory "1" 42 "s3cret" (ok r) 0

-- The employee admits workspace 7: the call is run.
run_once : (serve request).1 ≡ 1
unfolding serve handle_connection
run_once = refl

other_workspace : (serve (record request { workspace_id = some 8 })).1 ≡ 0
unfolding serve handle_connection
other_workspace = refl

without_token : (serve (record request { authorization = none })).1 ≡ 0
unfolding serve handle_connection
without_token = refl

health_is_public :
    serve (record request { method = "GET"; path = "/healthz"; authorization = none })
    ≡ (json_body 200 (health service (status_method ∷ []) no_reason no_directory "1" 42), 0)
unfolding serve handle_connection
health_is_public = refl

handle_connection-IsGuarded_example :
    IsGuarded service (status_method ∷ []) no_reason no_directory "s3cret" (ok request) 0 (
      handle_connection service
        (status_method ∷ [])
        no_reason
        no_directory
        "1"
        42
        "s3cret"
        (ok request)
        0)
handle_connection-IsGuarded_example =
    handle_connection-IsGuarded service (status_method ∷ []) no_reason no_directory "1" 42 "s3cret"
      (ok request) 0
