-- ===== src/Cli/Commands.antt =====
-- The commands (src/cli.rs, `run`) and the start in the background (`daemonize` of
-- src/process_runtime.rs). The outcome of every effect is an argument.
use baijimu_digital_employee.Base.{
  ℕ, Char, String, true, false, ◌||◌, Option, none, some, List, [], ◌∷◌, ◌++◌, Result, ok, err,
  unwrap_or, and_then, when, ◌==◌, ◌>>=◌, if◌then◌else◌,
}
use baijimu_digital_employee.Text.{◌⁺⁺◌, is_empty, trim, to_decimal}
use baijimu_digital_employee.Json.{
  Value, string, boolean, number, pos_int, json, null, as_bool, as_u64, get,
}
use baijimu_digital_employee.Json.Object
use baijimu_digital_employee.Process.Health.{
  connector_field, verified_connector_pid, wait_for_connector_health,
}
use baijimu_digital_employee.Checkout.{CheckoutRequest, CheckoutResult}
use baijimu_digital_employee.Cli.Arguments.{ParsedArgs, parse_args, string_arg, required_u64_arg}
use baijimu_digital_employee.Cli.Settings.{ServerOptions, Settings, server_options, child_args}

-- What a command does: text and JSON that it prints, the process that it stops, its id file, and the
-- server that it starts.
pub data Effect : Type 0 where
  print_text : String → Effect
  print_json : Value → Effect
  terminate : ℕ → Effect
  remove_pid_file : Effect
  write_pid : ℕ → Effect
  spawn_child : List String → Effect
  start_server : ServerOptions → Effect

abbrev pub Outcome : Type 0
Outcome = List Effect × Result String (Unit {0})

abbrev pub before : List Effect → Outcome → Outcome
before effects o = (effects ++ o.0, o.1)

-- The outcomes of the effects, and the answers of the connector that runs: `health` at once, `polled`
-- until the deadline for a started child. `open_log` is the failure up to the start of the child.
pub record Host : Type 0 where
  pub settings : Settings
  pub upper : Char → String
  pub print_list : List String → String
  pub encode : CheckoutResult → Value
  pub pid_path : String
  pub log_path : String
  pub pid_file : Option String
  pub create_home : Result String (Unit {0})
  pub write_pid_file : Result String (Unit {0})
  pub open_log : Result String (Unit {0})
  pub health : ServerOptions → Result String Value
  pub spawned : Result String ℕ
  pub polled : List (Result String Value)
  pub served : ServerOptions → Result String (Unit {0})
  pub terminated : ℕ → Result String (Unit {0})
  pub prepare : CheckoutRequest → Result String CheckoutResult

abbrev pub fails : String → Outcome
fails e = ([], err e)

abbrev pub attempt {ℓ} : {A : Type ℓ} → Result String A → (A → Outcome) → Outcome
attempt (ok a) f = f a
attempt (err e) f = fails e

-- The commands that `run` tells apart.
pub data Command : Type 0 where
  show_version : Command
  show_help : Command
  start_command : Command
  status_command : Command
  stop_command : Command
  checkout_command : Command
  unknown : String → Command

abbrev pub command_of : String → Command
command_of s =
    if s == "--version"
    then show_version
    else if s == "help" || is_empty s
    then show_help
    else if s == "start"
    then start_command
    else if s == "status"
    then status_command
    else if s == "stop"
    then stop_command
    else if s == "checkout-project"
    then checkout_command
    else unknown s

abbrev help_text : String
help_text =
    "@baijimu/digital-employee-connector 4.0.0\nCommands: start [--host <loopback>] [--port <port>] [--daemon], status, stop, checkout-project, --version"

abbrev url_of : ServerOptions → String
url_of o = "http://" ⁺⁺ o.host ⁺⁺ ":" ⁺⁺ to_decimal o.port

module _ (host : Host) where
  abbrev pub written_pid : ℕ → Value → Outcome
  written_pid pid report =
      before (write_pid pid ∷ [])
        (attempt host.write_pid_file (λ _. (print_json report ∷ [], ok tt)))

  abbrev pub pid_of : Value → Value
  pid_of body = unwrap_or (connector_field body "pid") null

  abbrev pub existing_report : ServerOptions → Value → Value
  existing_report o body = json (
      ("ok", boolean true)
      ∷ ("pid", pid_of body)
      ∷ ("existing", boolean true)
      ∷ ("url", string (url_of o))
      ∷ ("logPath", string host.log_path)
      ∷ [])

  abbrev pub existing : ServerOptions → Value → Outcome
  existing o body = elim (as_u64 (pid_of body)) [
    | some n ↦ written_pid n (existing_report o body)
    | none ↦ (print_json (existing_report o body) ∷ [], ok tt)
  ]

  abbrev pub child_report : ServerOptions → ℕ → Value
  child_report o pid = json (
      ("ok", boolean true)
      ∷ ("pid", number (pos_int pid))
      ∷ ("url", string (url_of o))
      ∷ ("logPath", string host.log_path)
      ∷ [])

  abbrev pub report_child : ServerOptions → ℕ → Value → Outcome
  report_child o pid health =
      let real = unwrap_or (and_then (connector_field health "pid") as_u64) pid in
      written_pid real (child_report o real)

  abbrev pub spawn : ServerOptions → Outcome
  spawn o = attempt host.open_log (λ _. attempt host.spawned (λ pid.
      before (spawn_child (child_args host.print_list o) ∷ [])
        (attempt (wait_for_connector_health (some pid) host.polled) (report_child o pid))))

  abbrev pub well_body : Result String Value → Option Value
  well_body (ok body) = when (unwrap_or (and_then (get body "ok") as_bool) false) body
  well_body (err _) = none

  -- `daemonize`
  unfoldable pub daemonize : ServerOptions → Outcome
  unfolding child_args wait_for_connector_health connector_field Object.get
  daemonize o =
      attempt host.create_home
        (λ _. elim (well_body (host.health o)) [ some body ↦ existing o body | none ↦ spawn o ])

  abbrev pub start : ServerOptions → Outcome
  start o = if o.daemon then daemonize o else (start_server o ∷ [], host.served o)

  abbrev status : Value
  status = json (
      ("pidPath", string host.pid_path)
      ∷ ("pid", unwrap_or (and_then host.pid_file (λ s. some (string (trim s)))) null)
      ∷ ("logPath", string host.log_path)
      ∷ [])

  abbrev pub not_running : Value
  not_running = json (
      ("ok", boolean true)
      ∷ ("stopped", boolean false)
      ∷ ("reason", string "healthy connector process not found")
      ∷ [])

  abbrev pub stopped : ℕ → Value
  stopped pid =
      json (("ok", boolean true) ∷ ("stopped", boolean true) ∷ ("pid", number (pos_int pid)) ∷ [])

  abbrev pub kill : ℕ → Outcome
  kill pid = before (terminate pid ∷ []) (
      attempt (host.terminated pid) (λ _. (remove_pid_file ∷ print_json (stopped pid) ∷ [], ok tt)))

  abbrev pub stop_running : Result String Value → Outcome
  stop_running (err _) = (print_json not_running ∷ [], ok tt)
  stop_running (ok health) = attempt (verified_connector_pid health) kill

  -- The command `stop`
  unfoldable pub stop : ServerOptions → Outcome
  unfolding verified_connector_pid
  stop o = stop_running (host.health o)

  abbrev pub checkout_request : ParsedArgs → Result String CheckoutRequest
  checkout_request p = do
    workspace ← required_u64_arg p "workspaceId"
    project ← required_u64_arg p "projectId"
    ok (record { workspace_id = workspace; project_id = project; branch = string_arg p "branch" })

  -- The command `checkout-project`
  unfoldable pub checkout_project : ParsedArgs → Outcome
  unfolding required_u64_arg string_arg
  checkout_project p =
      attempt (checkout_request p >>= host.prepare)
        (λ result. (print_json (host.encode result) ∷ [], ok tt))

  -- The arms of `run`
  unfoldable pub execute : Command → ParsedArgs → Outcome
  unfolding daemonize stop checkout_project server_options trim
  execute show_version p = (print_text "4.0.0" ∷ [], ok tt)
  execute show_help p = (print_text help_text ∷ [], ok tt)
  execute start_command p = attempt (server_options host.settings p) start
  execute status_command p = (print_json status ∷ [], ok tt)
  execute stop_command p = attempt (server_options host.settings p) stop
  execute checkout_command p = checkout_project p
  execute (unknown other) p = fails ("unknown command: " ⁺⁺ other)

  -- `run`
  unfoldable pub run : List String → Outcome
  unfolding parse_args execute
  run args = attempt (parse_args host.upper args) (λ p. execute (command_of p.command) p)
