-- ===== src/Cli/Tests.antt =====
-- Runs of the command line, and instances of its theorems.
use baijimu_digital_employee.Base.{
  ◌≡◌, refl, Char, String, true, none, List, [], ◌∷◌, ◌++◌, Result, ok, err, ◌>>=◌, arith,
}
use baijimu_digital_employee.Text.{to_decimal}
use baijimu_digital_employee.Json.{Value, string, number, pos_int, json, null}
use baijimu_digital_employee.Json.Object
use baijimu_digital_employee.Process.{to_ascii_upper, to_kebab_case}
use baijimu_digital_employee.Process.Names.{Raises}
use baijimu_digital_employee.Cli.Arguments.{
  ParsedArgs, parse_args, required_u64_arg, with_value, with_flag, started,
}
use baijimu_digital_employee.Cli.Settings.{Settings, ServerOptions, server_options}
use baijimu_digital_employee.Cli.Commands.{
  Host, run, print_json, terminate, remove_pid_file, not_running, stopped,
}
use baijimu_digital_employee.Text.Search.{strip_prefix}
use baijimu_digital_employee.Cli.Line.{
  Item, valued, daemon_flag, word, IsLine, required_u64_arg-option,
}
use baijimu_digital_employee.Cli.Options.{Reread, child_args-server_options}
use baijimu_digital_employee.Cli.Stop.{AllVerified, run-AllVerified}

abbrev upper : Char → String
upper c = String.◌∷◌ (to_ascii_upper c) ""

project_id-Raises : Raises upper "projectId"
project_id-Raises = (
  λ h. cc,
  (λ h. cc, (λ h. cc, (λ h. cc, (λ h. cc, (λ h. cc, (λ h. cc, (λ h. refl, (λ h. cc, tt)))))))),
)

missing_value :
    (parse_args upper ("start" ∷ "--request-timeout-ms" ∷ [])
      ≡ err "missing value for --request-timeout-ms")
    × (parse_args upper ("start" ∷ "--codex-binary=/c" ∷ [])
        ≡ err "--codex-binary is no longer supported; Codex CLI discovery is automatic")
    × (parse_args upper [] ≡ ok (started "help").parsed)
unfolding parse_args
missing_value = (refl, refl, refl)

inline_and_flag :
    parse_args upper ("start" ∷ "--request-timeout-ms=5" ∷ "rest" ∷ "--daemon" ∷ [])
    ≡ ok (with_flag "daemon" (with_value "requestTimeoutMs" "5" (started "start").parsed))
unfolding parse_args Object.insert
inline_and_flag = refl

-- Both ids of a checkout, with a word between them and a repeated option.
abbrev front : List Item
front = valued "workspaceId" "9" ∷ word "x" ∷ daemon_flag ∷ []

abbrev back : List Item
back = valued "workspaceId" "3" ∷ []

workspace_id-Raises : Raises upper "workspaceId"
workspace_id-Raises = (
  λ h. cc,
  (
    λ h. cc,
    (
      λ h. cc,
      (λ h. cc, (λ h. cc, (λ h. cc, (λ h. cc, (λ h. cc, (λ h. cc, (λ h. refl, (λ h. cc, tt)))))))),
    ),
  ),
)

line : IsLine upper (front ++ valued "projectId" "42" ∷ back)
unfolding strip_prefix
line = (
  (workspace_id-Raises, (refl, refl, refl, refl)),
  (
    refl,
    (
      (project_id-Raises, (refl, refl, refl, refl)),
      ((workspace_id-Raises, (refl, refl, refl, refl)), tt),
    ),
  ),
)

required_u64_arg-option_example :
    (parse_args upper (
        "checkout-project" ∷ "--workspace-id" ∷ "9" ∷ "x" ∷ "--daemon" ∷ "--project-id" ∷ "42"
        ∷ "--workspace-id" ∷ "3" ∷ [])
      >>= λ p. required_u64_arg p "projectId")
    ≡ ok 42
unfolding to_decimal to_kebab_case
required_u64_arg-option_example =
    required_u64_arg-option upper "checkout-project" "projectId" 42 front back line (refl, tt)
      (omega arith) (omega arith)

abbrev settings : Settings
settings = record { env = λ name. none; string_list = λ text. err text; configured_port = 18112 }

abbrev asked : ParsedArgs
asked =
    with_flag "daemon"
      (with_value "requestTimeoutMs" "5" (with_value "port" "80" (started "start").parsed))

abbrev options : ServerOptions
options = record {
  host = "127.0.0.1";
  port = 80;
  listen = "stdio://";
  extra_args = [];
  request_timeout_ms = 5;
  daemon = true;
}

bad_port :
    server_options settings (with_value "port" "0" (started "start").parsed)
    ≡ err "port must be an integer in 1..65535"
unfolding server_options Object.insert
bad_port = refl

child_args-server_options_example : Reread upper settings (λ l. "") options
unfolding server_options Object.insert
child_args-server_options_example =
    child_args-server_options upper settings (λ l. "") asked options refl (omega arith, omega arith)
      refl

abbrev health : Value
health = json (
    (
      "status",
      json (
          (
            "connector",
            json (
                ("name", string "@baijimu/digital-employee-connector")
                ∷ ("pid", number (pos_int 7))
                ∷ []),
          )
          ∷ []),
    )
    ∷ [])

abbrev host : Result String Value → Host
host answer = record {
  settings = settings;
  upper = upper;
  print_list = λ l. "[]";
  encode = λ result. null;
  pid_path = "/p";
  log_path = "/l";
  pid_file = none;
  create_home = ok tt;
  write_pid_file = ok tt;
  open_log = ok tt;
  health = λ o. answer;
  spawned = ok 9;
  polled = [];
  served = λ o. ok tt;
  terminated = λ pid. ok tt;
  prepare = λ request. err "none";
}

stops :
    run (host (ok health)) ("stop" ∷ [])
    ≡ (terminate 7 ∷ remove_pid_file ∷ print_json (stopped (host (ok health)) 7) ∷ [], ok tt)
unfolding run Object.insert
stops = refl

nothing_to_stop :
    run (host (err "refused")) ("stop" ∷ [])
    ≡ (print_json (not_running (host (err "refused"))) ∷ [], ok tt)
unfolding run
nothing_to_stop = refl

run-AllVerified_example : AllVerified (host (ok health)) (run (host (ok health)) ("stop" ∷ []))
run-AllVerified_example = run-AllVerified (host (ok health)) ("stop" ∷ [])
