-- ===== src/Cli/Settings.antt =====
-- The options of the server (src/cli.rs, `server_options`), and the arguments that `daemonize` of
-- src/process_runtime.rs hands on to the child. The environment is an argument.
use baijimu_digital_employee.Base.{
  ℕ, ◌^◌, ◌-◌, String, Bool, true, false, not, ◌||◌, Option, none, some, List, [], ◌∷◌, ◌++◌,
  Result, ok, ok_or, ltb, is_some_and, or_else, unwrap_or, and_then, when, ◌==◌, guard, ◌>>=◌,
  if◌then◌else◌,
}
use baijimu_digital_employee.Text.{parse_uint, max_u64, to_decimal}
use baijimu_digital_employee.Json.{as_bool}
use baijimu_digital_employee.Json.Object
use baijimu_digital_employee.Cli.Arguments.{ParsedArgs, value_of}

-- `ServerOptions`
pub record ServerOptions : Type 0 where
  pub host : String
  pub port : ℕ
  pub listen : String
  pub extra_args : List String
  pub request_timeout_ms : ℕ
  pub daemon : Bool

-- `env` is `env::var`, `string_list` the JSON parser at `Vec<String>`, and `configured_port` the port of
-- the manifest.
pub record Settings : Type 0 where
  pub env : String → Option String
  pub string_list : String → Result String (List String)
  pub configured_port : ℕ

abbrev pub default_listen : String
default_listen = "stdio://"

abbrev pub list_or_none :
    (String → Result String (List String)) → Option String → Result String (List String)
list_or_none parse none = ok []
list_or_none parse (some raw) = parse raw

abbrev pub has_items : List String → Bool
has_items [] = false
has_items (a ∷ l) = true

abbrev pub max_u16 : ℕ
max_u16 = 2 ^ 16 - 1

abbrev pub port_of : ℕ → Option String → Result String ℕ
port_of configured none = ok configured
port_of configured (some text) =
    ok_or (and_then (parse_uint max_u16 text) (λ p. when (ltb 0 p) p))
      "port must be an integer in 1..65535"

abbrev pub number_of : Option String → Option ℕ
number_of text = and_then text (parse_uint max_u64)

abbrev pub other_listen : Option String → Bool
other_listen text = is_some_and text (λ v. not (v == default_listen))

module _ (settings : Settings) where
  abbrev pub extra_args_of : ParsedArgs → Result String (List String)
  extra_args_of p =
      list_or_none settings.string_list
        (or_else (value_of p "codexArgs") (settings.env "DIGITAL_EMPLOYEE_CONNECTOR_CODEX_ARGS"))

  abbrev pub is_unsupported : ParsedArgs → List String → Bool
  is_unsupported p extra =
      other_listen (value_of p "listen")
      || other_listen (settings.env "DIGITAL_EMPLOYEE_CONNECTOR_LISTEN")
      || has_items extra

  abbrev pub timeout_of : ParsedArgs → ℕ
  timeout_of p =
      unwrap_or
        (or_else (number_of (value_of p "requestTimeoutMs"))
          (number_of (settings.env "DIGITAL_EMPLOYEE_CONNECTOR_REQUEST_TIMEOUT_MS")))
        60000

  abbrev pub options_of : ParsedArgs → List String → ℕ → ServerOptions
  options_of p extra port = record {
    host =
        unwrap_or (or_else (value_of p "host") (settings.env "DIGITAL_EMPLOYEE_CONNECTOR_HOST"))
          "127.0.0.1";
    port = port;
    listen =
        unwrap_or (or_else (value_of p "listen") (settings.env "DIGITAL_EMPLOYEE_CONNECTOR_LISTEN"))
          default_listen;
    request_timeout_ms = timeout_of p;
    daemon = unwrap_or (and_then (Object.get p.flags "daemon") as_bool) false;
    extra_args = extra;
  }

  -- `server_options`
  unfoldable pub server_options : ParsedArgs → Result String ServerOptions
  unfolding Object.get parse_uint
  server_options p = do
    extra ← extra_args_of p
    _ ← guard (not (is_unsupported p extra)) "不支持切换 transport 或自定义 Codex 启动参数"
    port ←
        port_of settings.configured_port
          (or_else (value_of p "port") (settings.env "DIGITAL_EMPLOYEE_CONNECTOR_PORT"))
    ok (options_of p extra port)

-- `daemonize`: the arguments of the child; `print_list` prints a list of texts as JSON.
unfoldable pub child_args : (List String → String) → ServerOptions → List String
unfolding to_decimal
child_args print_list o =
    ("start" ∷ "--host" ∷ o.host ∷ "--port" ∷ to_decimal o.port ∷ "--listen" ∷ o.listen ∷ [])
    ++ (if has_items o.extra_args then "--codex-args" ∷ print_list o.extra_args ∷ [] else [])
