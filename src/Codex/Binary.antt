-- ===== src/Codex/Binary.antt =====
-- Which Codex CLI is installed (src/codex_binary.rs). A run of the command is an argument. Versions are
-- those of the crate semver: their type, parsing and order are parameters.
use baijimu_digital_employee.Base.{
  ℕ, zero, suc, ◌+◌, String, Bool, true, false, ◌&&◌, Option, none, some, List, [], ◌∷◌, Result, ok,
  err, and_then, is_some_and, if◌then◌else◌,
}
use baijimu_digital_employee.Text.{◌⁺⁺◌, is_empty, trim}
use baijimu_digital_employee.Text.Search.{split_whitespace, trim_start_matches}
use baijimu_digital_employee.Json.{Value, null, boolean, string, array, nil, json}

abbrev pub command_name : String
command_name = "codex"

-- `CliInspection`
pub record CliInspection : Type 0 where
  pub version : Option String
  pub app_server_supported : Bool
  pub error : Option String

-- `CommandError`
pub record CommandError : Type 0 where
  pub reason : String

abbrev pub or_null : Option String → Value
or_null none = null
or_null (some s) = string s

abbrev pub path_status : Value → Value → Value → Value → Value
path_status version supported inspection_error error = json (
    ("mode", string "path")
    ∷ ("resolved", string command_name)
    ∷ ("source", string "process_path")
    ∷ ("checkedPaths", array nil)
    ∷ ("version", version)
    ∷ ("appServerSupported", supported)
    ∷ ("inspectionError", inspection_error)
    ∷ ("error", error)
    ∷ [])

-- `CliInspection::status_value`
unfoldable pub inspection_status : CliInspection → Value
inspection_status i =
    path_status (or_null i.version) (boolean i.app_server_supported) (or_null i.error) null

-- `CommandError`'s `Display`
unfoldable pub command_error_text : CommandError → String
command_error_text e =
    "无法通过当前进程 PATH 执行 Codex CLI 命令“" ⁺⁺ command_name ⁺⁺ "”（" ⁺⁺ e.reason
    ⁺⁺ "）。请确认宿主已向连接器注入当前用户 PATH"

-- `CommandError::status_value`
unfoldable pub command_error_status : CommandError → Value
unfolding command_error_text
command_error_status e = path_status null null null (string (command_error_text e))

-- `CommandError::data_value`
unfoldable pub command_error_data : CommandError → Value
command_error_data e = json (("command", string command_name) ∷ ("reason", string e.reason) ∷ [])

-- What one run of the command gives: the executable is busy (ETXTBSY), another error, or an output with
-- its status as text.
pub data CommandRun : Type 0 where
  busy : String → CommandRun
  not_run : String → CommandRun
  exited : Bool → String → String → String → CommandRun

abbrev pub max_attempts : ℕ
max_attempts = 5

abbrev pub retried : Bool → CommandRun → CommandRun → CommandRun
retried true (busy _) next = next
retried _ run next = run

-- The attempts that are left after one more; the last one is final.
unfoldable pub attempts : ℕ → ℕ → (ℕ → CommandRun) → CommandRun
attempts zero attempt run = run attempt
attempts (suc left) attempt run = retried true (run attempt) (attempts left (attempt + 1) run)

-- `command_output`: attempts 1 to `max_attempts`.
unfoldable pub command_output : (ℕ → CommandRun) → CommandRun
unfolding attempts
command_output run = attempts 4 1 run

abbrev pub version_text : String → String → Option String
version_text stdout stderr =
    let text = if is_empty (trim stdout) then trim stderr else trim stdout in
    if is_empty text then none else some text

abbrev pub supported_by : Option String → CommandRun → CliInspection
supported_by version (busy e) = record {
  version = version;
  app_server_supported = false;
  error = some e;
}
supported_by version (not_run e) = record {
  version = version;
  app_server_supported = false;
  error = some e;
}
supported_by version (exited true status _ _) = record {
  version = version;
  app_server_supported = true;
  error = none;
}
supported_by version (exited false status _ _) = record {
  version = version;
  app_server_supported = false;
  error = some ("app-server --help 退出状态 " ⁺⁺ status);
}

abbrev pub inspected : CommandRun → CommandRun → Result CommandError CliInspection
inspected (busy e) help = err (record { reason = "执行 codex --version 失败：" ⁺⁺ e })
inspected (not_run e) help = err (record { reason = "执行 codex --version 失败：" ⁺⁺ e })
inspected (exited false status _ _) help =
    err (record { reason = "codex --version 退出状态为 " ⁺⁺ status })
inspected (exited true status stdout stderr) help =
    ok (supported_by (version_text stdout stderr) help)

-- `inspect_command`; the arguments are the runs of `--version` and of `app-server --help`.
unfoldable pub inspect_command :
    (ℕ → CommandRun) → (ℕ → CommandRun) → Result CommandError CliInspection
unfolding command_output trim
inspect_command version help = inspected (command_output version) (command_output help)

module _ {V : Type 0} (parse : String → Option V) (at_least : V → V → Bool) where
  abbrev pub first_version : List String → Option V
  first_version [] = none
  first_version (t ∷ ts) = elim (parse (trim_start_matches b'v' t)) [
    | some v ↦ some v
    | none ↦ first_version ts
  ]

  unfoldable pub parse_version_output : String → Option V
  unfolding split_whitespace
  parse_version_output output = first_version (split_whitespace output)

  -- `CliInspection::satisfies`, with `semantic_version`
  unfoldable pub satisfies : CliInspection → V → Bool
  unfolding parse_version_output
  satisfies i required =
      i.app_server_supported
      && is_some_and (and_then i.version parse_version_output) (λ v. at_least v required)
