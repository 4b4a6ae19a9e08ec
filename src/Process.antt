-- ===== src/Process.antt =====
-- The connector's own process: where its files are, which environment its children lose, and the names of
-- its options (src/process_runtime.rs, src/child_process.rs). The environment, the file system and the
-- resolution of paths are arguments, and so is the Unicode case mapping of characters.
pub mod Health
pub mod Token
pub mod Names
pub mod Stored
mod Tests
use baijimu_digital_employee.Base.{
  ℕ, zero, suc, ◌-◌, Char, code, String, Bool, true, false, not, ◌&&◌, ◌||◌, Option, none, some,
  List, [], ◌∷◌, Result, ok, err, leb, or_else, unwrap_or, and_then, when, keep_if, any, ◌==◌,
  guard, ◌>>◌, ◌>>=◌, if◌then◌else◌,
}
use baijimu_digital_employee.Text.{◌⁺⁺◌, is_empty, is_char}
use baijimu_digital_employee.Text.Search.{starts_with, join, path_parts}

-- The character at a position, and `?` behind the end.
abbrev pub char_at : String → ℕ → Char
char_at String.[] n = "?"
char_at (String.◌∷◌ c s) zero = c
char_at (String.◌∷◌ c s) (suc n) = char_at s n

abbrev pub is_ascii_uppercase : Char → Bool
is_ascii_uppercase c = leb b'A' (code c) && leb (code c) b'Z'

abbrev pub is_ascii_lowercase : Char → Bool
is_ascii_lowercase c = leb b'a' (code c) && leb (code c) b'z'

-- `to_ascii_lowercase` of an upper case letter.
abbrev pub to_lower : Char → Char
to_lower c = char_at "abcdefghijklmnopqrstuvwxyz" (code c - b'A')

-- `char::to_ascii_uppercase`
abbrev pub to_ascii_upper : Char → Char
to_ascii_upper c =
    if is_ascii_lowercase c then char_at "ABCDEFGHIJKLMNOPQRSTUVWXYZ" (code c - b'a') else c

-- `str::to_ascii_uppercase`
unfoldable pub to_ascii_uppercase : String → String
to_ascii_uppercase String.[] = ""
to_ascii_uppercase (String.◌∷◌ c s) = String.◌∷◌ (to_ascii_upper c) (to_ascii_uppercase s)

-- The loop of `to_camel_case`; the flag is `upper`.
unfoldable pub camel_from : (Char → String) → Bool → String → String
camel_from upper up String.[] = ""
camel_from upper up (String.◌∷◌ c s) =
    let raised = camel_from upper true s in
    let plain = camel_from upper false s in
    if is_char c b'-' then raised else if up then upper c ⁺⁺ plain else String.◌∷◌ c plain

-- `to_camel_case`; `upper` is `char::to_uppercase`.
unfoldable pub to_camel_case : (Char → String) → String → String
unfolding camel_from
to_camel_case upper s = camel_from upper false s

-- `to_kebab_case`
unfoldable pub to_kebab_case : String → String
to_kebab_case String.[] = ""
to_kebab_case (String.◌∷◌ c s) =
    let rest = to_kebab_case s in
    if is_ascii_uppercase c
    then String.◌∷◌ "-" (String.◌∷◌ (to_lower c) rest)
    else String.◌∷◌ c rest

-- `is_connector_private_environment`
unfoldable pub is_connector_private_environment : String → Bool
unfolding to_ascii_uppercase starts_with
is_connector_private_environment variable =
    let name = to_ascii_uppercase variable in
    name == "CODEX_HOME"
    || name == "OPENAI_API_KEY"
    || name == "CODEX_API_KEY"
    || starts_with name "BAIJIMU_"
    || starts_with name "DIGITAL_EMPLOYEE_CONNECTOR_"

-- `isolate_from_connector_environment`: the variables that a child keeps.
unfoldable pub isolate_from_connector_environment : List (String × String) → List (String × String)
unfolding is_connector_private_environment
isolate_from_connector_environment vars =
    keep_if (λ v. not (is_connector_private_environment v.0)) vars

module _ (env : String → Option String) where
  -- `home_dir` on Unix
  unfoldable pub home_dir : String
  home_dir = unwrap_or (and_then (env "HOME") (λ h. when (not (is_empty h)) h)) "."

  -- `connector_home`
  unfoldable pub connector_home : String
  unfolding home_dir join
  connector_home =
      unwrap_or (or_else (env "BAIJIMU_LOCAL_APP_DATA_DIR") (env "DIGITAL_EMPLOYEE_CONNECTOR_HOME"))
        (join home_dir ".baijimu-digital-employee-connector")

  -- `employee_codex_home`
  unfoldable pub employee_codex_home : String
  unfolding connector_home
  employee_codex_home = join (join connector_home "runtime") "codex"

  -- `management_token_path`
  unfoldable pub management_token_path : String
  unfolding connector_home
  management_token_path =
      unwrap_or (env "BAIJIMU_LOCAL_APP_TOKEN_FILE") (join connector_home "management-token")

  -- `pid_path`
  unfoldable pub pid_path : String
  unfolding connector_home
  pid_path = join connector_home "connector.pid"

  -- `log_path`
  unfoldable pub log_path : String
  unfolding connector_home
  log_path = join connector_home "connector.log"

abbrev pub has_prefix : List String → List String → Bool
has_prefix [] l = true
has_prefix (p ∷ ps) [] = false
has_prefix (p ∷ ps) (l ∷ ls) = p == l && has_prefix ps ls

-- `Path::starts_with` on absolute canonical paths: component by component.
unfoldable pub path_starts_with : String → String → Bool
unfolding path_parts
path_starts_with path base =
    let parts = λ (s : String). keep_if (λ p. not (is_empty p)) (path_parts s) in
    has_prefix (parts base) (parts path)

-- The directories of the machine: a failure is its text.
pub record Directories : Type 0 where
  pub create_dir_all : String → Result String (Unit {0})
  pub canonicalize : String → Result String String
  pub protect : String → Result String (Unit {0})

abbrev outside : String → Result String String → Bool
outside actual (ok desktop) = not (actual == desktop || path_starts_with actual desktop)
outside actual (err _) = true

-- `prepare_employee_home`
unfoldable pub prepare_employee_home :
    (String → Option String) → Directories → String → Result String (Unit {0})
unfolding home_dir path_starts_with join
prepare_employee_home env dirs path = do
  _ ← dirs.create_dir_all path
  actual ← dirs.canonicalize path
  _ ←
      guard (outside actual (dirs.canonicalize (join (home_dir env) ".codex")))
        "数字员工运行目录不能指向用户桌面 Codex 目录"
  dirs.protect path
