-- ===== src/Invoke/Host.antt =====
-- What the listing of projects asks the machine: paths, files and the environment (src/invoke.rs,
-- `read_json_file`, `normalize_state_project_path`, `normalize_project_path`).
use baijimu_digital_employee.Base.{
  String, Bool, Option, none, some, List, [], ok, err, unwrap_or, ◌==◌, if◌then◌else◌,
}
use baijimu_digital_employee.Text.{is_empty, trim, is_absolute}
use baijimu_digital_employee.Text.Search.{strip_prefix, join}
use baijimu_digital_employee.Json.{Value, json}
use baijimu_digital_employee.Files.{FileRead, bytes, Codec, from_slice}
use baijimu_digital_employee.Map.{Map}

-- `read_text` is `fs::read_to_string`, `roots_order` the iteration order of a `HashMap`, and
-- `to_lowercase` the one of `str`, which the Unicode tables define.
pub record Host : Type 0 where
  pub home_dir : String
  pub current_dir : Option String
  pub exists : String → Bool
  pub read_file : String → FileRead
  pub read_text : String → Option String
  pub roots_order : Map String (List String) → List (String × List String)
  pub to_lowercase : String → String
  pub codec : Codec

module _ (host : Host) where
  abbrev pub decoded : FileRead → Value
  decoded (bytes b) = elim (from_slice host.codec b) [ ok v ↦ v | err _ ↦ json [] ]
  decoded _ = json []

  -- `read_json_file`
  unfoldable pub read_json_file : String → Value
  unfolding from_slice
  read_json_file path = decoded (host.read_file path)

  -- The path that a text stands for, with the home directory for `~`.
  unfoldable pub expand : String → String
  unfolding strip_prefix join
  expand trimmed =
      if trimmed == "~"
      then host.home_dir
      else elim (strip_prefix "~/" trimmed) [ some rest ↦ join host.home_dir rest | none ↦ trimmed ]

  unfoldable pub normalize_state_project_path : String → Option String
  unfolding trim expand
  normalize_state_project_path value =
      if is_empty (trim value)
      then none
      else if is_absolute (expand (trim value))
      then some (expand (trim value))
      else none

  unfoldable pub normalize_project_path : String → Option String
  unfolding trim expand join
  normalize_project_path value =
      if is_empty (trim value)
      then none
      else if is_absolute (expand (trim value))
      then some (expand (trim value))
      else some (join (unwrap_or host.current_dir ".") (expand (trim value)))
