-- ===== src/Employee.antt =====
-- The connector's one employee and its file (src/employee.rs).
-- Parsing a version (the semver crate) and reading and printing the file's JSON (serde_json with the
-- derived code) are arguments. Paths are those of Unix.
pub mod Workspaces
pub mod Storage
pub mod Grants
pub mod Paging
pub mod Invocation
pub mod Confined
mod Tests
pub mod Management
use baijimu_digital_employee.Base.{
  ℕ, String, Bool, true, false, not, ◌&&◌, ◌||◌, Option, none, some, List, [], ◌∷◌, Result, ok, err,
  ltb, is_some, is_some_and, ok_or, guard, ◌==◌, ◌>>=◌, ◌>>◌,
}
use baijimu_digital_employee.Text.{◌⁺⁺◌, is_empty, trim, byte_len, is_absolute}
use baijimu_digital_employee.Json.{json}
use baijimu_digital_employee.Map.{Map, nat_order, contains_key}
use baijimu_digital_employee.Http.{HttpError, http_error, internal, coded, Http}
use baijimu_digital_employee.Files.{FileRead, not_found, failed, bytes}

-- `BTreeSet<u64>`
abbrev pub IdSet : Type 0
IdSet = Map ℕ (Unit {0})

-- `Employee`
pub record Employee : Type 0 where
  pub schema_version : String
  pub name : String
  pub description : String
  pub enabled : Bool
  pub working_directory : Option String
  pub authorized_workspace_ids : IdSet

abbrev pub schema_version : String
schema_version = "1.0.0"

-- `semver::Version::parse` with `to_string`; `serde_json::from_slice::<Employee>` and
-- `to_vec_pretty`.
pub record Library : Type 0 where
  pub version_of : String → Option String
  pub read_employee : List ℕ → Option Employee
  pub print_employee : Employee → List ℕ

-- `employee.json` and the temporary file of a save.
pub record Disk : Type 0 where
  pub file : FileRead
  pub temporary : Option (List ℕ)

-- Where a save fails, with the error's text: before the temporary file is open; while it is written,
-- synced or renamed (and whether it can be removed then); or when the directory is synced after the
-- rename.
pub data SaveFault : Type 0 where
  no_fault : SaveFault
  unopened : String → SaveFault
  unpublished : String → Bool → SaveFault
  unsynced : String → SaveFault

module _ (library : Library) where
  -- The tests of `validate` behind the version's.
  abbrev pub is_profile_valid : Employee → Bool
  is_profile_valid e = not (
      is_empty (trim e.name)
      || ltb 200 (byte_len e.name)
      || ltb 4000 (byte_len e.description)
      || contains_key e.authorized_workspace_ids 0)

  -- `validate`
  unfoldable pub validate : Employee → Http (Unit {0})
  unfolding trim byte_len contains_key
  validate e = ok_or (library.version_of e.schema_version) (internal "员工配置版本无效") >>= λ version.
      guard (version == schema_version) (internal "不支持此员工配置版本")
      >> guard (is_profile_valid e) (http_error 400 "员工资料或授权配置无效")
      >> guard (not (is_some_and e.working_directory (λ cwd. not (is_absolute cwd))))
          (http_error 400 "员工执行配置无效")

  abbrev pub new_employee : String → String → Bool → Employee
  new_employee name description enabled = record {
    schema_version = schema_version;
    name = name;
    description = description;
    enabled = enabled;
    working_directory = none;
    authorized_workspace_ids = [];
  }

  -- `Employee::registered`
  unfoldable pub registered : String → String → Bool → Http Employee
  unfolding validate
  registered name description enabled = validate (new_employee name description enabled) >>= λ _.
      ok (new_employee name description enabled)

  -- `load`
  unfoldable pub load : Disk → Http (Option Employee)
  unfolding validate
  load disk = elim disk.file [
    | not_found ↦ ok none
    | failed error ↦ err (internal ("读取员工配置失败: " ⁺⁺ error))
    | bytes content ↦ ok_or (library.read_employee content) (internal "员工配置损坏，请在本地修复配置文件") >>= λ e.
        validate e >>= λ _. ok (some e)
  ]

  -- `require`
  unfoldable pub require : Disk → Http Employee
  unfolding load
  require disk =
      load disk >>= λ o. ok_or o (coded 403 "员工尚未在本地注册" "EMPLOYEE_NOT_REGISTERED" (json []))

  abbrev save_failed : String → Http (Unit {0})
  save_failed error = err (internal ("保存员工配置失败: " ⁺⁺ error))

  abbrev pub publish : SaveFault → List ℕ → Disk → Http (Unit {0}) × Disk
  publish no_fault content disk = (ok tt, record disk { file = bytes content })
  publish (unopened error) content disk = (save_failed error, disk)
  publish (unpublished error true) content disk = (save_failed error, disk)
  publish (unpublished error false) content disk =
      (save_failed error, record disk { temporary = some content })
  publish (unsynced error) content disk = (save_failed error, record disk { file = bytes content })

  -- `save`
  unfoldable pub save : SaveFault → Employee → Disk → Http (Unit {0}) × Disk
  unfolding validate
  save fault e disk = elim (validate e) [
    | err error ↦ (err error, disk)
    | ok _ ↦ publish fault (library.print_employee e) disk
  ]

-- `authorize`
unfoldable pub authorize : Employee → ℕ → Http (Unit {0})
unfolding contains_key
authorize e workspace =
    guard (e.enabled && contains_key e.authorized_workspace_ids workspace)
      (coded 403 "员工已停用或未授权此工作区" "EMPLOYEE_ACCESS_DENIED" (json []))
    >> guard (is_some e.working_directory)
        (coded 409 "请先在本地管理界面完成员工执行配置" "EMPLOYEE_NOT_CONFIGURED" (json []))
