-- ===== src/Employee/Management.antt =====
-- The local management of the employee (src/employee_management.rs) and the directory that it may be
-- given (src/project_preparation.rs). The workspaces of the account, the file system's canonical paths
-- and the texts of decoding errors are arguments; the write lock makes a change one step.
use baijimu_digital_employee.Base.{
  ℕ, String, Bool, true, false, not, ◌&&◌, ◌||◌, Option, none, some, List, [], ◌∷◌, map, ok, err,
  ltb, and_then, is_some, any, guard, ok_or, ◌==◌, ◌>>=◌, ◌>>◌, if◌then◌else◌,
}
use baijimu_digital_employee.Text.{◌⁺⁺◌, trim, byte_len, is_absolute, is_control, any_char, max_u64}
use baijimu_digital_employee.Json.{
  Value, null, boolean, number, pos_int, string, array, Fields, items_of, json, as_str, as_bool,
  as_array,
}
use baijimu_digital_employee.Map.{nat_order, insert, contains_key}
use baijimu_digital_employee.Serde.{struct_fields, has_only, required, de_uint, de_list}
use baijimu_digital_employee.Http.{http_error, Http}
use baijimu_digital_employee.Employee.{
  IdSet, Employee, Library, Disk, SaveFault, registered, load, require, save,
}
use baijimu_digital_employee.Employee.Workspaces.{Workspace, has_id}

-- `Identity`, `Configuration` and `Authorization`
pub record Identity : Type 0 where
  pub name : String
  pub description : String
  pub enabled : Bool

abbrev identity_names : List String
identity_names = "name" ∷ "description" ∷ "enabled" ∷ []

abbrev identity_of : Fields → Option Identity
identity_of fs =
    if has_only identity_names fs
    then and_then (required fs "name" as_str) (λ name.
      and_then (required fs "description" as_str) (λ description.
        and_then (required fs "enabled" as_bool)
          (λ enabled. some (record { name = name; description = description; enabled = enabled }))))
    else none

unfoldable pub de_identity : Value → Option Identity
unfolding struct_fields has_only
de_identity v = and_then (struct_fields identity_names v) identity_of

unfoldable pub de_configuration : Value → Option String
unfolding struct_fields has_only
de_configuration v = and_then (struct_fields ("workingDirectory" ∷ []) v) (λ fs.
    if has_only ("workingDirectory" ∷ []) fs then required fs "workingDirectory" as_str else none)

abbrev pub set_of : List ℕ → IdSet
set_of [] = []
set_of (n ∷ l) = insert (set_of l) n tt

abbrev ids_of : Value → Option IdSet
ids_of v =
    and_then (as_array v) (λ l. and_then (de_list (de_uint max_u64) l) (λ ns. some (set_of ns)))

unfoldable pub de_authorization : Value → Option IdSet
unfolding struct_fields has_only insert
de_authorization v = and_then (struct_fields ("authorizedWorkspaceIds" ∷ []) v) (λ fs.
    if has_only ("authorizedWorkspaceIds" ∷ []) fs
    then required fs "authorizedWorkspaceIds" ids_of
    else none)

-- What `fs::canonicalize` and `is_dir` say of a path.
pub data Canonical : Type 0 where
  inaccessible : String → Canonical
  not_a_directory : Canonical
  not_utf8 : Canonical
  directory : String → Canonical

-- `local_directory`, with `absolute_directory`
unfoldable pub local_directory : (String → Canonical) → String → Http String
unfolding trim byte_len
local_directory canonicalize value =
    guard
      (not (
        not (is_absolute value)
        || ltb 1024 (byte_len value)
        || any_char is_control value
        || not (trim value == value)))
      (http_error 400 "必须提供设备上的绝对目录路径")
    >> elim (canonicalize value) [
      | inaccessible error ↦ err (http_error 400 ("设备目录不可访问: " ⁺⁺ error))
      | not_a_directory ↦ err (http_error 400 "所选路径不是目录")
      | not_utf8 ↦ err (http_error 400 "目录路径不是有效 UTF-8")
      | directory text ↦
          if ltb 1024 (byte_len text) then err (http_error 400 "目录路径超过会话长度限制") else ok text
    ]

abbrev id_values : IdSet → List Value
id_values [] = []
id_values ((id, _) ∷ ids) = number (pos_int id) ∷ id_values ids

abbrev text_or_null : Option String → Value
text_or_null none = null
text_or_null (some s) = string s

-- `Employee` (Serialize)
unfoldable pub encode_employee : Employee → Value
encode_employee e = json (
    ("schemaVersion", string e.schema_version)
    ∷ ("name", string e.name)
    ∷ ("description", string e.description)
    ∷ ("enabled", boolean e.enabled)
    ∷ ("workingDirectory", text_or_null e.working_directory)
    ∷ ("authorizedWorkspaceIds", array (items_of (id_values e.authorized_workspace_ids)))
    ∷ [])

-- `difference`: the ids that are asked for and not held.
unfoldable pub added : IdSet → IdSet → List ℕ
unfolding contains_key
added [] held = []
added ((id, _) ∷ asked) held =
    let rest = added asked held in if contains_key held id then rest else id ∷ rest

abbrev pub is_empty_list : List ℕ → Bool
is_empty_list [] = true
is_empty_list (_ ∷ _) = false

module _ (library : Library) (reason : Value → String) (canonicalize : String → Canonical)
    (workspaces : Http (List Workspace)) where
  -- `decode`
  abbrev decode : {A : Type 0} → (Value → Option A) → Value → Http A
  decode de body = ok_or (de body) (http_error 400 ("管理请求无效: " ⁺⁺ reason body))

  -- The employee that a change starts from.
  unfoldable pub current : String → Value → Disk → Http Employee
  unfolding de_identity registered require load
  current path body disk =
      if path == "/management/employee/register"
      then (load library disk >>= λ o.
          guard (not (is_some o)) (http_error 409 "员工已注册，请修改现有员工")
          >> decode de_identity body
          >>= λ i. registered library i.name i.description i.enabled)
      else require library disk

  -- The new ids are of workspaces that the account can access; the list is read only if there are any.
  unfoldable pub check_added : List ℕ → Http (Unit {0})
  check_added [] = ok tt
  check_added (id ∷ ids) = workspaces >>= λ available.
      guard (not (any (λ n. not (has_id n available)) (id ∷ ids)))
        (http_error 403 "只能授权本机平台账号当前可访问的工作区")

  abbrev identified : Employee → Identity → Employee
  identified e i = record e { name = i.name; description = i.description; enabled = i.enabled }

  -- `match path`
  unfoldable pub edit : String → Value → Employee → Http Employee
  unfolding de_identity de_configuration de_authorization local_directory added check_added
  edit path body e =
      if path == "/management/employee/update"
      then (decode de_identity body >>= λ i. ok (identified e i))
      else if path == "/management/employee/configure"
      then (decode de_configuration body >>= λ text.
          local_directory canonicalize text >>= λ directory.
          ok (record e { working_directory = some directory }))
      else if path == "/management/employee/authorize"
      then (decode de_authorization body >>= λ ids.
          check_added (added ids e.authorized_workspace_ids)
          >> ok (record e { authorized_workspace_ids = ids }))
      else ok e

  abbrev pub shown : Employee → Http (Unit {0}) × Disk → Http Value × Disk
  shown e (ok _, disk) = (ok (json (("employee", encode_employee e) ∷ [])), disk)
  shown e (err error, disk) = (err error, disk)

  -- `change`
  unfoldable pub change : SaveFault → String → Value → Disk → Http Value × Disk
  unfolding current edit save encode_employee
  change fault path body disk = elim (current path body disk >>= λ e. edit path body e) [
    | err error ↦ (err error, disk)
    | ok e ↦ shown e (save library fault e disk)
  ]

  -- `read`
  unfoldable pub read : Disk → Http Value
  unfolding load encode_employee
  read disk = load library disk >>= λ o.
      ok (json (("employee", elim o [ none ↦ null | some e ↦ encode_employee e ]) ∷ []))

  abbrev workspace_value : Workspace → Value
  workspace_value w =
      json (("workspaceId", number (pos_int w.workspace_id)) ∷ ("name", string w.name) ∷ [])

  abbrev pub is_change : String → Bool
  is_change path =
      path == "/management/employee/register"
      || path == "/management/employee/update"
      || path == "/management/employee/configure"
      || path == "/management/employee/authorize"

  -- `handle`
  unfoldable pub handle : SaveFault → String → String → Value → Disk → Option (Http Value × Disk)
  unfolding read change
  handle fault method path body disk =
      if method == "GET" && path == "/management/employee"
      then some (read disk, disk)
      else if method == "GET" && path == "/management/workspaces"
      then some (
        workspaces >>= λ l.
            ok (json (("workspaces", array (items_of (map workspace_value l))) ∷ [])),
        disk,
      )
      else if method == "POST" && is_change path
      then some (change fault path body disk)
      else none
