-- ===== src/Employee/Tests.antt =====
-- An employee that is registered and granted a workspace, and instances of the theorems about it.
use baijimu_digital_employee.Base.{
  ℕ, ◌+◌, ◌≡◌, refl, ◌↔◌, ◌⊎◌, String, true, none, some, List, [], ◌∷◌, arith, ok, err,
}
use baijimu_digital_employee.Text.{trim, byte_len}
use baijimu_digital_employee.Json.{
  Value, number, pos_int, string, array, Fields, end, items_of, json,
}
use baijimu_digital_employee.Json.Object
use baijimu_digital_employee.Map
use baijimu_digital_employee.Map.{nat_order, contains_key}
use baijimu_digital_employee.Http.{HttpError, Http}
use baijimu_digital_employee.Files.{not_found, bytes}
use baijimu_digital_employee.Employee.{
  Employee, Library, Disk, no_fault, unsynced, validate, load, save, authorize,
}
use baijimu_digital_employee.Employee.Workspaces.{Workspace, CliOutput, printed, list}
use baijimu_digital_employee.Employee.Management.{Canonical, inaccessible, current, change}
use baijimu_digital_employee.Employee.Storage.{Ok, IsValid, Saved, save-load, load-IsValid}
use baijimu_digital_employee.Employee.Grants.{Grants, Changes, change-outcome}
use baijimu_digital_employee.Employee.Invocation.{
  Method, input_schema, no_property, property, no_branch, find_property, method_properties,
  check_keys, check, finish, parameters,
}
use baijimu_digital_employee.Employee.Confined.{IsConfined, parameters-IsConfined}
use baijimu_digital_employee.Employee.Paging.{AtMost, Distinct, list-ends}

abbrev granted : Employee
granted = record {
  schema_version = "1.0.0";
  name = "e";
  description = "";
  enabled = true;
  working_directory = some "/work";
  authorized_workspace_ids = (12, tt) ∷ [];
}

-- A library that knows one document.
abbrev one_library : Library
one_library = record {
  version_of = λ v. some v;
  read_employee = λ _. some granted;
  print_employee = λ _. 1 ∷ [];
}

abbrev blank : Disk
blank = record { file = not_found; temporary = none }

abbrev stored : Disk
stored = record { file = bytes (1 ∷ []); temporary = none }

granted-Ok : Ok (validate one_library granted)
unfolding validate trim byte_len contains_key Map.get
granted-Ok = refl

-- The scenario of the source's own test.
authorizations :
    Ok (authorize granted 12)
    × ((e : HttpError) × (authorize granted 13 ≡ err e) × (e.status ≡ 403))
    × ((e : HttpError) × (authorize (record granted { working_directory = none }) 12 ≡ err e)
        × (e.status ≡ 409))
unfolding authorize contains_key Map.get
authorizations = (refl, (_, refl, refl), (_, refl, refl))

loads : load one_library stored ≡ ok (some granted)
unfolding load validate trim byte_len contains_key Map.get
loads = refl

load-IsValid_example : (load one_library stored ≡ ok (some granted)) ↔ (
    (content : List ℕ) × (stored.file ≡ bytes content)
    × (one_library.read_employee content ≡ some granted)
    × IsValid one_library granted)
load-IsValid_example = load-IsValid one_library stored granted

save-load_example :
    Saved one_library granted blank (save one_library (unsynced "full") granted blank)
save-load_example = save-load one_library (unsynced "full") granted blank refl

abbrev account : Http (List Workspace)
account = ok (record { workspace_id = 12; name = "w" } ∷ [])

abbrev grant_body : Value
grant_body = json (("authorizedWorkspaceIds", array (items_of (number (pos_int 12) ∷ []))) ∷ [])

abbrev no_directory : String → Canonical
no_directory _ = inaccessible "none"

change-outcome_example :
    ((error : HttpError) × (change one_library
          (λ _. "")
          no_directory
          account
          no_fault
          "/management/employee/authorize"
          grant_body
          stored
        ≡ (err error, stored)))
    ⊎ ((old : Employee) × (new : Employee) × (current one_library
            (λ _. "")
            no_directory
            account
            "/management/employee/authorize"
            grant_body
            stored
          ≡ ok old)
        × Grants account old new
        × Changes one_library
            (λ _. "")
            no_directory
            account
            new
            stored
            (change one_library
              (λ _. "")
              no_directory
              account
              no_fault
              "/management/employee/authorize"
              grant_body
              stored))
change-outcome_example =
    change-outcome one_library (λ _. "") no_directory account no_fault
      "/management/employee/authorize" grant_body stored

-- Two pages of one workspace each.
abbrev two_pages : ℕ → CliOutput
two_pages n = printed (record {
  error_code = "0";
  entries = record { workspace_id = n; name = "w" } ∷ [];
  total_pages = 2;
})

two_pages-AtMost : AtMost two_pages 2
two_pages-AtMost page p h = ground arith

list-ends_example :
    (r : Http (List Workspace)) × (list two_pages (2 + 1) ≡ some r)
    × ((ws : List Workspace) → r ≡ ok ws → Distinct ws)
list-ends_example = list-ends two_pages 2 two_pages-AtMost

-- A contract with one method.
abbrev start_method : Method
start_method = record {
  path = "/invoke/startThread";
  schema =
      input_schema
        (property "cwd" (input_schema no_property no_branch)
          (property "model" (input_schema no_property no_branch) no_property))
        no_branch;
}

abbrev call_body : Value
call_body = json (("model", string "m") ∷ [])

abbrev call_result : Value
call_result = json (("cwd", string "/work") ∷ ("model", string "m") ∷ [])

accepted :
    parameters (start_method ∷ []) (λ _. "") "/invoke/startThread" call_body granted
    ≡ ok call_result
unfolding parameters method_properties check_keys find_property check finish Object.get
    Object.insert
accepted = refl

parameters-IsConfined_example :
    IsConfined (start_method ∷ []) (λ _. "") "/invoke/startThread" call_body granted call_result
parameters-IsConfined_example =
    parameters-IsConfined (start_method ∷ []) (λ _. "") "/invoke/startThread" call_body granted
      call_result accepted

abbrev finished : Fields
finished = finish (start_method ∷ []) (λ _. "") "/invoke/startThread" end end granted
