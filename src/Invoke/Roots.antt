-- ===== src/Invoke/Roots.antt =====
-- The projects that the desktop's state file names (src/invoke.rs, `resolve_state_project_references`
-- and what it calls).
use baijimu_digital_employee.Base.{
  String, Bool, not, Option, none, some, List, [], ◌∷◌, ◌++◌, map, any, keep_if, and_then,
  unwrap_or, is_some_and, when, ◌==◌, if◌then◌else◌,
}
use baijimu_digital_employee.Json.{
  Value, string, array, Fields, end, items_of, as_object, get, get_str,
}
use baijimu_digital_employee.Json.Object
use baijimu_digital_employee.Map
use baijimu_digital_employee.Map.{Map, string_order}
use baijimu_digital_employee.Invoke.Params.{is_blank, array_strings, unique_strings}
use baijimu_digital_employee.Invoke.Host.{Host, normalize_state_project_path}

-- `StateProjectRoot`
pub record StateProjectRoot : Type 0 where
  pub path : String
  pub project_id : Option String
  pub project_name : Option String
  pub root_paths : List String

abbrev pub has_path : String → List StateProjectRoot → Bool
has_path path roots = any (λ r. r.path == path) roots

abbrev pub push_root : List StateProjectRoot → StateProjectRoot → List StateProjectRoot
push_root out project = if has_path project.path out then out else out ++ project ∷ []

abbrev pub push_roots : List StateProjectRoot → List StateProjectRoot → List StateProjectRoot
push_roots out [] = out
push_roots out (project ∷ projects) = push_roots (push_root out project) projects

unfoldable pub unique_state_project_roots : List StateProjectRoot → List StateProjectRoot
unique_state_project_roots projects = push_roots [] projects

-- One root for each of the paths of a project.
abbrev pub roots_of : Option String → Option String → List String → List StateProjectRoot
roots_of id name paths =
    map (λ path. record { path = path; project_id = id; project_name = name; root_paths = paths })
      paths

abbrev pub has_project : String → StateProjectRoot → Bool
has_project id r = is_some_and r.project_id (λ i. i == id)

abbrev pub somes {ℓ κ} : {A : Type ℓ} {B : Type κ} → (A → Option B) → List A → List B
somes f [] = []
somes f (a ∷ l) = elim (f a) [ none ↦ somes f l | some b ↦ b ∷ somes f l ]

abbrev pub object_entries : Value → String → List (String × Value)
object_entries v key =
    unwrap_or (and_then (and_then (get v key) as_object) (λ fs. some (Object.to_list fs))) []

-- `assignment_roots.entry(project_id).or_default()`, and the push of a new path.
unfoldable pub add_assignment :
    Map String (List String) → String → String → Map String (List String)
unfolding Map.get Map.insert
add_assignment m id path =
    let roots = unwrap_or (Map.get m id) [] in
    Map.insert m id (if any (λ r. r == path) roots then roots else roots ++ path ∷ [])

module _ (host : Host) where
  -- The roots of one entry of `local-projects`.
  unfoldable pub local_project : String × Value → List StateProjectRoot
  unfolding Object.get normalize_state_project_path array_strings unique_strings
  local_project (fallback_id, value) =
      roots_of (some (unwrap_or (get_str value "id") fallback_id))
        (and_then (get_str value "name") (λ n. when (not (is_blank n)) n))
        (unique_strings
          (somes (normalize_state_project_path host) (array_strings (get value "rootPaths"))))

  abbrev pub local_projects : List (String × Value) → List StateProjectRoot
  local_projects [] = []
  local_projects (e ∷ l) = local_project e ++ local_projects l

  -- One assignment of a thread.
  unfoldable pub assigned : Map String (List String) → Value → Map String (List String)
  unfolding Object.get normalize_state_project_path
  assigned m assignment = elim (get_str assignment "projectId") [
    | none ↦ m
    | some id ↦ elim (and_then (get_str assignment "cwd") (normalize_state_project_path host)) [
      | none ↦ m
      | some path ↦ add_assignment m id path
    ]
  ]

  unfoldable pub assignment_roots :
      Map String (List String) → List (String × Value) → Map String (List String)
  unfolding assigned
  assignment_roots m [] = m
  assignment_roots m ((_, v) ∷ l) = assignment_roots (assigned m v) l

  -- The assignments of projects that are not there yet.
  unfoldable pub add_assigned :
      List StateProjectRoot → List (String × List String) → List StateProjectRoot
  add_assigned projects [] = projects
  add_assigned projects ((id, paths) ∷ l) =
      let skipped = add_assigned projects l in
      let added = add_assigned (projects ++ roots_of (some id) none paths) l in
      if any (has_project id) projects then skipped else added

  unfoldable pub state_project_roots : Value → List StateProjectRoot
  unfolding Object.get local_project assignment_roots add_assigned unique_state_project_roots
  state_project_roots global_state = unique_state_project_roots (
      add_assigned (local_projects (object_entries global_state "local-projects")) (
        host.roots_order
          (assignment_roots [] (object_entries global_state "thread-project-assignments"))))

  abbrev pub path_root : String → StateProjectRoot
  path_root path = record {
    path = path;
    project_id = none;
    project_name = none;
    root_paths = path ∷ [];
  }

  abbrev pub find_path : String → List StateProjectRoot → StateProjectRoot
  find_path path [] = path_root path
  find_path path (r ∷ l) = let rest = find_path path l in if r.path == path then r else rest

  unfoldable pub or_by_path :
      List StateProjectRoot → String → List StateProjectRoot → List StateProjectRoot
  unfolding normalize_state_project_path
  or_by_path known reference [] = elim (normalize_state_project_path host reference) [
    | none ↦ []
    | some path ↦ find_path path known ∷ []
  ]
  or_by_path known reference (r ∷ matches) = r ∷ matches

  -- What one reference, an id or a path, adds.
  unfoldable pub resolve_reference : List StateProjectRoot → String → List StateProjectRoot
  unfolding or_by_path
  resolve_reference known reference =
      or_by_path known reference (keep_if (has_project reference) known)

  unfoldable pub resolve_all : List StateProjectRoot → List String → List StateProjectRoot
  unfolding resolve_reference
  resolve_all known [] = []
  resolve_all known (r ∷ l) = resolve_reference known r ++ resolve_all known l

  unfoldable pub resolve_state_project_references : Value → List String → List StateProjectRoot
  unfolding state_project_roots unique_state_project_roots resolve_all
  resolve_state_project_references global_state references =
      unique_state_project_roots (resolve_all (state_project_roots global_state) references)

abbrev pub insert_text : String → Option String → Fields → Fields
insert_text key none fs = fs
insert_text key (some s) fs = Object.insert fs key (string s)

unfoldable pub state_project_fields : StateProjectRoot → Fields
unfolding Object.insert
state_project_fields project =
    Object.insert
      (insert_text "title" project.project_name (
        insert_text "projectName" project.project_name
          (insert_text "projectId" project.project_id end)))
      "rootPaths" (array (items_of (map string project.root_paths)))
