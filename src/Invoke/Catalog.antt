-- ===== src/Invoke/Catalog.antt =====
-- `/invoke/listProjects` (src/invoke.rs, `list_projects`): the gathered projects, filtered, in their
-- order, and cut into pages.
use Prim.Native.Nat.{Ordering, compare}
use Prim.Native.String
use baijimu_digital_employee.Base.{
  ℕ, ◌+◌, ◌-◌, ◌%◌, ◌^◌, String, Bool, true, false, not, ◌&&◌, ◌||◌, List, [], ◌∷◌, ◌++◌, map, take,
  drop, length, keep_if, ok, err, ltb, and_then, unwrap_or, is_some_and, ◌==◌, if◌then◌else◌,
}
use baijimu_digital_employee.Base.Sort.{sort_by, then_with}
use baijimu_digital_employee.Text.{is_empty, to_decimal}
use baijimu_digital_employee.Text.Search.{contains, join}
use baijimu_digital_employee.Json.{
  Value, null, boolean, number, pos_int, string, array, Fields, end, json, items_of, as_bool, get,
  get_str,
}
use baijimu_digital_employee.Json.Object
use baijimu_digital_employee.Http.{Http}
use baijimu_digital_employee.Invoke.Params.{
  insert_all, array_strings, string_param, bool_param, usize_param,
}
use baijimu_digital_employee.Invoke.Paging.{Request}
use baijimu_digital_employee.Invoke.Host.{Host, read_json_file}
use baijimu_digital_employee.Invoke.Roots.{
  StateProjectRoot, resolve_state_project_references, unique_state_project_roots,
  state_project_fields,
}
use baijimu_digital_employee.Invoke.Projects.{
  upsert_project, parse_codex_project_config, read_thread_projects, clamp,
}

abbrev pub is_pinned : Value → Bool
is_pinned v = unwrap_or (and_then (get v "pinned") as_bool) false

abbrev pub position_from : ℕ → String → List String → ℕ
position_from i s [] = 2 ^ 64 - 1
position_from i s (t ∷ l) = let rest = position_from (i + 1) s l in if t == s then i else rest

-- The index of a path in the saved order, and `usize::MAX` for any other.
abbrev pub position : String → List String → ℕ
position s l = position_from 0 s l

abbrev pub text_of : Value → String → String
text_of v key = unwrap_or (get_str v key) ""

-- The comparison of `items.sort_by`.
unfoldable pub compare_projects : List String → Value → Value → Ordering
unfolding Object.get
compare_projects saved_order left right = elim (is_pinned left) [
  | true ↦ elim (is_pinned right) [
    | false ↦ Ordering.lt
    | true ↦
        then_with
          (compare (position (text_of left "path") saved_order)
            (position (text_of right "path") saved_order))
          (String.compare (text_of left "title") (text_of right "title"))
  ]
  | false ↦ elim (is_pinned right) [
    | true ↦ Ordering.gt
    | false ↦
        then_with
          (compare (position (text_of left "path") saved_order)
            (position (text_of right "path") saved_order))
          (String.compare (text_of left "title") (text_of right "title"))
  ]
]

-- `cursor + limit`, which wraps in a release build.
abbrev pub next_index : ℕ → ℕ → ℕ
next_index cursor limit = (cursor + limit) % 2 ^ 64

-- `next_cursor`
unfoldable pub next_cursor : ℕ → ℕ → ℕ → Value
unfolding to_decimal
next_cursor cursor limit total =
    if ltb (next_index cursor limit) total
    then string (to_decimal (next_index cursor limit))
    else null

-- `items.into_iter().skip(cursor).take(limit)`
unfoldable pub page_of : ℕ → ℕ → List Value → List Value
page_of cursor limit items = take limit (drop cursor items)

abbrev pub object_values : Fields → List Value
object_values fs = map (λ e. e.1) (Object.to_list fs)

module _ (host : Host) where
  abbrev pub upsert_roots : String → List (String × Value) → List StateProjectRoot → Fields → Fields
  upsert_roots source extra [] projects = projects
  upsert_roots source extra (r ∷ roots) projects =
      upsert_roots source extra roots
        (upsert_project host projects r.path source (insert_all (state_project_fields r) extra))

  abbrev pub upsert_trusted : List (String × String) → Fields → Fields
  upsert_trusted [] projects = projects
  upsert_trusted ((path, level) ∷ l) projects =
      upsert_trusted l (
        upsert_project host projects path "trusted" (Object.insert end "trustLevel" (string level)))

  abbrev pub references : Value → String → List StateProjectRoot
  references global_state key =
      resolve_state_project_references host global_state (array_strings (get global_state key))

  unfoldable pub saved_roots : Value → List StateProjectRoot
  unfolding unique_state_project_roots resolve_state_project_references Object.get
  saved_roots global_state = unique_state_project_roots (
      references global_state "project-order"
      ++ references global_state "electron-saved-workspace-roots")

  -- The projects before the threads are read.
  unfoldable pub stated_projects : Value → Value → List (String × String) → Fields
  unfolding saved_roots bool_param upsert_project state_project_fields
  stated_projects body global_state configured =
      let saved =
        if bool_param body "includeSaved" true
        then upsert_roots "saved" [] (saved_roots global_state) end
        else end in
      let active =
        upsert_roots "active" (("active", boolean true) ∷ [])
          (references global_state "active-workspace-roots") saved in
      let pinned =
        upsert_roots "pinned" (("pinned", boolean true) ∷ [])
          (references global_state "pinned-project-ids") active in
      if bool_param body "includeTrusted" true then upsert_trusted configured pinned else pinned

  -- `to_lowercase().contains(&search_term)` on a text field.
  abbrev pub field_contains : Value → String → String → Bool
  field_contains v key term = is_some_and (get_str v key) (λ s. contains (host.to_lowercase s) term)

  -- The test of `filter`.
  unfoldable pub is_listed : Bool → String → Value → Bool
  unfolding contains Object.get
  is_listed exists_only term project =
      (not exists_only || unwrap_or (and_then (get project "exists") as_bool) false)
      && (is_empty term
          || field_contains project "title" term
          || field_contains project "path" term)

  -- The projects in the order of the answer.
  unfoldable pub listed : Value → Value → Fields → List Value
  unfolding is_listed compare_projects sort_by string_param bool_param saved_roots
  listed body global_state projects =
      let term = host.to_lowercase (unwrap_or (string_param body "searchTerm") "") in
      sort_by (compare_projects (map (λ r. r.path) (saved_roots global_state)))
        (keep_if (is_listed (bool_param body "existsOnly" false) term) (object_values projects))

  unfoldable pub answer_of : String → Value → List Value → Value
  unfolding page_of next_cursor usize_param
  answer_of home body items =
      let cursor = usize_param body "cursor" 0 in
      let limit = clamp 1 500 (usize_param body "limit" 100) in
      let page = array (items_of (page_of cursor limit items)) in
      json (
        (
          "result",
          json (
              ("projects", page)
              ∷ ("items", page)
              ∷ ("total", number (pos_int (length items)))
              ∷ ("nextCursor", next_cursor cursor limit (length items))
              ∷ ("codexHome", string home)
              ∷ []),
        )
        ∷ [])

  abbrev pub answered : {S : Type 0} → String → Value → Value → Http Fields × S → Http Value × S
  answered home body global_state (err e, s) = (err e, s)
  answered home body global_state (ok projects, s) =
      (ok (answer_of home body (listed body global_state projects)), s)

  -- `list_projects`
  unfoldable pub list_projects : {S : Type 0} → Request S → String → Value → S → Http Value × S
  unfolding read_json_file parse_codex_project_config stated_projects read_thread_projects listed
      answer_of
  list_projects request home body s =
      let global_state = read_json_file host (join home ".codex-global-state.json") in
      let configured = parse_codex_project_config host (join home "config.toml") in
      answered home body global_state
        (read_thread_projects request host body (stated_projects body global_state configured) s)
