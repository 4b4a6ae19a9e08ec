-- ===== src/Invoke/Projects.antt =====
-- The projects that `/invoke/listProjects` gathers from the state file, the configuration and the
-- threads (src/invoke.rs, `upsert_project`, `parse_codex_project_config`, `read_thread_projects`).
use baijimu_digital_employee.Base.{
  ℕ, zero, suc, ◌+◌, ◌%◌, ◌^◌, min, max, String, Bool, true, false, ◌||◌, Option, none, some, List,
  [], ◌∷◌, ◌++◌, any, ok, err, and_then, unwrap_or, is_some_and, ◌==◌, if◌then◌else◌,
}
use baijimu_digital_employee.Text.{trim}
use baijimu_digital_employee.Text.Search.{
  strip_prefix, strip_suffix, lines, trim_matches, unescape_quotes, file_name,
}
use baijimu_digital_employee.Text.{split_once}
use baijimu_digital_employee.Json.{
  Value, null, boolean, number, pos_int, string, array, object, Fields, end, nil, json, items_of,
  list_of, as_str, as_u64, get, get_str,
}
use baijimu_digital_employee.Json.Object
use baijimu_digital_employee.Http.{Http}
use baijimu_digital_employee.History.{is_null}
use baijimu_digital_employee.Invoke.Params.{
  field_or_param, insert_some, insert_all, string_param, bool_param, usize_param, timeout_ms,
  thread_timestamp,
}
use baijimu_digital_employee.Invoke.Threads.{Merged, merge_unique_threads}
use baijimu_digital_employee.Invoke.Paging.{Request, page_threads, is_no_thread}
use baijimu_digital_employee.Invoke.Host.{Host, normalize_project_path}

abbrev pub is_string : String → Value → Bool
is_string s v = is_some_and (as_str v) (λ t. t == s)

unfoldable pub with_source : Fields → String → Option Value → Fields
unfolding Object.insert
with_source fs source (some (array items)) =
    if any (is_string source) (list_of items)
    then fs
    else Object.insert fs "sources" (array (items_of (list_of items ++ string source ∷ [])))
with_source fs source _ = fs

-- What `upsert_project` does to the entry.
unfoldable pub upserted : Value → String → Fields → Value
unfolding with_source Object.get insert_all
upserted (object fs) source fields =
    object (insert_all (with_source fs source (Object.get fs "sources")) (Object.to_list fields))
upserted project source fields = project

abbrev pub or_value : Option Value → Value → Value
or_value none v = v
or_value (some w) v = w

module _ (host : Host) where
  -- The entry of a project that is new.
  unfoldable pub new_project : String → Value
  unfolding file_name Object.insert
  new_project path = json (
      ("id", string path)
      ∷ ("path", string path)
      ∷ ("cwd", string path)
      ∷ ("title", string (unwrap_or (file_name path) path))
      ∷ ("exists", boolean (host.exists path))
      ∷ ("pinned", boolean false)
      ∷ ("active", boolean false)
      ∷ ("trustLevel", null)
      ∷ ("projectId", null)
      ∷ ("projectName", null)
      ∷ ("rootPaths", array (items_of (string path ∷ [])))
      ∷ ("sessionCount", number (pos_int 0))
      ∷ ("lastActiveAt", null)
      ∷ ("gitBranch", null)
      ∷ ("gitOriginUrl", null)
      ∷ ("sources", array nil)
      ∷ [])

  -- `upsert_project`: the entry that it returns.
  unfoldable pub upserted_entry : Fields → String → String → Fields → Value
  unfolding Object.get new_project upserted
  upserted_entry projects path source fields =
      upserted (or_value (Object.get projects path) (new_project path)) source fields

  unfoldable pub upsert_project : Fields → String → String → Fields → Fields
  unfolding Object.insert upserted_entry
  upsert_project projects path source fields =
      Object.insert projects path (upserted_entry projects path source fields)

  -- The header of a project's table in the configuration.
  unfoldable pub project_header : String → Option String
  unfolding strip_prefix strip_suffix
  project_header line = and_then (strip_prefix "[projects.\"" line) (strip_suffix "\"]")

  unfoldable pub trust_level : String → Option String
  unfolding strip_prefix split_once trim trim_matches
  trust_level line =
      and_then (strip_prefix "trust_level" line)
        (λ rest. and_then (split_once b'=' rest) (λ p. some (trim_matches b'"' (trim p.1))))

  abbrev pub push_trust :
      Option String → Option String → List (String × String) → List (String × String)
  push_trust (some project) (some value) rest = (project, value) ∷ rest
  push_trust _ _ rest = rest

  unfoldable pub config_lines : Option String → List String → List (String × String)
  unfolding trim normalize_project_path unescape_quotes project_header trust_level
  config_lines current [] = []
  config_lines current (line ∷ rest) = elim (project_header (trim line)) [
    | some raw ↦ config_lines (normalize_project_path host (unescape_quotes raw)) rest
    | none ↦ push_trust current (trust_level (trim line)) (config_lines current rest)
  ]

  -- `parse_codex_project_config`
  unfoldable pub parse_codex_project_config : String → List (String × String)
  unfolding config_lines lines
  parse_codex_project_config path = elim (host.read_text path) [
    | none ↦ []
    | some content ↦ config_lines none (lines content)
  ]

  -- One more session of a project.
  unfoldable pub counted : Value → Value → Value
  unfolding Object.get Object.insert thread_timestamp
  counted thread (object fs) = object (
      insert_some
        (Object.insert fs "sessionCount" (
          number (
            pos_int ((unwrap_or (and_then (Object.get fs "sessionCount") as_u64) 0 + 1) % 2 ^ 64))))
        "lastActiveAt" (thread_timestamp thread))
  counted thread project = project

  -- One thread of `for thread in &unique_threads`.
  unfoldable pub count_thread : Fields → Value → Fields
  unfolding Object.get Object.insert normalize_project_path counted upserted_entry
  count_thread projects thread =
      elim (and_then (get_str thread "cwd") (normalize_project_path host)) [
        | none ↦ projects
        | some path ↦
            Object.insert projects path
              (counted thread (upserted_entry projects path "threads" end))
      ]

  unfoldable pub count_threads : Fields → List Value → Fields
  unfolding count_thread
  count_threads projects [] = projects
  count_threads projects (t ∷ threads) = count_threads (count_thread projects t) threads

-- The parameters of one page of threads.
unfoldable pub stats_params : Value → Value → ℕ → Value
unfolding string_param Object.get Object.insert
stats_params body cursor limit = object (
    insert_some
      (insert_some
        (Object.insert
          (Object.insert
            (Object.insert (Object.insert end "cursor" cursor) "limit" (number (pos_int limit)))
            "sortKey" (string (unwrap_or (string_param body "sortKey") "updated_at")))
          "sortDirection" (string (unwrap_or (string_param body "sortDirection") "desc")))
        "archived" (field_or_param body "archived"))
      "useStateDbOnly" (field_or_param body "useStateDbOnly"))

abbrev pub clamp : ℕ → ℕ → ℕ → ℕ
clamp lo hi n = max lo (min n hi)

module _ {S : Type 0} (request : Request S) where
  unfoldable pub stats_received :
      (Value → Merged → S → Http Merged × S) → Merged → Http Value × S → Http Merged × S
  unfolding Object.get page_threads merge_unique_threads
  stats_received next m (err e, s) = (err e, s)
  stats_received next m (ok result, s) =
      let threads = page_threads result in
      let merged = merge_unique_threads m threads in
      let cursor = unwrap_or (get result "nextCursor") null in
      elim (is_null cursor || is_no_thread threads) [
        | true ↦ (ok merged, s)
        | false ↦ next cursor merged s
      ]

  -- The pages of `read_thread_projects`, whose number the source bounds.
  unfoldable pub stats_pages : ℕ → Value → ℕ → Value → Merged → S → Http Merged × S
  unfolding stats_received stats_params timeout_ms
  stats_pages zero body limit cursor m s = (ok m, s)
  stats_pages (suc n) body limit cursor m s =
      stats_received (λ c m s. stats_pages n body limit c m s) m
        (request "thread/list" (stats_params body cursor limit) (timeout_ms body) s)

  abbrev pub counted_threads : Host → Fields → Http Merged × S → Http Fields × S
  counted_threads host projects (err e, s) = (err e, s)
  counted_threads host projects (ok m, s) = (ok (count_threads host projects m.threads), s)

  -- `read_thread_projects`
  unfoldable pub read_thread_projects : Host → Value → Fields → S → Http Fields × S
  unfolding bool_param usize_param stats_pages count_threads
  read_thread_projects host body projects s = elim (bool_param body "includeThreadStats" true) [
    | false ↦ (ok projects, s)
    | true ↦ counted_threads host projects (
        stats_pages (clamp 1 500 (usize_param body "maxThreadPages" 100)) body
          (clamp 1 100 (usize_param body "threadPageLimit" 100))
          (unwrap_or (field_or_param body "threadCursor") null)
          (record { threads = []; indexes = [] }) s)
  ]
