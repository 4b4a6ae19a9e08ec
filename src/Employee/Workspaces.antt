-- ===== src/Employee/Workspaces.antt =====
-- The workspaces of the platform account, page by page from the platform CLI
-- (src/employee_workspaces.rs). What the CLI prints for a page is an argument.
use baijimu_digital_employee.Base.{
  ℕ, zero, suc, ◌+◌, String, Bool, true, false, ◌||◌, Option, none, some, List, [], ◌∷◌, ◌++◌, ok,
  err, eqb, leb, any, ◌==◌, guard, ◌>>=◌, ◌>>◌, if◌then◌else◌,
}
use baijimu_digital_employee.Text.{◌⁺⁺◌}
use baijimu_digital_employee.Http.{http_error, internal, Http}

-- `Workspace`, and `Entry` of a page
pub record Workspace : Type 0 where
  pub workspace_id : ℕ
  pub name : String

-- `Response` with its `Page`
pub record Page : Type 0 where
  pub error_code : String
  pub entries : List Workspace
  pub total_pages : ℕ

-- What running the CLI for a page gives.
pub data CliOutput : Type 0 where
  no_command : String → CliOutput
  not_started : CliOutput
  not_successful : CliOutput
  unreadable : String → CliOutput
  printed : Page → CliOutput

abbrev pub has_id : ℕ → List Workspace → Bool
has_id id workspaces = any (λ w. eqb w.workspace_id id) workspaces

-- `for entry in response.data.list`
unfoldable pub add_entries : List Workspace → List Workspace → Http (List Workspace)
add_entries workspaces [] = ok workspaces
add_entries workspaces (entry ∷ entries) =
    let rest = add_entries (workspaces ++ entry ∷ []) entries in
    if eqb entry.workspace_id 0 || has_id entry.workspace_id workspaces
    then err (http_error 502 "平台工作区目录身份无效或重复")
    else rest

-- One page: the workspaces so far and whether it is the last page.
unfoldable pub read_page : CliOutput → ℕ → List Workspace → Http (List Workspace × Bool)
unfolding add_entries
read_page (no_command error) page workspaces = err (internal error)
read_page not_started page workspaces = err (internal "无法启动平台 CLI 读取工作区")
read_page not_successful page workspaces = err (http_error 502 "平台工作区查询失败，请检查客户端的平台账号授权")
read_page (unreadable error) page workspaces = err (http_error 502 ("平台工作区目录响应无效: " ⁺⁺ error))
read_page (printed p) page workspaces =
    guard (p.error_code == "0") (http_error 502 "平台工作区目录返回错误")
    >> add_entries workspaces p.entries
    >>= λ ws. ok (ws, leb p.total_pages page)

-- What the loop does after a page: it returns, or reads on.
abbrev pub continue :
    (List Workspace → Option (Http (List Workspace)))
    → Http (List Workspace × Bool)
    → Option (Http (List Workspace))
continue next (err e) = some (err e)
continue next (ok (ws, true)) = some (ok ws)
continue next (ok (ws, false)) = next ws

module _ (run : ℕ → CliOutput) where
  -- The loop of `list`; `none` is out of fuel.
  unfoldable pub list_from : ℕ → ℕ → List Workspace → Option (Http (List Workspace))
  unfolding read_page
  list_from zero page workspaces = none
  list_from (suc fuel) page workspaces =
      continue (list_from fuel (page + 1)) (read_page (run page) page workspaces)

  -- `list`
  unfoldable pub list : ℕ → Option (Http (List Workspace))
  unfolding list_from
  list fuel = list_from fuel 1 []
