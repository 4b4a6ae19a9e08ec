-- ===== src/Checkout.antt =====
-- The checkout of a platform project (src/project_checkout.rs, src/baijimu_cli.rs). The runs of git and of
-- the platform CLI, the file system, the environment and the parsing of URLs and JSON are arguments. An
-- error is the text that it prints, which is its outermost context.
pub mod Branch
pub mod Reuse
mod Tests
use baijimu_digital_employee.Base.{
  ℕ, String, Bool, true, false, not, ◌&&◌, ◌||◌, Option, none, some, List, [], ◌∷◌, ◌++◌, Result,
  ok, err, ok_or, eqb, and_then, when, unwrap_or, ◌==◌, ◌>>=◌, guard, ◌>>◌, if◌then◌else◌,
}
use baijimu_digital_employee.Text.{◌⁺⁺◌, is_empty, trim, to_decimal, is_absolute}
use baijimu_digital_employee.Text.Search.{starts_with, join, path_parts}
use baijimu_digital_employee.Json.{Value, number, pos_int, string, json, get_str}
use baijimu_digital_employee.Json.Object

-- `CheckoutRequest`
pub record CheckoutRequest : Type 0 where
  pub workspace_id : ℕ
  pub project_id : ℕ
  pub branch : Option String

-- `CheckoutResult`
pub record CheckoutResult : Type 0 where
  pub workspace_id : ℕ
  pub project_id : ℕ
  pub directory : String
  pub branch : String
  pub remote_url : String
  pub reused : Bool
  pub checkout : Value

-- A run of a command: not started, ended without success (its stderr), or its stdout.
pub data CommandRun : Type 0 where
  not_started : CommandRun
  unsuccessful : String → CommandRun
  printed : String → CommandRun

-- `command` is the CLI's command or why there is none; `run_cli` takes its arguments, and `git` a directory
-- and its arguments.
pub record Machine : Type 0 where
  pub projects_dir : Option String
  pub connector_home : String
  pub exists : String → Bool
  pub is_file : String → Bool
  pub create_parent : String → Bool
  pub cli_path : Option String
  pub run_cli : List String → CommandRun
  pub git : String → List String → CommandRun
  pub canonicalize : String → Option String
  pub from_slice : String → Option Value
  pub url_path : String → Option String

abbrev pub Checked {ℓ} : Type ℓ → Type ℓ
Checked A = Result String A

abbrev pub joined : List String → String
joined [] = ""
joined (a ∷ []) = a
joined (a ∷ b ∷ rest) = a ⁺⁺ " " ⁺⁺ joined (b ∷ rest)

abbrev pub non_blank : Option String → Option String
non_blank branch = and_then branch (λ b. when (not (is_empty (trim b))) (trim b))

-- `required_json_string`
unfoldable pub required_json_string : Value → String → Checked String
unfolding Object.get trim
required_json_string value key =
    ok_or (non_blank (get_str value key)) ("baijimu project checkout 响应缺少" ⁺⁺ key)

-- `validate_binary_path`
unfoldable pub validate_binary_path : (String → Bool) → String → Checked String
validate_binary_path is_file path =
    if not (is_absolute path)
    then err "DIGITAL_EMPLOYEE_CONNECTOR_BAIJIMU_BINARY 必须是绝对路径，不能依赖 PATH 查找"
    else if not (is_file path)
    then err ("Bridge Agent 注入的 baijimu CLI 不存在：" ⁺⁺ path)
    else ok path

-- `binary`
unfoldable pub binary : (String → Bool) → Option String → Checked String
unfolding validate_binary_path
binary is_file none = err "Bridge Agent 未注入平台管理的 baijimu CLI 绝对路径；请升级或重启 Bridge Agent"
binary is_file (some path) =
    if is_empty path
    then err "Bridge Agent 未注入平台管理的 baijimu CLI 绝对路径；请升级或重启 Bridge Agent"
    else validate_binary_path is_file path

abbrev pub no_cli {ℓ} : {A : Type ℓ} → Checked A → Checked A
no_cli (ok a) = ok a
no_cli (err _) = err "Bridge Agent 未提供平台管理的 baijimu CLI"

-- `git_output` of a run
abbrev pub git_text : List String → CommandRun → Checked String
git_text args not_started = err ("执行 git " ⁺⁺ joined args ⁺⁺ " 失败")
git_text args (unsuccessful stderr) = err ("现有目录不是有效的平台 Git checkout: " ⁺⁺ trim stderr)
git_text args (printed stdout) = ok (trim stdout)

abbrev pub last_of : String → List String → String
last_of s [] = s
last_of s (t ∷ ts) = last_of t ts

-- `branch.rsplit('/').next()`
abbrev pub last_segment : String → String
last_segment branch = last_of "" (path_parts branch)

-- The branch that is there is the one that is asked for, or ends in it behind the namespace.
unfoldable pub is_branch : Option String → String → Bool
unfolding path_parts starts_with
is_branch none branch = true
is_branch (some requested) branch =
    branch == requested || not (starts_with requested "codex/") && last_segment branch == requested

abbrev pub expected_path : CheckoutRequest → String
expected_path r =
    "/git/v1/workspaces/"
    ⁺⁺ to_decimal r.workspace_id
    ⁺⁺ "/projects/"
    ⁺⁺ to_decimal r.project_id
    ⁺⁺ ".git"

abbrev pub branch_mismatch : Option String → String → String
branch_mismatch requested branch =
    "现有项目分支与请求分支不一致: current=" ⁺⁺ branch ⁺⁺ ", requested=" ⁺⁺ unwrap_or requested ""

module _ (m : Machine) where
  unfoldable pub git_output : String → List String → Checked String
  unfolding trim
  git_output directory args = git_text args (m.git directory args)

  abbrev pub existing_result : CheckoutRequest → String → String → String → CheckoutResult
  existing_result r directory branch remote_url = record {
    workspace_id = r.workspace_id;
    project_id = r.project_id;
    directory = directory;
    branch = branch;
    remote_url = remote_url;
    reused = true;
    checkout = json (
        ("workspaceId", number (pos_int r.workspace_id))
        ∷ ("projectId", number (pos_int r.project_id))
        ∷ ("directory", string directory)
        ∷ ("branch", string branch)
        ∷ ("remoteUrl", string remote_url)
        ∷ []);
  }

  -- `inspect_existing`
  unfoldable pub inspect_existing : String → CheckoutRequest → Checked CheckoutResult
  unfolding git_output is_branch to_decimal
  inspect_existing directory r = do
    workspace ← git_output directory ("config" ∷ "--get" ∷ "baijimu.workspaceId" ∷ [])
    project ← git_output directory ("config" ∷ "--get" ∷ "baijimu.projectId" ∷ [])
    _ ←
        guard (workspace == to_decimal r.workspace_id && project == to_decimal r.project_id)
          ("目标目录已存在但不属于请求的平台项目，拒绝复用: " ⁺⁺ directory)
    remote_url ← git_output directory ("remote" ∷ "get-url" ∷ "origin" ∷ [])
    path ← ok_or (m.url_path remote_url) "现有项目 origin URL 无效"
    _ ← guard (path == expected_path r) "现有项目 origin 与请求的平台项目不一致，拒绝复用"
    branch ← git_output directory ("branch" ∷ "--show-current" ∷ [])
    _ ← guard (starts_with branch "codex/") "现有项目当前分支不在 codex 命名空间，拒绝作为 Codex 工作区"
    _ ← guard (is_branch (non_blank r.branch) branch) (branch_mismatch (non_blank r.branch) branch)
    canonical ← ok_or (m.canonicalize directory) ("现有项目目录回查失败: " ⁺⁺ directory)
    ok (existing_result r canonical branch remote_url)

  -- `projects_root`
  unfoldable pub projects_root : Checked String
  unfolding join
  projects_root =
      let root = unwrap_or m.projects_dir (join m.connector_home "projects") in
      if is_absolute root then ok root else err "DIGITAL_EMPLOYEE_CONNECTOR_PROJECTS_DIR必须是绝对路径"

  abbrev pub directory_of : String → CheckoutRequest → String
  directory_of root r =
      join (join root ("workspace-" ⁺⁺ to_decimal r.workspace_id))
        ("project-" ⁺⁺ to_decimal r.project_id)

  abbrev pub branch_args : Option String → List String
  branch_args none = []
  branch_args (some branch) = "--branch" ∷ branch ∷ []

  -- The arguments of the CLI.
  unfoldable pub checkout_args : String → CheckoutRequest → List String
  unfolding to_decimal
  checkout_args directory r =
      ("project"
        ∷ "checkout"
        ∷ to_decimal r.project_id
        ∷ "--workspace-id"
        ∷ to_decimal r.workspace_id
        ∷ "--directory"
        ∷ directory
        ∷ [])
      ++ branch_args (non_blank r.branch)

  abbrev pub cli_text : CommandRun → Checked String
  cli_text not_started = err "启动 baijimu project checkout 失败；请先安装平台管理的 baijimu CLI"
  cli_text (unsuccessful stderr) = err ("平台项目检出失败: " ⁺⁺ trim stderr)
  cli_text (printed stdout) = ok stdout

  -- What must be there before the CLI is run.
  abbrev pub may_run : String → Checked String
  may_run directory =
      guard (m.create_parent directory) ("创建平台项目目录失败: " ⁺⁺ directory)
      >> no_cli (binary m.is_file m.cli_path)

  -- What is read of the run of the CLI.
  unfoldable pub fetched : String → CheckoutRequest → Checked CheckoutResult
  unfolding checkout_args required_json_string
  fetched directory r = do
    stdout ← cli_text (m.run_cli (checkout_args directory r))
    checkout ← ok_or (m.from_slice stdout) "baijimu project checkout 未返回合法JSON"
    canonical ← ok_or (m.canonicalize directory) ("检出目录回查失败: " ⁺⁺ directory)
    branch ← required_json_string checkout "branch"
    remote_url ← required_json_string checkout "remoteUrl"
    ok (record {
      workspace_id = r.workspace_id;
      project_id = r.project_id;
      directory = canonical;
      branch = branch;
      remote_url = remote_url;
      reused = false;
      checkout = checkout;
    })

  -- The runs of the CLI, each by its arguments, and the result.
  abbrev pub Outcome : Type 0
  Outcome = List (List String) × Checked CheckoutResult

  -- The rest of `prepare`, for a directory that is not there.
  unfoldable pub check_out : String → CheckoutRequest → Outcome
  unfolding binary fetched
  check_out directory r = elim (may_run directory) [
    | err e ↦ ([], err e)
    | ok _ ↦ (checkout_args directory r ∷ [], fetched directory r)
  ]

  abbrev pub root_for : CheckoutRequest → Checked String
  root_for r =
      guard (not (eqb r.workspace_id 0 || eqb r.project_id 0)) "workspaceId和projectId必须大于0"
      >> projects_root

  abbrev pub at_directory : String → CheckoutRequest → Outcome
  at_directory directory r =
      if m.exists directory then ([], inspect_existing directory r) else check_out directory r

  -- `prepare`
  unfoldable pub prepare : CheckoutRequest → Outcome
  unfolding inspect_existing check_out projects_root join
  prepare r = elim (root_for r) [
    | err e ↦ ([], err e)
    | ok root ↦ at_directory (directory_of root r) r
  ]
