-- ===== src/Checkout/Tests.antt =====
-- Runs of the checkout of a project on a machine that has one.
use baijimu_digital_employee.Base.{
  ◌≡◌, refl, ℕ, String, Bool, true, false, Option, none, some, [], ◌∷◌, ok, err, ◌==◌,
  if◌then◌else◌,
}
use baijimu_digital_employee.Json.{string, json}
use baijimu_digital_employee.Json.Object
use baijimu_digital_employee.Checkout.{
  CheckoutRequest, CheckoutResult, Machine, CommandRun, unsuccessful, printed, is_branch,
  checkout_args, joined, existing_result, prepare,
}
use baijimu_digital_employee.Checkout.Reuse.{Prepared, prepare-Prepared}

abbrev origin : String
origin = "https://git.example/git/v1/workspaces/3/projects/7.git"

abbrev git_text : String → CommandRun
git_text line =
    if line == "config --get baijimu.workspaceId"
    then printed "3"
    else if line == "config --get baijimu.projectId"
    then printed "7"
    else if line == "remote get-url origin"
    then printed origin
    else if line == "branch --show-current"
    then printed "codex/main"
    else unsuccessful "unknown"

-- A machine with or without the directory of project 7.
abbrev machine : Bool → Machine
machine there = record {
  projects_dir = some "/p";
  connector_home = "/h";
  exists = λ path. there;
  is_file = λ path. true;
  create_parent = λ path. true;
  cli_path = some "/bin/baijimu";
  run_cli = λ args. printed "{}";
  git = λ directory args. git_text (joined args);
  canonicalize = λ path. some path;
  from_slice =
      λ text. some (json (("branch", string "codex/new") ∷ ("remoteUrl", string origin) ∷ []));
  url_path = λ url. some "/git/v1/workspaces/3/projects/7.git";
}

abbrev request : ℕ → Option String → CheckoutRequest
request project branch = record { workspace_id = 3; project_id = project; branch = branch }

abbrev place : String
place = "/p/workspace-3/project-7"

reuse_test :
    prepare (machine true) (request 7 (some " main "))
    ≡ ([], ok (existing_result (machine true) (request 7 none) place "codex/main" origin))
unfolding prepare
reuse_test = refl

other_project_test :
    prepare (machine true) (request 8 none)
    ≡ ([], err "目标目录已存在但不属于请求的平台项目，拒绝复用: /p/workspace-3/project-8")
unfolding prepare
other_project_test = refl

other_branch_test :
    prepare (machine true) (request 7 (some "codex/dev"))
    ≡ ([], err "现有项目分支与请求分支不一致: current=codex/main, requested=codex/dev")
unfolding prepare
other_branch_test = refl

no_project_test : prepare (machine true) (request 0 none) ≡ ([], err "workspaceId和projectId必须大于0")
unfolding prepare
no_project_test = refl

suffix_test : is_branch (some "b") "codex/a/b" ≡ true
unfolding is_branch
suffix_test = refl

abbrev checked_out : CheckoutResult
checked_out = record {
  workspace_id = 3;
  project_id = 7;
  directory = place;
  branch = "codex/new";
  remote_url = origin;
  reused = false;
  checkout = json (("branch", string "codex/new") ∷ ("remoteUrl", string origin) ∷ []);
}

fetch_test :
    prepare (machine false) (request 7 (some "new"))
    ≡ (checkout_args (machine false) place (request 7 (some "new")) ∷ [], ok checked_out)
unfolding prepare Object.insert
fetch_test = refl

prepare-Prepared_example : Prepared (machine true) (request 7 (some "main"))
prepare-Prepared_example = prepare-Prepared (machine true) (request 7 (some "main"))
