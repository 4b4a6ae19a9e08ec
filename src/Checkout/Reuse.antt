-- ===== src/Checkout/Reuse.antt =====
-- Which directory is handed out as the checkout of a project.
use baijimu_digital_employee.Base.{
  ◌≡◌, refl, sym, ◌∙◌, ap, subst, ◌⊎◌, inl, inr, ℕ, ◌<◌, String, true, false, not, ◌&&◌, ◌||◌, some,
  [], ◌∷◌, ok, err, eqb, guard-then, ok_or-then, ok-injective, arith, ◌==◌, eq_iff, >>=-eq-ok,
  unwrap_or, Bool-cases,
}
use baijimu_digital_employee.Text.{to_decimal, is_absolute}
use baijimu_digital_employee.Text.Search.{starts_with, join}
use baijimu_digital_employee.Checkout.Branch.{Fits, is_branch-Fits}
use baijimu_digital_employee.Checkout.{
  CheckoutRequest, CheckoutResult, Machine, Checked, git_output, non_blank, is_branch,
  expected_path, existing_result, inspect_existing, projects_root, directory_of, cli_text,
  checkout_args, may_run, fetched, Outcome, root_for, at_directory, check_out, prepare, printed,
  CommandRun, not_started, unsuccessful, required_json_string,
}

same_both : (a b c d : String) → (a == b && c == d) ≡ true → (a ≡ b) × (c ≡ d)
same_both a b c d h = elim (Bool-cases (a == b)) as (λ _. (a ≡ b) × (c ≡ d)) [
  | inl p ↦ let q : (c == d) ≡ true = sym (rw p refl) ∙ h in ((eq_iff a b).0 p, (eq_iff c d).0 q)
  | inr p ↦ let q : false ≡ true = sym (rw p refl) ∙ h in cc q
]

Checked-cases : {A : Type 0} (c : Checked A) → ((e : String) × (c ≡ err e)) ⊎ ((a : A) × (c ≡ ok a))
Checked-cases (err e) = inl (e, refl)
Checked-cases (ok a) = inr (a, refl)

module _ (m : Machine) where
  -- A directory that is there and is a checkout of the project that is asked for.
  abbrev pub Reused : String → CheckoutRequest → CheckoutResult → Type 0
  Reused directory r out =
      (git_output m directory ("config" ∷ "--get" ∷ "baijimu.workspaceId" ∷ [])
        ≡ ok (to_decimal r.workspace_id))
      × (git_output m directory ("config" ∷ "--get" ∷ "baijimu.projectId" ∷ [])
          ≡ ok (to_decimal r.project_id))
      × (git_output m directory ("remote" ∷ "get-url" ∷ "origin" ∷ []) ≡ ok out.remote_url)
      × (m.url_path out.remote_url ≡ some (expected_path r))
      × (git_output m directory ("branch" ∷ "--show-current" ∷ []) ≡ ok out.branch)
      × (starts_with out.branch "codex/" ≡ true)
      × Fits (non_blank r.branch) out.branch
      × (m.canonicalize directory ≡ some out.directory)
      × (out.reused ≡ true)

  inspect_existing-Reused :
      (directory : String) (r : CheckoutRequest) (out : CheckoutResult)
      → inspect_existing m directory r ≡ ok out
      → Reused directory r out
  unfolding inspect_existing
  inspect_existing-Reused directory r out h =
      let (w, w1, h1) =
        >>=-eq-ok (git_output m directory ("config" ∷ "--get" ∷ "baijimu.workspaceId" ∷ [])) _ h in
      let (p, p1, h2) =
        >>=-eq-ok (git_output m directory ("config" ∷ "--get" ∷ "baijimu.projectId" ∷ [])) _ h1 in
      let (g1, h3) =
        guard-then (w == to_decimal r.workspace_id && p == to_decimal r.project_id) _ _ out h2 in
      let (url, u1, h4) =
        >>=-eq-ok (git_output m directory ("remote" ∷ "get-url" ∷ "origin" ∷ [])) _ h3 in
      let (path, q1, h5) = ok_or-then (m.url_path url) _ _ out h4 in
      let (g2, h6) = guard-then (path == expected_path r) _ _ out h5 in
      let (branch, b1, h7) =
        >>=-eq-ok (git_output m directory ("branch" ∷ "--show-current" ∷ [])) _ h6 in
      let (g3, h8) = guard-then (starts_with branch "codex/") _ _ out h7 in
      let (g4, h9) = guard-then (is_branch (non_blank r.branch) branch) _ _ out h8 in
      let (canonical, c1, h10) = ok_or-then (m.canonicalize directory) _ _ out h9 in
      let e = ok-injective (existing_result m r canonical branch url) out h10 in
      let ids = same_both w (to_decimal r.workspace_id) p (to_decimal r.project_id) g1 in
      subst (Reused directory r) e (
        w1 ∙ ap ok ids.0,
        p1 ∙ ap ok ids.1,
        u1,
        q1 ∙ ap some ((eq_iff path (expected_path r)).0 g2),
        b1,
        g3,
        is_branch-Fits (non_blank r.branch) branch g4,
        c1,
        refl,
      )

  -- A checkout that the CLI made, at the directory that it was given.
  abbrev pub Fetched : String → CheckoutRequest → CheckoutResult → Type 0
  Fetched directory r out =
      (stdout : String) × (m.run_cli (checkout_args m directory r) ≡ printed stdout)
      × (m.from_slice stdout ≡ some out.checkout)
      × (m.canonicalize directory ≡ some out.directory)
      × (required_json_string out.checkout "branch" ≡ ok out.branch)
      × (required_json_string out.checkout "remoteUrl" ≡ ok out.remote_url)
      × (out.reused ≡ false)

  cli_text-ok :
      (run : CommandRun) (stdout : String) → cli_text m run ≡ ok stdout → run ≡ printed stdout
  cli_text-ok not_started stdout h = cc
  cli_text-ok (unsuccessful why) stdout h = cc
  cli_text-ok (printed text) stdout h = ap printed (ok-injective text stdout h)

  fetched-Fetched :
      (directory : String) (r : CheckoutRequest) (out : CheckoutResult)
      → fetched m directory r ≡ ok out
      → Fetched directory r out
  unfolding fetched
  fetched-Fetched directory r out h =
      let (stdout, s1, h3) = >>=-eq-ok (cli_text m (m.run_cli (checkout_args m directory r))) _ h in
      let (checkout, c1, h4) = ok_or-then (m.from_slice stdout) _ _ out h3 in
      let (canonical, d1, h5) = ok_or-then (m.canonicalize directory) _ _ out h4 in
      let (branch, b1, h6) = >>=-eq-ok (required_json_string checkout "branch") _ h5 in
      let (url, u1, h7) = >>=-eq-ok (required_json_string checkout "remoteUrl") _ h6 in
      let e = ok-injective _ out h7 in
      subst (Fetched directory r) e (stdout, cli_text-ok _ stdout s1, c1, d1, b1, u1, refl)

  -- A result without a run of the CLI: none, or a checkout that was there.
  abbrev pub Untouched : CheckoutRequest → Outcome m → Type 0
  Untouched r o =
      (o.0 ≡ [])
      × ((out : CheckoutResult)
          → o.1 ≡ ok out
          → (root : String) × (projects_root m ≡ ok root)
            × (m.exists (directory_of m root r) ≡ true)
            × Reused (directory_of m root r) r out)

  -- A result of one run of the CLI, for a directory that is not there.
  abbrev pub Ran : CheckoutRequest → Outcome m → Type 0
  Ran r o =
      (root : String) × (projects_root m ≡ ok root)
      × (m.exists (directory_of m root r) ≡ false)
      × (o.0 ≡ checkout_args m (directory_of m root r) r ∷ [])
      × ((out : CheckoutResult) → o.1 ≡ ok out → Fetched (directory_of m root r) r out)

  -- What must hold before anything is looked at.
  abbrev pub IsAllowed : CheckoutRequest → Type 0
  IsAllowed r =
      (0 < r.workspace_id)
      × (0 < r.project_id)
      × ((root : String) × (projects_root m ≡ ok root) × (is_absolute root ≡ true))

  abbrev pub Prepared : CheckoutRequest → Type 0
  Prepared r =
      ((e : String) × (prepare m r ≡ ([], err e)))
      ⊎ (IsAllowed r × (Untouched r (prepare m r) ⊎ Ran r (prepare m r)))

  projects_root-is_absolute : (root : String) → projects_root m ≡ ok root → is_absolute root ≡ true
  unfolding projects_root
  projects_root-is_absolute root h =
      let place = unwrap_or m.projects_dir (join m.connector_home "projects") in
      elim (Bool-cases (is_absolute place)) as (λ _. is_absolute root ≡ true) [
        | inl p ↦
            let e = ok-injective place root (sym (rw (p, projects_root) refl) ∙ h) in
            subst (λ s. is_absolute s ≡ true) e p
        | inr p ↦
            let e : err "DIGITAL_EMPLOYEE_CONNECTOR_PROJECTS_DIR必须是绝对路径" ≡ ok root =
              sym (rw (p, projects_root) refl) ∙ h in
            cc e
      ]

  positive_ids : (a b : ℕ) → not (eqb a 0 || eqb b 0) ≡ true → (0 < a) × (0 < b)
  positive_ids a b h = ground arith

  IsAllowed-cases :
      (r : CheckoutRequest)
      → IsAllowed r
      → (o : Outcome m) → ((e : String) × (o ≡ ([], err e))) ⊎ (Untouched r o ⊎ Ran r o)
      → ((e : String) × (o ≡ ([], err e))) ⊎ (IsAllowed r × (Untouched r o ⊎ Ran r o))
  IsAllowed-cases r a o (inl h) = inl h
  IsAllowed-cases r a o (inr h) = inr (a, h)

  at_directory-cases :
      (r : CheckoutRequest) (root : String)
      → projects_root m ≡ ok root
      → ((e : String) × (at_directory m (directory_of m root r) r ≡ ([], err e)))
        ⊎ (Untouched r (at_directory m (directory_of m root r) r)
            ⊎ Ran r (at_directory m (directory_of m root r) r))
  unfolding check_out
  at_directory-cases r root p =
      let place = directory_of m root r in
      elim (Bool-cases (m.exists place)) [
        | inl q ↦
            rw q (inr (inl (refl, λ out k. (root, p, q, inspect_existing-Reused place r out k))))
        | inr q ↦ rw q (elim (Checked-cases (may_run m place)) [
          | inl (e, k) ↦ rw (k, check_out) (inl (e, refl))
          | inr (cli, k) ↦
              rw (k, check_out)
                (inr (inr (root, p, q, refl, λ out h. fetched-Fetched place r out h)))
        ])
      ]

  -- `prepare` either refuses, and the CLI is not run; or both ids are positive, the root of the projects is
  -- an absolute path, and one of two things happens. If the directory of the project under this root is
  -- there, then the CLI is not run, and a checkout is handed out only if git finds the two ids of the
  -- request in its configuration, the path of its origin is that of the project, and its branch is in the
  -- namespace `codex/` and fits the branch that is asked for, if one is: it is that branch, or the request
  -- names none in the namespace and the branch ends in it behind a slash. Otherwise the CLI is run once,
  -- with this directory and these ids, and the branch and origin of a checkout that is handed out are those
  -- that it printed. In both cases the directory is the canonical path of that one.
  pub prepare-Prepared : (r : CheckoutRequest) → Prepared r
  unfolding prepare
  prepare-Prepared r = elim (Checked-cases (root_for m r)) [
    | inl (e, p) ↦ inl (e, rw (p, prepare) refl)
    | inr (root, p) ↦
        let (g, q) = guard-then (not (eqb r.workspace_id 0 || eqb r.project_id 0)) _ _ root p in
        let (lo, hi) = positive_ids r.workspace_id r.project_id g in
        let allowed : IsAllowed r = (lo, hi, (root, q, projects_root-is_absolute root q)) in
        rw (p, prepare) (IsAllowed-cases r allowed _ (at_directory-cases r root q))
  ]
