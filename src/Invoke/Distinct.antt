-- ===== src/Invoke/Distinct.antt =====
-- The answer of the listing of projects has each path once.
use Prim.Native.Nat.{Ordering}
use baijimu_digital_employee.Base.{
  ◌≡◌, refl, sym, ◌∙◌, ap, ◌≢◌, inl, inr, String, Bool, true, Option, none, some, List, [], ◌∷◌,
  arith, All, All-keep_if, keep_if, Bool-cases, subst, if_cases, compare-ne, and_then, ok, err,
}
use baijimu_digital_employee.Base.Sort.{sort_by, insert_sorted}
use mathlib.Core.Option.{some-injective}
use baijimu_digital_employee.Text.Search.{join}
use baijimu_digital_employee.Http.{Http}
use baijimu_digital_employee.Json.{Value, boolean, string, as_str, Fields, end, field, get}
use baijimu_digital_employee.Json.Entries.{Entries, Entries-insert}
use baijimu_digital_employee.Json.Sorted.{Above}
use baijimu_digital_employee.Invoke.Params.{bool_param}
use baijimu_digital_employee.Invoke.Host.{Host, read_json_file}
use baijimu_digital_employee.Invoke.Roots.{StateProjectRoot, state_project_fields, insert_text}
use baijimu_digital_employee.Invoke.Threads.{Merged}
use baijimu_digital_employee.Invoke.Paging.{Request}
use baijimu_digital_employee.Invoke.Projects.{
  read_thread_projects, counted_threads, parse_codex_project_config,
}
use baijimu_digital_employee.Invoke.Catalog.{
  upsert_roots, upsert_trusted, saved_roots, references, stated_projects, listed, object_values,
  answered, answer_of, list_projects,
}
use baijimu_digital_employee.Invoke.Keyed.{
  ne, HasPath, Plain, IsCatalog, insert_all-Plain, upsert_project-IsCatalog,
  count_threads-IsCatalog,
}

insert_text-Plain :
    (key : String) (o : Option String) (fs : Fields)
    → key ≢ "path"
    → Plain fs
    → Plain (insert_text key o fs)
insert_text-Plain key none fs n h = h
insert_text-Plain key (some s) fs n h = Entries-insert (λ k v. k ≢ "path") fs key (string s) h n

state_project_fields-Plain : (r : StateProjectRoot) → Plain (state_project_fields r)
unfolding state_project_fields
state_project_fields-Plain r =
    Entries-insert (λ k v. k ≢ "path") _ "rootPaths" _
      (insert_text-Plain "title" r.project_name _ (ne "title" "path" refl) (
        insert_text-Plain "projectName" r.project_name _ (ne "projectName" "path" refl)
          (insert_text-Plain "projectId" r.project_id end (ne "projectId" "path" refl) tt)))
      (ne "rootPaths" "path" refl)

abbrev unwrap : Fields → Http Fields → Fields
unwrap fs (err e) = fs
unwrap fs (ok gs) = gs

ok-IsCatalog :
    {fs out : Fields} → IsCatalog fs → ◌≡◌ {A = Http Fields} (ok fs) (ok out) → IsCatalog out
ok-IsCatalog {fs} h e = subst IsCatalog (ap (unwrap fs) e) h

module _ (host : Host) where
  upsert_roots-IsCatalog :
      (source : String) (extra : List (String × Value)) (roots : List StateProjectRoot)
      (projects : Fields)
      → All (λ e. e.0 ≢ "path") extra
      → IsCatalog projects
      → IsCatalog (upsert_roots host source extra roots projects)
  upsert_roots-IsCatalog source extra [] projects n h = h
  upsert_roots-IsCatalog source extra (r ∷ roots) projects n h =
      upsert_roots-IsCatalog source extra roots _ n (
        upsert_project-IsCatalog host projects r.path source _ h
          (insert_all-Plain (state_project_fields r) extra (state_project_fields-Plain r) n))

  upsert_trusted-IsCatalog :
      (l : List (String × String)) (projects : Fields)
      → IsCatalog projects
      → IsCatalog (upsert_trusted host l projects)
  upsert_trusted-IsCatalog [] projects h = h
  upsert_trusted-IsCatalog ((path, level) ∷ l) projects h = upsert_trusted-IsCatalog l _ (
      upsert_project-IsCatalog host projects path "trusted" _ h (
        Entries-insert (λ k v. k ≢ "path") end "trustLevel" (string level) tt
          (ne "trustLevel" "path" refl)))

  stated_projects-IsCatalog :
      (body global_state : Value) (configured : List (String × String))
      → IsCatalog (stated_projects host body global_state configured)
  unfolding stated_projects
  stated_projects-IsCatalog body global_state configured =
      let saved =
        if_cases IsCatalog (bool_param body "includeSaved" true)
          (λ _. upsert_roots-IsCatalog "saved" [] (saved_roots host global_state) end tt (tt, tt))
          (λ _. (tt, tt)) in
      let active =
        upsert_roots-IsCatalog "active" (("active", boolean true) ∷ [])
          (references host global_state "active-workspace-roots") _ (ne "active" "path" refl, tt)
          saved in
      let pinned =
        upsert_roots-IsCatalog "pinned" (("pinned", boolean true) ∷ [])
          (references host global_state "pinned-project-ids") _ (ne "pinned" "path" refl, tt)
          active in
      if_cases IsCatalog (bool_param body "includeTrusted" true)
        (λ _. upsert_trusted-IsCatalog configured _ pinned) (λ _. pinned)

  counted_threads-IsCatalog :
      {S : Type 0} (projects out : Fields) (r : Http Merged × S) (request : Request S)
      → IsCatalog projects
      → (counted_threads request host projects r).0 ≡ ok out
      → IsCatalog out
  counted_threads-IsCatalog projects out (err e, s) request h q = cc
  counted_threads-IsCatalog projects out (ok m, s) request h q =
      ok-IsCatalog (count_threads-IsCatalog host projects m.threads h) q

  read_thread_projects-IsCatalog :
      {S : Type 0} (request : Request S) (body : Value) (projects out : Fields) (s : S)
      → IsCatalog projects
      → (read_thread_projects request host body projects s).0 ≡ ok out
      → IsCatalog out
  unfolding read_thread_projects
  read_thread_projects-IsCatalog request body projects out s h =
      elim (Bool-cases (bool_param body "includeThreadStats" true))
        as (λ _. (read_thread_projects request host body projects s).0 ≡ ok out → IsCatalog out) [
          | inl p ↦
              rw (p, read_thread_projects) (counted_threads-IsCatalog projects out _ request h)
          | inr p ↦ rw (p, read_thread_projects) (ok-IsCatalog h)
        ]

-- Two projects with different paths.
abbrev pub Apart : Value → Value → Type 0
Apart v w = get v "path" ≢ get w "path"

abbrev pub Distinct : List Value → Type 0
Distinct [] = Unit
Distinct (v ∷ l) = All (Apart v) l × Distinct l

different : (v w : Value) (k j : String) → HasPath k v → HasPath j w → k ≢ j → Apart v w
different v w k j h i n p = n (some-injective k j (ap (λ o. and_then o as_str) (sym h ∙ p ∙ i)))

Above-Apart :
    (fs : Fields) (k : String) (v : Value)
    → HasPath k v
    → Above k fs
    → Entries HasPath fs
    → All (Apart v) (object_values fs)
Above-Apart end k v h a p = tt
Above-Apart (field j w fs) k v h a p = (
  different v w k j h p.0 (compare-ne k j {o = Ordering.lt} a.0 (λ e. cc)),
  Above-Apart fs k v h a.1 p.1,
)

-- The entries of a catalog have different paths.
IsCatalog-Distinct : (fs : Fields) → IsCatalog fs → Distinct (object_values fs)
IsCatalog-Distinct end h = tt
IsCatalog-Distinct (field k v fs) h =
    (Above-Apart fs k v h.1.0 h.0.0 h.1.1, IsCatalog-Distinct fs (h.0.1, h.1.1))

Distinct-keep_if : (p : Value → Bool) (l : List Value) → Distinct l → Distinct (keep_if p l)
Distinct-keep_if p [] h = tt
Distinct-keep_if p (v ∷ l) h =
    if_cases Distinct (p v) (λ _. (All-keep_if (Apart v) p l h.0, Distinct-keep_if p l h.1))
      (λ _. Distinct-keep_if p l h.1)

module _ (cmp : Value → Value → Ordering) where
  All-insert_sorted :
      (P : Value → Type 0) (v : Value) (l : List Value)
      → P v
      → All P l
      → All P (insert_sorted cmp v l)
  unfolding insert_sorted
  All-insert_sorted P v [] p h = (p, tt)
  All-insert_sorted P v (w ∷ l) p h = ground (arith, All-insert_sorted P v l p h.1)

  All-sort_by : (P : Value → Type 0) (l : List Value) → All P l → All P (sort_by cmp l)
  unfolding sort_by
  All-sort_by P [] h = tt
  All-sort_by P (v ∷ l) h = All-insert_sorted P v (sort_by cmp l) h.0 (All-sort_by P l h.1)

  Distinct-insert_sorted :
      (v : Value) (l : List Value) → All (Apart v) l → Distinct l → Distinct (insert_sorted cmp v l)
  unfolding insert_sorted
  Distinct-insert_sorted v [] a h = (tt, tt)
  Distinct-insert_sorted v (w ∷ l) a h = ground (
    arith,
    Distinct-insert_sorted v l a.1 h.1,
    All-insert_sorted (Apart w) v l (λ p. a.0 (sym p)) h.0,
  )

  pub Distinct-sort_by : (l : List Value) → Distinct l → Distinct (sort_by cmp l)
  unfolding sort_by
  Distinct-sort_by [] h = tt
  Distinct-sort_by (v ∷ l) h =
      Distinct-insert_sorted v (sort_by cmp l) (All-sort_by (Apart v) l h.0)
        (Distinct-sort_by l h.1)

module _ {S : Type 0} (host : Host) (request : Request S) (home : String) (body : Value) where
  answered-Distinct :
      (global_state : Value) (r : Http Fields × S) (out : Value)
      → ((projects : Fields) → r.0 ≡ ok projects → IsCatalog projects)
      → (answered host home body global_state r).0 ≡ ok out
      → (items : List Value) × Distinct items × (answer_of host home body items ≡ out)
  unfolding listed
  answered-Distinct global_state (err e, s) out k h = cc
  answered-Distinct global_state (ok projects, s) out k h = (
    listed host body global_state projects,
    Distinct-sort_by _ _ (Distinct-keep_if _ _ (IsCatalog-Distinct projects (k projects refl))),
    cc,
  )

  -- Whatever the state file, the configuration and the threads say: an answer of the listing of projects is
  -- a page of projects with pairwise different paths.
  pub list_projects-Distinct :
      (s : S) (out : Value)
      → (list_projects host request home body s).0 ≡ ok out
      → (items : List Value) × Distinct items × (answer_of host home body items ≡ out)
  unfolding list_projects
  list_projects-Distinct s out =
      let global_state = read_json_file host (join home ".codex-global-state.json") in
      let configured = parse_codex_project_config host (join home "config.toml") in
      answered-Distinct global_state _ out (λ projects.
        read_thread_projects-IsCatalog host request body
          (stated_projects host body global_state configured) projects s
          (stated_projects-IsCatalog host body global_state configured))
