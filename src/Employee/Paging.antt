-- ===== src/Employee/Paging.antt =====
-- Reading the workspaces ends, and gives each one once.
use baijimu_digital_employee.Base.{
  ℕ, zero, suc, ◌+◌, ◌≤◌, ◌<◌, ◌≡◌, ◌≢◌, refl, ◌∙◌, ap, subst, Bool, true, false, ◌||◌, Option,
  some, List, [], ◌∷◌, ◌++◌, arith, ok, err, eqb, leb, ◌==◌, guard, ◌>>◌, >>=-eq-ok,
}
use baijimu_digital_employee.Http.{Http}
use baijimu_digital_employee.Employee.Workspaces.{
  Workspace, Page, CliOutput, no_command, not_started, not_successful, unreadable, printed, has_id,
  continue, add_entries, read_page, list_from, list,
}

-- No id is 0 or stands twice.
abbrev pub Distinct : List Workspace → Type 0
Distinct [] = Unit
Distinct (w ∷ ws) = (w.workspace_id ≢ 0) × (has_id w.workspace_id ws ≡ false) × Distinct ws

has_id-last :
    (id : ℕ) (ws : List Workspace) (w : Workspace)
    → has_id id (ws ++ w ∷ []) ≡ (has_id id ws || eqb w.workspace_id id)
has_id-last id [] w = ground arith
has_id-last id (x ∷ ws) w = ground (arith, has_id-last id ws w)

Distinct-last :
    (ws : List Workspace) (w : Workspace)
    → w.workspace_id ≢ 0
    → has_id w.workspace_id ws ≡ false
    → Distinct ws
    → Distinct (ws ++ w ∷ [])
Distinct-last [] w n h d = (n, refl, tt)
Distinct-last (x ∷ ws) w n h d = (
  d.0,
  ground (arith, has_id-last x.workspace_id ws w, d.1),
  Distinct-last ws w n (ground arith) d.2,
)

add_entries-Distinct :
    (entries ws out : List Workspace) → add_entries ws entries ≡ ok out → Distinct ws → Distinct out
unfolding add_entries
add_entries-Distinct [] ws out h d = subst Distinct (cc) d
add_entries-Distinct (w ∷ entries) ws out h d =
    add_entries-Distinct entries (ws ++ w ∷ []) out (ground arith)
      (Distinct-last ws w (ground arith) (ground arith) d)

read_page-Distinct :
    (output : CliOutput) (page : ℕ) (ws out : List Workspace) (last : Bool)
    → read_page output page ws ≡ ok (out, last)
    → Distinct ws
    → Distinct out
unfolding read_page
read_page-Distinct (no_command error) page ws out last h d = cc
read_page-Distinct not_started page ws out last h d = cc
read_page-Distinct not_successful page ws out last h d = cc
read_page-Distinct (unreadable error) page ws out last h d = cc
read_page-Distinct (printed p) page ws out last h d =
    let (u, p0, h1) = >>=-eq-ok (guard (p.error_code == "0") _ >> add_entries ws p.entries) _ h in
    let (v, p1, h2) = >>=-eq-ok (guard (p.error_code == "0") _) _ p0 in
    subst Distinct {x = u} {y = out} (cc h1) (add_entries-Distinct p.entries ws u h2 d)

-- A page that is not the last is below the page count that it gives.
read_page-more :
    (output : CliOutput) (page : ℕ) (ws out : List Workspace)
    → read_page output page ws ≡ ok (out, false)
    → (p : Page) × (output ≡ printed p) × (page < p.total_pages)
unfolding read_page
read_page-more (no_command error) page ws out h = cc
read_page-more not_started page ws out h = cc
read_page-more not_successful page ws out h = cc
read_page-more (unreadable error) page ws out h = cc
read_page-more (printed p) page ws out h =
    let (u, p0, h1) = >>=-eq-ok (guard (p.error_code == "0") _ >> add_entries ws p.entries) _ h in
    let more : leb p.total_pages page ≡ false = cc h1 in (p, refl, ground arith)

continue-Distinct :
    (next : List Workspace → Option (Http (List Workspace))) (r : Http (List Workspace × Bool))
    (out : List Workspace)
    → ((ws : List Workspace) (last : Bool) → r ≡ ok (ws, last) → Distinct ws)
    → ((ws : List Workspace) → next ws ≡ some (ok out) → Distinct ws → Distinct out)
    → continue next r ≡ some (ok out)
    → Distinct out
continue-Distinct next (err e) out f g h = cc
continue-Distinct next (ok (ws, true)) out f g h =
    subst Distinct {x = ws} {y = out} (cc) (f ws true refl)
continue-Distinct next (ok (ws, false)) out f g h = g ws h (f ws false refl)

continue-ends :
    (next : List Workspace → Option (Http (List Workspace))) (r : Http (List Workspace × Bool))
    → ((ws : List Workspace)
        → r ≡ ok (ws, false)
        → (x : Http (List Workspace)) × (next ws ≡ some x))
    → (x : Http (List Workspace)) × (continue next r ≡ some x)
continue-ends next (err e) f = (err e, refl)
continue-ends next (ok (ws, true)) f = (ok ws, refl)
continue-ends next (ok (ws, false)) f = f ws refl

module _ (run : ℕ → CliOutput) where
  list_from-Distinct :
      (fuel page : ℕ) (ws out : List Workspace)
      → list_from run fuel page ws ≡ some (ok out)
      → Distinct ws
      → Distinct out
  unfolding list_from
  list_from-Distinct zero page ws out h d = cc
  list_from-Distinct (suc fuel) page ws out h d =
      continue-Distinct (list_from run fuel (page + 1)) (read_page (run page) page ws) out
        (λ ws' last p. read_page-Distinct (run page) page ws ws' last p d)
        (λ ws' p d'. list_from-Distinct fuel (page + 1) ws' out p d') h

  -- Every page says that there are at most `n` pages.
  abbrev pub AtMost : ℕ → Type 0
  AtMost n = (page : ℕ) (p : Page) → run page ≡ printed p → p.total_pages ≤ n

  list_from-ends :
      (n fuel page : ℕ) (ws : List Workspace)
      → AtMost n
      → n ≤ fuel + page
      → (r : Http (List Workspace)) × (list_from run (suc fuel) page ws ≡ some r)
  unfolding list_from
  list_from-ends n zero page ws b h =
      continue-ends (list_from run zero (page + 1)) (read_page (run page) page ws) (λ ws' p.
        let (x, q, more) = read_page-more (run page) page ws ws' p in
        absurd (omega (arith, b page x q)))
  list_from-ends n (suc fuel) page ws b h =
      continue-ends (list_from run (suc fuel) (page + 1)) (read_page (run page) page ws)
        (λ ws' p. list_from-ends n fuel (page + 1) ws' b (omega arith))

  -- If no page says that there are more than `n` pages, `list` ends within `n + 1` of them, with an
  -- error or with workspaces whose ids are not 0 and all different.
  pub list-ends :
      (n : ℕ)
      → AtMost n
      → (r : Http (List Workspace)) × (list run (n + 1) ≡ some r)
        × ((ws : List Workspace) → r ≡ ok ws → Distinct ws)
  unfolding list
  list-ends n b =
      let (r, p) = list_from-ends n n 1 [] b (omega arith) in
      let q : list run (n + 1) ≡ some r =
        ap (λ k. list_from run k 1 []) {x = n + 1} {y = suc n} (omega arith) ∙ p in
      (r, q, λ ws e. list_from-Distinct (n + 1) 1 [] ws (q ∙ ap (λ x. some x) e) tt)
