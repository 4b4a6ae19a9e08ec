-- ===== src/Invoke/Keyed.antt =====
-- The gathered projects are keyed by their paths.
use baijimu_digital_employee.Base.{
  ◌≡◌, refl, ◌∙◌, ◌≢◌, inl, inr, String, false, Option, none, some, List, [], ◌∷◌, arith, All, any,
  ◌==◌, eq_iff, Option-cases, if_cases, and_then,
}
use baijimu_digital_employee.Json.{
  Value, null, boolean, number, array, string, object, Fields, end, list_of, get, get_str,
}
use baijimu_digital_employee.Json.Object
use baijimu_digital_employee.Json.Entries.{
  Entries, Entries-insert, Entries-get, Entries-to_list, get-insert_other,
}
use baijimu_digital_employee.Json.Sorted.{IsSorted, insert-IsSorted}
use baijimu_digital_employee.Invoke.Params.{insert_all, insert_some, thread_timestamp}
use baijimu_digital_employee.Invoke.Host.{Host, normalize_project_path}
use baijimu_digital_employee.Invoke.Projects.{
  is_string, with_source, upserted, new_project, upserted_entry, upsert_project, counted,
  count_thread, count_threads,
}

pub ne : (s t : String) → (s == t) ≡ false → s ≢ t
ne s t h p = ground (arith, eq_iff s t)

-- A project's entry holds the path that it is kept under.
abbrev pub HasPath : String → Value → Type 0
HasPath k v = get v "path" ≡ some (string k)

-- Fields that leave the path alone.
abbrev pub Plain : Fields → Type 0
Plain fs = Entries (λ k v. k ≢ "path") fs

abbrev pub IsCatalog : Fields → Type 0
IsCatalog fs = IsSorted fs × Entries HasPath fs

insert_all-path :
    (fs : Fields) (l : List (String × Value))
    → All (λ e. e.0 ≢ "path") l
    → Object.get (insert_all fs l) "path" ≡ Object.get fs "path"
unfolding insert_all
insert_all-path fs [] h = refl
insert_all-path fs ((k, v) ∷ l) h =
    insert_all-path (Object.insert fs k v) l h.1 ∙ get-insert_other fs k "path" v h.0

pub insert_all-Plain :
    (fs : Fields) (l : List (String × Value))
    → Plain fs
    → All (λ e. e.0 ≢ "path") l
    → Plain (insert_all fs l)
unfolding insert_all
insert_all-Plain fs [] p h = p
insert_all-Plain fs ((k, v) ∷ l) p h =
    insert_all-Plain (Object.insert fs k v) l (Entries-insert (λ k v. k ≢ "path") fs k v p h.0) h.1

with_source-path :
    (fs : Fields) (source : String) (o : Option Value)
    → Object.get (with_source fs source o) "path" ≡ Object.get fs "path"
unfolding with_source
with_source-path fs source none = refl
with_source-path fs source (some (array items)) =
    if_cases (λ out. Object.get out "path" ≡ Object.get fs "path")
      (any (is_string source) (list_of items)) (λ _. refl)
      (λ _. get-insert_other fs "sources" "path" _ (ne "sources" "path" refl))
with_source-path fs source (some null) = refl
with_source-path fs source (some (boolean b)) = refl
with_source-path fs source (some (number n)) = refl
with_source-path fs source (some (string s)) = refl
with_source-path fs source (some (object o)) = refl

upserted-HasPath :
    (project : Value) (path source : String) (fields : Fields)
    → HasPath path project
    → Plain fields
    → HasPath path (upserted project source fields)
unfolding upserted
upserted-HasPath (object fs) path source fields h p =
    insert_all-path (with_source fs source (Object.get fs "sources")) (Object.to_list fields)
      (Entries-to_list (λ k v. k ≢ "path") fields p)
    ∙ with_source-path fs source (Object.get fs "sources")
    ∙ h
upserted-HasPath null path source fields h p = cc
upserted-HasPath (boolean b) path source fields h p = cc
upserted-HasPath (number n) path source fields h p = cc
upserted-HasPath (string s) path source fields h p = cc
upserted-HasPath (array l) path source fields h p = cc

counted-HasPath :
    (host : Host) (thread project : Value) (path : String)
    → HasPath path project
    → HasPath path (counted host thread project)
unfolding counted
counted-HasPath host thread (object fs) path h = go _ (thread_timestamp thread)
  where
    inserted : Value → Fields
    inserted n = Object.insert fs "sessionCount" n

    go :
        (n : Value) (o : Option Value)
        → HasPath path (object (insert_some (inserted n) "lastActiveAt" o))
    go n none = get-insert_other fs "sessionCount" "path" n (ne "sessionCount" "path" refl) ∙ h
    go n (some t) =
        get-insert_other (inserted n) "lastActiveAt" "path" t (ne "lastActiveAt" "path" refl)
        ∙ get-insert_other fs "sessionCount" "path" n (ne "sessionCount" "path" refl)
        ∙ h
counted-HasPath host thread null path h = h
counted-HasPath host thread (boolean b) path h = h
counted-HasPath host thread (number n) path h = h
counted-HasPath host thread (string s) path h = h
counted-HasPath host thread (array l) path h = h

insert-IsCatalog :
    (projects : Fields) (path : String) (v : Value)
    → IsCatalog projects
    → HasPath path v
    → IsCatalog (Object.insert projects path v)
insert-IsCatalog projects path v h p =
    (insert-IsSorted projects path v h.0, Entries-insert HasPath projects path v h.1 p)

module _ (host : Host) where
  new_project-HasPath : (path : String) → HasPath path (new_project host path)
  unfolding new_project Object.insert Object.get
  new_project-HasPath path = refl

  upserted_entry-HasPath :
      (projects : Fields) (path source : String) (fields : Fields)
      → IsCatalog projects
      → Plain fields
      → HasPath path (upserted_entry host projects path source fields)
  unfolding upserted_entry
  upserted_entry-HasPath projects path source fields h p =
      elim (Option-cases (Object.get projects path)) [
        | inl q ↦ rw q (
            upserted-HasPath (new_project host path) path source fields (new_project-HasPath path)
              p)
        | inr (v, q) ↦
            rw q
              (upserted-HasPath v path source fields (Entries-get HasPath projects path v h.1 q) p)
      ]

  pub upsert_project-IsCatalog :
      (projects : Fields) (path source : String) (fields : Fields)
      → IsCatalog projects
      → Plain fields
      → IsCatalog (upsert_project host projects path source fields)
  unfolding upsert_project
  upsert_project-IsCatalog projects path source fields h p =
      insert-IsCatalog projects path _ h (upserted_entry-HasPath projects path source fields h p)

  count_thread-IsCatalog :
      (projects : Fields) (thread : Value)
      → IsCatalog projects
      → IsCatalog (count_thread host projects thread)
  unfolding count_thread
  count_thread-IsCatalog projects thread h =
      elim (Option-cases (and_then (get_str thread "cwd") (normalize_project_path host))) [
        | inl q ↦ rw (q, count_thread) h
        | inr (path, q) ↦
            rw (q, count_thread)
              (insert-IsCatalog projects path _ h (
                counted-HasPath host thread _ path
                  (upserted_entry-HasPath projects path "threads" end h tt)))
      ]

  pub count_threads-IsCatalog :
      (projects : Fields) (threads : List Value)
      → IsCatalog projects
      → IsCatalog (count_threads host projects threads)
  unfolding count_threads
  count_threads-IsCatalog projects [] h = h
  count_threads-IsCatalog projects (t ∷ threads) h =
      count_threads-IsCatalog (count_thread host projects t) threads
        (count_thread-IsCatalog projects t h)
