-- ===== src/Employee/Grants.antt =====
-- What a change of the employee leaves behind, and which workspaces it may grant.
use baijimu_digital_employee.Base.{
  ℕ, ◌≡◌, refl, ◌∙◌, ap, subst, ◌⊎◌, inl, inr, String, true, false, not, List, [], ◌∷◌, arith, ok,
  err, any, eqb, eqb_iff, if-eq, ok_or, ◌==◌, >>=-eq-ok, Bool-cases,
}
use baijimu_digital_employee.Json.{Value, json}
use baijimu_digital_employee.Map.{nat_order, nat_path, contains_key}
use baijimu_digital_employee.Http.{HttpError, Http, Http-cases, internal}
use baijimu_digital_employee.Files.{bytes}
use baijimu_digital_employee.Employee.{
  Employee, IdSet, Library, Disk, SaveFault, no_fault, unopened, unpublished, unsynced, validate,
  save, publish,
}
use baijimu_digital_employee.Employee.Workspaces.{Workspace, has_id}
use baijimu_digital_employee.Employee.Management.{
  Canonical, added, check_added, current, edit, change, shown, encode_employee, de_authorization,
  de_identity, de_configuration, local_directory,
}
use baijimu_digital_employee.Employee.Storage.{Ok}

-- The ids that `added` does not list are held.
added-held :
    (asked held : IdSet) (id : ℕ)
    → contains_key asked id ≡ true
    → (contains_key held id ≡ true) ⊎ (any (λ n. eqb n id) (added asked held) ≡ true)
unfolding added contains_key
added-held [] held id h = ground arith
added-held ((j, u) ∷ asked) held id h = ground (arith, added-held asked held id, nat_path j id)

-- The workspace is one that the account can access.
abbrev pub IsAvailable : Http (List Workspace) → ℕ → Type 0
IsAvailable workspaces id = (l : List Workspace) × (workspaces ≡ ok l) × (has_id id l ≡ true)

-- Every workspace of the second employee is one of the first, or accessible.
abbrev pub Grants : Http (List Workspace) → Employee → Employee → Type 0
Grants workspaces old new =
    (id : ℕ)
    → contains_key new.authorized_workspace_ids id ≡ true
    → (contains_key old.authorized_workspace_ids id ≡ true) ⊎ IsAvailable workspaces id

has_id-all :
    (l : List Workspace) (ids : List ℕ) (id : ℕ)
    → any (λ n. not (has_id n l)) ids ≡ false
    → any (λ n. eqb n id) ids ≡ true
    → has_id id l ≡ true
has_id-all l [] id h p = ground arith
has_id-all l (n ∷ ids) id h p = elim (Bool-cases (eqb n id)) [
  | inl q ↦ subst (λ k. has_id k l ≡ true) ((eqb_iff n id).0 q) (ground arith)
  | inr q ↦ has_id-all l ids id (ground arith) (ground arith)
]

-- The workspaces are held by both.
same-Grants :
    (workspaces : Http (List Workspace)) (old new : Employee)
    → old.authorized_workspace_ids ≡ new.authorized_workspace_ids
    → Grants workspaces old new
same-Grants workspaces old new p id h = inl (ap (λ m. contains_key m id) p ∙ h)

module _ (library : Library) (reason : Value → String) (canonicalize : String → Canonical)
    (workspaces : Http (List Workspace)) where
  check_added-IsAvailable :
      (ids : List ℕ) (id : ℕ)
      → Ok (check_added library reason canonicalize workspaces ids)
      → any (λ n. eqb n id) ids ≡ true
      → IsAvailable workspaces id
  unfolding check_added
  check_added-IsAvailable [] id h p = ground arith
  check_added-IsAvailable (n ∷ ids) id h p =
      let (l, q, h1) = >>=-eq-ok workspaces _ h in
      (l, q, has_id-all l (n ∷ ids) id (ground arith) p)

  edit-Grants :
      (path : String) (body : Value) (e e' : Employee)
      → edit library reason canonicalize workspaces path body e ≡ ok e'
      → Grants workspaces e e'
  unfolding edit
  edit-Grants path body e e' h = elim (if-eq (path == "/management/employee/update") h) [
    | inl h1 ↦
        let (i, p, q) = >>=-eq-ok (ok_or (de_identity body) _) _ h1 in
        same-Grants workspaces e e' (ap ids_after q)
    | inr h1 ↦ elim (if-eq (path == "/management/employee/configure") h1) [
      | inl h2 ↦
          let (text, p, h3) = >>=-eq-ok (ok_or (de_configuration body) _) _ h2 in
          let (directory, q, h4) = >>=-eq-ok (local_directory canonicalize text) _ h3 in
          same-Grants workspaces e e' (ap ids_after h4)
      | inr h2 ↦ elim (if-eq (path == "/management/employee/authorize") h2) [
        | inl h3 ↦
            let (ids, p, h4) = >>=-eq-ok (ok_or (de_authorization body) _) _ h3 in
            let (u, q, h5) =
              >>=-eq-ok
                (check_added library reason canonicalize workspaces
                  (added ids e.authorized_workspace_ids))
                _ h4 in
            λ id g. granted ids id q (ap (λ m. contains_key m id) (ap ids_after h5) ∙ g)
        | inr h3 ↦ same-Grants workspaces e e' (ap ids_after h3)
      ]
    ]
  ]
    where
      ids_after : Http Employee → IdSet
      ids_after (ok x) = x.authorized_workspace_ids
      ids_after (err x) = []

      granted :
          (ids : IdSet) (id : ℕ)
          → Ok (
              check_added library reason canonicalize workspaces
                (added ids e.authorized_workspace_ids))
          → contains_key ids id ≡ true
          → (contains_key e.authorized_workspace_ids id ≡ true) ⊎ IsAvailable workspaces id
      granted ids id q g = elim (added-held ids e.authorized_workspace_ids id g) [
        | inl x ↦ inl x
        | inr x ↦ inr (check_added-IsAvailable (added ids e.authorized_workspace_ids) id q x)
      ]

  -- The file that a change leaves: as it was, or the employee printed whole.
  abbrev pub Writes : Employee → Disk → Disk → Type 0
  Writes e disk after = (after.file ≡ disk.file) ⊎ (after.file ≡ bytes (library.print_employee e))

  -- The change is shown and stored, and the stored employee is valid; or it is refused with an error.
  abbrev pub Changes : Employee → Disk → Http Value × Disk → Type 0
  Changes e disk (result, after) =
      ((result ≡ ok (json (("employee", encode_employee e) ∷ [])))
        × Ok (validate library e)
        × (after.file ≡ bytes (library.print_employee e)))
      ⊎ ((error : HttpError) × (result ≡ err error) × Writes e disk after)

  publish-Changes :
      (fault : SaveFault) (e : Employee) (disk : Disk)
      → Ok (validate library e)
      → Changes e disk (
          shown library reason canonicalize workspaces e
            (publish library fault (library.print_employee e) disk))
  publish-Changes no_fault e disk v = inl (refl, v, refl)
  publish-Changes (unopened error) e disk v = inr (internal _, refl, inl refl)
  publish-Changes (unpublished error true) e disk v = inr (internal _, refl, inl refl)
  publish-Changes (unpublished error false) e disk v = inr (internal _, refl, inl refl)
  publish-Changes (unsynced error) e disk v = inr (internal _, refl, inr refl)

  save-Changes :
      (fault : SaveFault) (e : Employee) (disk : Disk)
      → Changes e disk (shown library reason canonicalize workspaces e (save library fault e disk))
  unfolding save
  save-Changes fault e disk = elim (Http-cases (validate library e)) [
    | inl (error, p) ↦ rw (p, save) (inr (error, refl, inl refl))
    | inr (u, p) ↦
        subst (λ w. Changes e disk (shown library reason canonicalize workspaces e w))
          {y = save library fault e disk} (rw (p, save) refl) (publish-Changes fault e disk p)
  ]

  -- A change is refused with the file as it was; or there are the employee that it starts from
  -- (registered anew, or loaded) and one that grants no workspace which the first did not hold and the
  -- account cannot access. In the second case the change shows that employee, which is valid, and stores
  -- it; or the error of the save is returned, and the file is as it was or holds that employee whole.
  pub change-outcome :
      (fault : SaveFault) (path : String) (body : Value) (disk : Disk)
      → ((error : HttpError) × (change library reason canonicalize workspaces fault path body disk
            ≡ (err error, disk)))
        ⊎ ((old : Employee) × (new : Employee) × (current library reason canonicalize workspaces
                path body disk
              ≡ ok old)
            × Grants workspaces old new
            × Changes new disk (change library reason canonicalize workspaces fault path body disk))
  unfolding change
  change-outcome fault path body disk =
      elim (Http-cases (current library reason canonicalize workspaces path body disk)) [
        | inl (error, p) ↦ inl (error, rw (p, change) refl)
        | inr (old, p) ↦
            elim (Http-cases (edit library reason canonicalize workspaces path body old)) [
              | inl (error, q) ↦ inl (error, rw (p, change) (rw (q, change) refl))
              | inr (new, q) ↦ inr (
                old,
                new,
                p,
                edit-Grants path body old new q,
                rw (p, change) (rw (q, change) (save-Changes fault new disk)),
              )
            ]
      ]
