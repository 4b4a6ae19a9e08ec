-- ===== src/Employee/Storage.antt =====
-- What a save leaves in the employee's file, and who is authorised.

use mathlib.Core.Option.{some-injective}
use baijimu_digital_employee.Base.{
  ◌≢◌, ◌≤◌, ap, ok-injective, Bool, ◌∙◌, not, is_some_and, guard, ◌>>=◌, ◌>>◌, eq_iff, ok_or-then,
  ℕ, ◌≡◌, refl, subst, ◌⊎◌, inl, inr, ◌↔◌, String, true, false, Option, none, some, List, arith, ok,
  err, ok_or, >>=-eq-ok,
}
use baijimu_digital_employee.Text.{is_empty, trim, byte_len, is_absolute}
use baijimu_digital_employee.Map.{nat_order, contains_key}
use baijimu_digital_employee.Http.{HttpError, Http, Http-cases, internal}
use baijimu_digital_employee.Files.{FileRead, not_found, failed, bytes}
use baijimu_digital_employee.Employee.{
  Employee, Library, Disk, SaveFault, no_fault, unopened, unpublished, unsynced, validate, load,
  save, publish, authorize, is_profile_valid,
}

abbrev pub Ok : Http (Unit {0}) → Type 0
Ok r = r ≡ ok tt

-- The workspace is authorised exactly if the employee is enabled, holds the workspace, and has a
-- working directory.
pub authorize_iff :
    (e : Employee) (workspace : ℕ)
    → Ok (authorize e workspace) ↔ (
        (e.enabled ≡ true)
        × (contains_key e.authorized_workspace_ids workspace ≡ true)
        × ((cwd : String) × (e.working_directory ≡ some cwd)))
unfolding authorize
authorize_iff e workspace = go e.working_directory refl
  where
    go :
        (o : Option String)
        → e.working_directory ≡ o
        → Ok (authorize (record e { working_directory = o }) workspace) ↔ (
            (e.enabled ≡ true)
            × (contains_key e.authorized_workspace_ids workspace ≡ true)
            × ((cwd : String) × (o ≡ some cwd)))
    go none p = ground arith
    go (some cwd) p = (λ h. (ground arith, ground arith, (cwd, refl)), λ h. ground arith)

is_empty_iff : (s : String) → (is_empty s ≡ true) ↔ (s ≡ "")
is_empty_iff String.[] = (λ h. refl, λ h. refl)
is_empty_iff (String.◌∷◌ c s) = (λ h. cc, λ h. ap is_empty h)

then_iff : (x y : Http (Unit {0})) → Ok (x >> y) ↔ (Ok x × Ok y)
then_iff (ok u) y = (λ h. (refl, h), λ (p, h). h)
then_iff (err e) y = (λ h. cc, λ (p, h). cc)

guard_iff : (b : Bool) (e : HttpError) → Ok (guard b e) ↔ (b ≡ true)
guard_iff true e = (λ h. refl, λ h. refl)
guard_iff false e = (λ h. cc, λ h. cc)

path_iff :
    (o : Option String)
    → (not (is_some_and o (λ cwd. not (is_absolute cwd))) ≡ true)
      ↔ ((cwd : String) → o ≡ some cwd → is_absolute cwd ≡ true)
path_iff none = (λ h cwd p. cc, λ h. refl)
path_iff (some s) = (
  λ h cwd p. subst (λ t. is_absolute t ≡ true) (some-injective s cwd p) (ground arith),
  λ h. let k = h s refl in ground arith,
)

module _ (library : Library) where
  -- Printing an employee and reading the text gives the employee.
  abbrev pub ReadsBack : Employee → Type 0
  ReadsBack e = library.read_employee (library.print_employee e) ≡ some e

  -- What the connector asks of an employee: the version of its file is 1.0.0; the name has at most 200
  -- bytes and is not blank, the description at most 4000; no workspace has the id 0; and the working
  -- directory, if there is one, is an absolute path.
  abbrev pub IsValid : Employee → Type 0
  IsValid e =
      (library.version_of e.schema_version ≡ some "1.0.0")
      × (trim e.name ≢ "")
      × (byte_len e.name ≤ 200)
      × (byte_len e.description ≤ 4000)
      × (contains_key e.authorized_workspace_ids 0 ≡ false)
      × ((cwd : String) → e.working_directory ≡ some cwd → is_absolute cwd ≡ true)

  profile_iff :
      (e : Employee)
      → (is_profile_valid library e ≡ true) ↔ (
          (trim e.name ≢ "")
          × (byte_len e.name ≤ 200)
          × (byte_len e.description ≤ 4000)
          × (contains_key e.authorized_workspace_ids 0 ≡ false))
  profile_iff e = (
    λ h.
        (λ p. ground (arith, is_empty_iff (trim e.name)), ground arith, ground arith, ground arith),
    λ (n, a, b, c). ground (arith, is_empty_iff (trim e.name)),
  )

  validate_iff : (e : Employee) → Ok (validate library e) ↔ IsValid e
  unfolding validate
  validate_iff e = (
    λ h.
        let (version, p, h1) = ok_or-then (library.version_of e.schema_version) _ _ tt h in
        let (h2, c) = (then_iff _ _).0 h1 in
        let (v, b) = (then_iff _ _).0 h2 in
        let (blank, name, text, zero) = (profile_iff e).0 ((guard_iff _ _).0 b) in
        (
          p ∙ ap some ((eq_iff version "1.0.0").0 ((guard_iff _ _).0 v)),
          blank,
          name,
          text,
          zero,
          (path_iff e.working_directory).0 ((guard_iff _ _).0 c),
        ),
    λ (p, blank, name, text, zero, path). rw p (
        (then_iff _ _).1 (
          (then_iff _ _).1 (refl, (guard_iff _ _).1 ((profile_iff e).1 (blank, name, text, zero))),
          (guard_iff _ _).1 ((path_iff e.working_directory).1 path),
        )),
  )

  loaded_iff :
      (o : Option Employee) (e : Employee)
      → ((ok_or o (internal "员工配置损坏，请在本地修复配置文件") >>= λ x. validate library x >>= λ _. ok (some x))
          ≡ ok (some e))
        ↔ ((o ≡ some e) × Ok (validate library e))
  loaded_iff o e = (
    λ h.
        let (x, p, h1) = ok_or-then o _ _ (some e) h in
        let (u, q, h2) = >>=-eq-ok (validate library x) _ h1 in
        let same : x ≡ e = some-injective x e (ok-injective (some x) (some e) h2) in
        (p ∙ ap some same, subst (λ y. Ok (validate library y)) same q),
    λ (p, v). rw p (rw v refl),
  )

  -- An employee is loaded exactly if the file can be read, its text is the employee's JSON, and the
  -- employee is valid: the version is 1.0.0, the name is not blank and has at most 200 bytes, the
  -- description at most 4000, no workspace has the id 0, and the working directory, if there is one, is an
  -- absolute path.
  pub load-IsValid :
      (disk : Disk) (e : Employee)
      → (load library disk ≡ ok (some e)) ↔ (
          (content : List ℕ) × (disk.file ≡ bytes content)
          × (library.read_employee content ≡ some e)
          × IsValid e)
  unfolding load
  load-IsValid disk e = go disk.file
    where
      go :
          (f : FileRead)
          → (load library (record disk { file = f }) ≡ ok (some e)) ↔ (
              (content : List ℕ) × (f ≡ bytes content)
              × (library.read_employee content ≡ some e)
              × IsValid e)
      go not_found = (λ h. cc, λ (c, p, q, v). cc)
      go (failed error) = (λ h. cc, λ (c, p, q, v). cc)
      go (bytes content) = (
        λ h.
            let (p, v) = (loaded_iff (library.read_employee content) e).0 h in
            (content, refl, p, (validate_iff e).0 v),
        λ (c, p, q, v).
            let same : c ≡ content = cc in
            (loaded_iff (library.read_employee content) e).1
              (subst (λ x. library.read_employee x ≡ some e) same q, (validate_iff e).1 v),
      )

  load-bytes :
      (e : Employee) (t : Option (List ℕ))
      → ReadsBack e
      → Ok (validate library e)
      → load library (record { file = bytes (library.print_employee e); temporary = t })
        ≡ ok (some e)
  unfolding load
  load-bytes e t r v = rw r (rw v refl)

  -- The employee is saved whole; or the error leaves the file as it was, or, where only the sync of the
  -- directory failed, the employee saved whole.
  abbrev pub Saved : Employee → Disk → Http (Unit {0}) × Disk → Type 0
  Saved e disk (result, after) =
      (Ok result × Ok (validate library e) × (load library after ≡ ok (some e)))
      ⊎ ((error : HttpError) × (result ≡ err error)
          × ((after.file ≡ disk.file) ⊎ (load library after ≡ ok (some e))))

  publish-Saved :
      (fault : SaveFault) (e : Employee) (disk : Disk)
      → ReadsBack e
      → Ok (validate library e)
      → Saved e disk (publish library fault (library.print_employee e) disk)
  publish-Saved no_fault e disk r v = inl (refl, v, load-bytes e disk.temporary r v)
  publish-Saved (unopened error) e disk r v = inr (internal _, refl, inl refl)
  publish-Saved (unpublished error true) e disk r v = inr (internal _, refl, inl refl)
  publish-Saved (unpublished error false) e disk r v = inr (internal _, refl, inl refl)
  publish-Saved (unsynced error) e disk r v =
      inr (internal _, refl, inr (load-bytes e disk.temporary r v))

  -- For a library that reads back the employee from what it prints: a save that succeeds leaves a file
  -- that loads as the employee, which is valid. One that fails leaves the file as it was, or a file that
  -- loads as the employee; never anything in between.
  pub save-load :
      (fault : SaveFault) (e : Employee) (disk : Disk)
      → ReadsBack e
      → Saved e disk (save library fault e disk)
  unfolding save
  save-load fault e disk r = elim (Http-cases (validate library e)) [
    | inl (error, p) ↦ rw (p, save) (inr (error, refl, inl refl))
    | inr (u, p) ↦
        subst (Saved e disk) {y = save library fault e disk} (rw (p, save) refl)
          (publish-Saved fault e disk r p)
  ]
