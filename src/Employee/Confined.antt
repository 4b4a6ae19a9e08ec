-- ===== src/Employee/Confined.antt =====
-- A remote caller sets nothing that the contract does not name, and never another directory.
use baijimu_digital_employee.Base.{
  ◌≡◌, ◌≢◌, refl, sym, ◌∙◌, ap, subst, ◌⊎◌, inl, inr, String, true, ◌||◌, ◌&&◌, Option, none, some,
  List, arith, ok, is_some, guard, ok_or, ◌==◌, eq_iff, eq-false, ◌>>◌, >>=-eq-ok, Bool-cases,
  if_cases,
}
use baijimu_digital_employee.Json.{Value, object, Fields, end, field, as_object, as_str, get_str}
use baijimu_digital_employee.Json.Object
use baijimu_digital_employee.Json.Laws.{get-insert}
use baijimu_digital_employee.Employee.{Employee}
use baijimu_digital_employee.Employee.Storage.{Ok}
use baijimu_digital_employee.Employee.Invocation.{
  Method, Properties, find_property, method_properties, check_keys, check_params, check_cwd,
  check_project, check_collaboration, params_of, same_text, wd_value, check, finish, parameters,
}

-- Every key of the object is one of the properties.
abbrev pub KeysIn : Properties → Fields → Type 0
KeysIn allowed fs =
    (k : String) → is_some (Object.get fs k) ≡ true → is_some (find_property allowed k) ≡ true

check_keys-KeysIn :
    (allowed : Properties) (fs : Fields) → Ok (check_keys allowed fs) → KeysIn allowed fs
unfolding check_keys Object.get
check_keys-KeysIn allowed end h k p = ground arith
check_keys-KeysIn allowed (field j v fs) h k p =
    let (u, q, h1) = >>=-eq-ok (guard (is_some (find_property allowed j)) _) _ h in
    elim (Bool-cases (j == k)) [
      | inl e ↦
          subst (λ x. is_some (find_property allowed x) ≡ true) ((eq_iff j k).0 e) (ground arith)
      | inr e ↦ check_keys-KeysIn allowed fs h1 k (ground arith)
    ]

same_text-eq : (a b : Option String) → same_text a b ≡ true → a ≡ b
same_text-eq none none h = refl
same_text-eq none (some t) h = cc
same_text-eq (some s) none h = cc
same_text-eq (some s) (some t) h = ap (λ x. some x) ((eq_iff s t).0 h)

-- A directory that is given is the employee's.
abbrev pub KeepsCwd : Employee → Fields → Type 0
KeepsCwd e fs = (v : Value) → Object.get fs "cwd" ≡ some v → as_str v ≡ e.working_directory

check_cwd-KeepsCwd :
    (e : Employee) (fs : Fields) → Ok (check_cwd e (Object.get fs "cwd")) → KeepsCwd e fs
check_cwd-KeepsCwd e fs h v p = same_text-eq (as_str v) e.working_directory (ground arith)

module _ (methods : List Method) (reason : Value → String) where
  -- What the accepted parameters of a call are made of.
  pub record IsConfined (path : String) (body : Value) (e : Employee) (v : Value) : Type 0 where
    pub source : Fields
    pub params : Fields
    pub allowed : Properties
    pub is_source : as_object body ≡ some source
    pub is_method : method_properties methods path ≡ ok allowed
    pub is_params : params_of (Object.get source "params") ≡ ok params
    pub is_result : v ≡ object (finish methods reason path source params e)
    pub keys_in : KeysIn allowed source
    pub source_cwd : KeepsCwd e source
    pub params_cwd : KeepsCwd e params
    pub prepares :
        path ≡ "/invoke/prepareProject"
        → (get_str (object source) "type" ≡ some "LOCAL_DIRECTORY")
          × (get_str (object source) "directory" ≡ e.working_directory)

  check_project-prepares :
      (path : String) (source : Fields) (e : Employee)
      → Ok (check_project methods reason path source e)
      → path ≡ "/invoke/prepareProject"
      → (get_str (object source) "type" ≡ some "LOCAL_DIRECTORY")
        × (get_str (object source) "directory" ≡ e.working_directory)
  check_project-prepares path source e h p = (
    same_text-eq (get_str (object source) "type") (some "LOCAL_DIRECTORY") (ground (arith, tested)),
    same_text-eq (get_str (object source) "directory") e.working_directory (ground (arith, tested)),
  )
    where
      tested :
          (same_text (get_str (object source) "type") (some "LOCAL_DIRECTORY")
            && same_text (get_str (object source) "directory") e.working_directory)
          ≡ true
      tested = ground (arith, (eq_iff path "/invoke/prepareProject").1 p)

  check-parts :
      (path : String) (allowed : Properties) (source params : Fields) (e : Employee)
      → Ok (check methods reason path allowed source params e)
      → KeepsCwd e source
        × KeepsCwd e params
        × (path ≡ "/invoke/prepareProject"
            → (get_str (object source) "type" ≡ some "LOCAL_DIRECTORY")
              × (get_str (object source) "directory" ≡ e.working_directory))
  unfolding check
  check-parts path allowed source params e h =
      let s1 = check_params allowed source params in
      let s2 = check_cwd e (Object.get source "cwd") in
      let s3 = check_cwd e (Object.get params "cwd") in
      let s4 = check_collaboration methods reason source (Object.get params "collaborationMode") in
      let (u4, h4, last) = >>=-eq-ok (s1 >> s2 >> s3 >> s4) _ h in
      let (u3, h3, k4) = >>=-eq-ok (s1 >> s2 >> s3) _ h4 in
      let (u2, h2, k3) = >>=-eq-ok (s1 >> s2) _ h3 in
      let (u1, h1, k2) = >>=-eq-ok s1 _ h2 in
      (
        check_cwd-KeepsCwd e source k2,
        check_cwd-KeepsCwd e params k3,
        check_project-prepares path source e last,
      )

  -- Parameters that are accepted: the method is one of the contract and every key of the object is one
  -- of its properties; a `cwd`, in the object or in its `params`, is the employee's directory; a
  -- project that is prepared is that directory; and the result is the object with the employee's
  -- directory put where the method takes it (`finish`).
  pub parameters-IsConfined :
      (path : String) (body : Value) (e : Employee) (v : Value)
      → parameters methods reason path body e ≡ ok v
      → IsConfined path body e v
  unfolding parameters check
  parameters-IsConfined path body e v h =
      let (allowed, p, h1) = >>=-eq-ok (method_properties methods path) _ h in
      let (source, q, h2) = >>=-eq-ok (ok_or (as_object body) _) _ h1 in
      let (params, r, h3) =
        >>=-eq-ok (check_keys allowed source >> params_of (Object.get source "params")) _ h2 in
      let (u, keys, r1) = >>=-eq-ok (check_keys allowed source) _ r in
      let (u1, checked, h4) = >>=-eq-ok (check methods reason path allowed source params e) _ h3 in
      let (a, b, c) = check-parts path allowed source params e checked in
      record {
        source = source;
        params = params;
        allowed = allowed;
        is_source = ground arith;
        is_method = p;
        is_params = r1;
        is_result = cc h4;
        keys_in = check_keys-KeysIn allowed source keys;
        source_cwd = a;
        params_cwd = b;
        prepares = c;
      }

  -- Where the directory goes: `startThread` and `startTurn` get it as their `cwd`, `resumeThread` as the
  -- `cwd` of its `params`, whatever the caller gave; every other key is as the caller gave it.
  pub finish-cwd :
      (path : String) (source params : Fields) (e : Employee)
      → ((path ≡ "/invoke/startThread") ⊎ (path ≡ "/invoke/startTurn")
          → Object.get (finish methods reason path source params e) "cwd" ≡ some (wd_value e))
        × (path ≡ "/invoke/resumeThread"
            → (ps : Fields) × (Object.get (finish methods reason path source params e) "params"
                ≡ some (object ps))
              × (Object.get ps "cwd" ≡ some (wd_value e)))
        × ((k : String)
            → k ≢ "cwd"
            → k ≢ "params"
            → Object.get (finish methods reason path source params e) k ≡ Object.get source k)
  unfolding finish
  finish-cwd path source params e = (
    λ c. elim c [
      | inl p ↦
          subst
            (λ x. Object.get (finish methods reason x source params e) "cwd" ≡ some (wd_value e))
            (sym p) (get-insert source "cwd" "cwd" (wd_value e))
      | inr p ↦
          subst
            (λ x. Object.get (finish methods reason x source params e) "cwd" ≡ some (wd_value e))
            (sym p) (get-insert source "cwd" "cwd" (wd_value e))
    ],
    λ p. (
      Object.insert params "cwd" (wd_value e),
      subst
          (λ x.
            Object.get (finish methods reason x source params e) "params"
            ≡ some (object (Object.insert params "cwd" (wd_value e))))
          (sym p)
          (get-insert source "params" "params" (object (Object.insert params "cwd" (wd_value e)))),
      get-insert params "cwd" "cwd" (wd_value e),
    ),
    λ k n m.
        if_cases (λ fs. Object.get fs k ≡ Object.get source k)
          (path == "/invoke/startThread" || path == "/invoke/startTurn")
          (λ _.
            get-insert source "cwd" k (wd_value e) ∙ rw (eq-false "cwd" k (λ q. n (sym q))) refl)
          (λ _.
            if_cases (λ fs. Object.get fs k ≡ Object.get source k) (path == "/invoke/resumeThread")
              (λ _.
                get-insert source "params" k (object (Object.insert params "cwd" (wd_value e)))
                ∙ rw (eq-false "params" k (λ q. m (sym q))) refl)
              (λ _. refl)),
  )
