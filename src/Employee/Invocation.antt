-- ===== src/Employee/Invocation.antt =====
-- What a remote caller may ask of the employee (src/employee_invocation.rs). The methods of
-- connector.json and the texts of decoding errors are arguments.
use baijimu_digital_employee.Base.{
  String, Bool, true, false, not, ◌&&◌, ◌||◌, Option, none, some, List, [], ◌∷◌, ok, err, and_then,
  is_some, is_some_and, ok_or, guard, ◌==◌, ◌>>=◌, ◌>>◌, if◌then◌else◌,
}
use baijimu_digital_employee.Text.{◌⁺⁺◌}
use baijimu_digital_employee.Json.{
  Value, null, string, object, Fields, end, field, json, as_object, as_str, get_str,
}
use baijimu_digital_employee.Json.Object
use baijimu_digital_employee.Serde.{
  struct_fields, all_fields, has_only, required, with_default, de_option,
}
use baijimu_digital_employee.Http.{http_error, Http}
use baijimu_digital_employee.Employee.{Employee}

-- `InputSchema`: properties by name, and the alternatives of `oneOf`.
mutual
  pub data InputSchema : Type 0 where
    input_schema : Properties → Branches → InputSchema

  pub data Properties : Type 0 where
    no_property : Properties
    property : String → InputSchema → Properties → Properties

  pub data Branches : Type 0 where
    no_branch : Branches
    branch : InputSchema → Branches → Branches

-- `Method`
pub record Method : Type 0 where
  pub path : String
  pub schema : InputSchema

abbrev pub properties_of : InputSchema → Properties
properties_of (input_schema ps bs) = ps

unfoldable pub find_property : Properties → String → Option InputSchema
find_property no_property k = none
find_property (property j s ps) k = if j == k then some s else find_property ps k

-- `append`: the entries of the second map win.
unfoldable pub append_properties : Properties → Properties → Properties
append_properties ps no_property = ps
append_properties ps (property j s qs) = property j s (append_properties ps qs)

abbrev pub merge_branches : Properties → Branches → Properties
merge_branches ps no_branch = ps
merge_branches ps (branch (input_schema qs _) bs) = merge_branches (append_properties ps qs) bs

-- The properties of the method, those of its alternatives included.
unfoldable pub method_properties : List Method → String → Http Properties
unfolding append_properties
method_properties [] path = err (http_error 404 "不支持此远端调用方法")
method_properties (m ∷ methods) path =
    let rest = method_properties methods path in
    if m.path == path
    then elim m.schema [ input_schema ps bs ↦ ok (merge_branches ps bs) ]
    else rest

-- `for key in source.keys()`
unfoldable pub check_keys : Properties → Fields → Http (Unit {0})
unfolding find_property
check_keys allowed end = ok tt
check_keys allowed (field k v fs) =
    guard (is_some (find_property allowed k)) (http_error 400 ("远端不能设置参数 " ⁺⁺ k))
    >> check_keys allowed fs

abbrev pub params_of : Option Value → Http Fields
params_of none = ok end
params_of (some (object params)) = ok params
params_of (some _) = err (http_error 400 "params 必须为对象")

abbrev pub check_params : Properties → Fields → Fields → Http (Unit {0})
check_params allowed source params =
    if is_some (Object.get source "params")
    then (ok_or (find_property allowed "params") (http_error 400 "此方法不支持 params") >>= λ s.
        check_keys (properties_of s) params)
    else ok tt

abbrev pub same_text : Option String → Option String → Bool
same_text none none = true
same_text (some s) (some t) = s == t
same_text _ _ = false

-- A `cwd` that is given is the employee's.
abbrev pub check_cwd : Employee → Option Value → Http (Unit {0})
check_cwd e none = ok tt
check_cwd e (some v) =
    guard (same_text (as_str v) e.working_directory) (http_error 409 "cwd 与本地员工工作目录不一致，请重新选择员工")

-- `CollaborationMode` with its settings: the mode and the model.
abbrev settings_of : Value → Option String
settings_of v = and_then (all_fields ("model" ∷ "developer_instructions" ∷ []) v) (λ fs.
    if has_only ("model" ∷ "developer_instructions" ∷ []) fs
    then and_then (required fs "model" as_str) (λ model.
      and_then (with_default (Object.get fs "developer_instructions") (de_option as_str) none)
        (λ _. some model))
    else none)

unfoldable pub de_collaboration : Value → Option (String × String)
unfolding struct_fields all_fields has_only
de_collaboration v = and_then (struct_fields ("mode" ∷ "settings" ∷ []) v) (λ fs.
    if has_only ("mode" ∷ "settings" ∷ []) fs
    then and_then (required fs "mode" as_str)
        (λ mode. and_then (required fs "settings" settings_of) (λ model. some (mode, model)))
    else none)

abbrev pub wd_value : Employee → Value
wd_value e = elim e.working_directory [ none ↦ null | some s ↦ string s ]

module _ (methods : List Method) (reason : Value → String) where
  abbrev pub check_collaboration : Fields → Option Value → Http (Unit {0})
  check_collaboration source none = ok tt
  check_collaboration source (some v) =
      ok_or (de_collaboration v) (http_error 400 ("AgentConfig 协作参数无效: " ⁺⁺ reason v)) >>= λ c.
      guard (c.0 == "default") (http_error 400 "不支持此协作模式")
      >> guard
          (not
            (is_some_and (Object.get source "model") (λ m. not (same_text (as_str m) (some c.1)))))
          (http_error 400 "请求中的 AgentConfig 模型不一致")

  abbrev pub check_project : String → Fields → Employee → Http (Unit {0})
  check_project path source e =
      if path == "/invoke/prepareProject"
      then guard
          (same_text (get_str (object source) "type") (some "LOCAL_DIRECTORY")
            && same_text (get_str (object source) "directory") e.working_directory)
          (http_error 403 "远端只能使用员工在本地配置的工作目录")
      else ok tt

  -- The employee's directory is put where the method takes it.
  unfoldable pub finish : String → Fields → Fields → Employee → Fields
  unfolding Object.insert
  finish path source params e =
      if path == "/invoke/startThread" || path == "/invoke/startTurn"
      then Object.insert source "cwd" (wd_value e)
      else if path == "/invoke/resumeThread"
      then Object.insert source "params" (object (Object.insert params "cwd" (wd_value e)))
      else source

  -- The tests on the parameters, in their order.
  unfoldable pub check : String → Properties → Fields → Fields → Employee → Http (Unit {0})
  unfolding check_keys find_property de_collaboration Object.get
  check path allowed source params e =
      check_params allowed source params
      >> check_cwd e (Object.get source "cwd")
      >> check_cwd e (Object.get params "cwd")
      >> check_collaboration source (Object.get params "collaborationMode")
      >> check_project path source e

  -- `parameters`
  unfoldable pub parameters : String → Value → Employee → Http Value
  unfolding method_properties check_keys check finish Object.get
  parameters path body e = method_properties methods path >>= λ allowed.
      ok_or (as_object body) (http_error 400 "调用参数必须为对象") >>= λ source.
      check_keys allowed source >> params_of (Object.get source "params") >>= λ params.
      check path allowed source params e >> ok (object (finish path source params e))

-- `profile`
unfoldable pub profile : Employee → Value
profile e = json (
    ("name", string e.name)
    ∷ ("description", string e.description)
    ∷ ("runtime", string "codex")
    ∷ ("workingDirectory", wd_value e)
    ∷ [])
