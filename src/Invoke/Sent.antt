-- ===== src/Invoke/Sent.antt =====
-- What is sent to the app-server when a turn is started.
use baijimu_digital_employee.Base.{
  ◌≡◌, refl, ◌∙◌, ap, ◌⊎◌, inl, inr, String, Bool, true, false, ◌||◌, Option, none, some, List, [],
  ◌∷◌, any, arith, ◌==◌, eq_iff, err, and_then, or_else, unwrap_or, Bool-cases, Option-cases,
  if◌then◌else◌,
}
use baijimu_digital_employee.Json.{Value, string, object, Fields, end, as_object, get}
use baijimu_digital_employee.Json.Object
use baijimu_digital_employee.Json.Laws.{get-insert}
use baijimu_digital_employee.Http.{Http}
use baijimu_digital_employee.Invoke.Params.{
  insert_some, copy_keys, merge_params, normalize_input, string_field,
}
use baijimu_digital_employee.Invoke.Handlers.{Client, bad_request, call_turn, start_turn}
use baijimu_digital_employee.Invoke.Dispatch.{run, handle_invoke}

abbrev is_in : String → List String → Bool
is_in k keys = any (λ j. j == k) keys

insert_some-get :
    (fs : Fields) (key k : String) (o : Option Value)
    → Object.get (insert_some fs key o) k
      ≡ (if key == k then or_else o (Object.get fs k) else Object.get fs k)
insert_some-get fs key k none = ground arith
insert_some-get fs key k (some v) = get-insert fs key k v

insert_some-get_own :
    (body : Value) (fs : Fields) (key k : String)
    → Object.get (insert_some fs key (get body key)) k
      ≡ (if key == k then or_else (get body k) (Object.get fs k) else Object.get fs k)
insert_some-get_own body fs key k =
    insert_some-get fs key k (get body key) ∙ elim (Bool-cases (key == k)) [
      | inl p ↦ rw p (ap (λ j. or_else (get body j) (Object.get fs k)) ((eq_iff key k).0 p))
      | inr p ↦ rw p refl
    ]

if-if :
    (b c : Bool) (o g : Option Value)
    → (if c then or_else o (if b then or_else o g else g) else (if b then or_else o g else g))
      ≡ (if b || c then or_else o g else g)
if-if true true none g = refl
if-if true true (some v) g = refl
if-if true false o g = refl
if-if false true o g = refl
if-if false false o g = refl

-- A key that is copied has the body's value, if the body has one.
copy_keys-get :
    (body : Value) (keys : List String) (fs : Fields) (k : String)
    → Object.get (copy_keys body keys fs) k
      ≡ (if is_in k keys then or_else (get body k) (Object.get fs k) else Object.get fs k)
unfolding copy_keys
copy_keys-get body [] fs k = refl
copy_keys-get body (key ∷ keys) fs k =
    copy_keys-get body keys (insert_some fs key (get body key)) k
    ∙ ap (λ o. if is_in k keys then or_else (get body k) o else o)
        (insert_some-get_own body fs key k)
    ∙ if-if (key == k) (is_in k keys) (get body k) (Object.get fs k)

-- The parameters that a caller gives under `params`.
abbrev pub given : Value → Fields
given body = unwrap_or (and_then (get body "params") as_object) end

-- The parameters of a turn: the checked thread and input, whatever `params` says; the model and the
-- directory of the body, if it has them; and `params` for the rest.
abbrev pub turn_param : Value → String → Value → String → Option Value
turn_param body id input k =
    let checked =
      if "input" == k
      then some (normalize_input input)
      else if "threadId" == k
      then some (string id)
      else Object.get (given body) k in
    if is_in k ("model" ∷ "cwd" ∷ []) then or_else (get body k) checked else checked

turn_params-get :
    (body : Value) (id : String) (input : Value) (k : String)
    → Object.get
        (copy_keys body ("model" ∷ "cwd" ∷ []) (
          Object.insert
            (Object.insert (given body) "threadId" (string id))
            "input"
            (normalize_input input)))
        k
      ≡ turn_param body id input k
turn_params-get body id input k =
    copy_keys-get body ("model" ∷ "cwd" ∷ []) _ k
    ∙ ap (λ o. if is_in k ("model" ∷ "cwd" ∷ []) then or_else (get body k) o else o)
        (get-insert _ "input" k (normalize_input input)
          ∙ ap (λ o. if "input" == k then some (normalize_input input) else o)
              (get-insert (given body) "threadId" k (string id)))

module _ {S : Type 0} (client : Client S) (print : Value → String) where
  abbrev pub StartsTurn : Value → S → Http Value × S → Type 0
  StartsTurn body s out =
      (((string_field body "threadId" ≡ none) ⊎ (get body "input" ≡ none))
        × (out.1 ≡ s)
        × ((message : String) × (out.0 ≡ err (bad_request message))))
      ⊎ ((id : String) × (input : Value) × (params : Fields) × (string_field body "threadId"
            ≡ some id)
          × (get body "input" ≡ some input)
          × ((k : String) → Object.get params k ≡ turn_param body id input k)
          × (out ≡ call_turn client print "turn/start" (object params) body s))

  -- A remote start of a turn has two outcomes. The thread or the input is missing: it is refused with 400
  -- and nothing is called. Else it is one call of `turn/start` with the thread and the input that were
  -- checked, the model and the directory of the body if it has them, and the caller's other parameters.
  pub handle_invoke-StartsTurn :
      (body : Value) (s : S)
      → StartsTurn body s (handle_invoke client print "/invoke/startTurn" body s)
  unfolding handle_invoke run start_turn merge_params copy_keys
  handle_invoke-StartsTurn body s = elim (Option-cases (string_field body "threadId")) [
    | inl p ↦
        inl (inl p, rw (p, start_turn) refl, ("threadId is required", rw (p, start_turn) refl))
    | inr (id, p) ↦ elim (Option-cases (get body "input")) [
      | inl q ↦ inl (
        inr q,
        rw (p, start_turn) (rw q refl),
        ("input is required", rw (p, start_turn) (rw q refl)),
      )
      | inr (input, q) ↦
          inr (id, input, _, p, q, turn_params-get body id input, rw (p, start_turn) (rw q refl))
    ]
  ]
