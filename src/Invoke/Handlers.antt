-- ===== src/Invoke/Handlers.antt =====
-- The remote calls (src/invoke.rs, `handle_invoke`): which call of the client each path makes.
use baijimu_digital_employee.Base.{
  String, Bool, false, Option, none, some, List, [], ◌∷◌, Result, ok, err, and_then, or_else,
}
use baijimu_digital_employee.Json.{
  Value, null, boolean, number, pos_int, string, array, object, Fields, nil, json, items_of,
  as_object, as_array, as_str, as_bool, get,
}
use baijimu_digital_employee.Json.Object
use baijimu_digital_employee.Http.{HttpError, http_error, internal, Http}
use baijimu_digital_employee.History.{list_turns, mode_of}
use baijimu_digital_employee.Invoke.Params.{
  nested, field_or_param, copy_keys, merge_params, normalize_input, string_field, timeout_ms,
  string_param,
}
use baijimu_digital_employee.Invoke.Paging.{Request, request_unique_threads}

-- What the handlers call: the client, the file of read states, and the listing of projects. `respond`
-- is `respond_to_server_request` of a body, and `none` a body that is no reply.
pub record Client (S : Type 0) : Type 0 where
  pub request : Request S
  pub status : S → Value × S
  pub recent_events : Value → S → Value
  pub respond : Value → S → Option (Http Value) × S
  pub pending_server_requests : String → S → Http Value × S
  pub set_thread_read_state : String → Bool → Option Value → S → Result String Value × S
  pub enrich_thread_list : List Value → S → Result String (List Value) × S
  pub list_projects : Value → S → Http Value × S

abbrev pub bad_request : String → HttpError
bad_request message = http_error 400 message

abbrev pub result_value : Value → Value
result_value v = json (("result", v) ∷ [])

-- `string_field(body, key).or_else(|| body.pointer(…))`
abbrev pub field_or_nested : Value → String → Option String
field_or_nested body key = or_else (string_field body key) (and_then (nested body key) as_str)

-- `params[key] = value` on the object that `merge_params` returns.
abbrev pub with_thread : String → Fields → Value
with_thread id fs = object (Object.insert fs "threadId" (string id))

-- Two of the fields that a body sets outside `params`.
abbrev pub with_fields : Value → List String → Fields → Fields
with_fields body keys fs = copy_keys body keys fs

module _ {S : Type 0} (client : Client S) (print : Value → String) where
  abbrev pub end_call : Http Value × S → Http Value × S
  end_call (ok v, s) = (ok (result_value v), s)
  end_call (err e, s) = (err e, s)

  -- `json!({"result": client.request(…)?})`
  abbrev pub call : String → Value → Value → S → Http Value × S
  call method params body s = end_call (client.request method params (timeout_ms body) s)

  abbrev pub end_turn : Http Value × S → Http Value × S
  end_turn (err e, s) = (err e, s)
  end_turn (ok v, s) = (
    ok (
        json (
          ("result", v)
          ∷ ("recentEvents", client.recent_events (json (("limit", number (pos_int 50)) ∷ [])) s)
          ∷ [])),
    s,
  )

  abbrev pub call_turn : String → Value → Value → S → Http Value × S
  call_turn method params body s = end_turn (client.request method params (timeout_ms body) s)

  abbrev pub with_default_text : Fields → String → String → Fields
  with_default_text fs key default = elim (Object.get fs key) [
    | none ↦ Object.insert fs key (string default)
    | some _ ↦ fs
  ]

  abbrev pub enriched : Fields → Result String (List Value) × S → Http Value × S
  enriched fs (err e, s) = (err (internal e), s)
  enriched fs (ok items, s) =
      (ok (result_value (object (Object.insert fs "data" (array (items_of items))))), s)

  abbrev pub enrich_data : Value → Option Fields → Option (List Value) → S → Http Value × S
  enrich_data result (some fs) (some items) s = enriched fs (client.enrich_thread_list items s)
  enrich_data result _ _ s = (ok (result_value result), s)

  abbrev pub enrich_result : Http Value × S → Http Value × S
  enrich_result (err e, s) = (err e, s)
  enrich_result (ok result, s) =
      enrich_data result (as_object result) (and_then (get result "data") as_array) s

  -- `list_threads`
  unfoldable pub list_threads : Value → S → Http Value × S
  unfolding merge_params request_unique_threads timeout_ms Object.get Object.insert
  list_threads body s =
      let params = merge_params body (
        "cursor" ∷ "limit" ∷ "sortKey" ∷ "sortDirection" ∷ "modelProviders" ∷ "sourceKinds"
        ∷ "archived" ∷ "cwd" ∷ "useStateDbOnly" ∷ "searchTerm" ∷ []) in
      let sorted =
        with_default_text (with_default_text params "sortKey" "updated_at") "sortDirection"
          "desc" in
      enrich_result (
        request_unique_threads client.request print "thread/list" (object sorted) (timeout_ms body)
          s)

  abbrev pub no_turns : Value
  no_turns =
      result_value
        (json (("data", array nil) ∷ ("nextCursor", null) ∷ ("backwardsCursor", null) ∷ []))

  -- `list_thread_turns`. `list_turns` calls the app-server once, with the parameters that it is given.
  unfoldable pub list_thread_turns : Value → S → Http Value × S
  unfolding merge_params list_turns timeout_ms string_field Object.get Object.insert
  list_thread_turns body s = elim (field_or_nested body "threadId") [
    | none ↦ (ok no_turns, s)
    | some id ↦
        let params = with_thread id (
          merge_params body
            ("threadId" ∷ "cursor" ∷ "limit" ∷ "sortDirection" ∷ "itemsView" ∷ [])) in
        let answer = client.request "thread/turns/list" params (timeout_ms body) s in
        (list_turns id params (λ _. answer.0), answer.1)
  ]

  -- `/invoke/searchThreads`
  unfoldable pub search_threads : Value → S → Http Value × S
  unfolding merge_params request_unique_threads timeout_ms string_field Object.get
  search_threads body s = elim (field_or_nested body "searchTerm") [
    | none ↦ (err (bad_request "searchTerm is required"), s)
    | some _ ↦ end_call (
        request_unique_threads client.request print "thread/search"
          (object (
            merge_params body (
              "cursor" ∷ "limit" ∷ "sortKey" ∷ "sortDirection" ∷ "sourceKinds" ∷ "archived"
              ∷ "searchTerm" ∷ [])))
          (timeout_ms body) s)
  ]

  -- `/invoke/readThread`
  unfoldable pub read_thread : Value → S → Http Value × S
  unfolding merge_params timeout_ms string_field Object.get Object.insert
  read_thread body s = elim (field_or_nested body "threadId") [
    | none ↦ (err (bad_request "threadId is required"), s)
    | some id ↦
        call "thread/read" (with_thread id (merge_params body ("threadId" ∷ "includeTurns" ∷ [])))
          body s
  ]

  abbrev pub end_read_state : Result String Value × S → Http Value × S
  end_read_state (ok v, s) = (ok (result_value v), s)
  end_read_state (err e, s) = (err (internal e), s)

  abbrev pub observed : String → Bool → Http Value × S → Http Value × S
  observed id unread (err e, s) = (err e, s)
  observed id unread (ok result, s) = end_read_state (
      client.set_thread_read_state id unread
        (and_then (get result "thread") (λ t. get t "updatedAt")) s)

  abbrev pub set_read_state : String → Bool → Value → S → Http Value × S
  set_read_state id unread body s = elim (field_or_param body "observedUpdatedAt") [
    | some at ↦ end_read_state (client.set_thread_read_state id unread (some at) s)
    | none ↦ observed id unread (
        client.request "thread/read"
          (json (("threadId", string id) ∷ ("includeTurns", boolean false) ∷ [])) (timeout_ms body)
          s)
  ]

  -- `/invoke/setThreadReadState`
  unfoldable pub set_thread_read_state : Value → S → Http Value × S
  unfolding string_param timeout_ms Object.get
  set_thread_read_state body s = elim (string_param body "threadId") [
    | none ↦ (err (bad_request "threadId is required"), s)
    | some id ↦ elim (and_then (field_or_param body "hasUnreadTurn") as_bool) [
      | none ↦ (err (bad_request "hasUnreadTurn is required"), s)
      | some unread ↦ set_read_state id unread body s
    ]
  ]

  abbrev pub start_configured : Value → Http Value → S → Http Value × S
  start_configured body (err e) s = (err e, s)
  start_configured body (ok (object fs)) s =
      call "thread/start" (object (with_fields body ("model" ∷ "cwd" ∷ []) fs)) body s
  start_configured body (ok params) s = call "thread/start" params body s

  -- `/invoke/startThread`; the parameters are an object, and `configure_new_thread` leaves one.
  unfoldable pub start_thread : Value → S → Http Value × S
  unfolding merge_params copy_keys timeout_ms Object.get
  start_thread body s =
      let fs = merge_params body [] in
      start_configured body (mode_of fs (Object.get fs "historyMode")) s

  -- `/invoke/resumeThread`
  unfoldable pub resume_thread : Value → S → Http Value × S
  unfolding merge_params copy_keys timeout_ms string_field Object.insert
  resume_thread body s = elim (string_field body "threadId") [
    | none ↦ (err (bad_request "threadId is required"), s)
    | some id ↦
        call "thread/resume"
          (object (
            copy_keys body ("excludeTurns" ∷ "initialTurnsPage" ∷ [])
              (Object.insert (merge_params body []) "threadId" (string id))))
          body s
  ]

  -- `/invoke/startTurn`
  unfoldable pub start_turn : Value → S → Http Value × S
  unfolding merge_params copy_keys normalize_input timeout_ms string_field Object.get Object.insert
  start_turn body s = elim (string_field body "threadId") [
    | none ↦ (err (bad_request "threadId is required"), s)
    | some id ↦ elim (get body "input") [
      | none ↦ (err (bad_request "input is required"), s)
      | some input ↦
          call_turn "turn/start"
            (object (
              copy_keys body ("model" ∷ "cwd" ∷ []) (
                Object.insert (Object.insert (merge_params body []) "threadId" (string id)) "input"
                  (normalize_input input))))
            body s
    ]
  ]

  -- `/invoke/steerTurn`
  unfoldable pub steer_turn : Value → S → Http Value × S
  unfolding merge_params copy_keys normalize_input timeout_ms Object.get Object.insert Object.remove
  steer_turn body s = elim (get body "input") [
    | none ↦ (err (bad_request "input is required"), s)
    | some input ↦
        let params = copy_keys body ("threadId" ∷ "turnId" ∷ []) (merge_params body []) in
        elim (Object.get params "turnId") [
          | none ↦ (err (bad_request "turnId required"), s)
          | some turn ↦
              call_turn "turn/steer"
                (object (
                  Object.insert
                    (Object.insert (Object.remove params "turnId") "expectedTurnId" turn) "input"
                    (normalize_input input)))
                body s
        ]
  ]

  -- `/invoke/interruptTurn`
  unfoldable pub interrupt_turn : Value → S → Http Value × S
  unfolding merge_params copy_keys timeout_ms
  interrupt_turn body s =
      call_turn "turn/interrupt"
        (object (copy_keys body ("threadId" ∷ "turnId" ∷ []) (merge_params body []))) body s

  abbrev pub end_respond : Option (Http Value) × S → Http Value × S
  end_respond (none, s) = (err (bad_request "invalid server request response"), s)
  end_respond (some r, s) = end_call (r, s)

  -- `/invoke/pendingRequests`
  unfoldable pub pending_requests : Value → S → Http Value × S
  unfolding string_field
  pending_requests body s = elim (string_field body "threadId") [
    | none ↦ (err (bad_request "threadId required"), s)
    | some thread ↦ end_call (client.pending_server_requests thread s)
  ]

  abbrev pub returned : Value × S → Http Value × S
  returned (v, s) = (ok v, s)
