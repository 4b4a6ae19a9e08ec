-- ===== src/Session/Answers.antt =====
-- The results of calls: the response with a call's id, or the end of the process.
use baijimu_digital_employee.Base.{
  ℕ, ◌≡◌, ◌≢◌, refl, sym, ◌∙◌, ap, subst, ◌⊎◌, String, Bool, true, false, Option, none, some, [],
  ◌∷◌, arith, err, map_err, and_then, is_some, Bool-cases, inl, inr, if◌then◌else◌,
}
use baijimu_digital_employee.Json.{Value, string, json, get, as_u64}
use baijimu_digital_employee.Map
use baijimu_digital_employee.Map.{Map, nat_order, string_order, nat_path, nat_self}
use baijimu_digital_employee.Map.Laws.{get-insert, get-insert_self, contains_key-remove}
use baijimu_digital_employee.Session.{
  WriteFault, Session, Pushed, Answered, RpcFailure, into_http_error, read_result, await, answer,
  responded, dispatch_value, mark_exited, set_exit, fail_pending,
}
use baijimu_digital_employee.Session.Calls.{get-fail_all, contains_key-nil}
use baijimu_digital_employee.Session.Keeps.{SameCalls, receive-SameCalls, set_exit-SameCalls}

-- Each call that waits gets the failure, all others keep what they have.
abbrev pub Fails : RpcFailure → Session → Session → Type 0
Fails f s t =
    (id : ℕ)
    → (Map.contains_key t.pending id ≡ false)
      × (Map.get t.replies id
          ≡ (if Map.contains_key s.pending id then some (err f) else Map.get s.replies id))

-- The first end of the process is the one on record.
abbrev pub Ends : Value → Session → Session → Type 0
Ends exit s t = (t.alive ≡ false) × (t.exit ≡ (if s.alive then some exit else s.exit))

fail_pending-Fails : (f : RpcFailure) (s : Session) → Fails f s (fail_pending f s)
unfolding fail_pending
fail_pending-Fails f s id = (contains_key-nil id, get-fail_all f s.pending s.replies id)

-- What leaves the calls alone does not change whom a failure reaches.
SameCalls-Fails : (f : RpcFailure) (s t u : Session) → SameCalls s t → Fails f t u → Fails f s u
SameCalls-Fails f s t u (p, r, n) h id = (
  (h id).0,
  (h id).1
      ∙ ap (λ m. if Map.contains_key m id then some (err f) else Map.get t.replies id) p
      ∙ ap (λ m. if Map.contains_key s.pending id then some (err f) else Map.get m id) r,
)

set_exit-Ends : (exit : Value) (s : Session) → Ends exit s (set_exit exit s)
unfolding set_exit
set_exit-Ends exit s = go s.alive refl
  where
    go :
        (b : Bool)
        → s.alive ≡ b
        → Ends exit (record s { alive = b }) (set_exit exit (record s { alive = b }))
    go true q = (refl, refl)
    go false q = (refl, refl)

-- After `mark_exited` no call waits: each one that did has the failure, and every other result is as
-- it was. The session is not alive, and its exit is the one on record, or this one if it was alive.
pub mark_exited-Fails :
    (now : String) (f : RpcFailure) (s : Session)
    → Fails f s (mark_exited now f s)
      × Ends (json (("error", string f.message) ∷ ("at", string now) ∷ [])) s (mark_exited now f s)
unfolding mark_exited fail_pending
mark_exited-Fails now f s = (
  SameCalls-Fails f s (set_exit exit s) (fail_pending f (set_exit exit s))
      (set_exit-SameCalls exit s) (fail_pending-Fails f (set_exit exit s)),
  set_exit-Ends exit s,
)
  where
    exit : Value
    exit = json (("error", string f.message) ∷ ("at", string now) ∷ [])

-- The result of a call reaches it, and nothing else changes.
abbrev pub Answers : ℕ → Value → Session → Pushed × Session → Type 0
Answers id value s (pushed, t) =
    ((timed_out : Bool) (method : String)
      → (await timed_out method id t).0 ≡ some (map_err into_http_error (read_result value)))
    × ((j : ℕ)
        → id ≢ j
        → (Map.contains_key t.pending j ≡ Map.contains_key s.pending j)
          × (Map.get t.replies j ≡ Map.get s.replies j))
    × (pushed ≡ none)
    × (t.server_requests ≡ s.server_requests)

await-reply :
    (timed_out : Bool) (method : String) (id : ℕ) (r : Answered) (s : Session)
    → Map.get s.replies id ≡ some r
    → (await timed_out method id s).0 ≡ some (map_err into_http_error r)
unfolding await
await-reply timed_out method id r s q = rw (q, await) refl

answer-Answers :
    (id : ℕ) (value : Value) (s : Session)
    → Answers id value s (none, answer id (read_result value) s)
unfolding answer
answer-Answers id value s = (
  λ timed_out method.
      await-reply timed_out method id (read_result value) (answer id (read_result value) s)
        (get-insert_self s.replies id (read_result value)),
  λ j n. (
    ground (arith, contains_key-remove s.pending id j, nat_path id j),
    ground (arith, get-insert s.replies id j (read_result value), nat_path id j),
  ),
  refl,
  refl,
)

dispatch_value-responded :
    (id_text : Value → String) (fault : Option WriteFault) (value : Value) (id : ℕ) (s : Session)
    → get value "method" ≡ none
    → and_then (get value "id") as_u64 ≡ some id
    → dispatch_value id_text fault value s ≡ responded id_text id value s
unfolding dispatch_value
dispatch_value-responded id_text fault value id s m p = rw m (rw (p, dispatch_value) refl)

-- A response with the id of a call that waits, and no method, is the call's result: the call gets it at
-- its next `await`, whatever its timer says; the other calls and the app-server's own requests are as
-- they were, and nothing is pushed. Any other response with a numeric id is pushed as
-- `connector/unmatchedResponse` and changes nothing.
pub dispatch_value-response :
    (id_text : Value → String) (fault : Option WriteFault) (value : Value) (id : ℕ) (s : Session)
    → get value "method" ≡ none
    → and_then (get value "id") as_u64 ≡ some id
    → ((Map.contains_key s.pending id ≡ true)
        × Answers id value s (dispatch_value id_text fault value s))
      ⊎ ((Map.contains_key s.pending id ≡ false)
          × (dispatch_value id_text fault value s
              ≡ (some ("connector/unmatchedResponse", value), s)))
unfolding responded
dispatch_value-response id_text fault value id s m p =
    elim (Bool-cases (Map.contains_key s.pending id)) [
      | inl q ↦
          inl (q, subst (Answers id value s) (sym (d ∙ rw q refl)) (answer-Answers id value s))
      | inr q ↦ inr (q, d ∙ rw q refl)
    ]
  where
    d : dispatch_value id_text fault value s ≡ responded id_text id value s
    d = dispatch_value-responded id_text fault value id s m p

-- A message with both a method and an id never touches the calls: it is a request of the app-server,
-- whose ids are its own.
pub dispatch_value-SameCalls :
    (id_text : Value → String) (fault : Option WriteFault) (value : Value) (s : Session)
    → is_some (get value "method") ≡ true
    → is_some (get value "id") ≡ true
    → SameCalls s (dispatch_value id_text fault value s).1
unfolding dispatch_value
dispatch_value-SameCalls id_text fault value s m p =
    rw m (rw p (receive-SameCalls id_text fault value s))
