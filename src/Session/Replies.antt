-- ===== src/Session/Replies.antt =====
-- Who can answer a request of the app-server, and how often.
use baijimu_digital_employee.Base.{
  ◌++◌, ◌≡◌, refl, ◌⊎◌, inl, inr, String, true, Option, none, some, List, [], ◌∷◌, arith, ok, err,
  guard, >>=-eq-ok, eq_iff, Option-cases, if◌then◌else◌,
}
use baijimu_digital_employee.Json.{Value, boolean, json}
use baijimu_digital_employee.Map
use baijimu_digital_employee.Map.{string_order}
use baijimu_digital_employee.Map.Laws.{get-remove}
use baijimu_digital_employee.Http.{HttpError, Http, http_error, internal}
use baijimu_digital_employee.ServerRequests.{
  ServerRequest, Reply, encode_request_id, encode_result, validate_reply, check_result,
}
use baijimu_digital_employee.Session.{
  Session, respond, send_reply, write_message, Line, whole, WriteFault, left_in_pipe,
}

abbrev pub reply_message : Reply → Value
reply_message reply =
    json (("id", encode_request_id reply.request_id) ∷ ("result", encode_result reply.result) ∷ [])

-- The request that a reply names is of the reply's thread and turn.
abbrev pub Belongs : ServerRequest → Reply → Type 0
Belongs r reply = (reply.thread_id ≡ r.thread_id) × (reply.turn_id ≡ r.turn_id)

validate_reply-Belongs :
    (r : ServerRequest) (reply : Reply) → validate_reply r reply ≡ ok tt → Belongs r reply
unfolding validate_reply
validate_reply-Belongs r reply h =
    let (u, p, q) = >>=-eq-ok (guard _ _) (λ _. check_result r reply.result) h in
    (
      ground (arith, p, eq_iff reply.thread_id r.thread_id),
      ground (arith, p, eq_iff reply.turn_id r.turn_id),
    )

pub validate_reply-cases :
    (r : ServerRequest) (reply : Reply)
    → ((e : HttpError) × (validate_reply r reply ≡ err e)) ⊎ (validate_reply r reply ≡ ok tt)
validate_reply-cases r reply = go (validate_reply r reply) refl
  where
    go :
        (x : Http (Unit {0}))
        → validate_reply r reply ≡ x
        → ((e : HttpError) × (validate_reply r reply ≡ err e)) ⊎ (validate_reply r reply ≡ ok tt)
    go (ok u) p = inr p
    go (err e) p = inl (e, p)

module _ (id_text : Value → String) where
  abbrev pub key : Reply → String
  key reply = id_text (encode_request_id reply.request_id)

  -- The request no longer waits, and all others do.
  abbrev pub TakenOut : Reply → Session → Session → Type 0
  TakenOut reply s t =
      (k : String)
      → Map.get t.server_requests k
        ≡ (if Map.same (key reply) k then none else Map.get s.server_requests k)

  -- Either the line is written whole and the reply accepted; or the pipe is closed; or the write fails, and
  -- its error is returned, whatever of the line has reached the pipe.
  abbrev pub Sent : Option WriteFault → Reply → Session → Http Value × Session → Type 0
  Sent fault reply s (result, t) =
      ((lines : List Line) × (s.stdin ≡ some lines)
        × (fault ≡ none)
        × (t.stdin ≡ some (lines ++ whole (reply_message reply) ∷ []))
        × (result ≡ ok (json (("accepted", boolean true) ∷ []))))
      ⊎ ((s.stdin ≡ none)
          × (t.stdin ≡ none)
          × (result ≡ err (internal "codex app-server is not writable")))
      ⊎ ((lines : List Line) × (f : WriteFault) × (s.stdin ≡ some lines)
          × (fault ≡ some f)
          × (t.stdin ≡ some (lines ++ left_in_pipe f.reached (reply_message reply)))
          × (result ≡ err (internal f.message)))

  send_reply-outcome :
      (fault : Option WriteFault) (reply : Reply) (s : Session)
      → TakenOut reply s (send_reply id_text fault reply s).1
        × Sent fault reply s (send_reply id_text fault reply s)
  unfolding send_reply write_message
  send_reply-outcome fault reply s = go s.stdin fault refl
    where
      go :
          (l : Option (List Line)) (o : Option WriteFault)
          → s.stdin ≡ l
          → TakenOut reply s (send_reply id_text o reply (record s { stdin = l })).1
            × Sent o reply
                (record s { stdin = l })
                (send_reply id_text o reply (record s { stdin = l }))
      go none o p = (λ k. get-remove s.server_requests (key reply) k, inr (inl (refl, refl, refl)))
      go (some l) (some f) p = (
        λ k. get-remove s.server_requests (key reply) k,
        inr (inr (l, f, refl, refl, refl, refl)),
      )
      go (some l) none p =
          (λ k. get-remove s.server_requests (key reply) k, inl (l, refl, refl, refl, refl))

  -- `respond` has these outcomes. The request does not wait: the reply is refused with status 409 and the
  -- session is as it was. The request waits and the reply does not pass `validate_reply` against it: that
  -- error is returned and the session is as it was. Otherwise the request is of the reply's thread and turn,
  -- and it no longer waits afterwards, so that a second reply finds it gone; and its result is the next line
  -- in the pipe, or the pipe was closed, or the write failed: then the error is returned, and nothing, the
  -- beginning or all of the line is in the pipe.
  pub respond-outcome :
      (fault : Option WriteFault) (reply : Reply) (s : Session)
      → ((Map.get s.server_requests (key reply) ≡ none)
          × (respond id_text fault reply s ≡ (err (http_error 409 "request no longer pending"), s)))
        ⊎ ((r : ServerRequest) × (e : HttpError) × (Map.get s.server_requests (key reply) ≡ some r)
            × (validate_reply r reply ≡ err e)
            × (respond id_text fault reply s ≡ (err e, s)))
        ⊎ ((r : ServerRequest) × (Map.get s.server_requests (key reply) ≡ some r)
            × Belongs r reply
            × TakenOut reply s (respond id_text fault reply s).1
            × Sent fault reply s (respond id_text fault reply s))
  unfolding respond
  respond-outcome fault reply s = elim (Option-cases (Map.get s.server_requests (key reply))) [
    | inl p ↦ inl (p, rw (p, respond) refl)
    | inr (r, p) ↦ elim (validate_reply-cases r reply) [
      | inl (e, q) ↦ inr (inl (r, e, p, q, rw (p, respond) (rw (q, respond) refl)))
      | inr q ↦ inr (
          inr (
            r,
            p,
            validate_reply-Belongs r reply q,
            rw (p, respond) (rw (q, respond) (send_reply-outcome fault reply s).0),
            rw (p, respond) (rw (q, respond) (send_reply-outcome fault reply s).1),
          ))
    ]
  ]
