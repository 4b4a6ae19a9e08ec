-- ===== src/Session/Capacity.antt =====
-- In every session the app-server's requests are few and filed under their own ids.
use baijimu_digital_employee.Base.{
  ℕ, ◌≡◌, sym, subst, String, Bool, ◌&&◌, Option, [], ◌∷◌, arith, and_then, unwrap_or, is_some,
  ◌==◌, if_cases, Option-cases, inl, inr, if◌then◌else◌,
}
use baijimu_digital_employee.Json.{Value, string, json, get, get_str, as_u64}
use baijimu_digital_employee.Map
use baijimu_digital_employee.Map.{nat_order, string_order}
use baijimu_digital_employee.ServerRequests.{Reply, encode_request_id}
use baijimu_digital_employee.Session.{
  Session, Pushed, WriteFault, take_id, call_message, await, responded, notified, resolved,
  dispatch_value, respond, send_reply, write_message, mark_exited, set_exit, fail_pending,
  refresh_process_state, shutdown,
}
use baijimu_digital_employee.Session.Taken.{Ids}
use baijimu_digital_employee.Session.Reach.{
  Step, called, entered_it, wrote, gave_up, waited, read_line, replied_to, notified_it,
  initialized_it, exited, refreshed, stopped, Reach, start, step,
}
use baijimu_digital_employee.Session.Replies.{validate_reply-cases}
use baijimu_digital_employee.Session.Requests.{
  Filed, Filed-remove, receive-Filed, resolved-Filed, turn_completed-Filed,
  write_message-server_requests,
}

take_id-keeps : (s : Session) → (take_id s).1.server_requests ≡ s.server_requests
unfolding take_id
take_id-keeps s = ground arith

await-keeps :
    (timed_out : Bool) (method : String) (id : ℕ) (s : Session)
    → (await timed_out method id s).1.server_requests ≡ s.server_requests
unfolding await
await-keeps timed_out method id s = ground arith

set_exit-keeps :
    (exit : Value) (s : Session) → (set_exit exit s).server_requests ≡ s.server_requests
unfolding set_exit
set_exit-keeps exit s = ground arith

refresh-keeps :
    (status : Option Value) (now : String) (s : Session)
    → (refresh_process_state status now s).server_requests ≡ s.server_requests
unfolding refresh_process_state set_exit fail_pending
refresh-keeps status now s = ground arith

shutdown-keeps :
    (code : Value) (now : String) (s : Session)
    → (shutdown code now s).server_requests ≡ s.server_requests
unfolding shutdown set_exit fail_pending
shutdown-keeps code now s = ground arith

module _ (id_text : Value → String) where
  notified-Filed :
      (value : Value) (s : Session)
      → Filed id_text s.server_requests
      → Filed id_text (notified id_text value s).1.server_requests
  unfolding notified
  notified-Filed value s f =
      if_cases (λ (t : Session). Filed id_text t.server_requests) (method == "turn/completed")
        (λ _. turn_completed-Filed id_text params t closed) (λ _. closed)
    where
      method : String
      method = unwrap_or (get_str value "method") "codex/notification"

      params : Value
      params = unwrap_or (get value "params") value

      t : Session
      t = if method == "serverRequest/resolved" then resolved id_text params s else s

      closed : Filed id_text t.server_requests
      closed =
          if_cases (λ (t : Session). Filed id_text t.server_requests)
            (method == "serverRequest/resolved") (λ _. resolved-Filed id_text params s f) (λ _. f)

  responded-keeps :
      (id : ℕ) (value : Value) (s : Session)
      → (responded id_text id value s).1.server_requests ≡ s.server_requests
  unfolding responded
  responded-keeps id value s = ground arith

  dispatch-Filed :
      (fault : Option WriteFault) (value : Value) (s : Session)
      → Filed id_text s.server_requests
      → Filed id_text (dispatch_value id_text fault value s).1.server_requests
  unfolding dispatch_value
  dispatch-Filed fault value s f =
      if_cases (λ (w : Pushed × Session). Filed id_text w.1.server_requests)
        (is_some (get value "method") && is_some (get value "id"))
        (λ _. receive-Filed id_text fault value s f)
        (λ _. elim (Option-cases (and_then (get value "id") as_u64)) [
          | inl p ↦ rw (p, dispatch_value) (notified-Filed value s f)
          | inr (id, p) ↦
              rw (p, dispatch_value) (subst (Filed id_text) (sym (responded-keeps id value s)) f)
        ])

  send_reply-removes :
      (fault : Option WriteFault) (reply : Reply) (s : Session)
      → (send_reply id_text fault reply s).1.server_requests
        ≡ Map.remove s.server_requests (id_text (encode_request_id reply.request_id))
  unfolding send_reply write_message
  send_reply-removes fault reply s = ground arith

  respond-Filed :
      (fault : Option WriteFault) (reply : Reply) (s : Session)
      → Filed id_text s.server_requests
      → Filed id_text (respond id_text fault reply s).1.server_requests
  unfolding respond
  respond-Filed fault reply s f = elim (Option-cases (Map.get s.server_requests key)) [
    | inl p ↦ rw (p, respond) f
    | inr (r, p) ↦ elim (validate_reply-cases r reply) [
      | inl (e, q) ↦ rw (p, respond) (rw (q, respond) f)
      | inr q ↦
          rw (p, respond)
            (rw (q, respond)
              (subst (Filed id_text) (sym (send_reply-removes fault reply s))
                (Filed-remove id_text s.server_requests key f)))
    ]
  ]
    where
      key : String
      key = id_text (encode_request_id reply.request_id)

  Step-Filed :
      (taken left : Ids) (s t : Session)
      → Step id_text taken s left t
      → Filed id_text s.server_requests
      → Filed id_text t.server_requests
  unfolding mark_exited fail_pending
  Step-Filed _ _ _ _ (called taken s small) f = subst (Filed id_text) (sym (take_id-keeps s)) f
  Step-Filed _ _ _ _ (entered_it taken id s h) f = f
  Step-Filed _ _ _ _ (wrote taken fault method params id s) f =
      subst (Filed id_text)
        (sym (write_message-server_requests id_text fault (call_message method id params) s)) f
  Step-Filed _ _ _ _ (gave_up taken id s) f = f
  Step-Filed _ _ _ _ (waited taken timed_out method id s) f =
      subst (Filed id_text) (sym (await-keeps timed_out method id s)) f
  Step-Filed _ _ _ _ (read_line taken fault value s) f = dispatch-Filed fault value s f
  Step-Filed _ _ _ _ (replied_to taken fault reply s) f = respond-Filed fault reply s f
  Step-Filed _ _ _ _ (notified_it taken fault method params s) f =
      subst (Filed id_text)
        (sym (
          write_message-server_requests id_text fault
            (json (("method", string method) ∷ ("params", params) ∷ [])) s))
        f
  Step-Filed _ _ _ _ (initialized_it taken s) f = f
  Step-Filed _ _ _ _ (exited taken now x s) f =
      subst (Filed id_text)
        (sym (set_exit-keeps (json (("error", string x.message) ∷ ("at", string now) ∷ [])) s)) f
  Step-Filed _ _ _ _ (refreshed taken status now s) f =
      subst (Filed id_text) (sym (refresh-keeps status now s)) f
  Step-Filed _ _ _ _ (stopped taken code now s) f =
      subst (Filed id_text) (sym (shutdown-keeps code now s)) f

  -- In every session that a new one can become (while the counter of ids has not wrapped around), at
  -- most 128 requests of the app-server wait, each under the text of its own id.
  pub reachable-Filed :
      (taken : Ids) (s : Session) → Reach id_text taken s → Filed id_text s.server_requests
  reachable-Filed _ _ start = record { few = omega arith; keyed = tt }
  reachable-Filed _ _ (step {taken = taken} {left = left} {s = s} {t = t} r p) =
      Step-Filed taken left s t p (reachable-Filed taken s r)
