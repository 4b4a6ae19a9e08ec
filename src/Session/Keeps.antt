-- ===== src/Session/Keeps.antt =====
-- Each operation of a session keeps its calls accounted for; most leave them as they are.
use baijimu_digital_employee.Base.{
  none, ℕ, ◌+◌, ◌^◌, ◌<◌, ◌≡◌, refl, sym, ◌∙◌, ap, subst, String, Bool, Option, [], ◌∷◌, arith, ok,
  err, ◌&&◌, and_then, unwrap_or, ◌==◌, is_some, Bool-cases, if_cases, Option-cases, inl, inr,
  if◌then◌else◌,
}
use baijimu_digital_employee.Json.{Value, json, get, get_str, as_u64}
use baijimu_digital_employee.Map
use baijimu_digital_employee.Map.{Map, nat_order, string_order, nat_path, nat_self}
use baijimu_digital_employee.Map.Laws.{
  contains_key-insert, same_path, contains_key-remove, get-remove,
}
use baijimu_digital_employee.Http.{Http}
use baijimu_digital_employee.ServerRequests.{Reply, encode_request_id, encode_result}
use baijimu_digital_employee.Session.{
  Session, take_id, WriteFault, read_result, receive_server_request, resolved, turn_completed,
  notified, end_reply, send_reply, await, responded, dispatch_value, respond, set_exit,
  write_message, entered, remove_pending,
}
use baijimu_digital_employee.Session.Calls.{Accounts, write_message-state, answer-Accounts}

-- The parts of a session that the calls depend on are as they were.
abbrev pub SameCalls : Session → Session → Type 0
SameCalls s t = (t.pending ≡ s.pending) × (t.replies ≡ s.replies) × (t.next_id ≡ s.next_id)

pub SameCalls-Accounts : (s t : Session) → SameCalls s t → Accounts s → Accounts t
SameCalls-Accounts s t (p, r, n) a = record {
  waiting = λ id h.
      subst (λ k. id < k) (sym n) (a.waiting id (ap (λ m. Map.contains_key m id) (sym p) ∙ h));
  replied = λ id h.
      subst (λ k. id < k) (sym n) (a.replied id (ap (λ m. is_some (Map.get m id)) (sym r) ∙ h));
  apart =
      λ id h. ap (λ m. Map.get m id) r ∙ a.apart id (ap (λ m. Map.contains_key m id) (sym p) ∙ h);
}

pub SameCalls-trans : (s t u : Session) → SameCalls s t → SameCalls t u → SameCalls s u
SameCalls-trans s t u (p, r, n) (p', r', n') = (p' ∙ p, r' ∙ r, n' ∙ n)

pub write_message-SameCalls :
    (fault : Option WriteFault) (m : Value) (s : Session) → SameCalls s (write_message fault m s).1
write_message-SameCalls fault m s =
    let (l, p) = write_message-state fault m s in
    (ap (λ t. t.pending) p, ap (λ t. t.replies) p, ap (λ t. t.next_id) p)

pub remove_pending-Accounts : (id : ℕ) (s : Session) → Accounts s → Accounts (remove_pending id s)
remove_pending-Accounts id s a = record {
  waiting = λ j h. a.waiting j (ground (arith, contains_key-remove s.pending id j));
  replied = λ j h. a.replied j h;
  apart = λ j h. a.apart j (ground (arith, contains_key-remove s.pending id j));
}

pub entered-Accounts :
    (id : ℕ) (s : Session)
    → id < s.next_id
    → Map.get s.replies id ≡ none
    → Accounts s
    → Accounts (entered id s)
entered-Accounts id s known free a = record {
  waiting = λ j h.
      ground (arith, contains_key-insert s.pending id j tt, a.waiting j, nat_path id j, known);
  replied = λ j h. a.replied j h;
  apart = λ j h. elim (Bool-cases (Map.same id j)) [
    | inl q ↦ subst (λ k. Map.get s.replies k ≡ none) (same_path id j q) free
    | inr q ↦ a.apart j (sym (contains_key-insert s.pending id j tt ∙ rw q refl) ∙ h)
  ];
}

pub take_id-Accounts : (s : Session) → s.next_id + 1 < 2 ^ 64 → Accounts s → Accounts (take_id s).1
unfolding take_id
take_id-Accounts s small a = record {
  waiting = λ j h. ground (arith, a.waiting j h);
  replied = λ j h. ground (arith, a.replied j h);
  apart = λ j h. a.apart j h;
}

pub await-Accounts :
    (timed_out : Bool) (method : String) (id : ℕ) (s : Session)
    → Accounts s
    → Accounts (await timed_out method id s).1
unfolding await
await-Accounts timed_out method id s a = elim (Option-cases (Map.get s.replies id)) [
  | inl q ↦
      rw (q, await)
        (if_cases (λ (w : Option (Http Value) × Session). Accounts w.1) timed_out
          (λ _. remove_pending-Accounts id s a)
          (λ _.
            if_cases (λ (w : Option (Http Value) × Session). Accounts w.1)
              (Map.contains_key s.pending id) (λ _. a) (λ _. a)))
  | inr (r, q) ↦
      rw (q, await)
        (record {
          waiting = λ j h. a.waiting j h;
          replied = λ j h. a.replied j (ground (arith, get-remove s.replies id j));
          apart = λ j h. ground (arith, get-remove s.replies id j, a.apart j h);
        })
]

module _ (id_text : Value → String) where
  pub receive-SameCalls :
      (fault : Option WriteFault) (value : Value) (s : Session)
      → SameCalls s (receive_server_request id_text fault value s).1
  unfolding receive_server_request
  receive-SameCalls fault value s = ground arith

  pub resolved-SameCalls : (params : Value) (s : Session) → SameCalls s (resolved id_text params s)
  unfolding resolved
  resolved-SameCalls params s = ground arith

  pub turn_completed-SameCalls :
      (params : Value) (s : Session) → SameCalls s (turn_completed id_text params s)
  unfolding turn_completed
  turn_completed-SameCalls params s = ground arith

  pub notified-SameCalls : (value : Value) (s : Session) → SameCalls s (notified id_text value s).1
  unfolding notified
  notified-SameCalls value s =
      if_cases (SameCalls s) (method == "turn/completed")
        (λ _.
          SameCalls-trans s t (turn_completed id_text params t) closed
            (turn_completed-SameCalls params t))
        (λ _. closed)
    where
      method : String
      method = unwrap_or (get_str value "method") "codex/notification"

      params : Value
      params = unwrap_or (get value "params") value

      t : Session
      t = if method == "serverRequest/resolved" then resolved id_text params s else s

      closed : SameCalls s t
      closed =
          if_cases (SameCalls s) (method == "serverRequest/resolved")
            (λ _. resolved-SameCalls params s) (λ _. (refl, refl, refl))

  pub responded-Accounts :
      (id : ℕ) (value : Value) (s : Session)
      → Accounts s
      → Accounts (responded id_text id value s).1
  unfolding responded
  responded-Accounts id value s a = elim (Bool-cases (Map.contains_key s.pending id)) [
    | inl q ↦ rw q (answer-Accounts id (read_result value) s q a)
    | inr q ↦ rw q a
  ]

  pub dispatch_value-Accounts :
      (fault : Option WriteFault) (value : Value) (s : Session)
      → Accounts s
      → Accounts (dispatch_value id_text fault value s).1
  unfolding dispatch_value
  dispatch_value-Accounts fault value s a =
      elim (Bool-cases (is_some (get value "method") && is_some (get value "id"))) [
        | inl q ↦ rw q (
            SameCalls-Accounts s (receive_server_request id_text fault value s).1
              (receive-SameCalls fault value s) a)
        | inr q ↦ rw q (elim (Option-cases (and_then (get value "id") as_u64)) [
          | inl p ↦
              rw p
                (SameCalls-Accounts s (notified id_text value s).1 (notified-SameCalls value s) a)
          | inr (id, p) ↦ rw p (responded-Accounts id value s a)
        ])
      ]

  pub end_reply-SameCalls :
      (s : Session) (w : Http (Unit {0}) × Session) → SameCalls s w.1 → SameCalls s (end_reply w).1
  end_reply-SameCalls s (ok u, t) h = h
  end_reply-SameCalls s (err e, t) h = h

  pub send_reply-SameCalls :
      (fault : Option WriteFault) (reply : Reply) (s : Session)
      → SameCalls s (send_reply id_text fault reply s).1
  unfolding send_reply
  send_reply-SameCalls fault reply s =
      end_reply-SameCalls s (write_message fault m t) (write_message-SameCalls fault m t)
    where
      id : Value
      id = encode_request_id reply.request_id

      m : Value
      m = json (("id", id) ∷ ("result", encode_result reply.result) ∷ [])

      t : Session
      t = record s { server_requests = Map.remove s.server_requests (id_text id) }

  pub respond-SameCalls :
      (fault : Option WriteFault) (reply : Reply) (s : Session)
      → SameCalls s (respond id_text fault reply s).1
  unfolding respond
  respond-SameCalls fault reply s = ground (arith, send_reply-SameCalls fault reply s)

pub set_exit-SameCalls : (exit : Value) (s : Session) → SameCalls s (set_exit exit s)
unfolding set_exit
set_exit-SameCalls exit s =
    if_cases (SameCalls s) s.alive (λ _. (refl, refl, refl)) (λ _. (refl, refl, refl))
