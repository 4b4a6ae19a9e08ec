-- ===== src/Session/Requests.antt =====
-- The app-server's own requests: how many wait, under which keys, and who can answer them.
use baijimu_digital_employee.Base.{
  ℕ, suc, ◌≤◌, ◌≡◌, sym, ◌∙◌, ap, subst, String, Bool, false, ◌||◌, Option, none, some, [], ◌∷◌,
  arith, All, leb, length, and_then, and_then-eq-some, is_some_and, unwrap_or, ◌==◌, if_cases,
  Option-cases, inl, inr, if◌then◌else◌,
}
use baijimu_digital_employee.Json.{Value, null, get, get_str}
use baijimu_digital_employee.Map
use baijimu_digital_employee.Map.{Map, nat_order, string_order, Order}
use baijimu_digital_employee.ServerRequests.{
  ServerRequest, RequestId, de_request_id, encode_request_id, fill_request, is_approval,
  is_question, read_request,
}
use baijimu_digital_employee.Session.{
  WriteFault, Session, Pushed, refuse, refusal, max_pending_requests, receive_server_request,
  resolved, turn_completed, write_message,
}

module _ {ℓ} {K : Type 0} {V : Type ℓ} ⦃o : Order K⦄ where
  length-insert-le : (m : Map K V) (k : K) (v : V) → length (Map.insert m k v) ≤ suc (length m)
  unfolding Map.insert
  length-insert-le [] k v = omega arith
  length-insert-le ((j, w) ∷ m) k v = ground (arith, length-insert-le m k v)

  length-remove-le : (m : Map K V) (k : K) → length (Map.remove m k) ≤ length m
  unfolding Map.remove
  length-remove-le [] k = omega arith
  length-remove-le ((j, w) ∷ m) k = ground (arith, length-remove-le m k)

  length-retain-le : (p : V → Bool) (m : Map K V) → length (Map.retain p m) ≤ length m
  unfolding Map.retain
  length-retain-le p [] = omega arith
  length-retain-le p ((j, w) ∷ m) = ground (arith, length-retain-le p m)

module _ {ℓ κ} {K : Type 0} {V : Type ℓ} (P : K → V → Type κ) ⦃o : Order K⦄ where
  abbrev Entries : Map K V → Type κ
  Entries m = All (λ e. P e.0 e.1) m

  Entries-insert : (m : Map K V) (k : K) (v : V) → Entries m → P k v → Entries (Map.insert m k v)
  unfolding Map.insert
  Entries-insert [] k v h p = (p, tt)
  Entries-insert ((j, w) ∷ m) k v h p = ground (arith, Entries-insert m k v h.1 p)

  Entries-remove : (m : Map K V) (k : K) → Entries m → Entries (Map.remove m k)
  unfolding Map.remove
  Entries-remove [] k h = tt
  Entries-remove ((j, w) ∷ m) k h = ground (arith, Entries-remove m k h.1)

  Entries-retain : (p : V → Bool) (m : Map K V) → Entries m → Entries (Map.retain p m)
  unfolding Map.retain
  Entries-retain p [] h = tt
  Entries-retain p ((j, w) ∷ m) h = ground (arith, Entries-retain p m h.1)

module _ (id_text : Value → String) where
  -- At most 128 requests wait, each under the text of its own id.
  pub record Filed (m : Map String ServerRequest) : Type 0 where
    pub few : length m ≤ max_pending_requests
    pub keyed :
        All (λ (e : String × ServerRequest). e.0 ≡ id_text (encode_request_id e.1.request_id)) m

  encode-de : (v : Value) (i : RequestId) → de_request_id v ≡ some i → encode_request_id i ≡ v
  unfolding de_request_id
  encode-de v i h = ground arith

  fill_request-id :
      (i : RequestId) (params : Value) (method : String) (r : ServerRequest)
      → fill_request i params method ≡ some r
      → i ≡ r.request_id
  fill_request-id i params method r h =
      let (thread, p, h1) = and_then-eq-some (get_str params "threadId") _ h in
      let (turn, q, h2) = and_then-eq-some (get_str params "turnId") _ h1 in cc (h2)

  read_request-id :
      (id params : Value) (method : String) (r : ServerRequest)
      → read_request id params method ≡ some r
      → encode_request_id r.request_id ≡ id
  unfolding read_request
  read_request-id id params method r h =
      let (i, p, h1) = and_then-eq-some (de_request_id id) _ h in
      ap encode_request_id (sym (fill_request-id i params method r (filled i h1)))
      ∙ encode-de id i p
    where
      filled :
          (i : RequestId)
          → (if is_approval method || is_question method
              then fill_request i params method
              else none)
            ≡ some r
          → fill_request i params method ≡ some r
      filled i h1 = ground arith

  Filed-insert :
      (m : Map String ServerRequest) (id : Value) (r : ServerRequest)
      → leb max_pending_requests (length m) ≡ false
      → encode_request_id r.request_id ≡ id
      → Filed m
      → Filed (Map.insert m (id_text id) r)
  Filed-insert m id r room p f = record {
    few = ground (arith, length-insert-le m (id_text id) r);
    keyed =
        Entries-insert (λ k x. k ≡ id_text (encode_request_id x.request_id)) m (id_text id) r
          f.keyed (ap id_text (sym p));
  }

  pub Filed-remove : (m : Map String ServerRequest) (k : String) → Filed m → Filed (Map.remove m k)
  Filed-remove m k f = record {
    few = omega (arith, f.few, length-remove-le m k);
    keyed = Entries-remove (λ j x. j ≡ id_text (encode_request_id x.request_id)) m k f.keyed;
  }

  Filed-retain :
      (p : ServerRequest → Bool) (m : Map String ServerRequest) → Filed m → Filed (Map.retain p m)
  Filed-retain p m f = record {
    few = omega (arith, f.few, length-retain-le p m);
    keyed = Entries-retain (λ j x. j ≡ id_text (encode_request_id x.request_id)) p m f.keyed;
  }

  pub write_message-server_requests :
      (fault : Option WriteFault) (m : Value) (s : Session)
      → (write_message fault m s).1.server_requests ≡ s.server_requests
  unfolding write_message
  write_message-server_requests fault m s = ground arith

  pub receive-Filed :
      (fault : Option WriteFault) (value : Value) (s : Session)
      → Filed s.server_requests
      → Filed (receive_server_request id_text fault value s).1.server_requests
  unfolding receive_server_request
  receive-Filed fault value s f = elim (Option-cases (read_request id params method)) [
    | inl p ↦ rw (p, receive_server_request) (refused 32600 "Unsupported connector server request")
    | inr (r, p) ↦
        rw (p, receive_server_request)
          (if_cases (λ (w : Pushed × Session). Filed w.1.server_requests)
            (leb max_pending_requests (length s.server_requests)
              || Map.contains_key s.server_requests (id_text id))
            (λ _. refused 31999 "Server request capacity or identity conflict")
            (λ q.
              Filed-insert s.server_requests id r (ground arith)
                (read_request-id id params method r p) f))
  ]
    where
      id : Value
      id = unwrap_or (get value "id") null

      params : Value
      params = unwrap_or (get value "params") null

      method : String
      method = unwrap_or (get_str value "method") ""

      refused : (n : ℕ) (text : String) → Filed (refuse fault id n text s).server_requests
      refused n text =
          subst Filed (sym (write_message-server_requests fault (refusal id n text) s)) f

  pub resolved-Filed :
      (params : Value) (s : Session)
      → Filed s.server_requests
      → Filed (resolved id_text params s).server_requests
  unfolding resolved
  resolved-Filed params s f = elim (Option-cases (get params "requestId")) [
    | inl p ↦ rw (p, resolved) f
    | inr (id, p) ↦
        rw (p, resolved)
          (elim (Option-cases (get_str params "threadId")) [
            | inl q ↦ rw (q, resolved) f
            | inr (thread, q) ↦
                rw (q, resolved)
                  (if_cases (λ (t : Session). Filed t.server_requests)
                    (is_some_and (Map.get s.server_requests (id_text id))
                      (λ r. r.thread_id == thread))
                    (λ _. Filed-remove s.server_requests (id_text id) f) (λ _. f))
          ])
  ]

  pub turn_completed-Filed :
      (params : Value) (s : Session)
      → Filed s.server_requests
      → Filed (turn_completed id_text params s).server_requests
  unfolding turn_completed
  turn_completed-Filed params s f = elim (Option-cases (get_str params "threadId")) [
    | inl p ↦ rw (p, turn_completed) f
    | inr (thread, p) ↦
        rw (p, turn_completed)
          (elim (Option-cases (and_then (get params "turn") (λ turn. get_str turn "id"))) [
            | inl q ↦ rw (q, turn_completed) f
            | inr (turn, q) ↦ rw (q, turn_completed) (Filed-retain _ s.server_requests f)
          ])
  ]
