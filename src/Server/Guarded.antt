-- ===== src/Server/Guarded.antt =====
-- What a request must bring before anything is done for it.
use baijimu_digital_employee.Base.{
  ◌≡◌, refl, sym, ◌∙◌, ◌⊎◌, inl, inr, ℕ, String, true, not, ◌&&◌, some, List, Result, ok, err,
  arith, Option-cases, if_cases, ◌==◌, eq_iff, >>=-eq-ok, ◌>>◌,
}
use baijimu_digital_employee.Json.{Value}
use baijimu_digital_employee.Http.{Http, Http-cases}
use baijimu_digital_employee.Employee.{Employee, authorize}
use baijimu_digital_employee.Employee.Invocation.{Method}
use baijimu_digital_employee.Employee.Management.{Canonical}
use baijimu_digital_employee.Server.Token.{utf8, token_of, management_authorized}
use baijimu_digital_employee.Server.Compare.{management_authorized_iff}
use baijimu_digital_employee.Server.Framing.{HttpRequest}
use baijimu_digital_employee.Server.Routes.{
  Service, Answer, before_query, is_public, is_remote, admitted, invoke_http, answered, dispatched,
  remote, handle_connection, decoded,
}

ne-get-post : (s : String) → (s == "GET") ≡ true → (s == "POST") ≡ true → ⊥
ne-get-post s h k =
    let e = (eq_iff "GET" "POST").1 (sym ((eq_iff s "GET").0 h) ∙ (eq_iff s "POST").0 k) in cc e

module _ {S Stream : Type 0} (service : Service S Stream) (methods : List Method)
    (reason : Value → String) (canonicalize : String → Canonical) where
  -- A remote call is one of a workspace that the employee admits.
  abbrev pub IsAdmitted : HttpRequest → S → Type 0
  IsAdmitted r s =
      (workspace : ℕ) × (e : Employee) × (r.workspace_id ≡ some workspace)
      × (service.employee s ≡ ok e)
      × (authorize e workspace ≡ ok tt)

  abbrev pub IsGuarded : String → Result String HttpRequest → S → Answer Stream × S → Type 0
  IsGuarded token read s out =
      (out.1 ≡ s)
      ⊎ ((r : HttpRequest) × (read ≡ ok r)
          × (utf8 (token_of r.authorization) ≡ utf8 token)
          × (is_remote service methods reason canonicalize r (before_query r.path) ≡ true
              → IsAdmitted r s))

  abbrev Admits : HttpRequest → S → S → Type 0
  Admits r s t = (t ≡ s) ⊎ IsAdmitted r s

  admitted-ok :
      (path : String) (bytes : List ℕ) (workspace : ℕ) (s : S) (p : Employee × Value)
      → admitted service methods reason canonicalize path bytes workspace s ≡ ok p
      → (e : Employee) × (service.employee s ≡ ok e) × (authorize e workspace ≡ ok tt)
  unfolding admitted
  admitted-ok path bytes workspace s p h =
      let (e, q, k) = >>=-eq-ok (service.employee s) _ h in
      let (b, l, m) = >>=-eq-ok (authorize e workspace >> decoded service bytes) _ k in
      let (u, v, w) = >>=-eq-ok (authorize e workspace) _ l in (e, q, v)

  invoke_http-Admits :
      (r : HttpRequest) (path : String) (workspace : ℕ) (s : S)
      → r.workspace_id ≡ some workspace
      → Admits r s (invoke_http service methods reason canonicalize path r.body workspace s).1
  unfolding invoke_http
  invoke_http-Admits r path workspace s w =
      elim (Http-cases (admitted service methods reason canonicalize path r.body workspace s)) [
        | inl (e, p) ↦ inl (rw (p, invoke_http) refl)
        | inr (a, p) ↦
            let (e, q, k) = admitted-ok path r.body workspace s a p in inr (workspace, e, w, q, k)
      ]

  answered-state : (r : Http Value × S) → (answered service methods reason canonicalize r).1 ≡ r.1
  answered-state (ok v, s) = refl
  answered-state (err e, s) = refl

  remote-Admits :
      (r : HttpRequest) (path : String) (s : S)
      → Admits r s (remote service methods reason canonicalize r path s).1
  remote-Admits r path s = elim (Option-cases r.workspace_id) [
    | inl p ↦ inl (rw (p, remote) refl)
    | inr (w, p) ↦
        rw (p, remote)
          (elim (invoke_http-Admits r path w s p) [
            | inl q ↦ inl q
            | inr (x, e, a, b, c) ↦ inr (x, e, sym p ∙ a, b, c)
          ])
  ]

  -- A stream of notifications is asked for with GET, a remote call with POST.
  get-post :
      (r : HttpRequest) (path : String)
      → (r.method == "GET" && path == "/streams/notifications") ≡ true
      → is_remote service methods reason canonicalize r path ≡ true
      → ⊥
  get-post r path h k = ne-get-post r.method (ground arith) (ground arith)

  dispatched-guarded :
      (r : HttpRequest) (path : String) (s : S)
      → ((dispatched service methods reason canonicalize r path s).1 ≡ s)
        ⊎ (is_remote service methods reason canonicalize r path ≡ true → IsAdmitted r s)
  dispatched-guarded r path s =
      if_cases
        (λ (o : Answer Stream × S).
          (o.1 ≡ s)
          ⊎ (is_remote service methods reason canonicalize r path ≡ true → IsAdmitted r s))
        (r.method == "GET" && path == "/streams/notifications")
        (λ h. inr (λ k. absurd (get-post r path h k)))
        (λ _.
          if_cases
            (λ (o : Http Value × S).
              ((answered service methods reason canonicalize o).1 ≡ s)
              ⊎ (is_remote service methods reason canonicalize r path ≡ true → IsAdmitted r s))
            (is_remote service methods reason canonicalize r path)
            (λ _. elim (remote-Admits r path s) [
              | inl q ↦
                  inl (answered-state (remote service methods reason canonicalize r path s) ∙ q)
              | inr q ↦ inr (λ _. q)
            ])
            (λ h. inr (λ k. cc)))

  -- A request changes nothing, whatever the answer; or it was read whole, its header has the token, and if
  -- it is a remote call, it names a workspace that the employee on file, enabled and configured, admits.
  pub handle_connection-IsGuarded :
      (version : String) (pid : ℕ) (token : String) (read : Result String HttpRequest) (s : S)
      → IsGuarded token read s
          (handle_connection service methods reason canonicalize version pid token read s)
  unfolding handle_connection
  handle_connection-IsGuarded version pid token (err e) s = inl refl
  handle_connection-IsGuarded version pid token (ok r) s =
      let path = before_query r.path in
      if_cases (IsGuarded token (ok r) s)
        (not (is_public r path) && not (management_authorized r.authorization token))
        (λ _. inl refl)
        (λ h.
          if_cases (IsGuarded token (ok r) s) (is_public r path) (λ _. inl refl)
            (λ k. elim (dispatched-guarded r path s) [
              | inl q ↦ inl q
              | inr q ↦
                  inr
                    (r, refl, (management_authorized_iff r.authorization token).0 (ground arith), q)
            ]))
