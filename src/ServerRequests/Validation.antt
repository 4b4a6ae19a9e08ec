-- ===== src/ServerRequests/Validation.antt =====
-- Which replies answer a request.
use baijimu_digital_employee.Base.{
  ◌≡◌, refl, ◌∙◌, ap, subst, ◌⊎◌, inl, inr, ◌↔◌, String, true, false, some, List, [], ◌∷◌, arith,
  ok, All, any, length, eqb_iff, and_then, guard, eq_iff, >>=-eq-ok, Option-cases, Bool-cases,
}
use baijimu_digital_employee.Json.{Value, number, get, get_str, as_array}
use baijimu_digital_employee.Json.Laws.{value_eq_iff}
use baijimu_digital_employee.Map.{Map, string_order, contains_key}
use baijimu_digital_employee.ServerRequests.{
  RequestId, number_id, text_id, request_id_eq, ServerRequest, Reply, ReplyResult, decision,
  answers, is_unanswered, is_question, check_answers, check_result, validate_reply,
}

-- The question has an id, and the answers have an entry for it.
abbrev pub IsAnswered : Map String (List String) → Value → Type 0
IsAnswered m q = (id : String) × (get_str q "id" ≡ some id) × (contains_key m id ≡ true)

-- The result is one that the request's method takes.
abbrev pub Fits : ServerRequest → ReplyResult → Type 0
Fits r (decision d) =
    (r.method ≡ "item/commandExecution/requestApproval")
    ⊎ (r.method ≡ "item/fileChange/requestApproval")
Fits r (answers m) =
    (r.method ≡ "item/tool/requestUserInput")
    × ((questions : List Value) × (and_then (get r.params "questions") as_array ≡ some questions)
        × (length m ≡ length questions)
        × All (IsAnswered m) questions)

request_id_eq_iff : (i j : RequestId) → (request_id_eq i j ≡ true) ↔ (i ≡ j)
request_id_eq_iff (number_id m) (number_id n) = (
  λ h. cc ((value_eq_iff (number m) (number n)).0 h),
  λ h. (value_eq_iff (number m) (number n)).1 (cc),
)
request_id_eq_iff (number_id m) (text_id t) = (λ h. cc, λ h. cc)
request_id_eq_iff (text_id s) (number_id n) = (λ h. cc, λ h. cc)
request_id_eq_iff (text_id s) (text_id t) =
    (λ h. ap (λ x. text_id x) ((eq_iff s t).0 h), λ h. (eq_iff s t).1 (cc))

is_unanswered_iff :
    (m : Map String (List String)) (q : Value) → (is_unanswered m q ≡ false) ↔ IsAnswered m q
unfolding is_unanswered
is_unanswered_iff m q = elim (Option-cases (get_str q "id")) [
  | inl p ↦ (λ h. absurd (ground arith), λ h. absurd (ground arith))
  | inr (id, p) ↦ (λ h. (id, p, ground arith), λ h. ground arith)
]

All-IsAnswered_iff :
    (m : Map String (List String)) (qs : List Value)
    → (any (is_unanswered m) qs ≡ false) ↔ All (IsAnswered m) qs
All-IsAnswered_iff m [] = (λ _. tt, λ _. refl)
All-IsAnswered_iff m (q ∷ qs) = (
  λ h. ((is_unanswered_iff m q).0 (ground arith), (All-IsAnswered_iff m qs).0 (ground arith)),
  λ h. ground (arith, (is_unanswered_iff m q).1 h.0, (All-IsAnswered_iff m qs).1 h.1),
)

check_answers_iff :
    (m : Map String (List String)) (params : Value)
    → (check_answers m params ≡ ok tt) ↔ (
        (questions : List Value) × (and_then (get params "questions") as_array ≡ some questions)
        × (length m ≡ length questions)
        × All (IsAnswered m) questions)
unfolding check_answers
check_answers_iff m params = elim (Option-cases (and_then (get params "questions") as_array)) [
  | inl p ↦ rw p (λ h. cc, λ h. cc h.1)
  | inr (qs, p) ↦ rw p (
    λ h. (
      qs,
      refl,
      (eqb_iff (length m) (length qs)).0 (ground arith),
      (All-IsAnswered_iff m qs).0 (ground arith),
    ),
    λ (l, e, n, a).
        let same : l ≡ qs = cc e in
        let counted : length m ≡ length qs = n ∙ ap length same in
        let answered : any (is_unanswered m) qs ≡ false =
          (All-IsAnswered_iff m qs).1 (subst (All (IsAnswered m)) same a) in
        rw ((eqb_iff (length m) (length qs)).1 counted) (rw answered refl),
  )
]

check_result_iff :
    (r : ServerRequest) (result : ReplyResult) → (check_result r result ≡ ok tt) ↔ Fits r result
unfolding check_result check_answers
check_result_iff r (decision d) = ground (
  arith,
  eq_iff r.method "item/commandExecution/requestApproval",
  eq_iff r.method "item/fileChange/requestApproval",
)
check_result_iff r (answers m) = elim (Bool-cases (is_question r.method)) [
  | inr q ↦ (
    λ h. absurd (ground arith),
    λ h. absurd (ground (arith, (eq_iff r.method "item/tool/requestUserInput").1 h.0)),
  )
  | inl q ↦ rw q (
    λ h. ((eq_iff r.method "item/tool/requestUserInput").0 q, (check_answers_iff m r.params).0 h),
    λ h. (check_answers_iff m r.params).1 h.1,
  )
]

-- A reply passes exactly if its thread, turn and request id are the request's, and it is a decision on an
-- approval, or answers to a request for input that are as many as its questions and give an answer to the
-- id of each.
pub validate_reply_iff :
    (r : ServerRequest) (reply : Reply)
    → (validate_reply r reply ≡ ok tt) ↔ (
        (reply.thread_id ≡ r.thread_id)
        × (reply.turn_id ≡ r.turn_id)
        × (reply.request_id ≡ r.request_id)
        × Fits r reply.result)
unfolding validate_reply
validate_reply_iff r reply = (
  λ h.
      let (u, p, q) = >>=-eq-ok (guard _ _) (λ _. check_result r reply.result) h in
      (
        (eq_iff reply.thread_id r.thread_id).0 (ground arith),
        (eq_iff reply.turn_id r.turn_id).0 (ground arith),
        (request_id_eq_iff reply.request_id r.request_id).0 (ground arith),
        (check_result_iff r reply.result).0 q,
      ),
  λ (t, u, i, f). rw ((eq_iff reply.thread_id r.thread_id).1 t) (
      rw ((eq_iff reply.turn_id r.turn_id).1 u) (
        rw ((request_id_eq_iff reply.request_id r.request_id).1 i)
          ((check_result_iff r reply.result).1 f))),
)
