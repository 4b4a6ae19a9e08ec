-- ===== src/History/Pages.antt =====
-- When the history of a thread is shown as empty.
use mathlib.Core.Option.{some-injective}
use baijimu_digital_employee.Text.{◌⁺⁺◌}
use baijimu_digital_employee.Base.{
  ◌≡◌, subst, ◌↔◌, ◌&&◌, Bool, not, is_some_and, and_then, refl, sym, ◌∙◌, ap, ◌⊎◌, inl, inr,
  String, true, false, Option, none, some, [], ◌∷◌, arith, ok, err, ◌==◌, eq_iff, Bool-cases,
}
use baijimu_digital_employee.Json.{
  neg_int, get, as_str, value_eq, Value, null, boolean, number, array, string, object, json,
}
use baijimu_digital_employee.Json.Laws.{value_eq_iff}
use baijimu_digital_employee.Http.{HttpError, Http, Http-cases}
use baijimu_digital_employee.History.{
  is_null, is_first_page, is_unmaterialized_thread, empty_page, list_turns,
}

-- The error of the app-server for a thread that has no first message yet: its code, the code of its call,
-- and its message.
abbrev pub SaysUnmaterialized : HttpError → String → Type 0
SaysUnmaterialized error thread_id =
    (error.code ≡ some (string "CODEX_RPC_ERROR"))
    × ((details : Value) × (error.details ≡ some details)
        × (get details "rpcCode" ≡ some (number (neg_int 32599))))
    × (error.message
        ≡ "thread " ⁺⁺ thread_id
          ⁺⁺ " is not materialized yet; thread/turns/list is unavailable before first user message")

-- The first page is asked for: with no cursor, or with null.
abbrev pub AsksFirst : Value → Type 0
AsksFirst params = (get params "cursor" ≡ none) ⊎ (get params "cursor" ≡ some null)

is_null_iff : (v : Value) → (is_null v ≡ true) ↔ (v ≡ null)
is_null_iff null = (λ h. refl, λ h. refl)
is_null_iff (boolean b) = (λ h. cc, λ h. cc)
is_null_iff (number n) = (λ h. cc, λ h. cc)
is_null_iff (string s) = (λ h. cc, λ h. cc)
is_null_iff (array l) = (λ h. cc, λ h. cc)
is_null_iff (object o) = (λ h. cc, λ h. cc)

is_first_page_iff : (params : Value) → (is_first_page params ≡ true) ↔ AsksFirst params
is_first_page_iff params = first (get params "cursor")
  where
    first :
        (o : Option Value)
        → (not (is_some_and o (λ c. not (is_null c))) ≡ true) ↔ ((o ≡ none) ⊎ (o ≡ some null))
    first none = (λ h. inl refl, λ h. refl)
    first (some v) = (λ h. inr (ap some ((is_null_iff v).0 (ground arith))), λ h. given h)
      where
        given :
            (some v ≡ none) ⊎ (some v ≡ some null)
            → not (is_some_and (some v) (λ c. not (is_null c))) ≡ true
        given (inl p) = cc
        given (inr p) = let q = (is_null_iff v).1 (some-injective v null p) in ground arith

and_iff : (a b c : Bool) → ((a && b && c) ≡ true) ↔ ((a ≡ true) × (b ≡ true) × (c ≡ true))
and_iff a b c = (λ h. (ground arith, ground arith, ground arith), λ (p, q, r). ground arith)

text_iff :
    (o : Option Value) (s : String)
    → (is_some_and (and_then o as_str) (λ c. c == s) ≡ true) ↔ (o ≡ some (string s))
text_iff none s = (λ h. cc, λ h. cc)
text_iff (some (string c)) s =
    (λ h. ap (λ t. some (string t)) ((eq_iff c s).0 h), λ h. (eq_iff c s).1 cc)
text_iff (some null) s = (λ h. cc, λ h. cc)
text_iff (some (boolean b)) s = (λ h. cc, λ h. cc)
text_iff (some (number n)) s = (λ h. cc, λ h. cc)
text_iff (some (array l)) s = (λ h. cc, λ h. cc)
text_iff (some (object o)) s = (λ h. cc, λ h. cc)

value_iff :
    (o : Option Value) (w : Value) → (is_some_and o (λ c. value_eq c w) ≡ true) ↔ (o ≡ some w)
value_iff none w = (λ h. cc, λ h. cc)
value_iff (some v) w =
    (λ h. ap some ((value_eq_iff v w).0 h), λ h. (value_eq_iff v w).1 (some-injective v w h))

field_iff :
    (o : Option Value) (k : String) (w : Value)
    → (is_some_and (and_then o (λ v. get v k)) (λ c. value_eq c w) ≡ true)
      ↔ ((details : Value) × (o ≡ some details) × (get details k ≡ some w))
field_iff none k w = (λ h. cc, λ (d, p, q). cc)
field_iff (some v) k w = (
  λ h. (v, refl, (value_iff (get v k) w).0 h),
  λ (d, p, q).
      let e : d ≡ v = sym (some-injective v d p) in
      (value_iff (get v k) w).1 (subst (λ x. get x k ≡ some w) e q),
)

is_unmaterialized_thread_iff :
    (error : HttpError) (thread_id : String)
    → (is_unmaterialized_thread error thread_id ≡ true) ↔ SaysUnmaterialized error thread_id
unfolding is_unmaterialized_thread
is_unmaterialized_thread_iff error thread_id = (
  λ h.
      let (a, b, c) = (and_iff _ _ _).0 h in
      (
        (text_iff error.code "CODEX_RPC_ERROR").0 a,
        (field_iff error.details "rpcCode" (number (neg_int 32599))).0 b,
        (eq_iff error.message _).0 c,
      ),
  λ (a, b, c). (and_iff _ _ _).1 (
    (text_iff error.code "CODEX_RPC_ERROR").1 a,
    (field_iff error.details "rpcCode" (number (neg_int 32599))).1 b,
    (eq_iff error.message _).1 c,
  ),
)

-- The result of the call is passed on under `result`. An error of the call is shown as an empty page exactly
-- if the first page was asked for and the error says that the thread has no first message: its code is
-- CODEX_RPC_ERROR, the code of the call -32600, and its message the one for this thread. Every other error
-- is passed on.
pub list_turns-cases :
    (thread_id : String) (params : Value) (request : Value → Http Value)
    → ((result : Value) × (request params ≡ ok result)
        × (list_turns thread_id params request ≡ ok (json (("result", result) ∷ []))))
      ⊎ ((error : HttpError) × (request params ≡ err error)
          × ((AsksFirst params
                × SaysUnmaterialized error thread_id
                × (list_turns thread_id params request ≡ ok empty_page))
              ⊎ (¬ (AsksFirst params × SaysUnmaterialized error thread_id)
                  × (list_turns thread_id params request ≡ err error))))
unfolding list_turns
list_turns-cases thread_id params request = elim (Http-cases (request params)) [
  | inr (result, p) ↦ inl (result, p, rw (p, list_turns) refl)
  | inl (error, p) ↦ elim (Bool-cases (is_first_page params)) [
    | inr q ↦ inr (
      error,
      p,
      inr (
        λ (first, s). let e : false ≡ true = sym q ∙ (is_first_page_iff params).1 first in cc e,
        rw (p, list_turns) (rw q refl),
      ),
    )
    | inl q ↦ elim (Bool-cases (is_unmaterialized_thread error thread_id)) [
      | inl r ↦ inr (
        error,
        p,
        inl (
          (is_first_page_iff params).0 q,
          (is_unmaterialized_thread_iff error thread_id).0 r,
          rw (p, list_turns) (rw q (rw r refl)),
        ),
      )
      | inr r ↦ inr (
        error,
        p,
        inr (
          λ (first, s).
              let e : false ≡ true = sym r ∙ (is_unmaterialized_thread_iff error thread_id).1 s in
              cc e,
          rw (p, list_turns) (rw q (rw r refl)),
        ),
      )
    ]
  ]
]
