-- ===== src/Publisher/Receipt.antt =====
-- Which answers of the host release an event.
use mathlib.Core.Option.{some-injective}
use baijimu_digital_employee.Base.{
  ℕ, ◌≤◌, ◌<◌, ◌≡◌, refl, sym, ap, ◌∙◌, subst, ◌↔◌, inl, inr, String, Bool, true, false, ◌&&◌,
  Option, none, some, arith, ltb, leb, and_then, and_then-eq-some, is_some_and, ◌==◌, eq_iff,
  eq_refl, Option-cases, Bool-cases,
}
use baijimu_digital_employee.Json.{Value, Fields, as_str}
use baijimu_digital_employee.Json.Object
use baijimu_digital_employee.Serde.{struct_fields, has_only, required}
use baijimu_digital_employee.Publisher.{
  HostEventReceipt, contract_version, host_acceptance, receipt_names, receipt_of, de_receipt,
  accepts, Answer, no_answer, answered, is_accepted,
}
use baijimu_digital_employee.Publisher.Contract.{
  IsReceipt, has_only_iff, required-string, version_iff, acceptance_iff,
}

abbrev decoded : Fields → Option HostEventReceipt
decoded fs = and_then (required fs "contractVersion" contract_version) (λ _.
    and_then (required fs "eventId" as_str) (λ event_id.
      and_then (required fs "appId" as_str) (λ app_id.
        and_then (required fs "status" host_acceptance)
          (λ _. some (record { event_id = event_id; app_id = app_id })))))

receipt_of-IsReceipt :
    (fs : Fields) (r : HostEventReceipt) → receipt_of fs ≡ some r → IsReceipt r.app_id r.event_id fs
receipt_of-IsReceipt fs r h = elim (Bool-cases (has_only receipt_names fs)) [
  | inr q ↦ let e : none ≡ some r = sym (rw q refl) ∙ h in cc e
  | inl q ↦
      let k : decoded fs ≡ some r = sym (rw q refl) ∙ h in
      let (u, p1, k1) = and_then-eq-some (required fs "contractVersion" contract_version) _ k in
      let (event_id, p2, k2) = and_then-eq-some (required fs "eventId" as_str) _ k1 in
      let (app_id, p3, k3) = and_then-eq-some (required fs "appId" as_str) _ k2 in
      let (w, p4, k4) = and_then-eq-some (required fs "status" host_acceptance) _ k3 in
      let (v, a, b) = and_then-eq-some (Object.get fs "contractVersion") contract_version p1 in
      let (s, c, d) = and_then-eq-some (Object.get fs "status") host_acceptance p4 in
      subst (λ (r : HostEventReceipt). IsReceipt r.app_id r.event_id fs) (some-injective _ r k4)
        (
          (has_only_iff fs).0 q,
          (v, a, (version_iff v).0 b),
          required-string fs "eventId" event_id p2,
          required-string fs "appId" app_id p3,
          (s, c, (acceptance_iff s).0 d),
        )
]

IsReceipt-receipt_of :
    (app_id event_id : String) (fs : Fields)
    → IsReceipt app_id event_id fs
    → receipt_of fs ≡ some (record { event_id = event_id; app_id = app_id })
IsReceipt-receipt_of app_id event_id fs (only, (v, p, x), e, a, (w, q, y)) =
    rw ((has_only_iff fs).1 only)
      (rw p (rw ((version_iff v).1 x) (rw e (rw a (rw q (rw ((acceptance_iff w).1 y) refl))))))

de_receipt_iff :
    (app_id event_id : String) (body : Value)
    → (is_some_and (de_receipt body) (λ receipt. accepts receipt app_id event_id) ≡ true) ↔ (
        (fs : Fields) × (struct_fields receipt_names body ≡ some fs) × IsReceipt app_id event_id fs)
unfolding de_receipt
de_receipt_iff app_id event_id body = (
  λ h. elim (Option-cases (de_receipt body)) [
    | inl p ↦ let e : false ≡ true = sym (rw (p, de_receipt) refl) ∙ h in cc e
    | inr (r, p) ↦
        let (fs, s, q) = and_then-eq-some (struct_fields receipt_names body) receipt_of p in
        let (app, event) =
          same_ids (r.app_id == app_id) (r.event_id == event_id)
            (sym (ap (λ o. is_some_and o (λ receipt. accepts receipt app_id event_id)) p) ∙ h) in
        (
          fs,
          s,
          subst (λ a. IsReceipt a event_id fs) ((eq_iff r.app_id app_id).0 app)
              (subst (λ e. IsReceipt r.app_id e fs) ((eq_iff r.event_id event_id).0 event)
                (receipt_of-IsReceipt fs r q)),
        )
  ],
  λ (fs, s, q). rw s (
      rw (IsReceipt-receipt_of app_id event_id fs q)
        (both_true _ _ (eq_refl app_id) (eq_refl event_id))),
)
  where
    same_ids : (a b : Bool) → (a && b) ≡ true → (a ≡ true) × (b ≡ true)
    same_ids a b h = ground arith

    both_true : (a b : Bool) → a ≡ true → b ≡ true → (a && b) ≡ true
    both_true a b p q = ground arith

in_range :
    (status : ℕ) (b : Bool)
    → ((leb 200 status && ltb status 300 && b) ≡ true)
      ↔ ((200 ≤ status) × (status < 300) × (b ≡ true))
in_range status b = (λ h. (ground arith, ground arith, ground arith), λ (lo, hi, h). ground arith)

-- An answer releases an event exactly if its status is of success and its document is a receipt for the app
-- and the event: the fields of a struct, given by name or by position, that are the contract's version
-- 2.0.0, the ids of the event and the app, and the status `queued` or `no_subscribers`, and no others.
pub is_accepted_iff :
    (app_id event_id : String) (a : Answer)
    → (is_accepted app_id event_id a ≡ true) ↔ (
        (status : ℕ) × (body : Value) × (fs : Fields) × (a ≡ answered status (some body))
        × (200 ≤ status)
        × (status < 300)
        × (struct_fields receipt_names body ≡ some fs)
        × IsReceipt app_id event_id fs)
unfolding is_accepted
is_accepted_iff app_id event_id no_answer = (λ h. cc, λ (s, b, fs, p, lo, hi, q, r). cc)
is_accepted_iff app_id event_id (answered status none) =
    (λ h. ground arith, λ (s, b, fs, p, lo, hi, q, r). cc)
is_accepted_iff app_id event_id (answered status (some body)) = (
  λ h.
      let (lo, hi, k) = (in_range status _).0 h in
      let (fs, s, r) = (de_receipt_iff app_id event_id body).0 k in
      (status, body, fs, refl, lo, hi, s, r),
  λ (s, b, fs, p, lo, hi, q, r).
      let n : s ≡ status = cc in
      let d : b ≡ body = cc in
      (in_range status _).1 (
        subst (λ k. 200 ≤ k) n lo,
        subst (λ k. k < 300) n hi,
        (de_receipt_iff app_id event_id body).1
            (fs, subst (λ v. struct_fields receipt_names v ≡ some fs) d q, r),
      ),
)
