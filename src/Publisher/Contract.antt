-- ===== src/Publisher/Contract.antt =====
-- The fields of a receipt (src/app_server/host_receipt.rs) that its decoding tests.
use mathlib.Core.Option.{some-injective}
use baijimu_digital_employee.Base.{
  ◌≡◌, refl, sym, ap, ◌∙◌, subst, ◌↔◌, ◌⊎◌, inl, inr, String, Bool, true, false, ◌&&◌, ◌||◌, none,
  some, arith, and_then-eq-some, any, ◌==◌, eq_iff, eq_refl, Bool-cases, if◌then◌else◌,
}
use baijimu_digital_employee.Json.{Value, null, string, object, Fields, end, field, as_str}
use baijimu_digital_employee.Json.Object
use baijimu_digital_employee.Serde.{has_only, required}
use baijimu_digital_employee.Publisher.{
  variant_of, contract_version, host_acceptance, receipt_names,
}

-- A variant that holds nothing, as serde writes it: its name, or an object of the name and null.
abbrev pub IsVariant : String → Value → Type 0
IsVariant s v = (v ≡ string s) ⊎ (v ≡ object (field s null end))

variant_of-IsVariant : (v : Value) (s : String) → variant_of v ≡ some s → IsVariant s v
variant_of-IsVariant (string t) s h = inl (ap string (some-injective t s h))
variant_of-IsVariant (object (field k null end)) s h =
    inr (ap (λ k. object (field k null end)) (some-injective k s h))
variant_of-IsVariant _ s h = cc

IsVariant-variant_of : (v : Value) (s : String) → IsVariant s v → variant_of v ≡ some s
IsVariant-variant_of v s (inl h) = ap variant_of h
IsVariant-variant_of v s (inr h) = ap variant_of h

-- The names of the fields of a receipt.
abbrev pub IsName : String → Type 0
IsName k = (k ≡ "contractVersion") ⊎ (k ≡ "eventId") ⊎ (k ≡ "appId") ⊎ (k ≡ "status")

IsName-iff : (k : String) → (any (λ n. n == k) receipt_names ≡ true) ↔ IsName k
IsName-iff k = (
  λ h.
      named (Bool-cases ("contractVersion" == k)) (Bool-cases ("eventId" == k))
        (Bool-cases ("appId" == k)) h,
  λ h. ground (
    arith,
    h,
    eq_iff "contractVersion" k,
    eq_iff "eventId" k,
    eq_iff "appId" k,
    eq_iff "status" k,
  ),
)
  where
    named :
        (("contractVersion" == k) ≡ true) ⊎ (("contractVersion" == k) ≡ false)
        → (("eventId" == k) ≡ true) ⊎ (("eventId" == k) ≡ false)
        → (("appId" == k) ≡ true) ⊎ (("appId" == k) ≡ false)
        → any (λ n. n == k) receipt_names ≡ true
        → IsName k
    named (inl p) q r h = inl (sym ((eq_iff "contractVersion" k).0 p))
    named (inr p) (inl q) r h = inr (inl (sym ((eq_iff "eventId" k).0 q)))
    named (inr p) (inr q) (inl r) h = inr (inr (inl (sym ((eq_iff "appId" k).0 r))))
    named (inr p) (inr q) (inr r) h = inr (inr (inr (sym ((eq_iff "status" k).0 (ground arith)))))

pub has_only_iff :
    (fs : Fields)
    → (has_only receipt_names fs ≡ true)
      ↔ ((k : String) (v : Value) → Object.get fs k ≡ some v → IsName k)
unfolding has_only Object.get
has_only_iff end = (λ h k v p. cc, λ h. refl)
has_only_iff (field k w fs) = (
  λ h j v p. elim (Bool-cases (k == j)) [
    | inl q ↦ subst IsName ((eq_iff k j).0 q) ((IsName-iff k).0 (ground arith))
    | inr q ↦ (has_only_iff fs).0 (ground arith) j v (sym (rw q refl) ∙ p)
  ],
  λ h.
      let named : IsName k = h k w (rw (eq_refl k) refl) in
      let first = (IsName-iff k).1 named in
      let rest = (has_only_iff fs).1 (λ j v p. elim (Bool-cases (k == j)) [
        | inl q ↦ subst IsName ((eq_iff k j).0 q) named
        | inr q ↦ h j v (rw q p)
      ]) in
      both (any (λ n. n == k) receipt_names) (has_only receipt_names fs) first rest,
)
  where
    both : (a b : Bool) → a ≡ true → b ≡ true → (a && b) ≡ true
    both a b p q = ground arith

-- The fields of a receipt for an app and an event: no other names, the contract's version 2.0.0, the two ids,
-- and one of the two outcomes.
abbrev pub IsReceipt : String → String → Fields → Type 0
IsReceipt app_id event_id fs =
    ((k : String) (v : Value) → Object.get fs k ≡ some v → IsName k)
    × ((v : Value) × (Object.get fs "contractVersion" ≡ some v) × IsVariant "2.0.0" v)
    × (Object.get fs "eventId" ≡ some (string event_id))
    × (Object.get fs "appId" ≡ some (string app_id))
    × ((v : Value) × (Object.get fs "status" ≡ some v)
        × (IsVariant "queued" v ⊎ IsVariant "no_subscribers" v))

as_str-string : (v : Value) (s : String) → as_str v ≡ some s → v ≡ string s
as_str-string (string t) s h = ap string (some-injective t s h)
as_str-string _ s h = cc

pub required-string :
    (fs : Fields) (k s : String) → required fs k as_str ≡ some s → Object.get fs k ≡ some (string s)
required-string fs k s h =
    let (v, p, q) = and_then-eq-some (Object.get fs k) as_str h in p ∙ ap some (as_str-string v s q)

chosen : (b : Bool) (u : Unit {0}) → (if b then some tt else none) ≡ some u → b ≡ true
chosen true u h = refl
chosen false u h = cc

pub version_iff : (v : Value) → (contract_version v ≡ some tt) ↔ IsVariant "2.0.0" v
version_iff v = (
  λ h.
      let (s, p, q) = and_then-eq-some (variant_of v) _ h in
      variant_of-IsVariant v "2.0.0" (p ∙ ap some ((eq_iff s "2.0.0").0 (chosen _ tt q))),
  λ h. rw (IsVariant-variant_of v "2.0.0" h) refl,
)

outcome :
    (v : Value) (s : String)
    → variant_of v ≡ some s
    → (s == "queued" || s == "no_subscribers") ≡ true
    → IsVariant "queued" v ⊎ IsVariant "no_subscribers" v
outcome v s p h = elim (Bool-cases (s == "queued")) [
  | inl q ↦ inl (variant_of-IsVariant v "queued" (p ∙ ap some ((eq_iff s "queued").0 q)))
  | inr q ↦ inr (
      variant_of-IsVariant v "no_subscribers"
        (p ∙ ap some ((eq_iff s "no_subscribers").0 (sym (rw q refl) ∙ h))))
]

pub acceptance_iff :
    (v : Value)
    → (host_acceptance v ≡ some tt) ↔ (IsVariant "queued" v ⊎ IsVariant "no_subscribers" v)
acceptance_iff v = (
  λ h. let (s, p, q) = and_then-eq-some (variant_of v) _ h in outcome v s p (chosen _ tt q),
  accepted,
)
  where
    accepted : IsVariant "queued" v ⊎ IsVariant "no_subscribers" v → host_acceptance v ≡ some tt
    accepted (inl h) = rw (IsVariant-variant_of v "queued" h) refl
    accepted (inr h) = rw (IsVariant-variant_of v "no_subscribers" h) refl
