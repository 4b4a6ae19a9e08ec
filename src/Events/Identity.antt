-- ===== src/Events/Identity.antt =====
-- When two domain events have the same id.

use text.Mathlib.TextLemmas.{
  nil-append, cons-append, append_cancel_left, head-eq_of_cons-eq, tail-eq_of_cons-eq, nil≢cons,
}
use mathlib.Core.Path.{ap₂}
use baijimu_digital_employee.Base.{
  ℕ, ◌≤◌, Char, code, String, ◌≡◌, ◌≢◌, refl, sym, ap, ◌∙◌, ◌↔◌, Option, some, List, [], ◌∷◌, ok,
  arith, All, and_then,
}
use baijimu_digital_employee.Json.{Value, get, get_str, as_object, as_str}
use baijimu_digital_employee.Json.Object
use baijimu_digital_employee.Text.{◌⁺⁺◌, to_decimal, max_u64}
use baijimu_digital_employee.Text.Laws.{AllDigits, to_decimal-AllDigits, to_decimal_inj}
use baijimu_digital_employee.Events.{
  DomainEvent, turn_completed_name, required_string, joined, preimage, stable_event_id,
  normalize_thread_lifecycle, normalize_turn_completed, normalize_codex_notification,
}

-- A text with no NUL.
abbrev pub NulFree : String → Type 0
NulFree String.[] = Unit
NulFree (String.◌∷◌ c s) = (code c ≢ 0) × NulFree s

-- What may follow a part: nothing, or a NUL.
abbrev Tail : String → Type 0
Tail String.[] = Unit
Tail (String.◌∷◌ c s) = code c ≡ 0

Tail-joined : (ps : List String) → Tail (joined ps)
Tail-joined [] = tt
Tail-joined (p ∷ ps) = rw cons-append refl

not-Tail : (d : Char) (b r : String) → code d ≢ 0 → Tail r → r ≢ String.◌∷◌ d b
not-Tail d b String.[] h t e = nil≢cons e
not-Tail d b (String.◌∷◌ c r) h t e = h (ap code (sym (head-eq_of_cons-eq e)) ∙ t)

-- A part ends at the first NUL.
part_inj :
    (a b r s : String)
    → NulFree a
    → NulFree b
    → Tail r
    → Tail s
    → a ⁺⁺ r ≡ b ⁺⁺ s
    → (a ≡ b) × (r ≡ s)
part_inj String.[] String.[] r s ha hb hr hs e = (refl, sym (nil-append r) ∙ e ∙ nil-append s)
part_inj String.[] (String.◌∷◌ d b) r s ha hb hr hs e =
    absurd (not-Tail d (b ⁺⁺ s) r hb.0 hr (sym (nil-append r) ∙ e ∙ cons-append d b s))
part_inj (String.◌∷◌ c a) String.[] r s ha hb hr hs e =
    absurd (not-Tail c (a ⁺⁺ r) s ha.0 hs (sym (nil-append s) ∙ sym e ∙ cons-append c a r))
part_inj (String.◌∷◌ c a) (String.◌∷◌ d b) r s ha hb hr hs e =
    let e' : String.◌∷◌ c (a ⁺⁺ r) ≡ String.◌∷◌ d (b ⁺⁺ s) =
      sym (cons-append c a r) ∙ e ∙ cons-append d b s in
    let (same_a, same_r) = part_inj a b r s ha.1 hb.1 hr hs (tail-eq_of_cons-eq e') in
    (ap₂ String.◌∷◌ (head-eq_of_cons-eq e') same_a, same_r)

joined-cons : (p : String) (ps : List String) → joined (p ∷ ps) ≡ String.◌∷◌ "\0" (p ⁺⁺ joined ps)
joined-cons p ps = cons-append "\0" "" (p ⁺⁺ joined ps) ∙ ap (String.◌∷◌ "\0") (nil-append _)

joined_inj :
    (ps qs : List String) → All NulFree ps → All NulFree qs → joined ps ≡ joined qs → ps ≡ qs
joined_inj [] [] hp hq e = refl
joined_inj [] (q ∷ qs) hp hq e = absurd (nil≢cons (e ∙ joined-cons q qs))
joined_inj (p ∷ ps) [] hp hq e = absurd (nil≢cons (sym e ∙ joined-cons p ps))
joined_inj (p ∷ ps) (q ∷ qs) hp hq e =
    let e' = tail-eq_of_cons-eq (sym (joined-cons p ps) ∙ e ∙ joined-cons q qs) in
    let (same_p, rest) =
      part_inj p q (joined ps) (joined qs) hp.0 hq.0 (Tail-joined ps) (Tail-joined qs) e' in
    ap₂ ◌∷◌ same_p (joined_inj ps qs hp.1 hq.1 rest)

-- The hashed text determines the event's name and its parts, where none of them holds a NUL.
preimage_inj :
    (name name' : String) (ps qs : List String)
    → NulFree name
    → NulFree name'
    → All NulFree ps
    → All NulFree qs
    → preimage name ps ≡ preimage name' qs
    → (name ≡ name') × (ps ≡ qs)
unfolding preimage
preimage_inj name name' ps qs hn hn' hp hq e =
    let e' = append_cancel_left "baijimu-codex-domain-event-v1\0" _ _ e in
    let (same, rest) =
      part_inj name name' (joined ps) (joined qs) hn hn' (Tail-joined ps) (Tail-joined qs) e' in
    (same, joined_inj ps qs hp hq rest)

-- The two texts, if they differ, have different digests.
abbrev pub NoCollision : (String → String) → String → String → Type 0
NoCollision sha256_hex a b = sha256_hex a ≡ sha256_hex b → a ≡ b

stable_event_id_inj :
    (sha256_hex : String → String) (name name' : String) (ps qs : List String)
    → NoCollision sha256_hex (preimage name ps) (preimage name' qs)
    → NulFree name
    → NulFree name'
    → All NulFree ps
    → All NulFree qs
    → stable_event_id sha256_hex name ps ≡ stable_event_id sha256_hex name' qs
    → (name ≡ name') × (ps ≡ qs)
unfolding stable_event_id
stable_event_id_inj sha256_hex name name' ps qs none_collide hn hn' hp hq e =
    preimage_inj name name' ps qs hn hn' hp hq
      (none_collide (append_cancel_left "codex_domain_v1_" _ _ e))

-- The `turn.id` of a notification.
abbrev pub turn_id_of : Value → Option String
turn_id_of params =
    and_then (and_then (get params "turn") as_object)
      (λ turn. and_then (Object.get turn "id") as_str)

module _ (sha256_hex : String → String) where
  turn_event-event_id :
      (p : Value) (time stream : String) (n : ℕ) (t u : String) (event : DomainEvent)
      → get_str p "threadId" ≡ some t
      → turn_id_of p ≡ some u
      → normalize_codex_notification sha256_hex "turn/completed" p time stream n ≡ ok (some event)
      → event.event_id ≡ stable_event_id sha256_hex turn_completed_name (t ∷ u ∷ [])
  unfolding normalize_codex_notification normalize_turn_completed required_string
  turn_event-event_id p time stream n t u event ht hu e = ground arith

  lifecycle_event-event_id :
      (name method : String) (p : Value) (time stream : String) (n : ℕ) (t : String)
      (event : DomainEvent)
      → get_str p "threadId" ≡ some t
      → normalize_thread_lifecycle sha256_hex name method p time stream n ≡ ok (some event)
      → event.event_id ≡ stable_event_id sha256_hex name (stream ∷ to_decimal n ∷ t ∷ [])
  unfolding normalize_thread_lifecycle required_string
  lifecycle_event-event_id name method p time stream n t event ht e = ground arith

  -- Two completed turns, notified at any times on any streams, have the same event id exactly if
  -- their thread and turn ids are the same. The ids hold no NUL, and the digests of the two hashed
  -- texts do not collide.
  pub turn_event-event_id_iff :
      (p q : Value) (time time' stream stream' : String) (n n' : ℕ) (t u t' u' : String)
      (event event' : DomainEvent)
      → get_str p "threadId" ≡ some t
      → turn_id_of p ≡ some u
      → get_str q "threadId" ≡ some t'
      → turn_id_of q ≡ some u'
      → normalize_codex_notification sha256_hex "turn/completed" p time stream n ≡ ok (some event)
      → normalize_codex_notification sha256_hex "turn/completed" q time' stream' n'
        ≡ ok (some event')
      → All NulFree (t ∷ u ∷ [])
      → All NulFree (t' ∷ u' ∷ [])
      → NoCollision sha256_hex
          (preimage turn_completed_name (t ∷ u ∷ []))
          (preimage turn_completed_name (t' ∷ u' ∷ []))
      → (event.event_id ≡ event'.event_id) ↔ ((t ≡ t') × (u ≡ u'))
  turn_event-event_id_iff p q time time' stream stream' n n' t u t' u' event event' ht hu ht' hu' e
        e' free free' none_collide =
      let a = turn_event-event_id p time stream n t u event ht hu e in
      let b = turn_event-event_id q time' stream' n' t' u' event' ht' hu' e' in
      (
        λ same.
            let ids =
              (stable_event_id_inj sha256_hex turn_completed_name turn_completed_name _ _
                none_collide (omega arith) (omega arith) free free' (sym a ∙ same ∙ b)).1 in
            (cc ids, cc ids),
        λ same. cc (a, b, same.0, same.1),
      )

AllDigits-NulFree : (s : String) → AllDigits s → NulFree s
AllDigits-NulFree String.[] h = tt
AllDigits-NulFree (String.◌∷◌ c s) (lo, hi, h) = (omega arith, AllDigits-NulFree s h)

module _ (sha256_hex : String → String) where
  -- Two lifecycle events (of any two names, whatever their params else hold) have the same event id
  -- exactly if name, stream, position and thread are the same. The texts hold no NUL, the positions
  -- are u64s, and the digests of the two hashed texts do not collide.
  pub lifecycle_event-event_id_iff :
      (name name' method method' : String) (p q : Value) (time time' stream stream' : String)
      (n n' : ℕ) (t t' : String) (event event' : DomainEvent)
      → get_str p "threadId" ≡ some t
      → get_str q "threadId" ≡ some t'
      → normalize_thread_lifecycle sha256_hex name method p time stream n ≡ ok (some event)
      → normalize_thread_lifecycle sha256_hex name' method' q time' stream' n' ≡ ok (some event')
      → All NulFree (name ∷ stream ∷ t ∷ [])
      → All NulFree (name' ∷ stream' ∷ t' ∷ [])
      → n ≤ max_u64
      → n' ≤ max_u64
      → NoCollision sha256_hex
          (preimage name (stream ∷ to_decimal n ∷ t ∷ []))
          (preimage name' (stream' ∷ to_decimal n' ∷ t' ∷ []))
      → (event.event_id ≡ event'.event_id)
        ↔ ((name ≡ name') × (stream ≡ stream') × (n ≡ n') × (t ≡ t'))
  lifecycle_event-event_id_iff name name' method method' p q time time' stream stream' n n' t t'
        event event' ht ht' e e' (f0, (f1, (f2, _))) (g0, (g1, (g2, _))) hn hn' none_collide =
      let a = lifecycle_event-event_id sha256_hex name method p time stream n t event ht e in
      let b =
        lifecycle_event-event_id sha256_hex name' method' q time' stream' n' t' event' ht' e' in
      let free = λ (k : ℕ). AllDigits-NulFree (to_decimal k) (to_decimal-AllDigits k) in
      (
        λ same.
            let (names, parts) =
              stable_event_id_inj sha256_hex name name' _ _ none_collide f0 g0
                (f1, (free n, (f2, tt))) (g1, (free n', (g2, tt))) (sym a ∙ same ∙ b) in
            (names, cc parts, to_decimal_inj max_u64 n n' hn hn' (cc parts), cc parts),
        λ same. cc (a, b, same.0, same.1, same.2, same.3),
      )
