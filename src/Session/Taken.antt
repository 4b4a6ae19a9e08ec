-- ===== src/Session/Taken.antt =====
-- The ids that calls have taken and not entered yet: no operation of another thread uses one of them.
use baijimu_digital_employee.Base.{
  ℕ, ◌+◌, ◌⊎◌, ◌^◌, ◌<◌, ◌≡◌, refl, sym, ◌∙◌, ap, subst, String, Bool, true, false, Option, none,
  some, arith, ◌&&◌, and_then, is_some, Bool-cases, if_cases, Option-cases, inl, inr,
}
use baijimu_digital_employee.Json.{Value, get, as_u64}
use baijimu_digital_employee.Map
use baijimu_digital_employee.Map.{Map, nat_order, string_order, nat_path, nat_self}
use baijimu_digital_employee.Map.Laws.{
  contains_key-insert, contains_key-remove, get-remove, get-insert, same_path,
}
use baijimu_digital_employee.Http.{Http}
use baijimu_digital_employee.Session.{
  Session, RpcFailure, Answered, WriteFault, take_id, entered, await, read_result,
  receive_server_request, responded, notified, dispatch_value, answer, fail_pending, remove_pending,
}
use baijimu_digital_employee.Session.Calls.{Accounts, get-fail_all, contains_key-nil}
use baijimu_digital_employee.Session.Keeps.{SameCalls, receive-SameCalls, notified-SameCalls}

-- The set of ids.
abbrev pub Ids : Type 0
Ids = Map ℕ (Unit {0})

-- An id that is taken was handed out, no call waits under it and it has no result.
abbrev pub IsFree : Session → ℕ → Type 0
IsFree s id =
    (id < s.next_id) × (Map.contains_key s.pending id ≡ false) × (Map.get s.replies id ≡ none)

abbrev pub AllFree : Ids → Session → Type 0
AllFree taken s = (id : ℕ) → Map.contains_key taken id ≡ true → IsFree s id

-- No id becomes used by a step that keeps this.
abbrev pub KeepsFree : Session → Session → Type 0
KeepsFree s t = (id : ℕ) → IsFree s id → IsFree t id

pub KeepsFree-AllFree :
    (taken : Ids) (s t : Session) → KeepsFree s t → AllFree taken s → AllFree taken t
KeepsFree-AllFree taken s t k f id h = k id (f id h)

pub SameCalls-KeepsFree : (s t : Session) → SameCalls s t → KeepsFree s t
SameCalls-KeepsFree s t (p, r, n) id (a, b, c) = (
  subst (λ k. id < k) (sym n) a,
  ap (λ m. Map.contains_key m id) p ∙ b,
  ap (λ m. Map.get m id) r ∙ c,
)

pub fail_pending-KeepsFree : (f : RpcFailure) (s : Session) → KeepsFree s (fail_pending f s)
unfolding fail_pending
fail_pending-KeepsFree f s id (a, b, c) =
    (a, contains_key-nil id, get-fail_all f s.pending s.replies id ∙ rw b c)

pub remove_pending-KeepsFree : (j : ℕ) (s : Session) → KeepsFree s (remove_pending j s)
remove_pending-KeepsFree j s id (a, b, c) =
    (a, ground (arith, contains_key-remove s.pending j id), c)

pub await-KeepsFree :
    (timed_out : Bool) (method : String) (j : ℕ) (s : Session)
    → KeepsFree s (await timed_out method j s).1
unfolding await
await-KeepsFree timed_out method j s = elim (Option-cases (Map.get s.replies j)) [
  | inl q ↦
      rw (q, await)
        (if_cases (λ (w : Option (Http Value) × Session). KeepsFree s w.1) timed_out
          (λ _. remove_pending-KeepsFree j s)
          (λ _.
            if_cases (λ (w : Option (Http Value) × Session). KeepsFree s w.1)
              (Map.contains_key s.pending j) (λ _. λ id h. h) (λ _. λ id h. h)))
  | inr (r, q) ↦ rw (q, await) (λ id (a, b, c). (a, b, ground (arith, get-remove s.replies j id)))
]

answer-KeepsFree :
    (value : Value) (j : ℕ) (s : Session)
    → Map.contains_key s.pending j ≡ true
    → KeepsFree s (answer j (read_result value) s)
unfolding answer
answer-KeepsFree value j s p id (a, b, c) = (
  a,
  ground (arith, contains_key-remove s.pending j id),
  ground (arith, get-insert s.replies j id (read_result value), nat_path j id, p, b),
)

pub take_id-AllFree :
    (taken : Ids) (s : Session)
    → s.next_id + 1 < 2 ^ 64
    → Accounts s
    → AllFree taken s
    → AllFree (Map.insert taken s.next_id tt) (take_id s).1
unfolding take_id
take_id-AllFree taken s small a f id h = elim (Bool-cases (Map.same s.next_id id)) [
  | inl q ↦
      let same : s.next_id ≡ id = same_path s.next_id id q in
      (
        omega arith,
        not_waiting id same (Bool-cases (Map.contains_key s.pending id)),
        not_replied id same (Option-cases (Map.get s.replies id)),
      )
  | inr q ↦
      let (b, w, r) = f id (sym (contains_key-insert taken s.next_id id tt ∙ rw q refl) ∙ h) in
      (omega arith, w, r)
]
  where
    not_waiting :
        (id : ℕ)
        → s.next_id ≡ id
        → (Map.contains_key s.pending id ≡ true) ⊎ (Map.contains_key s.pending id ≡ false)
        → Map.contains_key s.pending id ≡ false
    not_waiting id same (inl p) = let l = a.waiting id p in absurd (omega arith)
    not_waiting id same (inr p) = p

    not_replied :
        (id : ℕ)
        → s.next_id ≡ id
        → (Map.get s.replies id ≡ none) ⊎ ((r : Answered) × (Map.get s.replies id ≡ some r))
        → Map.get s.replies id ≡ none
    not_replied id same (inl p) = p
    not_replied id same (inr (r, p)) = let l = a.replied id (rw p refl) in absurd (omega arith)

pub entered-AllFree :
    (taken : Ids) (id : ℕ) (s : Session)
    → AllFree taken s
    → AllFree (Map.remove taken id) (entered id s)
entered-AllFree taken id s f j h = elim (Bool-cases (Map.same id j)) [
  | inl q ↦ let e : false ≡ true = sym (contains_key-remove taken id j ∙ rw q refl) ∙ h in cc e
  | inr q ↦
      let (b, w, r) = f j (sym (contains_key-remove taken id j ∙ rw q refl) ∙ h) in
      (b, contains_key-insert s.pending id j tt ∙ rw q w, r)
]

module _ (id_text : Value → String) where
  responded-KeepsFree :
      (j : ℕ) (value : Value) (s : Session) → KeepsFree s (responded id_text j value s).1
  unfolding responded
  responded-KeepsFree j value s = elim (Bool-cases (Map.contains_key s.pending j)) [
    | inl q ↦ rw q (answer-KeepsFree value j s q)
    | inr q ↦ rw q (λ id h. h)
  ]

  pub dispatch_value-KeepsFree :
      (fault : Option WriteFault) (value : Value) (s : Session)
      → KeepsFree s (dispatch_value id_text fault value s).1
  unfolding dispatch_value
  dispatch_value-KeepsFree fault value s =
      elim (Bool-cases (is_some (get value "method") && is_some (get value "id"))) [
        | inl q ↦ rw q (
            SameCalls-KeepsFree s (receive_server_request id_text fault value s).1
              (receive-SameCalls id_text fault value s))
        | inr q ↦ rw q (elim (Option-cases (and_then (get value "id") as_u64)) [
          | inl p ↦ rw p (
              SameCalls-KeepsFree s (notified id_text value s).1
                (notified-SameCalls id_text value s))
          | inr (j, p) ↦ rw p (responded-KeepsFree j value s)
        ])
      ]
