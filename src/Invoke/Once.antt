-- ===== src/Invoke/Once.antt =====
-- A merged list shows each id once, in the order in which the ids first come.
use baijimu_digital_employee.Base.{
  ℕ, suc, ◌≡◌, refl, sym, ◌∙◌, ap, inl, inr, String, Option, none, some, List, [], ◌∷◌, ◌++◌, All,
  All-append, length, get_elem?, any, map-append, get_elem?-append, get_elem?-last, Bool-cases,
  Option-cases, subst,
}
use mathlib.Core.Option.{some-injective}
use baijimu_digital_employee.Json.{Value}
use baijimu_digital_employee.Map
use baijimu_digital_employee.Map.{Map, string_order, same}
use baijimu_digital_employee.Map.Laws.{get-insert_other, get-insert_self, same_path}
use baijimu_digital_employee.Invoke.Threads.{
  Merged, logical_thread_id, merge_thread_projections, merge_at, merge_named, merge_unique_threads,
}
use baijimu_digital_employee.Invoke.Unique.{IsThread, merge_thread_projections-named}
use baijimu_digital_employee.Invoke.Indexed.{
  is_id, push_new, first_occurrences, shown, Indexes, get_elem?-append_inv, get_elem?-map_inv,
  map-set_same, All-get_elem?, All-set, any-get_elem?, get_elem?-any,
}

Indexes-none :
    (ids : List (Option String)) (m : Map String ℕ) → Indexes ids m → Indexes (ids ++ none ∷ []) m
Indexes-none ids m h = (
  λ id i p. get_elem?-append ids (none ∷ []) i (some id) (h.0 id i p),
  λ id i p. elim (get_elem?-append_inv ids none (some id) i p) [ inl q ↦ h.1 id i q | inr q ↦ cc ],
)

Indexes-some :
    (ids : List (Option String)) (m : Map String ℕ) (new : String)
    → Map.get m new ≡ none
    → Indexes ids m
    → Indexes (ids ++ some new ∷ []) (Map.insert m new (length ids))
Indexes-some ids m new e h = (
  λ id i p. elim (Bool-cases (same new id)) [
    | inl q ↦
        let n = same_path new id q in
        let r =
          sym (get-insert_self m new (length ids))
          ∙ ap (Map.get (Map.insert m new (length ids))) n
          ∙ p in
        subst (λ x. get_elem? (ids ++ some new ∷ []) x ≡ some (some id)) (some-injective _ _ r)
          (get_elem?-last ids (some new) ∙ ap (λ x. some (some x)) n)
    | inr q ↦
        get_elem?-append ids (some new ∷ []) i (some id)
          (h.0 id i (sym (get-insert_other m new id (length ids) q) ∙ p))
  ],
  λ id i p. elim (get_elem?-append_inv ids (some new) (some id) i p) [
    | inl q ↦ elim (Bool-cases (same new id)) [
      | inl r ↦ cc (e, h.1 id i q, same_path new id r)
      | inr r ↦ get-insert_other m new id (length ids) r ∙ h.1 id i q
    ]
    | inr q ↦ rw (sym (some-injective _ _ q.1), q.0) (get-insert_self m new (length ids))
  ],
)

abbrev empty : Merged
empty = record { threads = []; indexes = [] }

-- The invariant of the loop.
abbrev pub IsMerged : Merged → Type 0
IsMerged m = All IsThread m.threads × Indexes (shown m.threads) m.indexes

appended :
    (l : List Value) (t : Value) (o : Option String)
    → logical_thread_id t ≡ o
    → shown (l ++ t ∷ []) ≡ shown l ++ o ∷ []
appended l t o e = map-append logical_thread_id l (t ∷ []) ∙ ap (λ o. shown l ++ o ∷ []) e

length-shown : (l : List Value) → length (shown l) ≡ length l
length-shown [] = refl
length-shown (t ∷ l) = ap suc (length-shown l)

abbrev Step : Merged → Option String → Merged → Type 0
Step m o out = IsMerged out × (shown out.threads ≡ push_new (shown m.threads) o)

-- A thread with an id that is not indexed.
merge_new :
    (m : Merged) (t : Value) (id : String)
    → IsMerged m
    → IsThread t
    → logical_thread_id t ≡ some id
    → Map.get m.indexes id ≡ none
    → Step m (some id) (record {
      threads = m.threads ++ t ∷ [];
      indexes = Map.insert m.indexes id (length m.threads);
    })
merge_new m t id h ht e p = (
  (
    All-append IsThread m.threads (t ∷ []) h.0 (ht, tt),
    rw (appended m.threads t (some id) e, sym (length-shown m.threads))
        (Indexes-some (shown m.threads) m.indexes id p h.1),
  ),
  appended m.threads t (some id) e ∙ elim (Bool-cases (any (is_id id) (shown m.threads))) [
    | inl q ↦ let (i, r) = get_elem?-any (shown m.threads) id q in cc (p, h.1.1 id i r)
    | inr q ↦ rw q refl
  ],
)

-- A thread with an indexed id.
merge_again :
    (m : Merged) (t : Value) (id : String) (index : ℕ)
    → IsMerged m
    → IsThread t
    → logical_thread_id t ≡ some id
    → Map.get m.indexes id ≡ some index
    → Step m (some id) (merge_at m index t)
unfolding merge_at
merge_again m t id index h ht e p =
    let q = h.1.0 id index p in
    let (t0, q0, q1) = get_elem?-map_inv logical_thread_id m.threads index (some id) q in
    let merged =
      merge_thread_projections-named t0 t id (All-get_elem? IsThread m.threads index t0 h.0 q0) ht
        q1 e in
    let same_shown =
      map-set_same logical_thread_id m.threads index t0 (merge_thread_projections t0 t) q0
        (merged.1 ∙ sym q1) in
    rw (q0, merge_at)
      (
        (
          All-set IsThread m.threads index (merge_thread_projections t0 t) h.0 merged.0,
          rw same_shown h.1,
        ),
        same_shown ∙ rw (any-get_elem? (shown m.threads) id index q) refl,
      )

merge_named-Step :
    (m : Merged) (t : Value) (o : Option String)
    → IsMerged m
    → IsThread t
    → logical_thread_id t ≡ o
    → Step m o (merge_named m t o)
unfolding merge_named
merge_named-Step m t none h ht e = (
  (
    All-append IsThread m.threads (t ∷ []) h.0 (ht, tt),
    rw (appended m.threads t none e) (Indexes-none (shown m.threads) m.indexes h.1),
  ),
  appended m.threads t none e,
)
merge_named-Step m t (some id) h ht e = elim (Option-cases (Map.get m.indexes id)) [
  | inl p ↦ rw (p, merge_named) (merge_new m t id h ht e p)
  | inr (index, p) ↦ rw (p, merge_named) (merge_again m t id index h ht e p)
]

-- A merged list, and threads whose id fields are texts: after merging, the list is merged still, and its
-- ids are the ids before and then the new ones, each once, in the order in which they first come; a
-- thread without an id is always added.
pub merge_unique_threads-first_occurrences :
    (m : Merged) (incoming : List Value)
    → IsMerged m
    → All IsThread incoming
    → IsMerged (merge_unique_threads m incoming)
      × (shown (merge_unique_threads m incoming).threads
          ≡ first_occurrences (shown m.threads) (shown incoming))
unfolding merge_unique_threads
merge_unique_threads-first_occurrences m [] h ht = (h, refl)
merge_unique_threads-first_occurrences m (t ∷ incoming) h ht =
    let out = merge_named m t (logical_thread_id t) in
    let step = merge_named-Step m t (logical_thread_id t) h ht.0 refl in
    let rest = merge_unique_threads-first_occurrences out incoming step.0 ht.1 in
    (rest.0, rest.1 ∙ ap (λ l. first_occurrences l (shown incoming)) step.1)
