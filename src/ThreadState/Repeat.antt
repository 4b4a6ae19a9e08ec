-- ===== src/ThreadState/Repeat.antt =====
-- What listing threads does to flags that are set already, and what a repeated listing does.
use baijimu_digital_employee.Base.{
  String, ◌≡◌, refl, true, false, ◌&&◌, not, Option, none, some, List, [], ◌∷◌, arith, eq_iff, ◌==◌,
  is_some, unwrap_or, or_else, Bool-cases, Option-cases, inl, inr,
}
use baijimu_digital_employee.Json.{Value, object, Fields}
use baijimu_digital_employee.Json.Laws.{value_eq_iff}
use baijimu_digital_employee.Map
use baijimu_digital_employee.Map.{string_order, insert}
use baijimu_digital_employee.Map.Laws.{get-insert, get-insert_self, insert-insert}
use baijimu_digital_employee.ThreadState.Disk.{ThreadReadEntry, Threads}
use baijimu_digital_employee.ThreadState.Enrich.{
  Observation, option_eq, revision_advanced, observe, next_entry, observation, fresh_entry,
  thread_id, enrich_named, enrich_item, enrich_items,
}
use baijimu_digital_employee.ThreadState.Reload.{is_unread}

-- Observing the same again changes nothing.
option_eq-or_else : (a b : Option Value) → (is_some a && not (option_eq (or_else a b) a)) ≡ false
option_eq-or_else none b = refl
option_eq-or_else (some v) b = ground (arith, value_eq_iff v v)

observe-observe : (o : Observation) (e : ThreadReadEntry) → observe o (observe o e) ≡ observe o e
unfolding observe revision_advanced
observe-observe o e = ground (arith, option_eq-or_else o.updated_at e.observed_updated_at)

next_entry-repeat :
    (desktop : List String) (id : String) (fs : Fields) (threads : Threads)
    → next_entry desktop id fs (insert threads id (next_entry desktop id fs threads))
      ≡ next_entry desktop id fs threads
unfolding next_entry
next_entry-repeat desktop id fs threads = rw get-insert_self (
    observe-observe (observation desktop id fs)
      (unwrap_or (Map.get threads id) (fresh_entry (observation desktop id fs))))

enrich_named-repeat :
    (desktop : List String) (fs : Fields) (threads : Threads) (o : Option String)
    → enrich_named desktop fs (enrich_named desktop fs threads o).1 o
      ≡ enrich_named desktop fs threads o
enrich_named-repeat desktop fs threads none = refl
enrich_named-repeat desktop fs threads (some id) =
    rw (next_entry-repeat desktop id fs threads, insert-insert)

-- Seeing the same item a second time gives the same item and leaves every entry as it is.
pub enrich_item-repeat :
    (desktop : List String) (v : Value) (threads : Threads)
    → enrich_item desktop v (enrich_item desktop v threads).1 ≡ enrich_item desktop v threads
unfolding enrich_item
enrich_item-repeat desktop (object fs) threads =
    enrich_named-repeat desktop fs threads (thread_id fs)
enrich_item-repeat desktop _ threads = refl

is_unread-next_entry :
    (desktop : List String) (id : String) (fs : Fields) (threads : Threads)
    → is_unread threads id ≡ true
    → (next_entry desktop id fs threads).has_unread_turn ≡ true
unfolding next_entry observe
is_unread-next_entry desktop id fs threads h = elim (Option-cases (Map.get threads id)) [
  | inl e ↦ ground arith
  | inr (x, e) ↦ rw e (ground arith)
]

enrich_named-is_unread :
    (desktop : List String) (fs : Fields) (threads : Threads) (o : Option String) (j : String)
    → is_unread threads j ≡ true
    → is_unread (enrich_named desktop fs threads o).1 j ≡ true
enrich_named-is_unread desktop fs threads none j h = h
enrich_named-is_unread desktop fs threads (some id) j h =
    let now = is_unread-next_entry desktop id fs threads in
    rw get-insert (elim (Bool-cases (id == j)) [
      | inl e ↦ rw e (now (rw ((eq_iff id j).0 e) h))
      | inr e ↦ rw e h
    ])

-- Listing threads never clears an unread flag.
pub enrich_items-is_unread :
    (desktop : List String) (items : List Value) (threads : Threads) (j : String)
    → is_unread threads j ≡ true
    → is_unread (enrich_items desktop items threads).1 j ≡ true
unfolding enrich_items enrich_item
enrich_items-is_unread desktop [] threads j h = h
enrich_items-is_unread desktop (object fs ∷ vs) threads j h =
    enrich_items-is_unread desktop vs _ j
      (enrich_named-is_unread desktop fs threads (thread_id fs) j h)
enrich_items-is_unread desktop (_ ∷ vs) threads j h = enrich_items-is_unread desktop vs threads j h
