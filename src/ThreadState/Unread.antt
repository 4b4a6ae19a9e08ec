-- ===== src/ThreadState/Unread.antt =====
-- When a thread is unread after its list item was seen.
use mathlib.Core.Option.{some-injective}
use baijimu_digital_employee.Base.{
  sym, ◌∙◌, String, ◌≡◌, ◌≢◌, refl, ◌↔◌, ◌⊎◌, inl, true, false, ◌&&◌, not, Option, none, some, List,
  arith, eq_iff, is_some, unwrap_or,
}
use baijimu_digital_employee.Json.{Value, boolean, object, Fields, get}
use baijimu_digital_employee.Json.Laws.{value_eq_iff, get-insert}
use baijimu_digital_employee.Json.Object
use baijimu_digital_employee.Map.Laws.{get-insert_self}
use baijimu_digital_employee.Map
use baijimu_digital_employee.Map.{string_order}
use baijimu_digital_employee.ThreadState.Disk.{ThreadReadEntry, Threads}
use baijimu_digital_employee.ThreadState.Enrich.{
  Observation, option_eq, revision_advanced, activity_finished, is_str, observe, next_entry,
  observation, fresh_entry, thread_id, project, enrich_item,
}

-- The item's revision is known, differs from a known earlier one.
abbrev pub RevisionAdvanced : ThreadReadEntry → Observation → Type 0
RevisionAdvanced e o =
    (a : Value) × (b : Value) × (e.observed_updated_at ≡ some a) × (o.updated_at ≡ some b) × (a ≢ b)

-- The thread was active, or its latest turn was in progress, and no longer is.
abbrev pub ActivityFinished : ThreadReadEntry → Observation → Type 0
ActivityFinished e o =
    ((e.observed_runtime_status_type ≡ some "active") × (o.status_type ≢ "active"))
    ⊎ ((e.observed_latest_turn_status ≡ some "inProgress") × (o.turn_status ≢ some "inProgress"))

abbrev pub IsUnreadAfter : Option ThreadReadEntry → Observation → Type 0
IsUnreadAfter none o = o.desktop_unread ≡ true
IsUnreadAfter (some e) o =
    (e.has_unread_turn ≡ true)
    ⊎ (RevisionAdvanced e o × ActivityFinished e o)
    ⊎ ((e.observed_desktop_unread ≡ false) × (o.desktop_unread ≡ true))

revision_advanced_iff :
    (e : ThreadReadEntry) (o : Observation) → (revision_advanced e o ≡ true) ↔ RevisionAdvanced e o
unfolding revision_advanced
revision_advanced_iff e o = go e.observed_updated_at o.updated_at
  where
    go :
        (x y : Option Value)
        → ((is_some x && is_some y && not (option_eq x y)) ≡ true)
          ↔ ((a : Value) × (b : Value) × (x ≡ some a) × (y ≡ some b) × (a ≢ b))
    go none y = (λ h. ground arith, λ h. ground arith)
    go (some a) none = (λ h. ground arith, λ h. ground arith)
    go (some a) (some b) = (
      λ h. (a, b, refl, refl, ground (arith, value_eq_iff a b)),
      λ h. ground (arith, value_eq_iff a b),
    )

is_str_iff : (o : Option String) (s : String) → (is_str o s ≡ true) ↔ (o ≡ some s)
is_str_iff none s = ground arith
is_str_iff (some t) s = ground (arith, eq_iff t s)

activity_finished_iff :
    (e : ThreadReadEntry) (o : Observation) → (activity_finished e o ≡ true) ↔ ActivityFinished e o
unfolding activity_finished
activity_finished_iff e o = ground (
  arith,
  is_str_iff e.observed_runtime_status_type "active",
  is_str_iff e.observed_latest_turn_status "inProgress",
  is_str_iff o.turn_status "inProgress",
  eq_iff o.status_type "active",
)

observe_iff :
    (e : ThreadReadEntry) (o : Observation)
    → ((observe o e).has_unread_turn ≡ true) ↔ IsUnreadAfter (some e) o
unfolding observe
observe_iff e o = ground (arith, revision_advanced_iff e o, activity_finished_iff e o)

not-RevisionAdvanced : (o : Observation) → ¬ RevisionAdvanced (fresh_entry o) o
not-RevisionAdvanced o (a, b, p, q, ne) = ne (some-injective a b (sym p ∙ q))

observe-fresh :
    (o : Observation)
    → ((observe o (fresh_entry o)).has_unread_turn ≡ true) ↔ (o.desktop_unread ≡ true)
observe-fresh o = (
  λ h. ground (arith, (observe_iff (fresh_entry o) o).0 h, not-RevisionAdvanced o),
  λ h. (observe_iff (fresh_entry o) o).1 (inl h),
)

abbrev seen : Option ThreadReadEntry → Observation → ThreadReadEntry
seen old o = observe o (unwrap_or old (fresh_entry o))

seen_iff :
    (old : Option ThreadReadEntry) (o : Observation)
    → ((seen old o).has_unread_turn ≡ true) ↔ IsUnreadAfter old o
seen_iff none o = observe-fresh o
seen_iff (some e) o = observe_iff e o

project-unread :
    (fs : Fields) (o : Observation) (e : ThreadReadEntry)
    → Object.get (project fs o e) "hasUnreadTurn" ≡ some (boolean e.has_unread_turn)
unfolding project
project-unread fs o e = rw get-insert

-- For an item that names a thread: the entry written for the thread is unread exactly if it was
-- unread, or its revision advanced while its activity finished, or the desktop newly marks it; a
-- thread with no entry is unread exactly if the desktop marks it. The item shows the same flag.
pub enrich_item-unread :
    (desktop : List String) (fs : Fields) (threads : Threads) (id : String)
    → thread_id fs ≡ some id
    → (e : ThreadReadEntry) × (Map.get (enrich_item desktop (object fs) threads).1 id ≡ some e)
      × (get (enrich_item desktop (object fs) threads).0 "hasUnreadTurn"
          ≡ some (boolean e.has_unread_turn))
      × ((e.has_unread_turn ≡ true)
          ↔ IsUnreadAfter (Map.get threads id) (observation desktop id fs))
unfolding enrich_item
enrich_item-unread desktop fs threads id named = (
  next_entry desktop id fs threads,
  rw named (get-insert_self threads id _),
  rw named (project-unread fs (observation desktop id fs) (next_entry desktop id fs threads)),
  seen_iff (Map.get threads id) (observation desktop id fs),
)
