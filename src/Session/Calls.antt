-- ===== src/Session/Calls.antt =====
-- The calls of a session: ids are handed out once, and no call that waits has a result.
use baijimu_digital_employee.Base.{
  ℕ, ◌<◌, ◌≡◌, refl, true, false, Option, none, some, List, [], ◌∷◌, ◌++◌, arith, err, is_some,
  if◌then◌else◌,
}
use baijimu_digital_employee.Json.{Value}
use baijimu_digital_employee.Map
use baijimu_digital_employee.Map.{Map, nat_order, string_order, nat_path, nat_self}
use baijimu_digital_employee.Map.Laws.{contains_key-remove, get-insert}
use baijimu_digital_employee.Session.{
  Session, new_session, RpcFailure, Answered, answer, fail_all, fail_pending, write_message, Line,
  whole, WriteFault, left_in_pipe,
}

-- Calls are entered under fresh ids, and none both waits and has a result.
pub record Accounts (s : Session) : Type 0 where
  pub waiting : (id : ℕ) → Map.contains_key s.pending id ≡ true → id < s.next_id
  pub replied : (id : ℕ) → is_some (Map.get s.replies id) ≡ true → id < s.next_id
  pub apart : (id : ℕ) → Map.contains_key s.pending id ≡ true → Map.get s.replies id ≡ none

pub get-fail_all :
    (f : RpcFailure) (calls : Map ℕ (Unit {0})) (replies : Map ℕ Answered) (id : ℕ)
    → Map.get (fail_all f calls replies) id
      ≡ (if Map.contains_key calls id then some (err f) else Map.get replies id)
unfolding fail_all Map.contains_key Map.get
get-fail_all f [] replies id = refl
get-fail_all f ((j, u) ∷ calls) replies id = ground (
  arith,
  get-fail_all f calls (Map.insert replies j (err f)) id,
  get-insert replies j id (err f),
  nat_path j id,
  nat_self id,
)

pub contains_key-nil : (j : ℕ) → Map.contains_key {V = Unit {0}} [] j ≡ false
unfolding Map.contains_key Map.get
contains_key-nil j = refl

pub new_session-Accounts : Accounts new_session
unfolding Map.contains_key Map.get
new_session-Accounts = record {
  waiting = λ id h. ground arith;
  replied = λ id h. ground arith;
  apart = λ id h. refl;
}

-- A write changes nothing that the calls depend on.
pub write_message-state :
    (fault : Option WriteFault) (m : Value) (s : Session)
    → (l : Option (List Line)) × ((write_message fault m s).1 ≡ record s { stdin = l })
unfolding write_message
write_message-state fault m s = go s.stdin fault refl
  where
    go :
        (l : Option (List Line)) (o : Option WriteFault)
        → s.stdin ≡ l
        → (k : Option (List Line)) × ((write_message o m (record s { stdin = l })).1
            ≡ record s { stdin = k })
    go none o p = (none, refl)
    go (some l) none p = (some (l ++ whole m ∷ []), refl)
    go (some l) (some f) p = (some (l ++ left_in_pipe f.reached m), refl)

pub answer-Accounts :
    (id : ℕ) (r : Answered) (s : Session)
    → Map.contains_key s.pending id ≡ true
    → Accounts s
    → Accounts (answer id r s)
unfolding answer
answer-Accounts id r s p a = record {
  waiting = λ j h. a.waiting j (ground (arith, contains_key-remove s.pending id j));
  replied = λ j h.
      ground (arith, get-insert s.replies id j r, a.replied j, a.waiting id p, nat_path id j);
  apart = λ j h.
      ground (arith, contains_key-remove s.pending id j, get-insert s.replies id j r, a.apart j);
}

pub fail_pending-Accounts :
    (f : RpcFailure) (s : Session) → Accounts s → Accounts (fail_pending f s)
unfolding fail_pending
fail_pending-Accounts f s a = record {
  waiting = λ j h. ground (arith, contains_key-nil j);
  replied = λ j h. ground (arith, get-fail_all f s.pending s.replies j, a.replied j, a.waiting j);
  apart = λ j h. ground (arith, contains_key-nil j);
}
