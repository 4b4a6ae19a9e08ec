-- ===== src/Session/Reach.antt =====
-- The sessions that a new one can become, and what holds in every one of them.
use baijimu_digital_employee.Base.{
  ℕ, ◌+◌, ◌^◌, ◌<◌, ◌≡◌, sym, ◌∙◌, refl, String, Bool, true, false, Option, none, some, [], ◌∷◌,
  ◌&&◌, if_cases, if◌then◌else◌,
}
use baijimu_digital_employee.Json.{Value, string, json}
use baijimu_digital_employee.Map.{nat_order, string_order}
use baijimu_digital_employee.Map
use baijimu_digital_employee.ServerRequests.{Reply}
use baijimu_digital_employee.Session.{
  Session, new_session, RpcFailure, WriteFault, take_id, entered, write_message, call_message,
  remove_pending, await, dispatch_value, respond, send_notification, mark_exited, transport,
  exit_value, set_exit, refresh_process_state, shutdown, fail_pending,
}
use baijimu_digital_employee.Session.Calls.{
  Accounts, new_session-Accounts, fail_pending-Accounts, contains_key-nil,
}
use baijimu_digital_employee.Session.Taken.{
  Ids, AllFree, KeepsFree, KeepsFree-AllFree, SameCalls-KeepsFree, fail_pending-KeepsFree,
  remove_pending-KeepsFree, await-KeepsFree, dispatch_value-KeepsFree, take_id-AllFree,
  entered-AllFree,
}
use baijimu_digital_employee.Session.Keeps.{
  SameCalls, set_exit-SameCalls, take_id-Accounts, entered-Accounts, remove_pending-Accounts,
  SameCalls-Accounts, write_message-SameCalls, await-Accounts, dispatch_value-Accounts,
  respond-SameCalls,
}

-- What happens to a session, one event at a time. `taken` are the ids of the calls that have
-- taken one and have not entered it yet.
pub data Step (id_text : Value → String) : Ids → Session → Ids → Session → Type 0 where
  called :
      (taken : Ids) (s : Session)
      → s.next_id + 1 < 2 ^ 64
      → Step id_text taken s (Map.insert taken s.next_id tt) (take_id s).1
  entered_it :
      (taken : Ids) (id : ℕ) (s : Session)
      → Map.contains_key taken id ≡ true
      → Step id_text taken s (Map.remove taken id) (entered id s)
  wrote :
      (taken : Ids) (fault : Option WriteFault) (method : String) (params : Value) (id : ℕ)
      (s : Session)
      → Step id_text taken s taken (write_message fault (call_message method id params) s).1
  -- After a write that failed, or when the time of a wait is over.
  gave_up : (taken : Ids) (id : ℕ) (s : Session) → Step id_text taken s taken (remove_pending id s)
  waited :
      (taken : Ids) (timed_out : Bool) (method : String) (id : ℕ) (s : Session)
      → Step id_text taken s taken (await timed_out method id s).1
  read_line :
      (taken : Ids) (fault : Option WriteFault) (value : Value) (s : Session)
      → Step id_text taken s taken (dispatch_value id_text fault value s).1
  replied_to :
      (taken : Ids) (fault : Option WriteFault) (reply : Reply) (s : Session)
      → Step id_text taken s taken (respond id_text fault reply s).1
  notified_it :
      (taken : Ids) (fault : Option WriteFault) (method : String) (params : Value) (s : Session)
      → Step id_text taken s taken (send_notification fault method params s).1
  initialized_it :
      (taken : Ids) (s : Session) → Step id_text taken s taken (record s { initialized = true })
  exited :
      (taken : Ids) (now : String) (f : RpcFailure) (s : Session)
      → Step id_text taken s taken (mark_exited now f s)
  refreshed :
      (taken : Ids) (status : Option Value) (now : String) (s : Session)
      → Step id_text taken s taken (refresh_process_state status now s)
  stopped :
      (taken : Ids) (code : Value) (now : String) (s : Session)
      → Step id_text taken s taken (shutdown code now s)

-- The sessions that a new one can become.
pub data Reach (id_text : Value → String) : Ids → Session → Type 0 where
  start : Reach id_text [] new_session
  step :
      {taken left : Ids} {s t : Session}
      → Reach id_text taken s
      → Step id_text taken s left t
      → Reach id_text left t

failed-Accounts :
    (f : RpcFailure) (exit : Value) (s : Session)
    → Accounts s
    → Accounts (fail_pending f (set_exit exit s))
failed-Accounts f exit s a =
    fail_pending-Accounts f (set_exit exit s)
      (SameCalls-Accounts s (set_exit exit s) (set_exit-SameCalls exit s) a)

refresh-Accounts :
    (status : Option Value) (now : String) (s : Session)
    → Accounts s
    → Accounts (refresh_process_state status now s)
unfolding refresh_process_state
refresh-Accounts none now s a = if_cases Accounts (s.alive && s.child) (λ _. a) (λ _. a)
refresh-Accounts (some code) now s a =
    if_cases Accounts (s.alive && s.child)
      (λ _. failed-Accounts (transport "codex app-server exited") (exit_value code now) s a)
      (λ _. a)

shutdown-Accounts :
    (code : Value) (now : String) (s : Session) → Accounts s → Accounts (shutdown code now s)
unfolding shutdown
shutdown-Accounts code now s a =
    fail_pending-Accounts (transport "codex app-server was stopped") u (
      SameCalls-Accounts s u
        (if_cases (SameCalls s) s.child
          (λ _. set_exit-SameCalls (exit_value code now) (record s { stdin = none; child = false }))
          (λ _. (refl, refl, refl)))
        a)
  where
    u : Session
    u =
        if s.child
        then set_exit (exit_value code now) (record s { stdin = none; child = false })
        else record s { stdin = none }

failed-KeepsFree :
    (f : RpcFailure) (exit : Value) (s : Session) → KeepsFree s (fail_pending f (set_exit exit s))
failed-KeepsFree f exit s id free =
    fail_pending-KeepsFree f (set_exit exit s) id
      (SameCalls-KeepsFree s (set_exit exit s) (set_exit-SameCalls exit s) id free)

refresh-KeepsFree :
    (status : Option Value) (now : String) (s : Session)
    → KeepsFree s (refresh_process_state status now s)
unfolding refresh_process_state
refresh-KeepsFree none now s =
    if_cases (KeepsFree s) (s.alive && s.child) (λ _. λ id h. h) (λ _. λ id h. h)
refresh-KeepsFree (some code) now s =
    if_cases (KeepsFree s) (s.alive && s.child)
      (λ _. failed-KeepsFree (transport "codex app-server exited") (exit_value code now) s)
      (λ _. λ id h. h)

shutdown-KeepsFree : (code : Value) (now : String) (s : Session) → KeepsFree s (shutdown code now s)
unfolding shutdown
shutdown-KeepsFree code now s id free =
    fail_pending-KeepsFree (transport "codex app-server was stopped") u id (
      SameCalls-KeepsFree s u
        (if_cases (SameCalls s) s.child
          (λ _. set_exit-SameCalls (exit_value code now) (record s { stdin = none; child = false }))
          (λ _. (refl, refl, refl)))
        id free)
  where
    u : Session
    u =
        if s.child
        then set_exit (exit_value code now) (record s { stdin = none; child = false })
        else record s { stdin = none }

module _ (id_text : Value → String) where
  -- The calls are accounted for, and no id that is taken is used.
  abbrev Sound : Ids → Session → Type 0
  Sound taken s = Accounts s × AllFree taken s

  same-Sound : (taken : Ids) (s t : Session) → SameCalls s t → Sound taken s → Sound taken t
  same-Sound taken s t h (a, f) =
      (SameCalls-Accounts s t h a, KeepsFree-AllFree taken s t (SameCalls-KeepsFree s t h) f)

  Step-Sound :
      (taken left : Ids) (s t : Session)
      → Step id_text taken s left t
      → Sound taken s
      → Sound left t
  unfolding mark_exited
  Step-Sound _ _ _ _ (called taken s small) (a, f) =
      (take_id-Accounts s small a, take_id-AllFree taken s small a f)
  Step-Sound _ _ _ _ (entered_it taken id s h) (a, f) =
      let (known, unused, free) = f id h in
      (entered-Accounts id s known free a, entered-AllFree taken id s f)
  Step-Sound _ _ _ _ (wrote taken fault method params id s) h =
      let message = call_message method id params in
      same-Sound taken s (write_message fault message s).1 (write_message-SameCalls fault message s)
        h
  Step-Sound _ _ _ _ (gave_up taken id s) (a, f) = (
    remove_pending-Accounts id s a,
    KeepsFree-AllFree taken s (remove_pending id s) (remove_pending-KeepsFree id s) f,
  )
  Step-Sound _ _ _ _ (waited taken timed_out method id s) (a, f) = (
    await-Accounts timed_out method id s a,
    KeepsFree-AllFree taken s (await timed_out method id s).1
        (await-KeepsFree timed_out method id s) f,
  )
  Step-Sound _ _ _ _ (read_line taken fault value s) (a, f) = (
    dispatch_value-Accounts id_text fault value s a,
    KeepsFree-AllFree taken s (dispatch_value id_text fault value s).1
        (dispatch_value-KeepsFree id_text fault value s) f,
  )
  Step-Sound _ _ _ _ (replied_to taken fault reply s) h =
      same-Sound taken s (respond id_text fault reply s).1 (respond-SameCalls id_text fault reply s)
        h
  Step-Sound _ _ _ _ (notified_it taken fault method params s) h =
      same-Sound taken s (send_notification fault method params s).1
        (write_message-SameCalls fault (json (("method", string method) ∷ ("params", params) ∷ []))
          s)
        h
  Step-Sound _ _ _ _ (initialized_it taken s) h =
      same-Sound taken s (record s { initialized = true }) (refl, refl, refl) h
  Step-Sound _ _ _ _ (exited taken now f s) (a, free) =
      let exit = json (("error", string f.message) ∷ ("at", string now) ∷ []) in
      (
        failed-Accounts f exit s a,
        KeepsFree-AllFree taken s (fail_pending f (set_exit exit s)) (failed-KeepsFree f exit s)
            free,
      )
  Step-Sound _ _ _ _ (refreshed taken status now s) (a, f) = (
    refresh-Accounts status now s a,
    KeepsFree-AllFree taken s (refresh_process_state status now s) (refresh-KeepsFree status now s)
        f,
  )
  Step-Sound _ _ _ _ (stopped taken code now s) (a, f) = (
    shutdown-Accounts code now s a,
    KeepsFree-AllFree taken s (shutdown code now s) (shutdown-KeepsFree code now s) f,
  )

  reachable-Sound : (taken : Ids) (s : Session) → Reach id_text taken s → Sound taken s
  reachable-Sound _ _ start =
      (new_session-Accounts, λ id h. let e : false ≡ true = sym (contains_key-nil id) ∙ h in cc e)
  reachable-Sound _ _ (step {taken = taken} {left = left} {s = s} {t = t} r p) =
      Step-Sound taken left s t p (reachable-Sound taken s r)

  -- In every session that a new one can become (while the counter of ids has not wrapped around), whatever
  -- other threads do between the steps of a call: each id that waits or has a result was handed out, and no
  -- call that waits has a result already.
  pub reachable-Accounts : (taken : Ids) (s : Session) → Reach id_text taken s → Accounts s
  reachable-Accounts taken s r = (reachable-Sound taken s r).0
