-- ===== src/Codex/Ready.antt =====
-- What a session that is handed out has gone through.
use baijimu_digital_employee.Base.{
  ◌≡◌, refl, sym, ◌∙◌, ap, subst, ◌⊎◌, inl, inr, String, Bool, true, false, not, ◌&&◌, Option, none,
  some, [], Result, ok, err, arith, when, Option-cases, if_cases,
}
use mathlib.Core.Option.{some-injective}
use baijimu_digital_employee.Json.{Value, json}
use baijimu_digital_employee.Http.{Http}
use baijimu_digital_employee.Session.{Session, send_notification}
use baijimu_digital_employee.Codex.Binary.{CliInspection, CommandError}
use baijimu_digital_employee.Codex.Runtime.{
  Process, ClientRuntime, Poll, refreshed, current_live_session, current_ready_session, if_ready,
  Spawn, spawned, home_failed, not_spawned, no_stdin, no_stdout, start_private_process, Machine,
  start_inspected, start_process, live_or_started, with_session, notified, exchanged,
  initialized_or_not, ready_or_not_locked, ready_or_not, ensure_session,
}

-- The process of a later runtime is the one that an earlier runtime held.
abbrev pub Held : ClientRuntime → ClientRuntime → Type 0
Held r0 r =
    (p : Process) → r.session ≡ some p → (p0 : Process) × (r0.session ≡ some p0) × (p.pid ≡ p0.pid)

Held-trans : (a b c : ClientRuntime) → Held a b → Held b c → Held a c
Held-trans a b c h k p e = let (q, e', n) = k p e in let (q0, e0, n0) = h q e' in (q0, e0, n ∙ n0)

abbrev pub IsLive : Process → Type 0
IsLive p = p.session.alive ≡ true

-- What a poll hands out is what the runtime holds, and it is not known to have ended.
abbrev Polled : ClientRuntime → Option Process × ClientRuntime → Type 0
Polled r0 o = Held r0 o.1 × ((p : Process) → o.0 ≡ some p → (o.1.session ≡ some p) × IsLive p)

when-eq-some : (b : Bool) (p q : Process) → when b p ≡ some q → (b ≡ true) × (p ≡ q)
when-eq-some true p q e = (refl, some-injective p q e)
when-eq-some false p q e = cc

current_live_session-Polled :
    (poll : Poll) (r : ClientRuntime) → Polled r (current_live_session poll r)
unfolding current_live_session
current_live_session-Polled poll r = elim (Option-cases r.session) [
  | inl p ↦ rw (p, current_live_session) (λ p' e. cc, λ p' e. cc)
  | inr (q, p) ↦
      rw (p, current_live_session)
        (
          λ p' e. (q, refl, ap (λ x. x.pid) (sym (some-injective _ _ e))),
          λ p' e.
              let k = when-eq-some (refreshed poll q).session.alive (refreshed poll q) p' e in
              (ap some k.1, subst IsLive k.1 k.0),
        )
]

if_ready-Polled :
    (r0 : ClientRuntime) (o : Option Process × ClientRuntime)
    → Polled r0 o
    → Polled r0 (if_ready o)
      × ((p : Process) → (if_ready o).0 ≡ some p → p.session.initialized ≡ true)
if_ready-Polled r0 (none, r) h = ((h.0, λ p e. cc), λ p e. cc)
if_ready-Polled r0 (some p, r) h = (
  (
    h.0,
    λ q e.
        let k = when-eq-some p.session.initialized p q e in
        ((h.1 p refl).0 ∙ ap some k.1, subst IsLive k.1 (h.1 p refl).1),
  ),
  λ q e.
      let k = when-eq-some p.session.initialized p q e in
      subst (λ x. x.session.initialized ≡ true) k.1 k.0,
)

abbrev ReadyPolled : ClientRuntime → Option Process × ClientRuntime → Type 0
ReadyPolled r0 o = Polled r0 o × ((p : Process) → o.0 ≡ some p → p.session.initialized ≡ true)

current_ready_session-ReadyPolled :
    (poll : Poll) (r : ClientRuntime) → ReadyPolled r (current_ready_session poll r)
unfolding current_ready_session
current_ready_session-ReadyPolled poll r =
    if_ready-Polled r (current_live_session poll r) (current_live_session-Polled poll r)

ok-path : (P : Process → Type 0) {p q : Process} → P p → ◌≡◌ {A = Http Process} (ok p) (ok q) → P q
ok-path P {p} h e = subst P (ap (λ o. unwrap p o) e) h
  where
    unwrap : Process → Http Process → Process
    unwrap p (err e) = p
    unwrap p (ok q) = q

module _ (no_extra_args : Bool) (is_new_enough : CliInspection → Bool) (minimum : String) where
  -- A process has passed the checks: the CLI was inspected, and with the connector's own arguments it
  -- supports the app-server and is new enough.
  abbrev pub IsChecked : Machine → Type 0
  IsChecked m =
      (i : CliInspection) × (m.inspection ≡ ok i)
      × (no_extra_args ≡ true → (i.app_server_supported ≡ true) × (is_new_enough i ≡ true))

  -- The process is the one that the machine has started, and it has passed the checks.
  abbrev pub IsFresh : Machine → Process → Type 0
  IsFresh m p =
      ((now : String) × (m.spawn ≡ spawned p.pid now) × (p.started_at ≡ now)) × IsChecked m

  -- A process is one that was held, or it is new and has passed the checks.
  abbrev pub Origin : ClientRuntime → Machine → Process → Type 0
  Origin r0 m p = ((p0 : Process) × (r0.session ≡ some p0) × (p.pid ≡ p0.pid)) ⊎ IsFresh m p

  -- The handshake with a session that was not known to have ended: `initialize` was answered, the
  -- notification behind it was written, and the session is marked.
  abbrev pub IsIntroduced : Machine → Process → Type 0
  IsIntroduced m p =
      (s : Session) × (s.alive ≡ true)
      × ((v : Value) × ((m.exchange s).0 ≡ ok v))
      × ((send_notification m.fault "initialized" (json []) (m.exchange s).1).0 ≡ ok tt)
      × (p.session ≡ record (send_notification m.fault "initialized" (json []) (m.exchange s).1).1 {
        initialized = true;
      })

  -- The poll that handed the session out found it ready and its process not ended; or the handshake was
  -- made now.
  abbrev pub IsReady : Machine → Process → Type 0
  IsReady m p = (IsLive p × (p.session.initialized ≡ true)) ⊎ IsIntroduced m p

  abbrev Out : Type 0
  Out = Http Process × ClientRuntime

  abbrev Started : ClientRuntime → Machine → Out → Type 0
  Started r0 m o = (p : Process) → o.0 ≡ ok p → (o.1.session ≡ some p) × IsLive p × Origin r0 m p

  abbrev New : Spawn → ClientRuntime → Process → Type 0
  New spawn r p =
      (r.session ≡ some p)
      × IsLive p
      × ((now : String) × (spawn ≡ spawned p.pid now) × (p.started_at ≡ now))

  start_private_process-New :
      (spawn : Spawn) (i : CliInspection) (r : ClientRuntime) (p : Process)
      → (start_private_process spawn i r).0 ≡ ok p
      → New spawn (start_private_process spawn i r).1 p
  unfolding start_private_process
  start_private_process-New (home_failed e) i r p h = cc
  start_private_process-New (not_spawned e) i r p h = cc
  start_private_process-New no_stdin i r p h = cc
  start_private_process-New no_stdout i r p h = cc
  start_private_process-New (spawned pid now) i r p h =
      ok-path (λ q. New (spawned pid now) (start_private_process (spawned pid now) i r).1 q)
        (refl, refl, (now, refl, refl)) h

  start_process-Started :
      (m : Machine) (r0 r : ClientRuntime)
      → Started r0 m (start_process no_extra_args is_new_enough minimum m r)
  unfolding start_process
  start_process-Started m r0 r = go m.inspection refl
    where
      checked :
          (i : CliInspection)
          → (no_extra_args && not i.app_server_supported) ≡ false
          → (no_extra_args && not (is_new_enough i)) ≡ false
          → no_extra_args ≡ true
          → (i.app_server_supported ≡ true) × (is_new_enough i ≡ true)
      checked i a b n = ground arith

      go :
          (r' : Result CommandError CliInspection)
          → m.inspection ≡ r'
          → Started r0 m (start_inspected no_extra_args is_new_enough minimum m.spawn r' r)
      go (err e) q = λ p h. cc
      go (ok i) q =
          if_cases (Started r0 m) (no_extra_args && not i.app_server_supported) (λ _. λ p h. cc)
            (λ a.
              if_cases (Started r0 m) (no_extra_args && not (is_new_enough i)) (λ _. λ p h. cc)
                (λ b. λ p h.
                  let (held, live, new) = start_private_process-New m.spawn i r p h in
                  (held, live, inr (new, (i, q, checked i a b)))))

  live_or_started-Started :
      (m : Machine) (r0 : ClientRuntime) (o : Option Process × ClientRuntime)
      → Polled r0 o
      → Started r0 m (live_or_started no_extra_args is_new_enough minimum m o)
  live_or_started-Started m r0 (none, r) h p e = start_process-Started m r0 r p e
  live_or_started-Started m r0 (some q, r) h p e =
      let (held, live) = h.1 q refl in
      ok-path (λ p. (r.session ≡ some p) × IsLive p × Origin r0 m p) (held, live, inl (h.0 q held))
        e

  -- A session that is handed out is the one that the runtime holds; it is ready, and its process was held
  -- before or has passed the checks.
  abbrev pub Ensured : ClientRuntime → Machine → Out → Type 0
  Ensured r0 m o =
      (p : Process)
      → o.0 ≡ ok p
      → (o.1.session ≡ some p) × (p.session.initialized ≡ true) × IsReady m p × Origin r0 m p

  Origin-session :
      (r0 : ClientRuntime) (m : Machine) (p : Process) (s : Session)
      → Origin r0 m p
      → Origin r0 m (with_session no_extra_args is_new_enough minimum p s)
  Origin-session r0 m p s (inl h) = inl h
  Origin-session r0 m p s (inr h) = inr h

  -- The handshake, by the outcomes of its two calls.
  notified-Ensured :
      (m : Machine) (r0 r : ClientRuntime) (p : Process) (s0 : Session) (v : Value)
      (w : Http (Unit {0}) × Session)
      → s0.alive ≡ true
      → (m.exchange s0).0 ≡ ok v
      → send_notification m.fault "initialized" (json []) (m.exchange s0).1 ≡ w
      → Origin r0 m p
      → Ensured r0 m (notified no_extra_args is_new_enough minimum p r w)
  notified-Ensured m r0 r p s0 v (err e, s) live x y h q k = cc
  notified-Ensured m r0 r p s0 v (ok u, s) live x y h q k =
      let new =
        with_session no_extra_args is_new_enough minimum p (record s { initialized = true }) in
      ok-path
        (λ q. (some new ≡ some q) × (q.session.initialized ≡ true) × IsReady m q × Origin r0 m q)
        (
          refl,
          refl,
          inr (
            s0,
            live,
            (v, x),
            ap (λ w. w.0) y,
            sym (ap (λ w. record w.1 { initialized = true }) y),
          ),
          Origin-session r0 m p (record s { initialized = true }) h,
        )
        k

  exchanged-Ensured :
      (m : Machine) (r0 r : ClientRuntime) (p : Process) (s0 : Session) (a : Http Value × Session)
      → s0.alive ≡ true
      → m.exchange s0 ≡ a
      → Origin r0 m p
      → Ensured r0 m (exchanged no_extra_args is_new_enough minimum m p r a)
  exchanged-Ensured m r0 r p s0 (err e, s) live x h = λ q k. cc
  exchanged-Ensured m r0 r p s0 (ok v, s) live x h =
      notified-Ensured m r0 r p s0 v (send_notification m.fault "initialized" (json []) s) live
        (ap (λ a. a.0) x) (ap (λ a. send_notification m.fault "initialized" (json []) a.1) x) h

  initialized_or_not-Ensured :
      (m : Machine) (r0 : ClientRuntime) (o : Out)
      → Started r0 m o
      → Ensured r0 m (initialized_or_not no_extra_args is_new_enough minimum m o)
  initialized_or_not-Ensured m r0 (err e, r) h = λ p k. cc
  initialized_or_not-Ensured m r0 (ok p, r) h =
      let (held, live, origin) = h p refl in
      if_cases (Ensured r0 m) p.session.initialized
        (λ i. λ q k.
          ok-path
            (λ q.
              (r.session ≡ some q) × (q.session.initialized ≡ true) × IsReady m q × Origin r0 m q)
            (held, i, inl (live, i), origin) k)
        (λ _. exchanged-Ensured m r0 r p p.session (m.exchange p.session) live refl origin)

  Origin-trans :
      (r0 r : ClientRuntime) (m : Machine) (p : Process) → Held r0 r → Origin r m p → Origin r0 m p
  Origin-trans r0 r m p h (inr c) = inr c
  Origin-trans r0 r m p h (inl (q, e, n)) = let (q0, e0, n0) = h q e in inl (q0, e0, n ∙ n0)

  handed_out :
      (m : Machine) (r0 : ClientRuntime) (o : Option Process × ClientRuntime) (p : Process)
      → ReadyPolled r0 o
      → o.0 ≡ some p
      → Ensured r0 m (ok p, o.1)
  handed_out m r0 o p h e q k =
      let (held, live) = h.0.1 p e in
      ok-path
        (λ q. (o.1.session ≡ some q) × (q.session.initialized ≡ true) × IsReady m q × Origin r0 m q)
        (held, h.1 p e, inl (live, h.1 p e), inl (h.0.0 p held)) k

  ready_or_not_locked-Ensured :
      (m : Machine) (r0 : ClientRuntime) (o : Option Process × ClientRuntime)
      → ReadyPolled r0 o
      → Ensured r0 m (ready_or_not_locked no_extra_args is_new_enough minimum m o)
  ready_or_not_locked-Ensured m r0 (some p, r) h q k = handed_out m r0 (some p, r) p h refl q k
  ready_or_not_locked-Ensured m r0 (none, r) h p k =
      let live = current_live_session m.third_poll r in
      let (a, b, d, c) =
        initialized_or_not-Ensured m r (live_or_started no_extra_args is_new_enough minimum m live)
          (live_or_started-Started m r live (current_live_session-Polled m.third_poll r)) p k in
      (a, b, d, Origin-trans r0 r m p h.0.0 c)

  ready_or_not-Ensured :
      (m : Machine) (r0 : ClientRuntime) (o : Option Process × ClientRuntime)
      → ReadyPolled r0 o
      → Ensured r0 m (ready_or_not no_extra_args is_new_enough minimum m o)
  ready_or_not-Ensured m r0 (some p, r) h q k = handed_out m r0 (some p, r) p h refl q k
  ready_or_not-Ensured m r0 (none, r) h p k =
      let ready = current_ready_session m.second_poll r in
      let (a, b, d, c) =
        ready_or_not_locked-Ensured m r ready (current_ready_session-ReadyPolled m.second_poll r) p
          k in
      (a, b, d, Origin-trans r0 r m p h.0.0 c)

  -- A session that a call is given is the one that the client holds, and it is marked as initialized. Either
  -- the poll that hands it out found it so and its process not ended; or it was not known to have ended when
  -- `initialize` was sent, which was answered, and the notification behind it was written. The process is
  -- one that the client held before; or it is the one that was just started, under its process id and time,
  -- by a CLI that was inspected and, with no arguments of the user's own, supports the app-server and is new
  -- enough.
  pub ensure_session-Ensured :
      (m : Machine) (r : ClientRuntime)
      → Ensured r m (ensure_session no_extra_args is_new_enough minimum m r)
  unfolding ensure_session
  ensure_session-Ensured m r =
      ready_or_not-Ensured m r (current_ready_session m.first_poll r)
        (current_ready_session-ReadyPolled m.first_poll r)
