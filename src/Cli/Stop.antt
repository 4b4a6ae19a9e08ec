-- ===== src/Cli/Stop.antt =====
-- Which process a command can stop.
use mathlib.Core.Option.{some-injective}
use baijimu_digital_employee.Base.{
  ap, ◌∙◌, ◌≡◌, refl, ℕ, ◌≤◌, String, Bool, true, false, Option, none, some, List, [], ◌∷◌, Result,
  ok, err, ok_or, leb, leb→le, and_then, is_some_and, when, unwrap_or, guard-then, and_then-eq-some,
  All, ◌>>=◌, ◌==◌, eq_iff, if◌then◌else◌, subst,
}
use baijimu_digital_employee.Json.{Value, as_str, as_u64}
use baijimu_digital_employee.Process.Health.{
  connector_field, is_connector, verified_connector_pid, max_u32,
}
use baijimu_digital_employee.Cli.Arguments.{ParsedArgs, parse_args}
use baijimu_digital_employee.Cli.Settings.{ServerOptions, server_options}
use baijimu_digital_employee.Cli.Commands.{
  Effect, print_text, print_json, terminate, remove_pid_file, write_pid, spawn_child, start_server,
  Outcome, attempt, Host, daemonize, pid_of, existing_report, child_report, existing, spawn,
  written_pid, report_child, start, stop, stop_running, kill, checkout_project, checkout_request,
  Command, show_version, show_help, start_command, status_command, stop_command, checkout_command,
  unknown, command_of, execute, run, well_body,
}

-- The process of a connector, by the answer that it gives.
abbrev pub IsConnectorPid : Value → ℕ → Type 0
IsConnectorPid health pid =
    (and_then (connector_field health "name") as_str ≡ some "@baijimu/digital-employee-connector")
    × (and_then (connector_field health "pid") as_u64 ≡ some pid)
    × (pid ≤ max_u32)

named :
    (o : Option String)
    → is_some_and o (λ n. n == "@baijimu/digital-employee-connector") ≡ true
    → o ≡ some "@baijimu/digital-employee-connector"
named none h = cc
named (some n) h = ap some ((eq_iff n "@baijimu/digital-employee-connector").0 h)

when-some : (b : Bool) (n m : ℕ) → when b n ≡ some m → (b ≡ true) × (n ≡ m)
when-some true n m h = (refl, some-injective n m h)
when-some false n m h = cc

ok_or-ok : (o : Option ℕ) (why : String) (n : ℕ) → ok_or o why ≡ ok n → o ≡ some n
ok_or-ok none why n h = cc
ok_or-ok (some m) why n h = cc

verified_connector_pid-IsConnectorPid :
    (health : Value) (pid : ℕ) → verified_connector_pid health ≡ ok pid → IsConnectorPid health pid
unfolding verified_connector_pid
verified_connector_pid-IsConnectorPid health pid h =
    let (g, h1) = guard-then (is_connector health) _ _ pid h in
    let (n, e, k) =
      and_then-eq-some (and_then (connector_field health "pid") as_u64) _ (ok_or-ok _ _ pid h1) in
    let (small, same) = when-some (leb n max_u32) n pid k in
    (
      named (and_then (connector_field health "name") as_str) g,
      e ∙ ap some same,
      subst (λ m. m ≤ max_u32) same (leb→le n max_u32 small),
    )

module _ (host : Host) where
  -- A process that is stopped is the one of the connector that answers at some options.
  abbrev pub IsVerified : Effect → Type 0
  IsVerified (terminate pid) =
      (o : ServerOptions) × (health : Value) × (host.health o ≡ ok health)
      × IsConnectorPid health pid
  IsVerified (print_text text) = Unit
  IsVerified (print_json v) = Unit
  IsVerified remove_pid_file = Unit
  IsVerified (write_pid pid) = Unit
  IsVerified (spawn_child args) = Unit
  IsVerified (start_server o) = Unit

  abbrev pub AllVerified : Outcome → Type 0
  AllVerified out = All IsVerified out.0

  attempt-AllVerified :
      {A : Type 0} (r : Result String A) (f : A → Outcome)
      → ((a : A) → r ≡ ok a → AllVerified (f a))
      → AllVerified (attempt r f)
  attempt-AllVerified (ok a) f h = h a refl
  attempt-AllVerified (err e) f h = tt

  written_pid-AllVerified : (pid : ℕ) (report : Value) → AllVerified (written_pid host pid report)
  written_pid-AllVerified pid report =
      (tt, attempt-AllVerified host.write_pid_file _ (λ a e. (tt, tt)))

  branch-AllVerified :
      {A : Type 0} (o : Option A) (f : A → Outcome) (z : Outcome)
      → ((a : A) → AllVerified (f a))
      → AllVerified z
      → AllVerified (elim o [ some a ↦ f a | none ↦ z ])
  branch-AllVerified (some a) f z h k = h a
  branch-AllVerified none f z h k = k

  if-AllVerified :
      (b : Bool) (x y : Outcome) → AllVerified x → AllVerified y → AllVerified (if b then x else y)
  if-AllVerified true x y h k = h
  if-AllVerified false x y h k = k

  stop_running-AllVerified :
      (o : ServerOptions) (answer : Result String Value)
      → host.health o ≡ answer
      → AllVerified (stop_running host answer)
  stop_running-AllVerified o (err e) h = (tt, tt)
  stop_running-AllVerified o (ok health) h =
      attempt-AllVerified (verified_connector_pid health) (kill host) (λ pid e. (
        (o, health, h, verified_connector_pid-IsConnectorPid health pid e),
        attempt-AllVerified (host.terminated pid) _ (λ a k. (tt, (tt, tt))),
      ))

  stop-AllVerified : (o : ServerOptions) → AllVerified (stop host o)
  unfolding stop
  stop-AllVerified o = stop_running-AllVerified o (host.health o) refl

  existing-AllVerified : (o : ServerOptions) (body : Value) → AllVerified (existing host o body)
  existing-AllVerified o body =
      branch-AllVerified (as_u64 (pid_of host body))
        (λ n. written_pid host n (existing_report host o body))
        (print_json (existing_report host o body) ∷ [], ok tt)
        (λ n. written_pid-AllVerified n (existing_report host o body)) (tt, tt)

  spawn-AllVerified : (o : ServerOptions) → AllVerified (spawn host o)
  spawn-AllVerified o = attempt-AllVerified host.open_log _ (λ a e.
      attempt-AllVerified host.spawned _ (λ pid k. (
        tt,
        attempt-AllVerified _ (report_child host o pid) (λ health q.
            let real = unwrap_or (and_then (connector_field health "pid") as_u64) pid in
            written_pid-AllVerified real (child_report host o real)),
      )))

  daemonize-AllVerified : (o : ServerOptions) → AllVerified (daemonize host o)
  unfolding daemonize
  daemonize-AllVerified o = attempt-AllVerified host.create_home _ (λ a e.
      branch-AllVerified (well_body host (host.health o)) (existing host o) (spawn host o)
        (existing-AllVerified o) (spawn-AllVerified o))

  start-AllVerified : (o : ServerOptions) → AllVerified (start host o)
  start-AllVerified o =
      if-AllVerified o.daemon (daemonize host o) (start_server o ∷ [], host.served o)
        (daemonize-AllVerified o) (tt, tt)

  checkout_project-AllVerified : (p : ParsedArgs) → AllVerified (checkout_project host p)
  unfolding checkout_project
  checkout_project-AllVerified p =
      attempt-AllVerified (checkout_request host p >>= host.prepare) _ (λ r e. (tt, tt))

  execute-AllVerified : (c : Command) (p : ParsedArgs) → AllVerified (execute host c p)
  unfolding execute
  execute-AllVerified show_version p = (tt, tt)
  execute-AllVerified show_help p = (tt, tt)
  execute-AllVerified start_command p =
      attempt-AllVerified (server_options host.settings p) (start host) (λ o e. start-AllVerified o)
  execute-AllVerified status_command p = (tt, tt)
  execute-AllVerified stop_command p =
      attempt-AllVerified (server_options host.settings p) (stop host) (λ o e. stop-AllVerified o)
  execute-AllVerified checkout_command p = checkout_project-AllVerified p
  execute-AllVerified (unknown other) p = tt

  -- Whatever the arguments are, each process that the command stops is one whose answer to the health
  -- request named it: the answer came at some options, it carries the connector's name, and the process is
  -- the one whose id, at most 2^32 - 1, it gives.
  pub run-AllVerified : (args : List String) → AllVerified (run host args)
  unfolding run
  run-AllVerified args =
      attempt-AllVerified (parse_args host.upper args) _
        (λ p e. execute-AllVerified (command_of p.command) p)
