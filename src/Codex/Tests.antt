-- ===== src/Codex/Tests.antt =====
-- Tests of the client that keeps the app-server, and an instance of its theorem.
use baijimu_digital_employee.Base.{
  ◌≡◌, refl, ℕ, Bool, true, Option, none, some, ok, err, leb, is_some, if◌then◌else◌, [], ◌∷◌,
}
use baijimu_digital_employee.Text.{parse_uint}
use baijimu_digital_employee.Json.{null, string, json}
use baijimu_digital_employee.Session.{new_session, whole}
use baijimu_digital_employee.Http.{Http}
use baijimu_digital_employee.Codex.Binary.{
  CliInspection, CommandRun, busy, exited, inspect_command, satisfies,
}
use baijimu_digital_employee.Codex.Runtime.{
  Process, ClientRuntime, new_runtime, Poll, spawned, Machine, ensure_session, shutdown_locked,
}
use baijimu_digital_employee.Codex.Ready.{IsReady, Origin, ensure_session-Ensured}

-- The executable is busy twice, then prints its version; it has the app-server.
abbrev busy_twice : ℕ → CommandRun
busy_twice n = if leb n 2 then busy "text file busy" else exited true "0" " codex-cli 7\n" ""

abbrev helps : ℕ → CommandRun
helps n = exited true "0" "" ""

found_at_last :
    inspect_command busy_twice helps
    ≡ ok (record { version = some "codex-cli 7"; app_server_supported = true; error = none })
unfolding inspect_command
found_at_last = refl

-- A version is a number here.
new_enough :
    satisfies
      (parse_uint 100)
      (λ a b. leb b a)
      (record { version = some "codex-cli v7"; app_server_supported = true; error = none })
      5
    ≡ true
unfolding satisfies parse_uint
new_enough = refl

abbrev quiet : Poll
quiet = record { status = none; now = "t" }

abbrev machine : Machine
machine = record {
  first_poll = quiet;
  second_poll = quiet;
  third_poll = quiet;
  inspection = ok (record { version = some "7"; app_server_supported = true; error = none });
  spawn = spawned 42 "t";
  exchange = λ s. (ok null, s);
  fault = none;
}

abbrev knows_version : CliInspection → Bool
knows_version i = is_some i.version

abbrev pid_of : Http Process × ClientRuntime → Option ℕ
pid_of (ok p, r) = some p.pid
pid_of (err e, r) = none

-- The first call starts a process, and the next one uses it.
started_once :
    pid_of (ensure_session true knows_version "5" machine (new_runtime "/home")) ≡ some 42
unfolding ensure_session
started_once = refl

used_again :
    pid_of (
      ensure_session true knows_version "5"
        (record machine { spawn = spawned 43 "u" })
        (ensure_session true knows_version "5" machine (new_runtime "/home")).1)
    ≡ some 42
unfolding ensure_session
used_again = refl

-- After a shutdown a new one is started.
started_anew :
    pid_of (
      ensure_session true knows_version "5"
        (record machine { spawn = spawned 43 "u" })
        (shutdown_locked null "v"
          (ensure_session true knows_version "5" machine (new_runtime "/home")).1))
    ≡ some 43
unfolding ensure_session shutdown_locked
started_anew = refl

-- The session after the notification of its initialization.
abbrev ready_process : Process
ready_process = record {
  pid = 42;
  started_at = "t";
  session = record new_session {
    stdin = some (whole (json (("method", string "initialized") ∷ ("params", json []) ∷ [])) ∷ []);
    initialized = true;
  };
}

handed_out :
    (ensure_session true knows_version "5" machine (new_runtime "/home")).0 ≡ ok ready_process
unfolding ensure_session
handed_out = refl

ensure_session-Ensured_example :
    ((ensure_session true knows_version "5" machine (new_runtime "/home")).1.session
      ≡ some ready_process)
    × (ready_process.session.initialized ≡ true)
    × IsReady true knows_version "5" machine ready_process
    × Origin true knows_version "5" (new_runtime "/home") machine ready_process
ensure_session-Ensured_example =
    ensure_session-Ensured true knows_version "5" machine (new_runtime "/home") ready_process
      handed_out
