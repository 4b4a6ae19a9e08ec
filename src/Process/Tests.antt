-- ===== src/Process/Tests.antt =====
-- Runs of the functions of the process, and an instance of the theorem on the token.
use baijimu_digital_employee.Base.{
  ◌≡◌, refl, ℕ, ◌≤◌, String, true, Option, none, some, List, [], ◌∷◌, ok, err, ◌==◌, if◌then◌else◌,
}
use baijimu_digital_employee.Text.{◌⁺⁺◌, byte_len}
use baijimu_digital_employee.Json.{Value, string, number, pos_int, boolean, json}
use baijimu_digital_employee.Json.Object
use baijimu_digital_employee.Process.{
  isolate_from_connector_environment, employee_codex_home, management_token_path, pid_path,
  log_path, Directories, prepare_employee_home,
}
use baijimu_digital_employee.Process.Health.{
  connector_health, verified_connector_pid, wait_for_connector_health,
}
use baijimu_digital_employee.Process.Token.{TokenFiles, TokenIo, load_or_create_management_token}
use baijimu_digital_employee.Process.Stored.{IsStored, load_or_create_management_token-IsStored}

isolated :
    isolate_from_connector_environment
      (("PATH", "/bin") ∷ ("Codex_Home", "/c") ∷ ("BAIJIMU_X", "1") ∷ ("OPENAI_API_KEY", "k") ∷ [])
    ≡ ("PATH", "/bin") ∷ []
unfolding isolate_from_connector_environment
isolated = refl

abbrev env : String → Option String
env name = if name == "HOME" then some "/home/u" else none

places :
    (employee_codex_home env ≡ "/home/u/.baijimu-digital-employee-connector/runtime/codex")
    × (management_token_path env ≡ "/home/u/.baijimu-digital-employee-connector/management-token")
    × (pid_path env ≡ "/home/u/.baijimu-digital-employee-connector/connector.pid")
    × (log_path env ≡ "/home/u/.baijimu-digital-employee-connector/connector.log")
unfolding employee_codex_home management_token_path pid_path log_path
places = (refl, refl, refl, refl)

abbrev directories : Directories
directories = record {
  create_dir_all = λ path. ok tt;
  canonicalize = λ path. ok path;
  protect = λ path. ok tt;
}

not_the_desktop :
    (prepare_employee_home env directories "/home/u/.codex/e" ≡ err "数字员工运行目录不能指向用户桌面 Codex 目录")
    × (prepare_employee_home env directories "/home/u/.codex2" ≡ ok tt)
unfolding prepare_employee_home
not_the_desktop = (refl, refl)

abbrev health : ℕ → Value
health pid = json (
    ("ok", boolean true)
    ∷ (
      "status",
      json (
          (
            "connector",
            json (
                ("name", string "@baijimu/digital-employee-connector")
                ∷ ("pid", number (pos_int pid))
                ∷ []),
          )
          ∷ []),
    )
    ∷ [])

pids :
    (verified_connector_pid (health 7) ≡ ok 7)
    × (verified_connector_pid (health 4294967296)
        ≡ err "connector health response does not contain a valid pid")
    × (verified_connector_pid (json [])
        ≡ err "health endpoint does not belong to the Codex connector")
unfolding verified_connector_pid Object.insert
pids = (refl, refl, refl)

second_answer :
    wait_for_connector_health (some 7) (err "refused" ∷ ok (health 8) ∷ ok (health 7) ∷ [])
    ≡ ok (health 7)
unfolding wait_for_connector_health Object.insert
second_answer = refl

body_of_answer :
    connector_health (λ s. ok (string s)) 60 "HTTP/1.1 200 OK\r\nA: b\r\n\r\n{}\r\n\r\nrest"
    ≡ ok (string "{}")
unfolding connector_health
body_of_answer = refl

abbrev calm : TokenIo
calm = record {
  create_dir = none;
  protect_home = none;
  write = none;
  protect_temporary = none;
  rename = none;
  protect_file = none;
  meanwhile = none;
  read_back = none;
}

abbrev bytes : List ℕ
bytes =
    0 ∷ 1 ∷ 2 ∷ 3 ∷ 4 ∷ 5 ∷ 6 ∷ 7 ∷ 8 ∷ 9 ∷ 10 ∷ 11 ∷ 12 ∷ 13 ∷ 14 ∷ 15 ∷ 16 ∷ 17 ∷ 18 ∷ 19 ∷ 20
    ∷ 21 ∷ 22 ∷ 23 ∷ 24 ∷ 25 ∷ 26 ∷ 27 ∷ 28 ∷ 29 ∷ 30 ∷ 255 ∷ []

abbrev token : String
token = "000102030405060708090a0b0c0d0e0f101112131415161718191a1b1c1d1eff"

abbrev short_file : TokenFiles
short_file = record { token_file = some "short"; temporary = none }

abbrev new_file : TokenFiles
new_file = record { token_file = some (token ⁺⁺ "\n"); temporary = none }

replaced_meanwhile :
    load_or_create_management_token (record calm { meanwhile = some "other" }) bytes short_file ≡ (
      err "management token read-back did not match the generated value",
      record short_file { token_file = some "other" },
    )
unfolding load_or_create_management_token
replaced_meanwhile = refl

load_or_create_management_token-IsStored_example : (32 ≤ byte_len token) × IsStored token new_file
unfolding load_or_create_management_token
load_or_create_management_token-IsStored_example =
    load_or_create_management_token-IsStored calm bytes short_file token new_file refl refl
