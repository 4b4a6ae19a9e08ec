-- ===== src/History.antt =====
-- The storage format of new threads, and the history of a thread that has no first message yet
-- (src/history.rs). The call of the app-server is an argument.
pub mod Format
pub mod Pages
mod Tests
use baijimu_digital_employee.Base.{
  String, Bool, true, false, ◌&&◌, Option, none, some, List, [], ◌∷◌, Result, ok, err, and_then,
  is_some_and, is_some, not, ◌==◌, if◌then◌else◌,
}
use baijimu_digital_employee.Text.{◌⁺⁺◌}
use baijimu_digital_employee.Json.{
  Value, null, string, number, neg_int, array, object, Fields, nil, json, as_str, get, value_eq,
}
use baijimu_digital_employee.Json.Object
use baijimu_digital_employee.Http.{HttpError, coded, Http}

abbrev pub unsupported_mode : Http Value
unsupported_mode =
    err (coded 400 "数字员工会话当前仅支持 legacy 历史存储模式" "CODEX_HISTORY_MODE_UNSUPPORTED" (json []))

abbrev pub mode_of : Fields → Option Value → Http Value
mode_of fs none = ok (object (Object.insert fs "historyMode" (string "legacy")))
mode_of fs (some null) = ok (object (Object.insert fs "historyMode" (string "legacy")))
mode_of fs (some (string s)) = if s == "legacy" then ok (object fs) else unsupported_mode
mode_of fs (some _) = unsupported_mode

-- `configure_new_thread` on an object: `None` for a value on which the assignment by key panics
-- (not an object and not null); on null the assignment makes an object.
unfoldable pub configure_new_thread : Value → Option (Http Value)
unfolding Object.get Object.insert
configure_new_thread (object fs) = some (mode_of fs (Object.get fs "historyMode"))
configure_new_thread null = some (ok (json (("historyMode", string "legacy") ∷ [])))
configure_new_thread _ = none

abbrev unmaterialized_message : String → String
unmaterialized_message thread_id =
    "thread " ⁺⁺ thread_id
    ⁺⁺ " is not materialized yet; thread/turns/list is unavailable before first user message"

-- `is_unmaterialized_thread`; -32600 is `neg_int 32599`.
unfoldable pub is_unmaterialized_thread : HttpError → String → Bool
unfolding value_eq
is_unmaterialized_thread error thread_id =
    is_some_and (and_then error.code as_str) (λ c. c == "CODEX_RPC_ERROR")
    && is_some_and (and_then error.details (λ v. get v "rpcCode"))
        (λ c. value_eq c (number (neg_int 32599)))
    && error.message == unmaterialized_message thread_id

abbrev pub is_null : Value → Bool
is_null null = true
is_null _ = false

-- The page that is asked for is the first.
abbrev pub is_first_page : Value → Bool
is_first_page params = not (is_some_and (get params "cursor") (λ c. not (is_null c)))

abbrev pub empty_page : Value
empty_page = json (
    ("result", json (("data", array nil) ∷ ("nextCursor", null) ∷ ("backwardsCursor", null) ∷ []))
    ∷ [])

-- `list_turns`
unfoldable pub list_turns : String → Value → (Value → Http Value) → Http Value
unfolding is_unmaterialized_thread Object.get
list_turns thread_id params request = elim (request params) [
  | ok result ↦ ok (json (("result", result) ∷ []))
  | err error ↦
      if is_first_page params && is_unmaterialized_thread error thread_id
      then ok empty_page
      else err error
]
