-- ===== src/History/Tests.antt =====
-- The scenarios of the source's own tests, and instances of the theorems about the history.
use baijimu_digital_employee.Base.{◌≡◌, refl, ◌⊎◌, [], ◌∷◌, ok, err}
use baijimu_digital_employee.Json.{
  Value, null, string, number, neg_int, object, Fields, fields_of, json, value_eq,
}
use baijimu_digital_employee.Json.Object
use baijimu_digital_employee.Http.{HttpError, Http, coded}
use baijimu_digital_employee.History.{
  is_unmaterialized_thread, empty_page, list_turns, configure_new_thread,
}
use baijimu_digital_employee.History.Format.{Chooses, configure_new_thread-legacy}
use baijimu_digital_employee.History.Pages.{AsksFirst, SaysUnmaterialized, list_turns-cases}

abbrev unmaterialized : HttpError
unmaterialized =
    coded 500
      "thread t is not materialized yet; thread/turns/list is unavailable before first user message"
      "CODEX_RPC_ERROR" (json (("rpcCode", number (neg_int 32599)) ∷ ("rpcData", null) ∷ []))

abbrev refuse_all : Value → Http Value
refuse_all _ = err unmaterialized

abbrev first_page : Value
first_page = json (("cursor", null) ∷ [])

abbrev later_page : Value
later_page = json (("cursor", string "older-page") ∷ [])

pages :
    (list_turns "t" first_page refuse_all ≡ ok empty_page)
    × (list_turns "t" later_page refuse_all ≡ err unmaterialized)
    × (list_turns "other" first_page refuse_all ≡ err unmaterialized)
unfolding list_turns is_unmaterialized_thread value_eq Object.get Object.insert
pages = (refl, refl, refl)

list_turns-cases_example :
    ((result : Value) × (refuse_all first_page ≡ ok result)
      × (list_turns "t" first_page refuse_all ≡ ok (json (("result", result) ∷ []))))
    ⊎ ((error : HttpError) × (refuse_all first_page ≡ err error)
        × ((AsksFirst first_page
              × SaysUnmaterialized error "t"
              × (list_turns "t" first_page refuse_all ≡ ok empty_page))
            ⊎ (¬ (AsksFirst first_page × SaysUnmaterialized error "t")
                × (list_turns "t" first_page refuse_all ≡ err error))))
list_turns-cases_example = list_turns-cases "t" first_page refuse_all

abbrev thread_params : Fields
thread_params = fields_of (("cwd", string "/project") ∷ [])

configure_new_thread-legacy_example :
    Chooses thread_params (configure_new_thread (object thread_params))
configure_new_thread-legacy_example = configure_new_thread-legacy thread_params
