-- ===== src/Invoke/Dispatch.antt =====
-- The paths of the remote calls (src/invoke.rs, the `match` of `handle_invoke`).
use baijimu_digital_employee.Base.{
  String, Option, none, some, List, [], ◌∷◌, ok, err, ◌==◌, if◌then◌else◌,
}
use baijimu_digital_employee.Text.{◌⁺⁺◌}
use baijimu_digital_employee.Json.{Value}
use baijimu_digital_employee.Http.{http_error, Http}
use baijimu_digital_employee.Invoke.Params.{merge_params}
use baijimu_digital_employee.Json.{object}
use baijimu_digital_employee.Invoke.Handlers
use baijimu_digital_employee.Invoke.Handlers.{Client}

-- The arms of the `match`.
pub data Route : Type 0 where
  status : Route
  list_threads : Route
  list_projects : Route
  search_threads : Route
  read_thread : Route
  set_thread_read_state : Route
  list_thread_turns : Route
  list_apps : Route
  start_thread : Route
  resume_thread : Route
  start_turn : Route
  steer_turn : Route
  interrupt_turn : Route
  respond_to_request : Route
  pending_requests : Route
  recent_events : Route

abbrev pub routes : List (String × Route)
routes =
    ("/invoke/status", status)
    ∷ ("/invoke/listThreads", list_threads)
    ∷ ("/invoke/listSessions", list_threads)
    ∷ ("/invoke/listProjects", list_projects)
    ∷ ("/invoke/searchThreads", search_threads)
    ∷ ("/invoke/readThread", read_thread)
    ∷ ("/invoke/setThreadReadState", set_thread_read_state)
    ∷ ("/invoke/listThreadTurns", list_thread_turns)
    ∷ ("/invoke/listApps", list_apps)
    ∷ ("/invoke/startThread", start_thread)
    ∷ ("/invoke/resumeThread", resume_thread)
    ∷ ("/invoke/startTurn", start_turn)
    ∷ ("/invoke/steerTurn", steer_turn)
    ∷ ("/invoke/interruptTurn", interrupt_turn)
    ∷ ("/invoke/respondToRequest", respond_to_request)
    ∷ ("/invoke/pendingRequests", pending_requests)
    ∷ ("/invoke/recentEvents", recent_events)
    ∷ []

abbrev pub find_route : String → List (String × Route) → Option Route
find_route path [] = none
find_route path ((p, r) ∷ l) = let rest = find_route path l in if p == path then some r else rest

module _ {S : Type 0} (client : Client S) (print : Value → String) where
  -- `/invoke/listApps`
  unfoldable pub list_apps_result : Value → S → Http Value × S
  unfolding merge_params
  list_apps_result body s =
      Handlers.call client print "app/list"
        (object (merge_params body ("cursor" ∷ "limit" ∷ "threadId" ∷ "forceRefetch" ∷ []))) body s

  -- One arm.
  unfoldable pub run : Route → Value → S → Http Value × S
  unfolding Handlers.list_threads Handlers.search_threads Handlers.read_thread
      Handlers.set_thread_read_state Handlers.list_thread_turns Handlers.start_thread
      Handlers.resume_thread Handlers.start_turn Handlers.steer_turn Handlers.interrupt_turn
      Handlers.pending_requests list_apps_result
  run status body s = Handlers.returned client print (client.status s)
  run list_threads body s = Handlers.list_threads client print body s
  run list_projects body s = client.list_projects body s
  run search_threads body s = Handlers.search_threads client print body s
  run read_thread body s = Handlers.read_thread client print body s
  run set_thread_read_state body s = Handlers.set_thread_read_state client print body s
  run list_thread_turns body s = Handlers.list_thread_turns client print body s
  run list_apps body s = list_apps_result body s
  run start_thread body s = Handlers.start_thread client print body s
  run resume_thread body s = Handlers.resume_thread client print body s
  run start_turn body s = Handlers.start_turn client print body s
  run steer_turn body s = Handlers.steer_turn client print body s
  run interrupt_turn body s = Handlers.interrupt_turn client print body s
  run respond_to_request body s = Handlers.end_respond client print (client.respond body s)
  run pending_requests body s = Handlers.pending_requests client print body s
  run recent_events body s = (ok (client.recent_events body s), s)

  -- `handle_invoke`
  unfoldable pub handle_invoke : String → Value → S → Http Value × S
  unfolding run
  handle_invoke path body s = elim (find_route path routes) [
    | none ↦ (err (http_error 404 ("unknown invoke path: " ⁺⁺ path)), s)
    | some route ↦ run route body s
  ]
