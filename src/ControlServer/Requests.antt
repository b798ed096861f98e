-- ===== src/ControlServer/Requests.antt =====
-- src/control-server.ts: a control request, from its message to its response.
use rtc_session_gateway.ControlHub.Routes.{set_routes}
use rtc_session_gateway.ControlHub.Requests.{handle_response}
use rtc_session_gateway.SessionCommands.Execute.{execute}
use rtc_session_gateway.ControlLog.Bodies.{scrub_control_event, scrub_control_request}
use rtc_session_gateway.ControlHub.Events.{send_raw}
use rtc_session_gateway.Errors.{◌>>=◌, ◌>>◌}
use rtc_session_gateway.GatewayLifecycle.{begin_operation, finish}
use rtc_session_gateway.Routing.{user_prefix, exact}
use rtc_session_gateway.ControlLog.Uri.{Platform}
use rtc_session_gateway.ControlHub.{Effect}
use rtc_session_gateway.SessionCommands.{accepting, Action}
use rtc_session_gateway.Errors.{ok, err, Result}
use rtc_session_gateway.Routing.{exact, RouteConfig, RouteMatchType}
use rtc_session_gateway.Json.{arr, end, str, prop, obj, cons, nil, Items, Json}
use rtc_session_gateway.ControlProtocol.{
  request, event, response, parse_route_registrations, parse_control_message, ControlMessage,
  ControlResponse, ControlRequest,
}
use rtc_session_gateway.ControlServer.{
  message_of, failed_with, error_for_command, undefined, control_protocol_error, GatewayLifecycle,
  Error, ControlServer,
}
use rtc_session_gateway.Base.{
  [], ◌∷◌, ◌==◌, if◌then◌else◌, ℕ, List, String, Bool, true, false, Option, none, some,
}

abbrev pub success : ControlRequest → Json → ControlResponse
success r result = record { id = r.id; is_ok = true; result = result; error = none }

abbrev pub failure : ControlRequest → Error → ControlResponse
failure r thrown = record {
  id = r.id;
  is_ok = false;
  result = undefined;
  error = some (error_for_command thrown);
}

-- what is under way after the synchronous part of a request
pub data Progress : Type 0 where
  answered : ControlServer → ControlResponse → Progress
  waits : ControlServer → (operation : Option ℕ) → Action → Progress

-- this.lifecycle?.beginOperation()
unfoldable pub begin_for : Option GatewayLifecycle → Result (Option GatewayLifecycle × Option ℕ)
begin_for none = ok (none, none)
begin_for (some g) = do begun ← begin_operation g; ok (some begun.0, some begun.1)

abbrev pub finish_in : Option GatewayLifecycle → Option ℕ → Option GatewayLifecycle
finish_in (some g) (some operation) = some (finish g operation)
finish_in lifecycle _ = lifecycle

-- finish?.()
unfoldable pub finished : ControlServer → Option ℕ → ControlServer
finished s operation = record s { lifecycle = finish_in s.lifecycle operation }

match_text : RouteMatchType → String
match_text exact = "exact"
match_text user_prefix = "userPrefix"

route_items : List RouteConfig → Items
unfolding match_text
route_items [] = nil
route_items (route ∷ routes) =
    cons
      (obj (
        prop "match" (str (match_text route.match))
          (prop "value" (str route.value) (prop "url" (str route.url) end))))
      (route_items routes)

-- what the `try` block has come to: a result, or a call that is awaited
pub data Work : Type 0 where
  done : ControlServer → Json → Work
  awaits : Action → Work

unfoldable pub register_routes : ControlServer → String → Json → Result Work
unfolding route_items
register_routes s connection_id params = do
  accepting s.lifecycle
  routes ← parse_route_registrations params
  registered ← set_routes s.hub connection_id routes
  ok (
      done (record s { hub = registered.0 })
        (obj (prop "routes" (arr (route_items registered.1)) end)))

unfoldable pub execute_command : ControlServer → String → ControlRequest → Result Work
execute_command s connection_id r = do
  action ←
      execute (record s.commands { lifecycle = s.lifecycle }) r.method r.params
        (record { control_connection_id = some connection_id })
  ok (awaits action)

unfoldable pub work_on : ControlServer → String → ControlRequest → Result Work
unfolding register_routes execute_command
work_on s connection_id r =
    if r.method == "route.register"
    then register_routes s connection_id r.params
    else execute_command s connection_id r

unfoldable pub after_work : ControlServer → Option ℕ → ControlRequest → Result Work → Progress
unfolding finished
after_work s operation r (err thrown) = answered (finished s operation) (failure r thrown)
after_work s operation r (ok (done s' result)) = answered (finished s' operation) (success r result)
after_work s operation r (ok (awaits action)) = waits s operation action

unfoldable pub after_begin :
    ControlServer → String → ControlRequest → Result (Option GatewayLifecycle × Option ℕ) → Progress
unfolding after_work work_on
after_begin s connection_id r (err thrown) = answered s (failure r thrown)
after_begin s connection_id r (ok (lifecycle, operation)) =
    let s' = record s { lifecycle = lifecycle } in
    after_work s' operation r (work_on s' connection_id r)

-- `handleRequest` up to what it awaits. The body of the log line is made before the `try` block.
unfoldable pub handle_request : Platform → ControlServer → String → ControlRequest → Result Progress
unfolding after_begin
handle_request platform s connection_id r = do
  body ← scrub_control_request platform r.id r.method r.params
  ok (after_begin s connection_id r (begin_for s.lifecycle))

-- the rest of `handleRequest`, when the awaited call has returned or thrown
unfoldable pub complete_request :
    ControlServer → Option ℕ → ControlRequest → Result Json → ControlServer × ControlResponse
unfolding finished
complete_request s operation r (ok result) = (finished s operation, success r result)
complete_request s operation r (err thrown) = (finished s operation, failure r thrown)

-- `sendResponse`: whether the socket is open, and what its `send` throws, are arguments
unfoldable pub send_response :
    ControlServer → String → ControlResponse → Bool → Option Error → List Effect
send_response s connection_id r ready thrown = (send_raw s.hub connection_id r ready thrown).1

unfoldable pub protocol_error : Error → ControlResponse
protocol_error (control_protocol_error message code) = record {
  id = "";
  is_ok = false;
  result = undefined;
  error = some (failed_with code message);
}
protocol_error thrown = record {
  id = "";
  is_ok = false;
  result = undefined;
  error = some (failed_with "BAD_MESSAGE" (message_of thrown));
}

pub data Handled : Type 0 where
  ignored : Handled  -- an event
  settled : ControlServer → List Effect → Handled  -- a response that the hub has handled
  refused : ControlResponse → Handled
  progressed : Progress → Handled

unfoldable pub handle_parsed :
    Platform → ControlServer → String → Result ControlMessage → Result Handled
unfolding protocol_error
handle_parsed platform s connection_id (err thrown) = ok (refused (protocol_error thrown))
handle_parsed platform s connection_id (ok (response r)) =
    let (matched, hub, out) = handle_response s.hub connection_id r in
    ok (settled (record s { hub = hub }) out)
handle_parsed platform s connection_id (ok (event e)) = do
  body ← scrub_control_event platform e.event e.payload
  ok ignored
handle_parsed platform s connection_id (ok (request r)) = do
  progress ← handle_request platform s connection_id r
  ok (progressed progress)

-- `parse` is `JSON.parse`
unfoldable pub handle_message :
    Platform → (parse : String → Result Json) → ControlServer → String → String → Result Handled
unfolding handle_parsed
handle_message platform parse s connection_id raw =
    handle_parsed platform s connection_id (parse raw >>= parse_control_message)
