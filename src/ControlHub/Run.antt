-- ===== src/ControlHub/Run.antt =====
-- src/control-hub.ts: the hub as a state machine: its operations as calls, in any order.
use rtc_session_gateway.ControlHub.Events.{send_raw, send_event, HubEvent}
use rtc_session_gateway.ControlHub.Routes.{set_routes}
use rtc_session_gateway.ControlHub.Requests.{
  handle_response, time_out, reject_pending, send_control_request, remove_connection,
}
use rtc_session_gateway.Base.{
  arith, ◌≡◌, ℕ, String, Bool, Option, List, [], ◌∷◌, ◌++◌, ◌+◌, ◌==◌, if◌then◌else◌,
}
use rtc_session_gateway.ControlHub.{
  err, ControlResponse, ok, Error, RouteConfig, ControlRequest, register_connection, has,
  RouteRegistration, Result, ControlHub, Effect, resolves, rejects, sends, disconnects, closes,
}

pub data Call : Type 0 where
  registers : (connection_id : String) → Call
  removes : (connection_id : String) → Call
  sets_routes : (connection_id : String) → List RouteRegistration → Call
  requests :
      (connection_id : String) → ControlRequest → (ready : Bool) → (thrown : Option Error) → Call
  send_fails : (request_id : String) → Error → Call
  times_out : (request_id : String) → Call
  responds : (connection_id : String) → ControlResponse → Call
  sends_event :
      (connection_id : String)
      → HubEvent
      → (ready : Bool) → (thrown : Option Error) → (event_id : String) → (now : String) → Call
  sends_raw :
      (connection_id : String) → ControlResponse → (ready : Bool) → (thrown : Option Error) → Call

-- a refused `setRoutes` leaves the hub as it is
unfoldable pub after_routes : ControlHub → Result (ControlHub × List RouteConfig) → ControlHub
after_routes hub (ok (hub', routes)) = hub'
after_routes hub (err error) = hub

unfoldable pub step : ControlHub → Call → ControlHub × List Effect
unfolding after_routes
step hub (registers id) = (register_connection hub id, [])
step hub (removes id) = remove_connection hub id
step hub (sets_routes id routes) = (after_routes hub (set_routes hub id routes), [])
step hub (requests id message ready thrown) = send_control_request hub id message ready thrown
step hub (send_fails id error) = reject_pending hub id error
step hub (times_out id) = time_out hub id
step hub (responds id r) = let (answer, hub', out) = handle_response hub id r in (hub', out)
step hub (sends_event id e ready thrown event_id now) =
    let (answer, hub', out) = send_event hub id e ready thrown event_id now in (hub', out)
step hub (sends_raw id message ready thrown) = (hub, (send_raw hub id message ready thrown).1)

unfoldable pub run : ControlHub → List Call → ControlHub × List Effect
unfolding step
run hub [] = (hub, [])
run hub (call ∷ calls) =
    let (hub', out) = step hub call in let (last, rest) = run hub' calls in (last, out ++ rest)

-- how often a call issues the request with this id
abbrev pub issued : String → Call → ℕ
issued id (requests c message ready thrown) = if message.id == id then 1 else 0
issued id call = 0

abbrev pub issued_in : String → List Call → ℕ
issued_in id [] = 0
issued_in id (call ∷ calls) = issued id call + issued_in id calls

-- how often the effects settle the promise of this request
abbrev pub settles : String → List Effect → ℕ
settles id [] = 0
settles id (resolves i result ∷ out) = (if i == id then 1 else 0) + settles id out
settles id (rejects i error ∷ out) = (if i == id then 1 else 0) + settles id out
settles id (effect ∷ out) = settles id out

-- whether the request waits for its answer, as a number
abbrev pub waiting : String → ControlHub → ℕ
waiting id hub = if has id hub.pending then 1 else 0

pub settles-append :
    (id : String) (out rest : List Effect)
    → settles id (out ++ rest) ≡ settles id out + settles id rest
settles-append id [] rest = omega arith
settles-append id (resolves i result ∷ out) rest = omega (arith, settles-append id out rest)
settles-append id (rejects i error ∷ out) rest = omega (arith, settles-append id out rest)
settles-append id (sends i m ∷ out) rest = settles-append id out rest
settles-append id (disconnects i ∷ out) rest = settles-append id out rest
settles-append id (closes i ∷ out) rest = settles-append id out rest
