-- ===== src/ControlHub/Settling.antt =====
-- src/control-hub.ts: each request that the hub was asked to send is answered at most once, and until
-- then it waits.
use rtc_session_gateway.ControlHub.Registration.{set_routes_inv}
use rtc_session_gateway.ControlHub.Routes.{set_routes}
use rtc_session_gateway.ControlHub.Events.{send_event, HubEvent, send_raw, send_event_on}
use rtc_session_gateway.ControlHub.Invariant.{
  empty-IsWellFormed, step-IsWellFormed, IsWellFormed-IsArmed, waiting_for-IsWellFormed,
  IsWellFormed,
}
use rtc_session_gateway.ControlHub.Run.{
  sends_raw, sends_event, responds, times_out, send_fails, requests, removes, registers, issued,
  sets_routes, issued_in, step, run, after_routes, Call, settles-append, settles, waiting,
}
use rtc_session_gateway.ControlHub.Removal.{
  lookup-owned_by, lookup-reject_all, owned_by-Unique, settles-reject_all, IsArmed,
}
use rtc_session_gateway.ControlHub.Requests.{
  handle_response, send_control_request, remove_connection, waiting_for, reject_all, owned_by,
  time_out_of, settlement, time_out, send_request, respond_to, request_on, remove_found, forget,
  reject_found, reject_pending,
}
use rtc_session_gateway.ControlHub.{
  ok, err, RouteConfig, empty, Result, register_connection, RouteRegistration, disconnects,
  is_sensitive_control_request, ControlResponse, PendingRequest, ControlRequest, ControlConnection,
  Effect, Error, ControlHub,
}
use rtc_session_gateway.Base.Assoc.{lookup, erase, lookup-erase, lookup-insert}
use rtc_session_gateway.Base.{
  is_some, inr, inl, Option-cases, ℕ, ◌≤◌, ◌+◌, ◌≡◌, String, Bool, true, false, refl, arith, ap,
  List, [], ◌∷◌, if◌then◌else◌, ◌==◌, none, some, Option, eq_iff,
}

-- how often the effects settle the request, and one more if it waits afterwards
abbrev balance : String → ControlHub × List Effect → ℕ
balance id (hub, out) = settles id out + waiting id hub

waiting-forget :
    (hub : ControlHub) (i id : String)
    → IsArmed hub
    → waiting id (forget hub i) ≡ (if i == id then 0 else waiting id hub)
waiting-forget hub i id (up, ut, armed) = ground (arith, lookup-erase i id hub.pending up)

reject_settles :
    (hub : ControlHub) (i id : String) (error : Error)
    → IsArmed hub
    → balance id (reject_pending hub i error) ≡ waiting id hub
unfolding reject_pending reject_found
reject_settles hub i id error w = elim (Option-cases (lookup i hub.pending)) [
  | inl e ↦ rw e (omega arith)
  | inr (p, e) ↦
      rw e (ground (arith, waiting-forget hub i id w, eq_iff i id, ap (λ o. is_some o) e))
]

time_out_settles :
    (hub : ControlHub) (i id : String) → IsArmed hub → balance id (time_out hub i) ≡ waiting id hub
unfolding time_out time_out_of
time_out_settles hub i id w = elim (Option-cases (lookup i hub.timers)) [
  | inl e ↦ rw e (omega arith)
  | inr (p, e) ↦
      rw e (ground (arith, waiting-forget hub i id w, eq_iff i id, w.2 i, ap (λ o. is_some o) e))
]

respond_settles :
    (hub : ControlHub) (found : Option PendingRequest) (id from : String) (r : ControlResponse)
    → lookup r.id hub.pending ≡ found
    → IsArmed hub
    → balance id (let (answer, hub', out) = respond_to hub found from r in (hub', out))
      ≡ waiting id hub
unfolding respond_to settlement
respond_settles hub none id from r e w = omega arith
respond_settles hub (some p) id from r e w =
    ground (arith, waiting-forget hub r.id id w, eq_iff r.id id, ap (λ o. is_some o) e)

remove_settles :
    (hub : ControlHub) (found : Option ControlConnection) (id from : String)
    → IsArmed hub
    → balance id (remove_found hub from found) ≡ waiting id hub
unfolding remove_found
remove_settles hub none id from w = omega arith
remove_settles hub (some c) id from w =
    let without : ControlHub = record hub { connections = erase from hub.connections } in
    let leaving = owned_by from hub.pending in
    ground (
      arith,
      settles-append id (reject_all from leaving without).1 (disconnects from ∷ []),
      settles-reject_all from id leaving without (owned_by-Unique from hub.pending w.0),
      lookup-reject_all from id leaving without w.0,
      lookup-owned_by from id hub.pending w.0,
    )

send_settles :
    (hub : ControlHub) (id from : String) (m : ControlRequest) (ready : Bool)
    (thrown : Option Error)
    → IsArmed hub
    → balance id (send_request hub from m ready thrown) ≡ waiting id hub
unfolding send_request
send_settles hub id from m false thrown w = reject_settles hub m.id id _ w
send_settles hub id from m true none w = omega arith
send_settles hub id from m true (some error) w = reject_settles hub m.id id error w

request_settles :
    (hub : ControlHub) (found : Option ControlConnection) (id from : String) (m : ControlRequest)
    (ready : Bool) (thrown : Option Error)
    → lookup from hub.connections ≡ found
    → IsWellFormed hub
    → waiting id hub + (if m.id == id then 1 else 0) ≤ 1
    → balance id (request_on hub found from m ready thrown)
      ≡ waiting id hub + (if m.id == id then 1 else 0)
unfolding request_on
request_settles hub none id from m ready thrown e w fresh = ground arith
request_settles hub (some c) id from m ready thrown e w fresh =
    let new : PendingRequest = record {
      connection_id = from;
      method = m.method;
      sensitive = is_sensitive_control_request m.method m.params;
    } in
    let hub' = waiting_for hub m.id m.method new in
    let w' = waiting_for-IsWellFormed hub m.id m.method new (ap is_some e) w in
    ground (
      arith,
      send_settles hub' id from m ready thrown (IsWellFormed-IsArmed hub' w'),
      lookup-insert m.id id new hub.pending,
    )

event_settles :
    (hub : ControlHub) (id from : String) (found : Option ControlConnection) (e : HubEvent)
    (ready : Bool) (thrown : Option Error) (event_id now : String)
    → balance id (
        let (answer, hub', out) = send_event_on hub found from e ready thrown event_id now in
        (hub', out))
      ≡ waiting id hub
unfolding send_event_on
event_settles hub id from none e ready thrown event_id now = omega arith
event_settles hub id from (some c) e false thrown event_id now = omega arith
event_settles hub id from (some c) e true none event_id now = omega arith
event_settles hub id from (some c) e true (some error) event_id now = omega arith

routes_settle :
    (hub : ControlHub) (id from : String) (routes : List RouteRegistration)
    (result : Result (ControlHub × List RouteConfig))
    → set_routes hub from routes ≡ result
    → waiting id (after_routes hub result) ≡ waiting id hub
unfolding after_routes
routes_settle hub id from routes (err error) e = refl
routes_settle hub id from routes (ok (hub', next)) e =
    let (c, accepted, same, listed) = set_routes_inv hub hub' from routes next e in
    ap (waiting id) same

raw_settles :
    (hub : ControlHub) (id from : String) (m : ControlResponse) (ready : Bool)
    (thrown : Option Error)
    → settles id (send_raw hub from m ready thrown).1 ≡ 0
unfolding send_raw
raw_settles hub id from m ready thrown = ground arith

step_settles :
    (hub : ControlHub) (call : Call) (id : String)
    → IsWellFormed hub
    → waiting id hub + issued id call ≤ 1
    → balance id (step hub call) ≡ waiting id hub + issued id call
unfolding step register_connection remove_connection send_control_request handle_response send_event
step_settles hub (registers from) id w fresh = omega arith
step_settles hub (removes from) id w fresh =
    omega
      (arith, remove_settles hub (lookup from hub.connections) id from (IsWellFormed-IsArmed hub w))
step_settles hub (sets_routes from routes) id w fresh =
    omega (arith, routes_settle hub id from routes (set_routes hub from routes) refl)
step_settles hub (requests from m ready thrown) id w fresh =
    request_settles hub (lookup from hub.connections) id from m ready thrown refl w fresh
step_settles hub (send_fails i error) id w fresh =
    omega (arith, reject_settles hub i id error (IsWellFormed-IsArmed hub w))
step_settles hub (times_out i) id w fresh =
    omega (arith, time_out_settles hub i id (IsWellFormed-IsArmed hub w))
step_settles hub (responds from r) id w fresh = omega (
  arith,
  respond_settles hub (lookup r.id hub.pending) id from r refl (IsWellFormed-IsArmed hub w),
)
step_settles hub (sends_event from e ready thrown event_id now) id w fresh =
    omega
      (arith, event_settles hub id from (lookup from hub.connections) e ready thrown event_id now)
step_settles hub (sends_raw from m ready thrown) id w fresh =
    omega (arith, raw_settles hub id from m ready thrown)

run_settles :
    (hub : ControlHub) (calls : List Call) (id : String)
    → IsWellFormed hub
    → waiting id hub + issued_in id calls ≤ 1
    → balance id (run hub calls) ≡ waiting id hub + issued_in id calls
unfolding run
run_settles hub [] id w fresh = omega arith
run_settles hub (call ∷ calls) id w fresh =
    let (hub', out) = step hub call in
    let here = step_settles hub call id w (omega arith) in
    omega (
      arith,
      here,
      settles-append id out (run hub' calls).1,
      run_settles hub' calls id (step-IsWellFormed hub call w) (omega (arith, here)),
    )

-- When the calls ask for the request with this id at most once, then after any sequence of calls that
-- starts from the empty hub, the times that its promise was settled (resolved or rejected) and its
-- waiting in the hub add up to the times it was asked for: it was settled exactly once, or it still
-- waits.
pub run-settles_once :
    (calls : List Call) (id : String)
    → issued_in id calls ≤ 1
    → settles id (run empty calls).1 + waiting id (run empty calls).0 ≡ issued_in id calls
unfolding lookup
run-settles_once calls id fresh =
    omega (arith, run_settles empty calls id empty-IsWellFormed (omega arith))
