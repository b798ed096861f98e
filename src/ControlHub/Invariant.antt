-- ===== src/ControlHub/Invariant.antt =====
-- src/control-hub.ts: what holds of the hub after every call: each map has one entry for a key, a
-- request waits exactly as long as its timeout is armed, and its connection is still registered.
use rtc_session_gateway.ControlHub.Registration.{set_routes_inv}
use rtc_session_gateway.ControlHub.Routes.{set_routes}
use rtc_session_gateway.ControlHub.Run.{
  sends_raw, sends_event, responds, times_out, send_fails, requests, sets_routes, removes,
  registers, step, run, after_routes, Call,
}
use rtc_session_gateway.ControlHub.Events.{send_event, HubEvent, send_event_on}
use rtc_session_gateway.ControlHub.Removal.{
  lookup-owned_by, lookup-reject_all, reject_all-connections, reject_all-IsArmed, forget-IsArmed,
  IsArmed,
}
use rtc_session_gateway.ControlHub.Requests.{
  handle_response, time_out, send_control_request, remove_connection, owned_by, remove_found,
  reject_pending, send_request, request_on, waiting_for, time_out_of, respond_to, reject_found,
  forget,
}
use rtc_session_gateway.Base.Assoc.{
  insert, lookup-erase, erase-Unique, has-insert, lookup-insert, insert-Unique, lookup, has, Unique,
}
use rtc_session_gateway.ControlHub.{
  ok, err, RouteConfig, Result, RouteRegistration, empty, ControlRequest, ControlConnection,
  ControlResponse, Error, register_connection, PendingRequest, ControlHub,
}
use rtc_session_gateway.Base.Assoc.{lookup, has, Unique, erase, lookup-erase, erase-Unique}
use rtc_session_gateway.Base.{
  List, [], ◌∷◌, refl, sym, is_some, false, ap, Bool, some_injective, subst, inr, inl, ◌==◌, none,
  eq_iff, Option, Bool-cases, arith, some, ◌≡◌, String, true,
}

unfoldable pub IsWellFormed : ControlHub → Type 0
IsWellFormed hub =
    Unique hub.connections
    × Unique hub.pending
    × Unique hub.timers
    × ((id : String) → has id hub.timers ≡ has id hub.pending)
    × ((id : String) (pending : PendingRequest)
        → lookup id hub.pending ≡ some pending
        → has pending.connection_id hub.connections ≡ true)

pub IsWellFormed-IsArmed : (hub : ControlHub) → IsWellFormed hub → IsArmed hub
unfolding IsWellFormed
IsWellFormed-IsArmed hub (uc, up, ut, armed, owned) = (up, ut, armed)

forget-IsWellFormed :
    (hub : ControlHub) (id : String) → IsWellFormed hub → IsWellFormed (forget hub id)
unfolding IsWellFormed
forget-IsWellFormed hub id (uc, up, ut, armed, owned) =
    let (up', ut', armed') = forget-IsArmed hub id (up, ut, armed) in
    (
      uc,
      up',
      ut',
      armed',
      λ j p found. owned j p (ground (arith, lookup-erase id j hub.pending up, eq_iff id j, found)),
    )

register-IsWellFormed :
    (hub : ControlHub) (id : String) → IsWellFormed hub → IsWellFormed (register_connection hub id)
unfolding IsWellFormed register_connection
register-IsWellFormed hub id (uc, up, ut, armed, owned) = (
  insert-Unique id _ hub.connections uc,
  up,
  ut,
  armed,
  λ j p found. has-insert id p.connection_id _ hub.connections (owned j p found),
)

reject_found-IsWellFormed :
    (hub : ControlHub) (id : String) (error : Error) (found : Option PendingRequest)
    → IsWellFormed hub
    → IsWellFormed (reject_found hub id error found).0
unfolding reject_found
reject_found-IsWellFormed hub id error none w = w
reject_found-IsWellFormed hub id error (some p) w = forget-IsWellFormed hub id w

time_out_of-IsWellFormed :
    (hub : ControlHub) (id : String) (found : Option String)
    → IsWellFormed hub
    → IsWellFormed (time_out_of hub id found).0
unfolding time_out_of
time_out_of-IsWellFormed hub id none w = w
time_out_of-IsWellFormed hub id (some p) w = forget-IsWellFormed hub id w

respond_to-IsWellFormed :
    (hub : ControlHub) (found : Option PendingRequest) (id : String) (r : ControlResponse)
    → IsWellFormed hub
    → IsWellFormed (respond_to hub found id r).1
unfolding respond_to
respond_to-IsWellFormed hub none id r w = w
respond_to-IsWellFormed hub (some p) id r w = elim (Bool-cases (p.connection_id == id)) [
  | inl e ↦ rw e (forget-IsWellFormed hub r.id w)
  | inr e ↦ rw e w
]

pub waiting_for-IsWellFormed :
    (hub : ControlHub) (id method : String) (new : PendingRequest)
    → has new.connection_id hub.connections ≡ true
    → IsWellFormed hub
    → IsWellFormed (waiting_for hub id method new)
unfolding IsWellFormed
waiting_for-IsWellFormed hub id method new connected (uc, up, ut, armed, owned) = (
  uc,
  insert-Unique id new hub.pending up,
  insert-Unique id method hub.timers ut,
  λ j.
      ground
        (arith, lookup-insert id j new hub.pending, lookup-insert id j method hub.timers, armed j),
  λ j p found. elim (Bool-cases (id == j)) [
    | inl e ↦
        subst (λ (q : PendingRequest). has q.connection_id hub.connections ≡ true) {x = new} {y = p}
          (some_injective (ground (arith, lookup-insert id j new hub.pending, found, e))) connected
    | inr e ↦ owned j p (ground (arith, lookup-insert id j new hub.pending, found, e))
  ],
)

send_request-IsWellFormed :
    (hub : ControlHub) (connection_id : String) (message : ControlRequest) (ready : Bool)
    (thrown : Option Error)
    → IsWellFormed hub
    → IsWellFormed (send_request hub connection_id message ready thrown).0
unfolding send_request reject_pending
send_request-IsWellFormed hub connection_id message false thrown w =
    reject_found-IsWellFormed hub message.id _ (lookup message.id hub.pending) w
send_request-IsWellFormed hub connection_id message true none w = w
send_request-IsWellFormed hub connection_id message true (some error) w =
    reject_found-IsWellFormed hub message.id error (lookup message.id hub.pending) w

request_on-IsWellFormed :
    (hub : ControlHub) (found : Option ControlConnection) (connection_id : String)
    (message : ControlRequest) (ready : Bool) (thrown : Option Error)
    → lookup connection_id hub.connections ≡ found
    → IsWellFormed hub
    → IsWellFormed (request_on hub found connection_id message ready thrown).0
unfolding request_on
request_on-IsWellFormed hub none connection_id message ready thrown e w = w
request_on-IsWellFormed hub (some c) connection_id message ready thrown e w =
    send_request-IsWellFormed _ connection_id message ready thrown
      (waiting_for-IsWellFormed hub message.id message.method _ (ap is_some e) w)

remove_found-IsWellFormed :
    (hub : ControlHub) (connection_id : String) (found : Option ControlConnection)
    → IsWellFormed hub
    → IsWellFormed (remove_found hub connection_id found).0
unfolding remove_found IsWellFormed
remove_found-IsWellFormed hub connection_id none w = w
remove_found-IsWellFormed hub connection_id (some c) (uc, up, ut, armed, owned) =
    let without : ControlHub = record hub { connections = erase connection_id hub.connections } in
    let leaving = owned_by connection_id hub.pending in
    let (up', ut', armed') = reject_all-IsArmed connection_id leaving without (up, ut, armed) in
    let same = reject_all-connections connection_id leaving without in
    (
      subst Unique (sym same) (erase-Unique connection_id hub.connections uc),
      up',
      ut',
      armed',
      λ j p found.
          subst (λ m. has p.connection_id m ≡ true) (sym same)
            (ground (
              arith,
              lookup-reject_all connection_id j leaving without up,
              lookup-owned_by connection_id j hub.pending up,
              lookup-erase connection_id p.connection_id hub.connections uc,
              eq_iff connection_id p.connection_id,
              eq_iff p.connection_id connection_id,
              owned j p,
              found,
            )),
    )

replace-IsWellFormed :
    (hub : ControlHub) (id : String) (connection : ControlConnection)
    → IsWellFormed hub
    → IsWellFormed (record hub { connections = insert id connection hub.connections })
unfolding IsWellFormed
replace-IsWellFormed hub id connection (uc, up, ut, armed, owned) = (
  insert-Unique id connection hub.connections uc,
  up,
  ut,
  armed,
  λ j p found. has-insert id p.connection_id connection hub.connections (owned j p found),
)

send_event-IsWellFormed :
    (hub : ControlHub) (id : String) (found : Option ControlConnection) (e : HubEvent)
    (ready : Bool) (thrown : Option Error) (event_id now : String)
    → IsWellFormed hub
    → IsWellFormed (send_event_on hub found id e ready thrown event_id now).1
unfolding send_event_on
send_event-IsWellFormed hub id none e ready thrown event_id now w = w
send_event-IsWellFormed hub id (some c) e false thrown event_id now w = w
send_event-IsWellFormed hub id (some c) e true none event_id now w = replace-IsWellFormed hub id _ w
send_event-IsWellFormed hub id (some c) e true (some error) event_id now w =
    replace-IsWellFormed hub id _ w

set_routes-IsWellFormed :
    (hub : ControlHub) (id : String) (routes : List RouteRegistration)
    (result : Result (ControlHub × List RouteConfig))
    → set_routes hub id routes ≡ result
    → IsWellFormed hub
    → IsWellFormed (after_routes hub result)
unfolding after_routes
set_routes-IsWellFormed hub id routes (err error) e w = w
set_routes-IsWellFormed hub id routes (ok (hub', next)) e w =
    let (c, accepted, same, listed) = set_routes_inv hub hub' id routes next e in
    subst IsWellFormed (sym same) (replace-IsWellFormed hub id _ w)

pub step-IsWellFormed :
    (hub : ControlHub) (call : Call) → IsWellFormed hub → IsWellFormed (step hub call).0
unfolding step remove_connection send_control_request reject_pending time_out handle_response
    send_event
step-IsWellFormed hub (registers id) w = register-IsWellFormed hub id w
step-IsWellFormed hub (removes id) w =
    remove_found-IsWellFormed hub id (lookup id hub.connections) w
step-IsWellFormed hub (sets_routes id routes) w =
    set_routes-IsWellFormed hub id routes (set_routes hub id routes) refl w
step-IsWellFormed hub (requests id m ready thrown) w =
    request_on-IsWellFormed hub (lookup id hub.connections) id m ready thrown refl w
step-IsWellFormed hub (send_fails id error) w =
    reject_found-IsWellFormed hub id error (lookup id hub.pending) w
step-IsWellFormed hub (times_out id) w = time_out_of-IsWellFormed hub id (lookup id hub.timers) w
step-IsWellFormed hub (responds id r) w =
    respond_to-IsWellFormed hub (lookup r.id hub.pending) id r w
step-IsWellFormed hub (sends_event id e ready thrown event_id now) w =
    send_event-IsWellFormed hub id (lookup id hub.connections) e ready thrown event_id now w
step-IsWellFormed hub (sends_raw id m ready thrown) w = w

run-IsWellFormed :
    (hub : ControlHub) (calls : List Call) → IsWellFormed hub → IsWellFormed (run hub calls).0
unfolding run
run-IsWellFormed hub [] w = w
run-IsWellFormed hub (call ∷ calls) w =
    run-IsWellFormed (step hub call).0 calls (step-IsWellFormed hub call w)

pub empty-IsWellFormed : IsWellFormed empty
unfolding IsWellFormed lookup
empty-IsWellFormed = (tt, tt, tt, λ id. refl, λ id p found. absurd (cc))

-- After any sequence of calls, each map of the hub has one entry for a key, a request waits exactly
-- as long as its timeout is armed, and the connection that a waiting request was sent on is still
-- registered.
pub run-empty-IsWellFormed : (calls : List Call) → IsWellFormed (run empty calls).0
run-empty-IsWellFormed calls = run-IsWellFormed empty calls empty-IsWellFormed
