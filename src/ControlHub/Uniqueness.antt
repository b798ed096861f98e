-- ===== src/ControlHub/Uniqueness.antt =====
-- src/control-hub.ts: the routes of the registered connections never clash, whatever calls are made.
use rtc_session_gateway.ControlHub.Removal.{reject_all-connections}
use rtc_session_gateway.ControlHub.Clashes.{
  erase-Inherits, insert-Inherits, same-IsExclusive, insert-IsExclusive, Inherits-IsExclusive,
  IsExclusive,
}
use rtc_session_gateway.ControlHub.Registration.{set_routes_inv}
use rtc_session_gateway.ControlHub.Invariant.{step-IsWellFormed, empty-IsWellFormed, IsWellFormed}
use rtc_session_gateway.ControlHub.Run.{
  sends_raw, sends_event, responds, times_out, send_fails, requests, sets_routes, removes,
  registers, step, run, after_routes, Call,
}
use rtc_session_gateway.ControlHub.Routes.{set_routes, claims, route_key}
use rtc_session_gateway.ControlHub.Requests.{
  owned_by, handle_response, time_out, send_control_request, remove_connection, reject_pending,
  send_request, time_out_of, respond_to, request_on, remove_found, reject_found,
}
use rtc_session_gateway.ControlHub.Events.{send_event, HubEvent, send_event_on}
use rtc_session_gateway.ControlHub.Exclusive.{Distinct}
use rtc_session_gateway.ControlHub.{
  ok, err, Result, ControlResponse, ControlRequest, register_connection, RouteRegistration,
  PendingRequest, Error, ControlHub, empty, RouteConfig, ControlConnection,
}
use rtc_session_gateway.Base.Assoc.{lookup}
use rtc_session_gateway.Base.{
  ◌∙◌, ne_of_eq-false, inr, some_injective, inl, subst, Bool-cases, ℕ, ◌≡◌, get_elem?, String, Bool,
  true, false, refl, arith, sym, ap, List, [], ◌∷◌, ◌==◌, none, some, Option, eq_iff, zero, suc,
}

-- No connection claims a key twice, and no two connections claim the same key.
reject-connections :
    (hub : ControlHub) (id : String) (error : Error) (found : Option PendingRequest)
    → (reject_found hub id error found).0.connections ≡ hub.connections
unfolding reject_found
reject-connections hub id error none = refl
reject-connections hub id error (some p) = refl

request-connections :
    (hub : ControlHub) (found : Option ControlConnection) (id : String) (m : ControlRequest)
    (ready : Bool) (thrown : Option Error)
    → (request_on hub found id m ready thrown).0.connections ≡ hub.connections
unfolding request_on send_request reject_pending
request-connections hub none id m ready thrown = refl
request-connections hub (some c) id m false thrown = reject-connections _ m.id _ _
request-connections hub (some c) id m true none = refl
request-connections hub (some c) id m true (some error) = reject-connections _ m.id error _

time_out-connections :
    (hub : ControlHub) (id : String) (found : Option String)
    → (time_out_of hub id found).0.connections ≡ hub.connections
unfolding time_out_of
time_out-connections hub id none = refl
time_out-connections hub id (some p) = refl

respond-connections :
    (hub : ControlHub) (found : Option PendingRequest) (id : String) (r : ControlResponse)
    → (respond_to hub found id r).1.connections ≡ hub.connections
unfolding respond_to
respond-connections hub none id r = refl
respond-connections hub (some p) id r = ground arith

remove-IsExclusive :
    (hub : ControlHub) (id : String) (found : Option ControlConnection)
    → IsWellFormed hub
    → IsExclusive hub.connections
    → IsExclusive (remove_found hub id found).0.connections
unfolding remove_found IsWellFormed
remove-IsExclusive hub id none w x = x
remove-IsExclusive hub id (some c) w x =
    same-IsExclusive (reject_all-connections id (owned_by id hub.pending) _)
      (Inherits-IsExclusive _ _ (erase-Inherits id hub.connections w.0) x)

set_routes-IsExclusive :
    (hub : ControlHub) (id : String) (routes : List RouteRegistration)
    (result : Result (ControlHub × List RouteConfig))
    → set_routes hub id routes ≡ result
    → IsExclusive hub.connections
    → IsExclusive (after_routes hub result).connections
unfolding after_routes
set_routes-IsExclusive hub id routes (err error) e x = x
set_routes-IsExclusive hub id routes (ok (hub', next)) e x =
    let (c, accepted, same, listed) = set_routes_inv hub hub' id routes next e in
    same-IsExclusive (ap (λ (h : ControlHub). h.connections) same)
      (insert-IsExclusive id _ hub.connections accepted.distinct accepted.apart x)

event-IsExclusive :
    (hub : ControlHub) (id : String) (found : Option ControlConnection) (e : HubEvent)
    (ready : Bool) (thrown : Option Error) (event_id now : String)
    → lookup id hub.connections ≡ found
    → IsExclusive hub.connections
    → IsExclusive (send_event_on hub found id e ready thrown event_id now).1.connections
unfolding send_event_on
event-IsExclusive hub id none e ready thrown event_id now found x = x
event-IsExclusive hub id (some c) e false thrown event_id now found x = x
event-IsExclusive hub id (some c) e true none event_id now found x =
    Inherits-IsExclusive _ _ (insert-Inherits id _ c hub.connections found refl) x
event-IsExclusive hub id (some c) e true (some error) event_id now found x =
    Inherits-IsExclusive _ _ (insert-Inherits id _ c hub.connections found refl) x

step-IsExclusive :
    (hub : ControlHub) (call : Call)
    → IsWellFormed hub
    → IsExclusive hub.connections
    → IsExclusive (step hub call).0.connections
unfolding step register_connection remove_connection send_control_request reject_pending time_out
    handle_response send_event
step-IsExclusive hub (registers id) w x =
    insert-IsExclusive id _ hub.connections tt (λ j d found ne key c. absurd (cc)) x
step-IsExclusive hub (removes id) w x = remove-IsExclusive hub id (lookup id hub.connections) w x
step-IsExclusive hub (sets_routes id routes) w x =
    set_routes-IsExclusive hub id routes (set_routes hub id routes) refl x
step-IsExclusive hub (requests id m ready thrown) w x =
    same-IsExclusive (request-connections hub (lookup id hub.connections) id m ready thrown) x
step-IsExclusive hub (send_fails id error) w x =
    same-IsExclusive (reject-connections hub id error (lookup id hub.pending)) x
step-IsExclusive hub (times_out id) w x =
    same-IsExclusive (time_out-connections hub id (lookup id hub.timers)) x
step-IsExclusive hub (responds id r) w x =
    same-IsExclusive (respond-connections hub (lookup r.id hub.pending) id r) x
step-IsExclusive hub (sends_event id e ready thrown event_id now) w x =
    event-IsExclusive hub id (lookup id hub.connections) e ready thrown event_id now refl x
step-IsExclusive hub (sends_raw id m ready thrown) w x = x

run-IsExclusive :
    (hub : ControlHub) (calls : List Call)
    → IsWellFormed hub
    → IsExclusive hub.connections
    → IsExclusive (run hub calls).0.connections
unfolding run
run-IsExclusive hub [] w x = x
run-IsExclusive hub (call ∷ calls) w x =
    run-IsExclusive (step hub call).0 calls (step-IsWellFormed hub call w)
      (step-IsExclusive hub call w x)

-- The key of an entry of the list is claimed by the list.
claims_entry :
    (routes : List RouteConfig) (n : ℕ) (r : RouteConfig) (key : String)
    → get_elem? routes n ≡ some r
    → route_key r ≡ key
    → claims key routes ≡ true
claims_entry [] n r key at same = absurd (cc)
claims_entry (s ∷ routes) zero r key at same =
    let here : route_key s ≡ key = ap route_key (some_injective at) ∙ same in
    ground (arith, eq_iff (route_key s) key, here)
claims_entry (s ∷ routes) (suc n) r key at same =
    ground (arith, claims_entry routes n r key at same)

Distinct-index :
    (routes : List RouteConfig) (m n : ℕ) (r s : RouteConfig)
    → Distinct routes
    → get_elem? routes m ≡ some r
    → get_elem? routes n ≡ some s
    → route_key r ≡ route_key s
    → m ≡ n
Distinct-index [] m n r s d at at' same = absurd (cc)
Distinct-index (x ∷ routes) zero zero r s d at at' same = refl
Distinct-index (x ∷ routes) zero (suc n) r s d at at' same =
    let key : route_key s ≡ route_key x = sym same ∙ sym (ap route_key (some_injective at)) in
    absurd (ground (arith, d.0, claims_entry routes n s (route_key x) at' key))
Distinct-index (x ∷ routes) (suc m) zero r s d at at' same =
    let key : route_key r ≡ route_key x = same ∙ sym (ap route_key (some_injective at')) in
    absurd (ground (arith, d.0, claims_entry routes m r (route_key x) at key))
Distinct-index (x ∷ routes) (suc m) (suc n) r s d at at' same =
    ap (λ k. suc k) (Distinct-index routes m n r s d.1 at at' same)

route_key_ap :
    (r s : RouteConfig) → r.match ≡ s.match → r.value ≡ s.value → route_key r ≡ route_key s
unfolding route_key
route_key_ap r s e f = rw (e, f) refl

empty-IsExclusive : IsExclusive empty.connections
unfolding IsExclusive lookup
empty-IsExclusive = (λ id c found. absurd (cc), λ id c found. absurd (cc))

-- After any sequence of calls that starts from the empty hub, two registered routes with the same kind
-- of match and the same value are one and the same: they are the route at one place of the list of one
-- connection.
pub run-routes_unique :
    (calls : List Call) (i j : String) (c d : ControlConnection) (m n : ℕ) (r s : RouteConfig)
    → lookup i (run empty calls).0.connections ≡ some c
    → lookup j (run empty calls).0.connections ≡ some d
    → get_elem? c.routes m ≡ some r
    → get_elem? d.routes n ≡ some s
    → r.match ≡ s.match
    → r.value ≡ s.value
    → (i ≡ j) × (m ≡ n)
unfolding IsExclusive
run-routes_unique calls i j c d m n r s at at' here here' kind value =
    let x = run-IsExclusive empty calls empty-IsWellFormed empty-IsExclusive in
    let same = route_key_ap r s kind value in
    elim (Bool-cases (j == i)) [
      | inl e ↦
          let together = (eq_iff j i).0 e in
          let one : c ≡ d =
            some_injective (
              sym at ∙ (ap (λ k. lookup k (run empty calls).0.connections) (sym together) ∙ at')) in
          (
            sym together,
            Distinct-index c.routes m n r s (x.0 i c at) here
                (subst (λ (y : ControlConnection). get_elem? y.routes n ≡ some s) (sym one) here')
                same,
          )
      | inr e ↦ absurd (
          ground (
            arith,
            x.1 i c at j d at' (ne_of_eq-false j i e) (route_key r)
                (claims_entry c.routes m r _ here refl),
            claims_entry d.routes n s (route_key r) here' (sym same),
          ))
    ]
