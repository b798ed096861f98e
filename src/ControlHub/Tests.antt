-- ===== src/ControlHub/Tests.antt =====
-- src/control-hub.ts at work on two backends, one of which leaves with a request under way.
use rtc_session_gateway.ControlHub.Requests.{send_control_request}
use rtc_session_gateway.ControlHub.{require_connection, register_connection}
use rtc_session_gateway.Base.Assoc.{insert}
use rtc_session_gateway.ControlHub.Routes.{route_key}
use rtc_session_gateway.Routing.{normalize_route_value}
use rtc_session_gateway.ControlHub.Lookup.{find_route-IsFound, IsFound}
use rtc_session_gateway.ControlHub.Settling.{run-settles_once}
use rtc_session_gateway.ControlHub.Leaving.{remove_connection-isolates}
use rtc_session_gateway.ControlHub.Removal.{owned_request}
use rtc_session_gateway.ControlHub.Registration.{set_routes_iff, with_routes, Accepts, asked}
use rtc_session_gateway.ControlProtocol.{RouteRegistration, ControlResponse, ControlRequest}
use rtc_session_gateway.ControlHub.Uniqueness.{run-routes_unique}
use rtc_session_gateway.ControlHub.Run.{
  times_out, removes, issued_in, waiting, responds, sets_routes, requests, run, registers, settles,
  Call,
}
use rtc_session_gateway.ControlHub.Routes.{find_route, registered_route, set_routes}
use rtc_session_gateway.ControlHub.Requests.{remove_connection}
use rtc_session_gateway.ControlHub.Invariant.{run-empty-IsWellFormed, IsWellFormed}
use rtc_session_gateway.ControlHub.{
  InviteDestination, empty, user_prefix, ok, exact, ControlHub, ControlConnection,
}
use rtc_session_gateway.Base.{
  some, ◌≡◌, ◌↔◌, ◌+◌, ◌∷◌, [], List, String, none, refl, true, ℕ, is_some, if◌then◌else◌, ◌==◌,
  arith,
}
use rtc_session_gateway.Base.Assoc.{lookup}
use rtc_session_gateway.Json.{undefined}

abbrev sales : RouteRegistration
sales = record { match = exact; value = "sip:sales@example.com;lr" }

abbrev support : RouteRegistration
support = record { match = user_prefix; value = "sup" }

abbrev invite : ControlRequest
invite = record { id = "r1"; method = "session.incoming"; params = undefined }

abbrev accepted : ControlResponse
accepted = record { id = "r1"; is_ok = true; result = undefined; error = none }

abbrev serving : List Call
serving =
    registers "a"
    ∷ registers "b"
    ∷ sets_routes "a" (sales ∷ support ∷ [])
    ∷ sets_routes "b" (sales ∷ [])
    ∷ requests "a" invite true none
    ∷ []

abbrev ended : List Call
ended =
    registers "a"
    ∷ requests "a" invite true none
    ∷ responds "b" accepted
    ∷ removes "a"
    ∷ times_out "r1"
    ∷ []

abbrev serving_hub : ControlHub
serving_hub = (run empty serving).0

abbrev backend : ControlConnection
backend = record { routes = asked "a" (sales ∷ support ∷ []); sequence_by_session = [] }

run-empty-IsWellFormed_example : IsWellFormed (run empty serving).0
run-empty-IsWellFormed_example = run-empty-IsWellFormed serving

run-settles_once_example :
    settles "r1" (run empty ended).1 + waiting "r1" (run empty ended).0 ≡ issued_in "r1" ended
run-settles_once_example = run-settles_once ended "r1" (omega arith)

abbrev place : ℕ
place = 1

abbrev owner : String
owner = "a"

run-routes_unique_example : (owner ≡ owner) × (place ≡ place)
unfolding lookup run send_control_request set_routes require_connection register_connection insert
    route_key normalize_route_value
run-routes_unique_example =
    run-routes_unique serving owner owner backend backend place place (registered_route "a" support)
      (registered_route "a" support) refl refl refl refl refl refl

set_routes_iff_example : (set_routes serving_hub "b" (sales ∷ []) ≡ ok (serving_hub, [])) ↔ (
    (c : ControlConnection) × Accepts serving_hub "b" (sales ∷ []) c
    × (serving_hub ≡ with_routes serving_hub "b" c (asked "b" (sales ∷ [])))
    × ([] ≡ asked "b" (sales ∷ [])))
unfolding IsWellFormed
set_routes_iff_example =
    set_routes_iff serving_hub serving_hub "b" (sales ∷ []) [] (run-empty-IsWellFormed serving).0

remove_connection-isolates_example :
    let (hub', out) = remove_connection serving_hub "a" in
    (lookup "r1" hub'.connections
      ≡ (if "a" == "r1" then none else lookup "r1" serving_hub.connections))
    × (lookup "r1" hub'.pending ≡ (
        if is_some (owned_request "a" (lookup "r1" serving_hub.pending))
        then none
        else lookup "r1" serving_hub.pending))
    × (settles "r1" out
        ≡ (if is_some (owned_request "a" (lookup "r1" serving_hub.pending)) then 1 else 0))
unfolding lookup run send_control_request set_routes require_connection register_connection insert
    route_key normalize_route_value
remove_connection-isolates_example =
    remove_connection-isolates serving_hub "a" backend (run-empty-IsWellFormed serving) refl "r1"

abbrev dialled : InviteDestination
dialled = record { destination_uri = "sip:support@example.com"; destination_user = some "support" }

find_route-IsFound_example :
    IsFound (run empty serving).0.connections dialled (find_route (run empty serving).0 dialled)
find_route-IsFound_example = find_route-IsFound serving dialled
