-- ===== src/ControlHub/Routes.antt =====
-- src/control-hub.ts: `setRoutes`, the check that no two routes clash, `findRoute` and `routeCount`.
use rtc_session_gateway.Base.{
  ℕ, ◌+◌, String, Bool, not, Option, none, some, List, [], ◌∷◌, map, ◌==◌, if◌then◌else◌, any,
  length,
}
use rtc_session_gateway.Base.Text.{◌<>◌}
use rtc_session_gateway.Base.Assoc.{Map, insert}
use rtc_session_gateway.Errors.{Error, control_protocol_error, Result, ok, ◌>>=◌, ◌>>◌, guard}
use rtc_session_gateway.Routing.{
  RouteMatchType, exact, user_prefix, RouteConfig, InviteDestination, match_route,
  normalize_route_value,
}
use rtc_session_gateway.ControlProtocol.{RouteRegistration}
use rtc_session_gateway.ControlHub.{ControlConnection, ControlHub, require_connection}

abbrev match_name : RouteMatchType → String
match_name exact = "exact"
match_name user_prefix = "userPrefix"

unfoldable pub route_key : RouteConfig → String
route_key route = match_name route.match <> ":" <> route.value

-- new Set(routes.map(routeKey)).has(key)
abbrev pub claims : String → List RouteConfig → Bool
claims key = any (λ route. route_key route == key)

abbrev route_conflict : String → Error
route_conflict message = control_protocol_error message "ROUTE_CONFLICT"

-- the first loop of `assertRoutesAvailable`
unfoldable pub check_duplicates : List String → List RouteConfig → Result (Unit {0})
check_duplicates seen [] = ok tt
check_duplicates seen (route ∷ routes) = do
  guard (not (any (λ key. key == route_key route) seen))
      (route_conflict ("duplicate route " <> route_key route))
  check_duplicates (route_key route ∷ seen) routes

unfoldable pub check_claimed : List RouteConfig → List RouteConfig → Result (Unit {0})
check_claimed claimed [] = ok tt
check_claimed claimed (route ∷ routes) = do
  guard (not (claims (route_key route) claimed))
      (route_conflict ("route " <> route_key route <> " is already registered"))
  check_claimed claimed routes

-- the second loop: the routes of the other connections
unfoldable pub check_others : String → List RouteConfig → Map ControlConnection → Result (Unit {0})
check_others owner routes [] = ok tt
check_others owner routes ((id, connection) ∷ connections) = do
  if id == owner then ok tt else check_claimed connection.routes routes
  check_others owner routes connections

unfoldable pub assert_routes_available : ControlHub → String → List RouteConfig → Result (Unit {0})
unfolding check_duplicates check_others check_claimed
assert_routes_available hub owner routes = do
  check_duplicates [] routes
  check_others owner routes hub.connections

unfoldable pub registered_route : String → RouteRegistration → RouteConfig
registered_route connection_id registration = record {
  match = registration.match;
  value = normalize_route_value registration.value;
  url = "control://" <> connection_id;
}

unfoldable pub set_routes :
    ControlHub → String → List RouteRegistration → Result (ControlHub × List RouteConfig)
unfolding registered_route check_duplicates check_claimed check_others assert_routes_available
set_routes hub connection_id routes = do
  connection ← require_connection hub connection_id
  let next_routes = map (registered_route connection_id) routes
  assert_routes_available hub connection_id next_routes
  ok (
    record hub {
      connections =
          insert connection_id (record connection { routes = next_routes }) hub.connections;
    },
    next_routes,
  )

unfoldable pub or_later :
    String → Option RouteConfig → Option (String × RouteConfig) → Option (String × RouteConfig)
or_later id none later = later
or_later id (some route) later = some (id, route)

unfoldable pub find_route_in :
    Map ControlConnection → InviteDestination → Option (String × RouteConfig)
unfolding or_later
find_route_in [] destination = none
find_route_in ((id, connection) ∷ connections) destination =
    or_later id (match_route connection.routes destination) (find_route_in connections destination)

unfoldable pub find_route : ControlHub → InviteDestination → Option (String × RouteConfig)
unfolding find_route_in
find_route hub destination = find_route_in hub.connections destination

route_count_in : Map ControlConnection → ℕ
route_count_in [] = 0
route_count_in ((id, connection) ∷ connections) =
    length connection.routes + route_count_in connections

pub route_count : ControlHub → ℕ
unfolding route_count_in
route_count hub = route_count_in hub.connections
