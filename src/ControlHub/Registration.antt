-- ===== src/ControlHub/Registration.antt =====
-- src/control-hub.ts: `setRoutes` as a whole: when it accepts a list of routes, and what it changes.
use rtc_session_gateway.Errors.{or_throw_inv, ok_injective, >>=-eq-ok}
use rtc_session_gateway.ControlHub.Exclusive.{
  others_sound, duplicates_sound, others_complete, duplicates_complete, ApartFrom, Distinct,
}
use rtc_session_gateway.ControlHub.Routes.{
  check_duplicates, assert_routes_available, set_routes, registered_route,
}
use rtc_session_gateway.ControlHub.{
  or_throw, ok, RouteConfig, require_connection, RouteRegistration, ControlConnection, ControlHub,
}
use rtc_session_gateway.Base.Assoc.{lookup, Unique, insert}
use rtc_session_gateway.Base.{◌≡◌, ◌↔◌, map, String, refl, sym, ap, List, [], some}

-- The list of routes that a connection asks for.
abbrev pub asked : String → List RouteRegistration → List RouteConfig
unfolding registered_route
asked connection_id routes = map (registered_route connection_id) routes

-- The connection `c` with new routes.
abbrev pub with_routes : ControlHub → String → ControlConnection → List RouteConfig → ControlHub
with_routes hub id c routes = record hub {
  connections = insert id (record c { routes = routes }) hub.connections;
}

-- What `setRoutes` accepts: the connection `c` is registered, no two of the routes have one key, and
-- no other connection has a route with the key of one of them.
pub record Accepts (hub : ControlHub) (id : String) (routes : List RouteRegistration)
    (c : ControlConnection) : Type 0 where
  pub connected : lookup id hub.connections ≡ some c
  pub distinct : Distinct (asked id routes)
  pub apart : ApartFrom id (asked id routes) hub.connections

pub set_routes_inv :
    (hub hub' : ControlHub) (id : String) (routes : List RouteRegistration)
    (next : List RouteConfig)
    → set_routes hub id routes ≡ ok (hub', next)
    → (c : ControlConnection) × Accepts hub id routes c
      × (hub' ≡ with_routes hub id c (asked id routes))
      × (next ≡ asked id routes)
unfolding set_routes require_connection assert_routes_available
set_routes_inv hub hub' id routes next h =
    let (c, found, h1) = >>=-eq-ok (or_throw (lookup id hub.connections) _) _ h in
    let (u, checked, h2) = >>=-eq-ok (assert_routes_available hub id (asked id routes)) _ h1 in
    let (v, distinct, others) = >>=-eq-ok (check_duplicates [] (asked id routes)) _ checked in
    let same = ok_injective h2 in
    (
      c,
      record {
        connected = or_throw_inv _ _ found;
        distinct = (duplicates_sound [] (asked id routes) distinct).0;
        apart = others_sound id (asked id routes) hub.connections others;
      },
      sym (ap (λ (p : ControlHub × List RouteConfig). p.0) same),
      sym (ap (λ (p : ControlHub × List RouteConfig). p.1) same),
    )

pub set_routes-Accepts :
    (hub : ControlHub) (id : String) (routes : List RouteRegistration) (c : ControlConnection)
    → Unique hub.connections
    → Accepts hub id routes c
    → set_routes hub id routes ≡ ok (with_routes hub id c (asked id routes), asked id routes)
unfolding set_routes require_connection assert_routes_available
set_routes-Accepts hub id routes c u a = rw a.connected (
    rw (duplicates_complete [] (asked id routes) a.distinct (λ key f. absurd (cc)))
      (rw (others_complete id (asked id routes) hub.connections u a.apart) refl))

-- In a hub whose map of connections has one entry for a key: `setRoutes` succeeds exactly when the
-- connection is registered, no two of the normalised routes have one key and no other connection has
-- a route with the key of one of them. Then it replaces the routes of this connection by the normalised
-- ones, all of them, and returns them.
pub set_routes_iff :
    (hub hub' : ControlHub) (id : String) (routes : List RouteRegistration)
    (next : List RouteConfig)
    → Unique hub.connections
    → (set_routes hub id routes ≡ ok (hub', next)) ↔ (
        (c : ControlConnection) × Accepts hub id routes c
        × (hub' ≡ with_routes hub id c (asked id routes))
        × (next ≡ asked id routes))
set_routes_iff hub hub' id routes next u = (
  set_routes_inv hub hub' id routes next,
  λ (c, accepted, same, listed). rw (same, listed) (set_routes-Accepts hub id routes c u accepted),
)
