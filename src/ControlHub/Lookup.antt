-- ===== src/ControlHub/Lookup.antt =====
-- src/control-hub.ts: `findRoute` over all registered connections.
use rtc_session_gateway.ControlHub.Run.{run, Call}
use rtc_session_gateway.ControlHub.Invariant.{run-empty-IsWellFormed, IsWellFormed}
use rtc_session_gateway.ControlHub.Routes.{find_route_in, find_route}
use rtc_session_gateway.ControlHub.{
  empty, match_route, RouteConfig, InviteDestination, ControlConnection,
}
use rtc_session_gateway.Base.{
  String, Option, none, some, List, [], ◌∷◌, ◌≡◌, refl, sym, subst, Option-cases, Bool-cases, inl,
  inr, ◌==◌, arith, eq_iff, some_injective,
}
use rtc_session_gateway.Base.Assoc.{Map, lookup, Unique}

-- The answer of `findRoute`: a route of a registered connection, which is the one that the connection's
-- own routes give for the destination; or nothing, when those of no connection give one.
abbrev pub IsFound :
    Map ControlConnection → InviteDestination → Option (String × RouteConfig) → Type 0
IsFound connections d (some (id, route)) =
    (c : ControlConnection) × (lookup id connections ≡ some c)
    × (match_route c.routes d ≡ some route)
IsFound connections d none =
    (id : String) (c : ControlConnection)
    → lookup id connections ≡ some c
    → match_route c.routes d ≡ none

later-IsFound :
    (id : String) (c : ControlConnection) (m : Map ControlConnection) (d : InviteDestination)
    (answer : Option (String × RouteConfig))
    → lookup id m ≡ none
    → match_route c.routes d ≡ none
    → IsFound m d answer
    → IsFound ((id, c) ∷ m) d answer
unfolding lookup
later-IsFound id c m d none fresh miss found = λ j e h. elim (Bool-cases (id == j)) [
  | inl same ↦
      subst (λ (x : ControlConnection). match_route x.routes d ≡ none) {x = c} {y = e}
        (some_injective (ground (arith, h, same))) miss
  | inr other ↦ found j e (ground (arith, h, other))
]
later-IsFound id c m d (some (j, route)) fresh miss (e, at, given) =
    (e, ground (arith, at, fresh, eq_iff id j), given)

find_route_in-miss :
    (id : String) (c : ControlConnection) (m : Map ControlConnection) (d : InviteDestination)
    → match_route c.routes d ≡ none
    → find_route_in ((id, c) ∷ m) d ≡ find_route_in m d
unfolding find_route_in
find_route_in-miss id c m d miss = rw miss refl

find_route_in-hit :
    (id : String) (c : ControlConnection) (m : Map ControlConnection) (d : InviteDestination)
    (route : RouteConfig)
    → match_route c.routes d ≡ some route
    → find_route_in ((id, c) ∷ m) d ≡ some (id, route)
unfolding find_route_in
find_route_in-hit id c m d route given = rw given refl

find_route_in-IsFound :
    (m : Map ControlConnection) (d : InviteDestination) → Unique m → IsFound m d (find_route_in m d)
unfolding find_route_in lookup
find_route_in-IsFound [] d u = λ id c h. absurd (cc)
find_route_in-IsFound ((id, c) ∷ m) d u = elim (Option-cases (match_route c.routes d)) [
  | inl miss ↦
      subst (IsFound ((id, c) ∷ m) d) (sym (find_route_in-miss id c m d miss))
        (later-IsFound id c m d (find_route_in m d) u.0 miss (find_route_in-IsFound m d u.1))
  | inr (route, given) ↦
      subst (IsFound ((id, c) ∷ m) d) (sym (find_route_in-hit id c m d route given))
        (c, ground (arith, eq_iff id id), given)
]

-- After any sequence of calls, `findRoute` answers a route that a connection registered and that this
-- connection's routes give for the destination, and it answers nothing only if the routes of no
-- registered connection give one.
pub find_route-IsFound :
    (calls : List Call) (d : InviteDestination)
    → IsFound (run empty calls).0.connections d (find_route (run empty calls).0 d)
unfolding find_route IsWellFormed
find_route-IsFound calls d =
    find_route_in-IsFound (run empty calls).0.connections d (run-empty-IsWellFormed calls).0
