-- ===== src/ControlHub/Removal.antt =====
-- src/control-hub.ts: the loop of `removeConnection` over the requests of the connection that leaves.
use rtc_session_gateway.ControlHub.Run.{settles}
use rtc_session_gateway.Base.Assoc.{lookup-erase, has, erase-Unique, Unique}
use rtc_session_gateway.ControlHub.Requests.{forget, reject_all, owned_by}
use rtc_session_gateway.ControlHub.{lookup, PendingRequest, Map, ControlHub}
use rtc_session_gateway.Base.Assoc.{Map, lookup, has, Unique, lookup-erase, erase-Unique}
use rtc_session_gateway.Base.{
  refl, eq_iff, [], ◌∷◌, if◌then◌else◌, ◌==◌, none, some, Option, arith, some, Option, ◌≡◌, String,
}

-- the request, where it is one of this connection
abbrev pub owned_request : String → Option PendingRequest → Option PendingRequest
owned_request connection_id none = none
owned_request connection_id (some p) = if p.connection_id == connection_id then some p else none

pub lookup-owned_by :
    (connection_id id : String) (m : Map PendingRequest)
    → Unique m
    → lookup id (owned_by connection_id m) ≡ owned_request connection_id (lookup id m)
unfolding owned_by lookup
lookup-owned_by connection_id id [] u = refl
lookup-owned_by connection_id id ((i, p) ∷ m) u =
    ground (arith, eq_iff i id, lookup-owned_by connection_id id m u.1)

pub owned_by-Unique :
    (connection_id : String) (m : Map PendingRequest) → Unique m → Unique (owned_by connection_id m)
unfolding owned_by
owned_by-Unique connection_id [] u = tt
owned_by-Unique connection_id ((i, p) ∷ m) u =
    ground (arith, lookup-owned_by connection_id i m u.1, owned_by-Unique connection_id m u.1)

-- each map of waiting requests and timeouts has one entry for a key, and they have the same keys
abbrev pub IsArmed : ControlHub → Type 0
IsArmed hub =
    Unique hub.pending
    × Unique hub.timers
    × ((id : String) → has id hub.timers ≡ has id hub.pending)

pub forget-IsArmed : (hub : ControlHub) (id : String) → IsArmed hub → IsArmed (forget hub id)
forget-IsArmed hub id (up, ut, armed) = (
  erase-Unique id hub.pending up,
  erase-Unique id hub.timers ut,
  λ j. ground (arith, lookup-erase id j hub.pending up, lookup-erase id j hub.timers ut, armed j),
)

pub reject_all-IsArmed :
    (connection_id : String) (m : Map PendingRequest) (hub : ControlHub)
    → IsArmed hub
    → IsArmed (reject_all connection_id m hub).0
unfolding reject_all
reject_all-IsArmed connection_id [] hub w = w
reject_all-IsArmed connection_id ((i, p) ∷ m) hub w =
    reject_all-IsArmed connection_id m (forget hub i) (forget-IsArmed hub i w)

pub reject_all-connections :
    (connection_id : String) (m : Map PendingRequest) (hub : ControlHub)
    → (reject_all connection_id m hub).0.connections ≡ hub.connections
unfolding reject_all
reject_all-connections connection_id [] hub = refl
reject_all-connections connection_id ((i, p) ∷ m) hub =
    reject_all-connections connection_id m (forget hub i)

pub lookup-reject_all :
    (connection_id id : String) (m : Map PendingRequest) (hub : ControlHub)
    → Unique hub.pending
    → lookup id (reject_all connection_id m hub).0.pending
      ≡ (if has id m then none else lookup id hub.pending)
unfolding reject_all lookup
lookup-reject_all connection_id id [] hub u = refl
lookup-reject_all connection_id id ((i, p) ∷ m) hub u = ground (
  arith,
  eq_iff i id,
  lookup-erase i id hub.pending u,
  lookup-reject_all connection_id id m (forget hub i) (erase-Unique i hub.pending u),
)

pub settles-reject_all :
    (connection_id id : String) (m : Map PendingRequest) (hub : ControlHub)
    → Unique m
    → settles id (reject_all connection_id m hub).1 ≡ (if has id m then 1 else 0)
unfolding reject_all lookup
settles-reject_all connection_id id [] hub u = refl
settles-reject_all connection_id id ((i, p) ∷ m) hub u =
    ground (arith, eq_iff i id, settles-reject_all connection_id id m (forget hub i) u.1)
