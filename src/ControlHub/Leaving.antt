-- ===== src/ControlHub/Leaving.antt =====
-- src/control-hub.ts: what `removeConnection` does to the connections and to the waiting requests.
use rtc_session_gateway.ControlHub.Run.{settles-append, settles}
use rtc_session_gateway.ControlHub.Removal.{
  owned_by-Unique, settles-reject_all, lookup-owned_by, lookup-reject_all, reject_all-connections,
  owned_request,
}
use rtc_session_gateway.ControlHub.Invariant.{IsWellFormed}
use rtc_session_gateway.ControlHub.{disconnects, ControlConnection, ControlHub}
use rtc_session_gateway.ControlHub.Requests.{reject_all, owned_by, remove_found, remove_connection}
use rtc_session_gateway.Base.Assoc.{lookup, erase, lookup-erase}
use rtc_session_gateway.Base.{arith, is_some, ◌≡◌, [], ◌∷◌, if◌then◌else◌, ◌==◌, none, some, String}

remove_found-isolates :
    (hub : ControlHub) (connection_id : String) (c : ControlConnection)
    → IsWellFormed hub
    → (id : String)
    → let (hub', out) = remove_found hub connection_id (some c) in
      (lookup id hub'.connections
        ≡ (if connection_id == id then none else lookup id hub.connections))
      × (lookup id hub'.pending ≡ (
          if is_some (owned_request connection_id (lookup id hub.pending))
          then none
          else lookup id hub.pending))
      × (settles id out
          ≡ (if is_some (owned_request connection_id (lookup id hub.pending)) then 1 else 0))
unfolding remove_found IsWellFormed
remove_found-isolates hub connection_id c (uc, up, ut, armed, owned) id =
    let without : ControlHub = record hub { connections = erase connection_id hub.connections } in
    let leaving = owned_by connection_id hub.pending in
    (
      rw (reject_all-connections connection_id leaving without)
          (lookup-erase connection_id id hub.connections uc),
      ground (
        arith,
        lookup-reject_all connection_id id leaving without up,
        lookup-owned_by connection_id id hub.pending up,
      ),
      ground (
        arith,
        settles-append id (reject_all connection_id leaving without).1
            (disconnects connection_id ∷ []),
        settles-reject_all connection_id id leaving without
            (owned_by-Unique connection_id hub.pending up),
        lookup-owned_by connection_id id hub.pending up,
      ),
    )

-- When a registered connection of a well-formed hub is removed: it is no longer registered and every
-- other connection stays; of the requests that waited, exactly those sent on it no longer wait, each of
-- them is settled once and no other request is settled.
pub remove_connection-isolates :
    (hub : ControlHub) (connection_id : String) (c : ControlConnection)
    → IsWellFormed hub
    → lookup connection_id hub.connections ≡ some c
    → (id : String)
    → let (hub', out) = remove_connection hub connection_id in
      (lookup id hub'.connections
        ≡ (if connection_id == id then none else lookup id hub.connections))
      × (lookup id hub'.pending ≡ (
          if is_some (owned_request connection_id (lookup id hub.pending))
          then none
          else lookup id hub.pending))
      × (settles id out
          ≡ (if is_some (owned_request connection_id (lookup id hub.pending)) then 1 else 0))
unfolding remove_connection
remove_connection-isolates hub connection_id c w found id =
    rw found (remove_found-isolates hub connection_id c w id)
