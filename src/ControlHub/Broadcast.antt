-- ===== src/ControlHub/Broadcast.antt =====
-- src/control-hub.ts: `broadcastEvent`, which sends an event on each connection in turn.
use rtc_session_gateway.Base.{refl, ap}
use rtc_session_gateway.Base.{none, ◌≡◌, Option, String, List, Bool, [], ◌∷◌, ◌++◌, map}
use rtc_session_gateway.ControlHub.{keys, Error, Json, ControlHub, Effect}
use rtc_session_gateway.ControlHub.Run.{run, step, Call, sends_event}
use rtc_session_gateway.ControlHub.Events.{HubEvent, send_event}

-- what the outside contributes to one `sendEvent`
pub record Delivery : Type 0 where
  pub ready : Bool
  pub thrown : Option Error
  pub event_id : String
  pub now : String

-- the loop over the connections
unfoldable pub broadcast_to :
    ControlHub → List String → HubEvent → (String → Delivery) → ControlHub × List Effect
broadcast_to hub [] e outside = (hub, [])
broadcast_to hub (id ∷ ids) e outside =
    let d = outside id in
    let (sent, hub', out) = send_event hub id e d.ready d.thrown d.event_id d.now in
    let (last, rest) = broadcast_to hub' ids e outside in (last, out ++ rest)

unfoldable pub broadcast_event :
    ControlHub → (name : String) → Json → (String → Delivery) → ControlHub × List Effect
unfolding broadcast_to
broadcast_event hub name payload outside =
    broadcast_to hub (keys hub.connections)
      (record { event = name; session_id = none; payload = payload }) outside

abbrev pub sending : HubEvent → (String → Delivery) → String → Call
sending e outside id = let d = outside id in sends_event id e d.ready d.thrown d.event_id d.now

broadcast_to-run :
    (hub : ControlHub) (ids : List String) (e : HubEvent) (outside : String → Delivery)
    → broadcast_to hub ids e outside ≡ run hub (map (sending e outside) ids)
unfolding broadcast_to run step
broadcast_to-run hub [] e outside = refl
broadcast_to-run hub (id ∷ ids) e outside =
    let d = outside id in
    let sent = send_event hub id e d.ready d.thrown d.event_id d.now in
    let first : ControlHub × List Effect → ControlHub × List Effect = λ q. (q.0, sent.2 ++ q.1) in
    ap first (broadcast_to-run sent.1 ids e outside)

-- A broadcast is a run of `sendEvent`, once on each connection, so that what holds of every run of calls
-- holds of it.
pub broadcast_event-run :
    (hub : ControlHub) (name : String) (payload : Json) (outside : String → Delivery)
    → broadcast_event hub name payload outside
      ≡ run hub (
          map
            (sending (record { event = name; session_id = none; payload = payload }) outside)
            (keys hub.connections))
unfolding broadcast_event
broadcast_event-run hub name payload outside = broadcast_to-run hub _ _ outside
