-- ===== src/ControlHub/Events.antt =====
-- src/control-hub.ts: `sendEvent`, `sendRaw` and `closeConnections`.
use rtc_session_gateway.Base.{
  ℕ, ◌+◌, String, Bool, true, false, not, ◌&&◌, Option, none, some, List, [], ◌∷◌, ◌==◌,
  if◌then◌else◌, or_else, is_some,
}
use rtc_session_gateway.Base.Assoc.{Map, lookup, has, insert, keys}
use rtc_session_gateway.Json.{Json}
use rtc_session_gateway.Errors.{Error}
use rtc_session_gateway.ControlProtocol.{ControlResponse, response, event}
use rtc_session_gateway.ControlHub.{ControlConnection, ControlHub, Effect, sends, closes}

-- the argument of `sendEvent`
pub record HubEvent : Type 0 where
  pub event : String
  pub session_id : Option String
  pub payload : Json

-- `event.sessionId ? nextSequence(...) : undefined`, with the sequences after it
numbered : Map ℕ → Option String → Option ℕ × Map ℕ
numbered sequences none = (none, sequences)
numbered sequences (some session_id) =
    let next = or_else (lookup session_id sequences) 0 + 1 in
    if session_id == "" then (none, sequences) else (some next, insert session_id next sequences)

unfoldable pub send_event_on :
    ControlHub
    → Option ControlConnection
    → String
    → HubEvent
    → Bool
    → Option Error
    → String
    → String
    → Bool × ControlHub × List Effect
unfolding numbered
send_event_on hub none connection_id e ready thrown event_id now = (false, hub, [])
send_event_on hub (some connection) connection_id e false thrown event_id now = (false, hub, [])
send_event_on hub (some connection) connection_id e true thrown event_id now =
    let (sequence, sequences) = numbered connection.sequence_by_session e.session_id in
    let counted = record hub {
      connections =
          insert connection_id (record connection { sequence_by_session = sequences })
            hub.connections;
    } in
    let message = event (record {
      event = e.event;
      event_id = event_id;
      session_id = e.session_id;
      sequence = sequence;
      occurred_at = now;
      payload = e.payload;
    }) in
    if is_some thrown
    then (false, counted, [])
    else (true, counted, sends connection_id message ∷ [])

unfoldable pub send_event :
    ControlHub
    → String
    → HubEvent
    → Bool
    → Option Error
    → String
    → String
    → Bool × ControlHub × List Effect
unfolding send_event_on
send_event hub connection_id e ready thrown event_id now =
    send_event_on hub (lookup connection_id hub.connections) connection_id e ready thrown event_id
      now

-- `sendRaw`: an unknown connection, a socket that is not open or a throwing `send` answer false
unfoldable pub send_raw :
    ControlHub → String → ControlResponse → Bool → Option Error → Bool × List Effect
send_raw hub connection_id message ready thrown =
    if has connection_id hub.connections && ready && not (is_some thrown)
    then (true, sends connection_id (response message) ∷ [])
    else (false, [])

close_all : List String → List Effect
close_all [] = []
close_all (id ∷ ids) = closes id ∷ close_all ids

pub close_connections : ControlHub → List Effect
unfolding close_all
close_connections hub = close_all (keys hub.connections)
