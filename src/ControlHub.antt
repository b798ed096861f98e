-- ===== src/ControlHub.antt =====
-- src/control-hub.ts: the connected backends, their routes, and the requests that wait for an answer.
-- A connection's id is its key in the map. Outside the hub, and arguments of its operations, are
-- whether a socket is open (`ready`), what its `send` throws, fresh UUIDs and the time. What the hub
-- does to the outside comes back as a list of effects. The promise of a request bears the request's
-- id. `timers` holds the armed timeouts with the method that their message names.
pub mod Routes
pub mod Requests
pub mod Events
pub mod Run
pub mod Broadcast
pub mod Invariant
pub mod Removal
pub mod Settling
pub mod Exclusive
pub mod Registration
pub mod Clashes
pub mod Uniqueness
pub mod Leaving
pub mod Lookup
mod Tests
use rtc_session_gateway.Base.{
  ℕ, zero, suc, ◌+◌, String, Bool, true, false, not, ◌&&◌, ◌||◌, Option, none, some, List, [], ◌∷◌,
  ◌++◌, map, ◌==◌, if◌then◌else◌, any, length, or_else, is_some,
}
use rtc_session_gateway.Base.Text.{◌<>◌}
use rtc_session_gateway.Base.Assoc.{Map, lookup, has, insert, erase, keys}
use rtc_session_gateway.Json.{Json, undefined}
use rtc_session_gateway.Errors.{
  Error, ControlErrorBody, control_protocol_error, control_connection_unavailable,
  control_request_error, Result, ok, err, ◌>>=◌, ◌>>◌, or_throw, guard,
}
use rtc_session_gateway.Routing.{
  RouteMatchType, exact, user_prefix, RouteConfig, InviteDestination, match_route,
  normalize_route_value,
}
use rtc_session_gateway.ControlProtocol.{
  ControlRequest, ControlResponse, ControlEvent, ControlMessage, request, response, event,
  RouteRegistration, make_control_error,
}
use rtc_session_gateway.ControlLog.{is_sensitive_control_request}

pub record ControlConnection : Type 0 where
  pub routes : List RouteConfig
  pub sequence_by_session : Map ℕ

pub record PendingRequest : Type 0 where
  pub connection_id : String
  pub method : String
  pub sensitive : Bool

pub record ControlHub : Type 0 where
  pub connections : Map ControlConnection
  pub pending : Map PendingRequest
  pub timers : Map String

abbrev pub empty : ControlHub
empty = record { connections = []; pending = []; timers = [] }

pub data Effect : Type 0 where
  sends : (connection_id : String) → ControlMessage → Effect
  resolves : (request_id : String) → Json → Effect
  rejects : (request_id : String) → Error → Effect
  disconnects : (connection_id : String) → Effect  -- emit('disconnect', connectionId)
  closes : (connection_id : String) → Effect  -- ws.close(1001, 'Gateway shutdown')

abbrev pub not_available : String → Error
not_available connection_id =
    control_connection_unavailable ("Control connection " <> connection_id <> " is not available")

unfoldable pub register_connection : ControlHub → String → ControlHub
register_connection hub id = record hub {
  connections = insert id (record { routes = []; sequence_by_session = [] }) hub.connections;
}

unfoldable pub require_connection : ControlHub → String → Result ControlConnection
require_connection hub connection_id =
    or_throw (lookup connection_id hub.connections) (not_available connection_id)

abbrev pub is_connected : ControlHub → String → Bool
is_connected hub connection_id = has connection_id hub.connections
