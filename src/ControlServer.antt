-- ===== src/ControlServer.antt =====
-- src/control-server.ts: connections that are upgraded, and the messages that come in on them. The
-- gateway that `src/index.ts` starts has one lifecycle, which the server and its commands share; it is
-- a field of the server here. A command that ends in a call on the gateway or the media sessions
-- waits for what that call answers: `complete_request` goes on with the state of that time. The
-- WebSocket library and `JSON.parse` are parameters, and log lines are left out, except that making one
-- may throw.
pub mod Requests
pub mod Upgrades
pub mod Admission
pub mod Answering
mod Tests
use rtc_session_gateway.SessionCommands.ErrorCodes.{control_error_for_command}
use rtc_session_gateway.SessionCommands.{SessionCommandHandler}
use rtc_session_gateway.Json.{undefined}
use rtc_session_gateway.GatewayLifecycle.{GatewayLifecycle}
use rtc_session_gateway.ControlProtocol.{make_control_error}
use rtc_session_gateway.Errors.{
  gateway_draining, plain, media_backend_unavailable, media_backend_not_found,
  media_recording_proxy, media_action_conflict, media_unavailable, media_endpoint_not_found,
  media_session_not_found, http_post_error, invalid_http_action, command_not_implemented,
  command_validation, control_request_error, invalid_call_state, control_connection_unavailable,
  control_protocol_error, call_not_found, Error, ControlErrorBody,
}
use rtc_session_gateway.ControlHub.{ControlHub}
use rtc_session_gateway.Base.{or_else, String, Bool, true, false, Option, none, some}

pub record ControlServer : Type 0 where
  pub hub : ControlHub
  pub lifecycle : Option GatewayLifecycle
  pub commands : SessionCommandHandler

-- err.message
abbrev pub message_of : Error → String
message_of (control_protocol_error message code) = message
message_of (control_connection_unavailable message) = message
message_of (control_request_error body) = body.message
message_of gateway_draining = "Gateway is draining; send new calls and sessions to another instance"
message_of (command_validation message) = message
message_of (command_not_implemented message) = message
message_of (invalid_http_action message) = message
message_of (http_post_error message code) = message
message_of (call_not_found message) = message
message_of (invalid_call_state message) = message
message_of (media_session_not_found message) = message
message_of (media_endpoint_not_found message) = message
message_of (media_unavailable message) = message
message_of (media_action_conflict message) = message
message_of (media_recording_proxy status message) = message
message_of (media_backend_not_found message) = message
message_of (media_backend_unavailable message) = message
message_of (plain message) = message

abbrev pub failed_with : String → String → ControlErrorBody
failed_with code message = make_control_error code message undefined

unfoldable pub other_error : Error → ControlErrorBody
other_error (call_not_found message) = failed_with "NOT_FOUND" message
other_error (invalid_call_state message) = failed_with "CONFLICT" message
other_error (control_protocol_error message code) = failed_with code message
other_error thrown = failed_with "INTERNAL_ERROR" (message_of thrown)

unfoldable pub error_for_command : Error → ControlErrorBody
unfolding other_error
error_for_command thrown = or_else (control_error_for_command thrown) (other_error thrown)
