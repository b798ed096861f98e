-- ===== src/SessionCommands/ErrorCodes.antt =====
-- src/session-commands.ts: `controlErrorForCommand`, the code that a failed command is answered with.
use rtc_session_gateway.Base.{String, Option, none, some, eqb, if◌then◌else◌}
use rtc_session_gateway.Json.{undefined}
use rtc_session_gateway.Errors.{
  Error, ControlErrorBody, gateway_draining, command_not_implemented, command_validation,
  invalid_http_action, media_action_conflict, call_not_found, media_session_not_found,
  media_endpoint_not_found, media_backend_not_found, media_unavailable, media_backend_unavailable,
  media_recording_proxy,
}
use rtc_session_gateway.ControlProtocol.{make_control_error}

abbrev coded : String → String → Option ControlErrorBody
coded code message = some (make_control_error code message undefined)

unfoldable pub control_error_for_command : Error → Option ControlErrorBody
control_error_for_command gateway_draining =
    coded "SHUTTING_DOWN" "Gateway is draining; send new calls and sessions to another instance"
control_error_for_command (command_not_implemented message) = coded "NOT_IMPLEMENTED" message
control_error_for_command (command_validation message) = coded "BAD_REQUEST" message
control_error_for_command (invalid_http_action message) = coded "BAD_REQUEST" message
control_error_for_command (media_action_conflict message) = coded "CONFLICT" message
control_error_for_command (call_not_found message) = coded "NOT_FOUND" message
control_error_for_command (media_session_not_found message) = coded "NOT_FOUND" message
control_error_for_command (media_endpoint_not_found message) = coded "NOT_FOUND" message
control_error_for_command (media_backend_not_found message) = coded "NOT_FOUND" message
control_error_for_command (media_unavailable message) = coded "MEDIA_UNAVAILABLE" message
control_error_for_command (media_backend_unavailable message) = coded "MEDIA_UNAVAILABLE" message
control_error_for_command (media_recording_proxy status message) =
    if eqb status 400
    then coded "BAD_REQUEST" message
    else coded (if eqb status 404 then "NOT_FOUND" else "RECORDING_PROXY_ERROR") message
control_error_for_command _ = none
