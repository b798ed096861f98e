-- ===== src/SessionCommands/Tests.antt =====
-- Commands of src/session-commands.ts that are run at concrete parameters.
use rtc_session_gateway.SessionCommands.Valid.Consequences.{RefusedWith}
use rtc_session_gateway.ControlProtocol.{make_control_error}
use rtc_session_gateway.Json.{undefined}
use rtc_session_gateway.Base.{String}
use rtc_session_gateway.Base.Assoc.{lookup}
use rtc_session_gateway.SessionCommands.Sip.{
  create_outbound, parse_optional_sip_auth, bye, call_named,
}
use rtc_session_gateway.SessionCommands.{accepting, require_media}
use rtc_session_gateway.SessionCommands.Validators.{
  require_object, optional_string, required_string, optional_positive_integer, optional_integer,
  optional_boolean,
}
use rtc_session_gateway.Json.{field}
use rtc_session_gateway.Base.Text.{is_blank}
use rtc_session_gateway.HttpContract.{parse_optional_headers}
use rtc_session_gateway.GatewayLifecycle.{assert_accepting}
use rtc_session_gateway.SessionCommands.Media.{with_id}
use rtc_session_gateway.SessionCommands.Gathering.{gather}
use rtc_session_gateway.CallRegistry.{empty}
use rtc_session_gateway.SessionCommands.Valid.Run.{
  execute-gathering, execute-coded, execute_while_draining, execute-IsValid,
}
use rtc_session_gateway.Errors.{command_validation, media_unavailable, gateway_draining, err}
use rtc_session_gateway.SessionCommands.Valid.Printed.{execute-print_gather, print_gather}
use rtc_session_gateway.SessionCommands.ErrorCodes.{control_error_for_command}
use rtc_session_gateway.GatewayLifecycle.{running}
use rtc_session_gateway.SessionCommands.Valid.Consequences.{IsNewWork}
use rtc_session_gateway.SessionCommands.Valid.{IsValid, IsGather}
use rtc_session_gateway.SessionCommands.Execute.{execute}
use rtc_session_gateway.MediaSessionService.Gather.{gathering_of, Gathering}
use rtc_session_gateway.Json.{num, str, prop, end, obj, nat, Json}
use rtc_session_gateway.Base.{[], ◌≤◌, true, false, ◌≡◌, refl}
use rtc_session_gateway.SessionCommands.{
  gathers, ok, says_bye, creates_outbound, some, none, OutboundParams, GatherParams,
  GatewayLifecycle, CommandContext, SessionCommandHandler,
}

abbrev plain_handler : SessionCommandHandler
plain_handler = record {
  registry = empty;
  cancels_outbound = true;
  media = some [];
  lifecycle = none;
}

abbrev draining_gateway : GatewayLifecycle
draining_gateway = record running { is_draining = true }

abbrev draining_handler : SessionCommandHandler
draining_handler = record plain_handler { lifecycle = some draining_gateway }

abbrev bare_handler : SessionCommandHandler
bare_handler = record plain_handler { media = none }

abbrev on_socket : CommandContext
on_socket = record { control_connection_id = some "c1" }

abbrev pin : GatherParams
pin = record {
  endpoint_id = "e1";
  num_digits = some (nat 4);
  timeout_ms = some (nat 8000);
  inter_digit_timeout_ms = none;
  terminator = none;
  sensitive = some true;
}

abbrev to_bob : Json
to_bob = obj (prop "requestUri" (str "sip:bob@example.org") (prop "sdp" (str "v=0") end))

abbrev bob : OutboundParams
bob = record {
  request_uri = "sip:bob@example.org";
  sdp = "v=0";
  headers = none;
  receiver_url = none;
  control_connection_id = some "c1";
  calling_number = none;
  calling_name = none;
  proxy = none;
  outbound_attempt_id = none;
  auth = none;
}

calls_bob : execute plain_handler "sip.createOutbound" to_bob on_socket ≡ ok (creates_outbound bob)
unfolding execute lookup create_outbound accepting require_object optional_string field
    parse_optional_sip_auth required_string is_blank parse_optional_headers
calls_bob = refl

refused_draining :
    execute draining_handler "sip.createOutbound" to_bob on_socket ≡ err gateway_draining
unfolding execute lookup create_outbound accepting assert_accepting
refused_draining = refl

execute-IsValid_example : IsValid plain_handler (creates_outbound bob)
execute-IsValid_example =
    execute-IsValid plain_handler "sip.createOutbound" to_bob on_socket calls_bob

execute-coded_example :
    (code message : String) × RefusedWith gateway_draining code message
    × (control_error_for_command gateway_draining
        ≡ some (make_control_error code message undefined))
execute-coded_example =
    execute-coded draining_handler "sip.createOutbound" to_bob on_socket refused_draining

hangs_up :
    execute draining_handler "sip.bye" (obj (prop "callId" (str "k1") end)) on_socket
    ≡ ok (says_bye "k1" none none)
unfolding execute lookup bye require_object call_named field is_blank parse_optional_headers
hangs_up = refl

execute_while_draining_example : ¬ (IsNewWork draining_handler (says_bye "k1" none none))
execute_while_draining_example =
    execute_while_draining draining_handler "sip.bye" (obj (prop "callId" (str "k1") end)) on_socket
      draining_gateway refl refl hangs_up

pin-IsGather : IsGather pin
unfolding is_blank
pin-IsGather = record {
  endpoint_text = refl;
  num_digits_positive = tt;
  timeout_positive = tt;
  inter_digit_positive = tt;
  terminator_text = tt;
}

execute-print_gather_example :
    execute plain_handler "media.gather" (print_gather "s1" pin) on_socket ≡ ok (gathers "s1" pin)
unfolding is_blank
execute-print_gather_example =
    execute-print_gather plain_handler "s1" pin on_socket refl refl pin-IsGather

gathers_pin :
    execute plain_handler "media.gather" (print_gather "s1" pin) on_socket ≡ ok (gathers "s1" pin)
unfolding execute lookup gather require_object require_media required_string field is_blank
    optional_positive_integer optional_integer optional_string optional_boolean
gathers_pin = refl

execute-gathering_example :
    (g : Gathering) × (gathering_of pin (record { on_first_digit = false; reset_timeout_on = none })
      ≡ ok g)
    × (1 ≤ g.timeout_ms)
    × (1 ≤ g.inter_digit_timeout_ms)
execute-gathering_example =
    execute-gathering plain_handler "media.gather" (print_gather "s1" pin) on_socket
      (record { on_first_digit = false; reset_timeout_on = none }) gathers_pin

-- No media sessions: a media command is refused before its parameters are read.
without_media :
    execute bare_handler "media.stop" (obj end) on_socket
    ≡ err (media_unavailable "Media commands require RTPBRIDGE_HOST")
unfolding execute lookup with_id require_object require_media
without_media = refl

zero_digits :
    execute plain_handler "media.gather"
      (obj (
        prop "sessionId"
          (str "s1")
          (prop "endpointId" (str "e1") (prop "numDigits" (num (nat 0)) end))))
      on_socket
    ≡ err (command_validation "numDigits must be a positive integer")
unfolding execute lookup gather require_object require_media required_string field is_blank
    optional_positive_integer optional_integer
zero_digits = refl
