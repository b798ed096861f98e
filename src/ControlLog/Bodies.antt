-- ===== src/ControlLog/Bodies.antt =====
-- src/control-log.ts: the exported functions, each of which makes the body of a log line.
use rtc_session_gateway.ControlLog.Summaries.{scrub_error, scrub_identifier}
use rtc_session_gateway.ControlLog.Tables.{
  rtpbridge_response_fields, rtpbridge_event_fields, response_fields, listed,
  rtpbridge_request_fields, request_fields, event_fields,
}
use rtc_session_gateway.ControlLog.Redaction.{safe_protocol_name}
use rtc_session_gateway.ControlLog.Values.{type_marker, record_of}
use rtc_session_gateway.ControlLog.Scrub.{
  response_body, event_body, request_body, scrub_known_object, StructuredControlLogBody,
  ControlLogContext,
}
use rtc_session_gateway.ControlProtocol.{ControlResponse}
use rtc_session_gateway.ControlLog.Uri.{Platform}
use rtc_session_gateway.Base.{
  false, or_else, not, ◌==◌, true, String, Bool, Option, zero, if◌then◌else◌, [], ◌∷◌, none, some,
}
use rtc_session_gateway.Json.{nat, num, str?, str, undefined, null}
use rtc_session_gateway.Errors.{Result, ControlErrorBody, ◌>>=◌, ok}
use rtc_session_gateway.ControlLog.{field, obj, bool, Json, is_sensitive_control_request}

-- what an object answers at a name; any other value has no such property
abbrev pub flag_in : Json → Option Bool
flag_in (bool b) = some b
flag_in _ = none

unfoldable pub nested_sensitivity : Json → Json → Bool
nested_sensitivity (str event) (obj payload) =
    if event == "dtmf" then or_else (flag_in (field "sensitive" payload)) true else true
nested_sensitivity event payload = true

unfoldable pub event_is_sensitive_dtmf : Json → Bool
unfolding nested_sensitivity
event_is_sensitive_dtmf (obj event) =
    or_else (flag_in (field "sensitive" event))
      (nested_sensitivity (field "event" event) (field "data" event))
event_is_sensitive_dtmf value = true

unfoldable pub scrub_control_request :
    Platform → (id method : String) (params : Json) → Result StructuredControlLogBody
scrub_control_request platform id method params = do
  value ← scrub_known_object platform params (request_fields method) (record {
    method = some method;
    sensitive = some (is_sensitive_control_request method params);
  })
  ok (record {
    kind = request_body;
    id = scrub_identifier (str id);
    method = some (safe_protocol_name method);
    event = none;
    success = none;
    value = value;
  })

-- context.method ? safeProtocolName(context.method) : undefined
abbrev named : Option String → Option String
named none = none
named (some method) = if method == "" then none else some (safe_protocol_name method)

-- response.error as a value
abbrev pub error_object : Option ControlErrorBody → Json
error_object none = undefined
error_object (some error) =
    record_of
      (("code", str error.code) ∷ ("message", str error.message) ∷ ("details", error.details) ∷ [])

unfoldable pub scrub_control_response :
    Platform → ControlResponse → ControlLogContext → Result StructuredControlLogBody
scrub_control_response platform response context = do
  value ←
      if response.is_ok
      then scrub_known_object platform response.result (listed (response_fields context.method))
          context
      else ok (scrub_error (error_object response.error))
  ok (record {
    kind = response_body;
    id = scrub_identifier (str response.id);
    method = named context.method;
    event = none;
    success = some response.is_ok;
    value = value;
  })

abbrev bare_context : Option Bool → ControlLogContext
bare_context sensitive = record { method = none; sensitive = sensitive }

unfoldable pub scrub_rtpbridge_event : Platform → String → Json → Result StructuredControlLogBody
scrub_rtpbridge_event platform event payload = do
  value ←
      scrub_known_object platform payload (listed (rtpbridge_event_fields event))
        (bare_context (some (if event == "dtmf" then event_is_sensitive_dtmf payload else false)))
  ok (record {
    kind = event_body;
    id = undefined;
    method = none;
    event = some (safe_protocol_name event);
    success = none;
    value = value;
  })

-- the body of an event as a value
abbrev event_value : Option String → Json → Json
event_value event value =
    record_of (("type", str "event") ∷ ("event", str? event) ∷ ("value", value) ∷ [])

unfoldable pub scrub_nested : Platform → Json → Json → Json → Result Json
scrub_nested platform whole (str event) payload = do
  body ← scrub_rtpbridge_event platform event payload
  ok (event_value body.event body.value)
scrub_nested platform whole event payload = ok (type_marker whole)

unfoldable pub scrub_nested_rtpbridge_event : Platform → Json → Result Json
unfolding scrub_nested
scrub_nested_rtpbridge_event platform (obj event) =
    scrub_nested platform (obj event) (field "event" event) (field "data" event)
scrub_nested_rtpbridge_event platform value = ok (type_marker value)

unfoldable pub scrub_control_event :
    Platform → (event : String) → Json → Result StructuredControlLogBody
scrub_control_event platform event payload = do
  value ←
      if event == "media.rtpbridge"
      then scrub_nested_rtpbridge_event platform payload
      else scrub_known_object platform payload (event_fields event)
          (bare_context (some (if event == "dtmf" then event_is_sensitive_dtmf payload else false)))
  ok (record {
    kind = event_body;
    id = undefined;
    method = none;
    event = some (safe_protocol_name event);
    success = none;
    value = value;
  })

unfoldable pub scrub_rtpbridge_request :
    Platform → (id method : String) (params : Json) → Result StructuredControlLogBody
scrub_rtpbridge_request platform id method params = do
  value ←
      scrub_known_object platform params (rtpbridge_request_fields method)
        (record { method = some method; sensitive = none })
  ok (record {
    kind = request_body;
    id = scrub_identifier (str id);
    method = some (safe_protocol_name method);
    event = none;
    success = none;
    value = value;
  })

-- `!value`
abbrev pub is_falsy : Json → Bool
is_falsy undefined = true
is_falsy null = true
is_falsy (bool b) = not b
is_falsy (num (nat zero)) = true
is_falsy (str s) = s == ""
is_falsy _ = false

unfoldable pub scrub_rtpbridge_response :
    Platform → (id method : String) (result error : Json) → Result StructuredControlLogBody
scrub_rtpbridge_response platform id method result error = do
  value ←
      if is_falsy error
      then scrub_known_object platform result (listed (rtpbridge_response_fields method))
          (record { method = some method; sensitive = none })
      else ok (scrub_error error)
  ok (record {
    kind = response_body;
    id = scrub_identifier (str id);
    method = some (safe_protocol_name method);
    event = none;
    success = some (is_falsy error);
    value = value;
  })
