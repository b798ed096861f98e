-- ===== src/ControlProtocol.antt =====
-- src/control-protocol.ts: the messages of the control WebSocket, and how they are read from JSON.
pub mod Encode
pub mod Wire
pub mod Messages
pub mod RoundTrip
pub mod Registrations
mod Tests
use rtc_session_gateway.Base.{
  ℕ, suc, ◌+◌, String, Bool, true, false, Option, none, some, List, [], ◌∷◌, ◌==◌, if◌then◌else◌,
}
use rtc_session_gateway.Base.Text.{◌<>◌, is_blank}
use rtc_session_gateway.Base.Decimal.{decimal}
use rtc_session_gateway.Json.{
  Json, undefined, null, bool, num, str, arr, obj, nat, Fields, field, items, as_object, as_text,
}
use rtc_session_gateway.Errors.{
  Error, ControlErrorBody, control_protocol_error, Result, ok, err, ◌>>=◌, or_throw,
}
use rtc_session_gateway.Routing.{RouteMatchType}
use rtc_session_gateway.Routing.Config.{read_match}

pub record ControlRequest : Type 0 where
  pub id : String
  pub method : String
  pub params : Json

pub record ControlResponse : Type 0 where
  pub id : String
  pub is_ok : Bool
  pub result : Json
  pub error : Option ControlErrorBody

pub record ControlEvent : Type 0 where
  pub event : String
  pub event_id : String
  pub session_id : Option String
  pub sequence : Option ℕ
  pub occurred_at : String
  pub payload : Json  -- `data`

pub data ControlMessage : Type 0 where
  request : ControlRequest → ControlMessage
  response : ControlResponse → ControlMessage
  event : ControlEvent → ControlMessage

pub record RouteRegistration : Type 0 where
  pub match : RouteMatchType
  pub value : String

-- `new ControlProtocolError(message)`, whose code is BAD_MESSAGE
abbrev pub bad_message : String → Error
bad_message message = control_protocol_error message "BAD_MESSAGE"

abbrev pub make_control_error : String → String → Json → ControlErrorBody
make_control_error code message details = record {
  code = code;
  message = message;
  details = details;
}

-- `typeof v === 'string' && v.trim() ? v : fallback`
text_or : Json → String → String
text_or (str s) fallback = if is_blank s then fallback else s
text_or _ fallback = fallback

unfoldable pub parse_control_error : Json → ControlErrorBody
unfolding text_or
parse_control_error (obj error) =
    make_control_error (text_or (field "code" error) "ERROR")
      (text_or (field "message" error) "Request failed") (field "details" error)
parse_control_error _ = make_control_error "ERROR" "Request failed" undefined

unfoldable pub parse_control_request : Fields → Result ControlRequest
parse_control_request input = do
  id ← or_throw (as_text (field "id" input)) (bad_message "request id must be a non-empty string")
  method ←
      or_throw (as_text (field "method" input))
        (bad_message "request method must be a non-empty string")
  ok (record { id = id; method = method; params = field "params" input })

response_of : String → Json → Fields → Result ControlResponse
unfolding parse_control_error
response_of id (bool true) input =
    ok (record { id = id; is_ok = true; result = field "result" input; error = none })
response_of id (bool false) input = ok (record {
  id = id;
  is_ok = false;
  result = undefined;
  error = some (parse_control_error (field "error" input));
})
response_of id _ input = err (bad_message "response ok must be a boolean")

unfoldable pub parse_control_response : Fields → Result ControlResponse
unfolding response_of
parse_control_response input = do
  id ← or_throw (as_text (field "id" input)) (bad_message "response id must be a non-empty string")
  response_of id (field "ok" input) input

-- `input.sessionId !== undefined && typeof input.sessionId !== 'string'` throws
session_id_of : Json → Result (Option String)
session_id_of undefined = ok none
session_id_of (str s) = ok (some s)
session_id_of _ = err (bad_message "sessionId must be a string when provided")

sequence_of : Json → Result (Option ℕ)
sequence_of undefined = ok none
sequence_of (num (nat (suc n))) = ok (some (suc n))
sequence_of _ = err (bad_message "sequence must be a positive integer when provided")

unfoldable pub parse_control_event : Fields → Result ControlEvent
unfolding session_id_of sequence_of
parse_control_event input = do
  name ← or_throw (as_text (field "event" input)) (bad_message "event must be a non-empty string")
  event_id ←
      or_throw (as_text (field "eventId" input)) (bad_message "eventId must be a non-empty string")
  occurred_at ←
      or_throw (as_text (field "occurredAt" input))
        (bad_message "occurredAt must be a non-empty string")
  session_id ← session_id_of (field "sessionId" input)
  sequence ← sequence_of (field "sequence" input)
  ok (record {
    event = name;
    event_id = event_id;
    session_id = session_id;
    sequence = sequence;
    occurred_at = occurred_at;
    payload = field "data" input;
  })

abbrev unknown_type : Result ControlMessage
unknown_type = err (bad_message "type must be request, response, or event")

by_type : Json → Fields → Result ControlMessage
unfolding parse_control_request parse_control_response parse_control_event
by_type (str type) message =
    if type == "request"
    then (do r ← parse_control_request message; ok (request r))
    else if type == "response"
    then (do r ← parse_control_response message; ok (response r))
    else if type == "event"
    then (do e ← parse_control_event message; ok (event e))
    else unknown_type
by_type _ message = unknown_type

unfoldable pub parse_control_message : Json → Result ControlMessage
unfolding by_type
parse_control_message input = do
  message ← or_throw (as_object input) (bad_message "message must be an object")
  by_type (field "type" message) message

abbrev pub routes_label : ℕ → String
routes_label index = "routes[" <> decimal index <> "]"

unfoldable pub registration_of : ℕ → Json → Result RouteRegistration
registration_of index route = do
  candidate ← or_throw (as_object route) (bad_message (routes_label index <> " must be an object"))
  match ←
      or_throw (read_match (field "match" candidate))
        (bad_message (routes_label index <> ".match must be exact or userPrefix"))
  value ←
      or_throw (as_text (field "value" candidate))
        (bad_message (routes_label index <> ".value must be a non-empty string"))
  ok (record { match = match; value = value })

unfoldable pub registrations_from : ℕ → List Json → Result (List RouteRegistration)
registrations_from index [] = ok []
registrations_from index (route ∷ routes) = do
  first ← registration_of index route
  rest ← registrations_from (index + 1) routes
  ok (first ∷ rest)

registrations_in : Json → Result (List RouteRegistration)
registrations_in (arr routes) = registrations_from 0 (items routes)
registrations_in _ = err (bad_message "params.routes must be an array")

unfoldable pub parse_route_registrations : Json → Result (List RouteRegistration)
unfolding registrations_in
parse_route_registrations input = do
  params ← or_throw (as_object input) (bad_message "params must be an object")
  registrations_in (field "routes" params)
