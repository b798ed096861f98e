-- ===== src/ControlProtocol/Tests.antt =====
-- src/control-protocol.ts at work on messages.
use rtc_session_gateway.ControlProtocol.Wire.{wire_fields, delivered, wire}
use rtc_session_gateway.ControlProtocol.{
  bad_message, err, parse_control_response, parse_control_event, registrations_from,
  registration_of,
}
use rtc_session_gateway.Routing.Config.{read_match}
use rtc_session_gateway.ControlProtocol.Messages.{IsMessage}
use rtc_session_gateway.ControlProtocol.RoundTrip.{
  parse_control_message-IsMessage, parse-message_json,
}
use rtc_session_gateway.ControlProtocol.Registrations.{parse_route_registrations_iff, Registers}
use rtc_session_gateway.Routing.{exact}
use rtc_session_gateway.ControlProtocol.Encode.{message_json}
use rtc_session_gateway.ControlProtocol.{
  response, ok, field, event, bool, parse_route_registrations, parse_control_message,
  RouteRegistration, ControlMessage,
}
use rtc_session_gateway.Base.Text.{is_blank}
use rtc_session_gateway.Base.{false, ◌≡◌, ◌↔◌, [], ◌∷◌, none, some, refl, true}
use rtc_session_gateway.Json.{
  cons, nil, bool, nil, Json, str, arr, obj, prop, end, undefined, field, Json,
}

abbrev dtmf_event : ControlMessage
dtmf_event = event (record {
  event = "dtmf";
  event_id = "e-1";
  session_id = some "s-1";
  sequence = some 2;
  occurred_at = "2024-01-01T00:00:00.000Z";
  payload = obj (prop "digit" (str "5") end);
})

parse-message_json_example :
    IsMessage dtmf_event
    ↔ (parse_control_message (wire (message_json dtmf_event)) ≡ ok (delivered dtmf_event))
parse-message_json_example = parse-message_json dtmf_event

dtmf_arrives : parse_control_message (wire (message_json dtmf_event)) ≡ ok dtmf_event
unfolding parse_control_message parse_control_event message_json wire wire_fields field is_blank
dtmf_arrives = refl

-- The answer to an unreadable message has no id, and the other side refuses it.
refusal_unread :
    parse_control_message
      (obj (prop "type" (str "response") (prop "id" (str "") (prop "ok" (bool false) end))))
    ≡ err (bad_message "response id must be a non-empty string")
unfolding parse_control_message parse_control_response field is_blank
refusal_unread = refl

abbrev answer_json : Json
answer_json = obj (prop "type" (str "response") (prop "id" (str "7") (prop "ok" (bool true) end)))

abbrev answer : ControlMessage
answer = response (record { id = "7"; is_ok = true; result = undefined; error = none })

parse_control_message-IsMessage_example : IsMessage answer
unfolding parse_control_message is_blank field
parse_control_message-IsMessage_example = parse_control_message-IsMessage answer_json answer refl

abbrev sales : RouteRegistration
sales = record { match = exact; value = "sales" }

abbrev register_sales : Json
register_sales = obj (
    prop "routes"
      (arr (cons (obj (prop "match" (str "exact") (prop "value" (str "sales") end))) nil)) end)

parse_test : parse_route_registrations register_sales ≡ ok (sales ∷ [])
unfolding parse_route_registrations field registrations_from registration_of read_match is_blank
parse_test = refl

parse_route_registrations_iff_example :
    (parse_route_registrations register_sales ≡ ok (sales ∷ []))
    ↔ Registers register_sales (sales ∷ [])
parse_route_registrations_iff_example = parse_route_registrations_iff register_sales (sales ∷ [])
