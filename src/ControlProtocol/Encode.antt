-- ===== src/ControlProtocol/Encode.antt =====
-- The objects that the gateway writes as control messages: the request of `ControlHub.request`, the
-- event of `ControlHub.sendEvent` and the response of `ControlServer.sendResponse`. A property that
-- is undefined stands for one that `JSON.stringify` leaves out, which ControlProtocol/Wire does.
use rtc_session_gateway.Base.{Bool, true, false, Option, none, some}
use rtc_session_gateway.Json.{Json, undefined, bool, str, obj, Fields, end, prop, str?, nat?}
use rtc_session_gateway.Errors.{ControlErrorBody}
use rtc_session_gateway.ControlProtocol.{
  ControlRequest, ControlResponse, ControlEvent, ControlMessage, request, response, event,
}

error_json : Option ControlErrorBody → Json
error_json none = undefined
error_json (some e) =
    obj (prop "code" (str e.code) (prop "message" (str e.message) (prop "details" e.details end)))

unfoldable pub request_json : ControlRequest → Json
request_json r = obj (
    prop "type" (str "request")
      (prop "id" (str r.id) (prop "method" (str r.method) (prop "params" r.params end))))

-- `ok ? { ..., result } : { ..., error }`
outcome : Bool → Json → Option ControlErrorBody → Fields
unfolding error_json
outcome true result error = prop "result" result end
outcome false result error = prop "error" (error_json error) end

unfoldable pub response_json : ControlResponse → Json
unfolding outcome
response_json r = obj (
    prop "type" (str "response")
      (prop "id" (str r.id) (prop "ok" (bool r.is_ok) (outcome r.is_ok r.result r.error))))

unfoldable pub event_json : ControlEvent → Json
event_json e = obj (
    prop "type" (str "event") (
      prop "event" (str e.event) (
        prop "eventId" (str e.event_id) (
          prop "sessionId" (str? e.session_id) (
            prop "sequence" (nat? e.sequence)
              (prop "occurredAt" (str e.occurred_at) (prop "data" e.payload end)))))))

unfoldable pub message_json : ControlMessage → Json
unfolding request_json response_json event_json
message_json (request r) = request_json r
message_json (response r) = response_json r
message_json (event e) = event_json e
