-- ===== src/SessionCommands/Sip.antt =====
-- src/session-commands.ts: the commands on calls, and those that create or delete a session.
use rtc_session_gateway.SessionCommands.Validators.{
  optional_string, required_string, optional_object, require_object,
}
use rtc_session_gateway.SessionCommands.{
  creates_session, require_media, creates_outbound, cancels_attempt, shows_media_session, says_bye,
  reinvites, destroys_session, accepting, shows_call, CommandContext, SipAuthCredentials,
  SessionCommandHandler, Action,
}
use rtc_session_gateway.Base.{
  String, Bool, true, not, ◌||◌, Option, none, some, is_some, if◌then◌else◌,
}
use rtc_session_gateway.Base.Text.{◌<>◌}
use rtc_session_gateway.Base.Assoc.{lookup}
use rtc_session_gateway.Json.{Json, undefined, null, str, Fields, field, as_text, as_string}
use rtc_session_gateway.Errors.{
  Result, ok, err, ◌>>=◌, ◌>>◌, guard, or_throw, command_validation, command_not_implemented,
  call_not_found,
}
use rtc_session_gateway.HttpContract.{parse_optional_headers}
use rtc_session_gateway.CallRegistry.{
  CallRegistry, ActiveCall, get, snapshot_call, has_call_or_reservation,
}
use rtc_session_gateway.MediaServerManager.{truthy}
use rtc_session_gateway.MediaController.{MediaSessionSnapshot}

-- `typeof sessionId !== 'string' || !sessionId.trim()`
abbrev session_id_in : Json → Result String
session_id_in value = or_throw (as_text value) (command_validation "sessionId is required")

-- this.media?.get(sessionId)
unfoldable pub media_session : SessionCommandHandler → String → Option MediaSessionSnapshot
media_session h id = elim h.media [ none ↦ none | some sessions ↦ lookup id sessions ]

unfoldable pub shown : String → Option ActiveCall → Option MediaSessionSnapshot → Result Action
shown id (some call) media = ok (shows_call (snapshot_call call))
shown id none (some session) = ok (shows_media_session session)
shown id none none = err (call_not_found ("Session " <> id <> " not found"))

unfoldable pub get_session : SessionCommandHandler → Json → Result Action
get_session h params = do
  body ← require_object params
  id ← session_id_in (field "sessionId" body)
  shown id (get h.registry id) (media_session h id)

unfoldable pub delete_session : SessionCommandHandler → Json → Result Action
delete_session h params = do
  body ← require_object params
  id ← session_id_in (field "sessionId" body)
  headers ←
      if is_some (media_session h id)
      then ok none
      else parse_optional_headers (field "headers" body)
  ok (
      if is_some (media_session h id)
      then destroys_session id
      else says_bye id (as_string (field "reason" body)) headers)

-- `!callId || !this.registry.hasCallOrReservation(callId)`
unfoldable pub is_new_call : CallRegistry → Option String → Bool
is_new_call registry none = true
is_new_call registry (some call_id) = not (has_call_or_reservation registry call_id)

unfoldable pub create_media_session : SessionCommandHandler → Json → CommandContext → Result Action
create_media_session h params context = do
  body ← optional_object params
  call_id ← optional_string (field "callId" body) "callId"
  if is_new_call h.registry call_id then accepting h.lifecycle else ok tt
  media ← require_media h
  ok (creates_session call_id context.control_connection_id)

unfoldable pub parse_optional_sip_auth : Json → Result (Option SipAuthCredentials)
parse_optional_sip_auth undefined = ok none
parse_optional_sip_auth null = ok none
parse_optional_sip_auth value = do
  auth ← require_object value
  username ← required_string (field "username" auth) "auth.username"
  password ← required_string (field "password" auth) "auth.password"
  ok (some (record { username = username; password = password }))

unfoldable pub create_outbound : SessionCommandHandler → Json → CommandContext → Result Action
create_outbound h params context = do
  accepting h.lifecycle
  body ← require_object params
  receiver_url ← optional_string (field "receiverUrl" body) "receiverUrl"
  guard (is_some (truthy context.control_connection_id) || is_some receiver_url) (
      command_validation
        "receiverUrl is required when sip.createOutbound is not sent over the control WebSocket")
  auth ← parse_optional_sip_auth (field "auth" body)
  outbound_attempt_id ← optional_string (field "outboundAttemptId" body) "outboundAttemptId"
  request_uri ← required_string (field "requestUri" body) "requestUri"
  sdp ← required_string (field "sdp" body) "sdp"
  headers ← parse_optional_headers (field "headers" body)
  calling_number ← optional_string (field "callingNumber" body) "callingNumber"
  calling_name ← optional_string (field "callingName" body) "callingName"
  proxy ← optional_string (field "proxy" body) "proxy"
  ok (
      creates_outbound (record {
        request_uri = request_uri;
        sdp = sdp;
        headers = headers;
        receiver_url = receiver_url;
        control_connection_id = context.control_connection_id;
        calling_number = calling_number;
        calling_name = calling_name;
        proxy = proxy;
        outbound_attempt_id = outbound_attempt_id;
        auth = auth;
      }))

unfoldable pub cancel_outbound : SessionCommandHandler → Json → CommandContext → Result Action
cancel_outbound h params context = do
  guard h.cancels_outbound (command_not_implemented "sip.cancelOutbound is not implemented")
  body ← require_object params
  outbound_attempt_id ← required_string (field "outboundAttemptId" body) "outboundAttemptId"
  ok (cancels_attempt outbound_attempt_id context.control_connection_id)

-- `typeof sessionId === 'string' ? sessionId : callId`
unfoldable pub call_named : Fields → Json
call_named body = elim (as_string (field "sessionId" body)) [
  | none ↦ field "callId" body
  | some id ↦ str id
]

unfoldable pub reinvite : Json → Result Action
reinvite params = do
  body ← require_object params
  id ← session_id_in (call_named body)
  sdp ← or_throw (as_text (field "sdp" body)) (command_validation "sdp is required")
  headers ← parse_optional_headers (field "headers" body)
  ok (reinvites id sdp headers)

unfoldable pub bye : Json → Result Action
bye params = do
  body ← require_object params
  id ← session_id_in (call_named body)
  headers ← parse_optional_headers (field "headers" body)
  ok (says_bye id (as_string (field "reason" body)) headers)
