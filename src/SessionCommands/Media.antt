-- ===== src/SessionCommands/Media.antt =====
-- src/session-commands.ts: the commands on media endpoints and recordings. The media sessions are
-- required before the single parameters are read.
use rtc_session_gateway.SessionCommands.Validators.{
  optional_direction, or_nullish, optional_positive_integer, optional_non_negative_integer,
  optional_boolean, required_direction, optional_texts, require_object, optional_object,
  required_string, optional_string,
}
use rtc_session_gateway.SessionCommands.{
  bridges, lists_recordings, creates_rtp_offer, updates_direction, starts_recording, injects_dtmf,
  deletes_recording, creates_webrtc_offer, creates_webrtc_from_offer, creates_rtp_from_offer,
  accepts_webrtc_answer, require_media, Action, SessionCommandHandler,
}
use rtc_session_gateway.Base.{String, Bool, true, false, not, ◌||◌, Option, none, some}
use rtc_session_gateway.Json.{Json, undefined, num, Number, nat, field, has_field}
use rtc_session_gateway.Errors.{Result, ok, err, ◌>>=◌, ◌>>◌, guard, command_validation}

unfoldable pub create_webrtc_offer : SessionCommandHandler → Json → Result Action
create_webrtc_offer h params = do
  body ← require_object params
  media ← require_media h
  session_id ← required_string (field "sessionId" body) "sessionId"
  direction ← optional_string (field "direction" body) "direction"
  ok (creates_webrtc_offer session_id direction)

unfoldable pub create_webrtc_from_offer : SessionCommandHandler → Json → Result Action
create_webrtc_from_offer h params = do
  body ← require_object params
  media ← require_media h
  session_id ← required_string (field "sessionId" body) "sessionId"
  sdp ← required_string (field "sdp" body) "sdp"
  direction ← optional_string (field "direction" body) "direction"
  ok (creates_webrtc_from_offer session_id sdp direction)

unfoldable pub offer_generation_in : Json → Result (Option Number)
offer_generation_in undefined = ok none
offer_generation_in (num (nat n)) = ok (some (nat n))
offer_generation_in value =
    err (command_validation "offerGeneration must be a non-negative integer")

unfoldable pub accept_webrtc_answer : SessionCommandHandler → Json → Result Action
accept_webrtc_answer h params = do
  body ← require_object params
  offer_generation ← offer_generation_in (field "offerGeneration" body)
  media ← require_media h
  endpoint_id ← required_string (field "endpointId" body) "endpointId"
  sdp ← required_string (field "sdp" body) "sdp"
  ok (accepts_webrtc_answer endpoint_id sdp offer_generation)

-- the commands whose parameters are an endpoint and an SDP
unfoldable pub with_endpoint_sdp :
    SessionCommandHandler → (String → String → Action) → Json → Result Action
with_endpoint_sdp h action params = do
  body ← require_object params
  media ← require_media h
  endpoint_id ← required_string (field "endpointId" body) "endpointId"
  sdp ← required_string (field "sdp" body) "sdp"
  ok (action endpoint_id sdp)

-- the commands whose parameter is one id
unfoldable pub with_id : SessionCommandHandler → String → (String → Action) → Json → Result Action
with_id h name action params = do
  body ← require_object params
  media ← require_media h
  id ← required_string (field name body) name
  ok (action id)

unfoldable pub both_set : Option Bool → Option Bool → Bool
both_set (some true) (some true) = true
both_set _ _ = false

unfoldable pub create_rtp_offer : SessionCommandHandler → Json → Result Action
create_rtp_offer h params = do
  body ← require_object params
  codecs ←
      optional_texts (field "codecs" body) (command_validation "codecs must be an array of strings")
  srtp ← optional_boolean (field "srtp" body) "srtp"
  srtp_optional ← optional_boolean (field "srtpOptional" body) "srtpOptional"
  guard (not (both_set srtp srtp_optional))
      (command_validation "srtp and srtpOptional cannot both be enabled")
  media ← require_media h
  session_id ← required_string (field "sessionId" body) "sessionId"
  direction ← optional_string (field "direction" body) "direction"
  ok (
      creates_rtp_offer session_id (record {
        direction = direction;
        srtp = srtp;
        srtp_optional = srtp_optional;
        codecs = codecs;
      }))

unfoldable pub create_rtp_from_offer : SessionCommandHandler → Json → Result Action
create_rtp_from_offer h params = do
  body ← require_object params
  media ← require_media h
  session_id ← required_string (field "sessionId" body) "sessionId"
  sdp ← required_string (field "sdp" body) "sdp"
  direction ← optional_string (field "direction" body) "direction"
  ok (creates_rtp_from_offer session_id sdp direction)

unfoldable pub update_direction : SessionCommandHandler → Json → Result Action
update_direction h params = do
  body ← require_object params
  direction ← required_direction (field "direction" body)
  media ← require_media h
  endpoint_id ← required_string (field "endpointId" body) "endpointId"
  ok (updates_direction endpoint_id direction)

unfoldable pub bridge : SessionCommandHandler → Json → Result Action
bridge h params = do
  body ← require_object params
  media ← require_media h
  session_id ← required_string (field "sessionId" body) "sessionId"
  target ←
      required_string (or_nullish (field "targetSessionId" body) (field "target_session_id" body))
        "targetSessionId"
  direction ← optional_direction (field "direction" body)
  ok (bridges session_id target direction)

unfoldable pub inject_dtmf : SessionCommandHandler → Json → Result Action
inject_dtmf h params = do
  body ← require_object params
  media ← require_media h
  endpoint_id ← required_string (field "endpointId" body) "endpointId"
  digit ← required_string (field "digit" body) "digit"
  ok (injects_dtmf endpoint_id digit)

unfoldable pub start_recording : SessionCommandHandler → Json → Result Action
start_recording h params = do
  body ← require_object params
  guard (not (has_field "recordOutbound" body || has_field "record_outbound" body)) (
      command_validation "recordOutbound is no longer supported; rtpbridge records inbound sources")
  media ← require_media h
  session_id ← required_string (field "sessionId" body) "sessionId"
  endpoint_id ← optional_string (field "endpointId" body) "endpointId"
  file_path ← optional_string (field "filePath" body) "filePath"
  ok (starts_recording session_id endpoint_id file_path)

unfoldable pub list_recordings : SessionCommandHandler → Json → Result Action
list_recordings h params = do
  body ← optional_object params
  media ← require_media h
  backend_id ← optional_string (field "backendId" body) "backendId"
  starts_with ← optional_string (field "startsWith" body) "startsWith"
  skip ← optional_non_negative_integer (field "skip" body) "skip"
  limit ← optional_positive_integer (field "limit" body) "limit"
  ok (lists_recordings backend_id starts_with skip limit)

unfoldable pub delete_recording : SessionCommandHandler → Json → Result Action
delete_recording h params = do
  body ← require_object params
  media ← require_media h
  backend_id ← required_string (field "backendId" body) "backendId"
  path ← required_string (field "path" body) "path"
  ok (deletes_recording backend_id path)
