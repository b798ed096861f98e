-- ===== src/ControlLog/Tables.antt =====
-- src/control-log.ts: the tables of the fields that are logged, each in its own way; what is not in a
-- table is logged by its type alone.
use rtc_session_gateway.Base.Text.{starts_with}
use rtc_session_gateway.Base.{leb, ℕ, true, none, if◌then◌else◌, ◌∷◌, List}
use rtc_session_gateway.Base.Assoc.{lookup, Map}
use rtc_session_gateway.Base.{
  ◌||◌, ◌==◌, false, ◌∷◌, some, if◌then◌else◌, Bool, Option, List, String, [],
}

-- What `fields[name]` finds in an object literal: a list of it, or what every object inherits, which is
-- a function with a number of parameters, or an object without a length.
pub data FieldList : Type 0 where
  listed : List String → FieldList
  inherited : (size : ℕ) → FieldList

-- the properties of Object.prototype, each with its `length`
abbrev pub object_prototype : Map ℕ
object_prototype =
    ("constructor", 1)
    ∷ ("__defineGetter__", 2)
    ∷ ("__defineSetter__", 2)
    ∷ ("hasOwnProperty", 1)
    ∷ ("__lookupGetter__", 1)
    ∷ ("__lookupSetter__", 1)
    ∷ ("isPrototypeOf", 1)
    ∷ ("propertyIsEnumerable", 1)
    ∷ ("toString", 0)
    ∷ ("valueOf", 0)
    ∷ ("__proto__", 0)
    ∷ ("toLocaleString", 0)
    ∷ []

unfoldable pub own_or_inherited : Option (List String) → Option ℕ → FieldList
own_or_inherited (some fields) size = listed fields
own_or_inherited none (some size) = inherited size
own_or_inherited none none = listed []

-- fields[name] ?? []
unfoldable pub fields_in : Map (List String) → String → FieldList
unfolding own_or_inherited
fields_in table name = own_or_inherited (lookup name table) (lookup name object_prototype)

-- whether `fields[name].length` is truthy
unfoldable pub has_length : FieldList → Bool
has_length (listed []) = false
has_length (listed (field ∷ fields)) = true
has_length (inherited size) = leb 1 size

abbrev pub request_table : Map (List String)
request_table =
    ("route.register", "routes" ∷ [])
    ∷ ("session.get", "sessionId" ∷ [])
    ∷ ("session.delete", "sessionId" ∷ "reason" ∷ "headers" ∷ [])
    ∷ ("session.create", "callId" ∷ [])
    ∷ (
      "sip.createOutbound",
      "requestUri" ∷ "sdp" ∷ "headers" ∷ "receiverUrl" ∷ "callingNumber" ∷ "callingName" ∷ "proxy"
          ∷ "outboundAttemptId" ∷ "auth" ∷ [],
    )
    ∷ ("sip.cancelOutbound", "outboundAttemptId" ∷ [])
    ∷ (
      "sip.reinvite",
      "sessionId" ∷ "callId" ∷ "sdp" ∷ "headers" ∷ "event" ∷ "sipCallId" ∷ "receivedAt" ∷ [],
    )
    ∷ (
      "sip.bye",
      "sessionId" ∷ "callId" ∷ "reason" ∷ "headers" ∷ "event" ∷ "sipCallId" ∷ "receivedAt" ∷ [],
    )
    ∷ (
      "sip.invite",
      "event" ∷ "callId" ∷ "sipCallId" ∷ "destinationUri" ∷ "destinationUser" ∷ "sourceUri" ∷ "from"
          ∷ "to" ∷ "contact" ∷ "headers" ∷ "sdp" ∷ "receivedAt" ∷ [],
    )
    ∷ (
      "sip.answered",
      "event" ∷ "callId" ∷ "sipCallId" ∷ "headers" ∷ "sdp" ∷ "status" ∷ "reason" ∷ "receivedAt"
          ∷ [],
    )
    ∷ (
      "sip.terminated",
      "event" ∷ "callId" ∷ "sipCallId" ∷ "headers" ∷ "sdp" ∷ "status" ∷ "reason" ∷ "receivedAt"
          ∷ [],
    )
    ∷ ("webrtc.createOffer", "sessionId" ∷ "direction" ∷ [])
    ∷ ("webrtc.createFromOffer", "sessionId" ∷ "sdp" ∷ "direction" ∷ [])
    ∷ ("webrtc.acceptAnswer", "endpointId" ∷ "sdp" ∷ "offerGeneration" ∷ [])
    ∷ ("webrtc.acceptOffer", "endpointId" ∷ "sdp" ∷ [])
    ∷ ("webrtc.restartIce", "endpointId" ∷ [])
    ∷ ("rtp.createOffer", "sessionId" ∷ "direction" ∷ "srtp" ∷ "srtpOptional" ∷ "codecs" ∷ [])
    ∷ ("rtp.createFromOffer", "sessionId" ∷ "sdp" ∷ "direction" ∷ [])
    ∷ ("rtp.acceptAnswer", "endpointId" ∷ "sdp" ∷ [])
    ∷ ("rtp.reinvite", "endpointId" ∷ "sdp" ∷ [])
    ∷ ("media.play", "sessionId" ∷ "source" ∷ "loopCount" ∷ "cacheTtlSecs" ∷ "headers" ∷ [])
    ∷ ("media.playAndWait", "sessionId" ∷ "source" ∷ "playbackTimeoutMs" ∷ [])
    ∷ ("media.stop", "endpointId" ∷ [])
    ∷ ("endpoint.updateDirection", "endpointId" ∷ "direction" ∷ [])
    ∷ ("media.bridge", "sessionId" ∷ "targetSessionId" ∷ "target_session_id" ∷ "direction" ∷ [])
    ∷ ("media.unbridge", "endpointId" ∷ [])
    ∷ (
      "media.gather",
      "sessionId" ∷ "endpointId" ∷ "numDigits" ∷ "timeoutMs" ∷ "interDigitTimeoutMs" ∷ "terminator"
          ∷ "sensitive" ∷ [],
    )
    ∷ (
      "media.playAndGather",
      "sessionId" ∷ "endpointId" ∷ "source" ∷ "loopCount" ∷ "cacheTtlSecs" ∷ "headers" ∷ "numDigits"
          ∷ "timeoutMs" ∷ "interDigitTimeoutMs" ∷ "terminator" ∷ "stopPlaybackOnDigit"
          ∷ "postPlaybackTimeoutMs" ∷ "sensitive" ∷ [],
    )
    ∷ (
      "media.leaveMessage",
      "sessionId" ∷ "endpointId" ∷ "messageSource" ∷ "promptSource" ∷ "maxWaitMs" ∷ "maxDurationMs"
          ∷ "playbackTimeoutMs" ∷ "silenceIntervalMs" ∷ "speechThreshold" ∷ "terminator" ∷ [],
    )
    ∷ ("dtmf.inject", "endpointId" ∷ "digit" ∷ [])
    ∷ ("recording.start", "sessionId" ∷ "endpointId" ∷ "filePath" ∷ [])
    ∷ ("recording.stop", "recordingId" ∷ [])
    ∷ ("recording.list", "backendId" ∷ "startsWith" ∷ "skip" ∷ "limit" ∷ [])
    ∷ ("recording.delete", "backendId" ∷ "path" ∷ [])
    ∷ ("event.ack", "eventId" ∷ "sessionId" ∷ "sequence" ∷ [])
    ∷ []

unfoldable pub request_fields : String → FieldList
request_fields method = fields_in request_table method

abbrev pub common_response_fields : List String
common_response_fields =
    "ok" ∷ "sessionId" ∷ "sipCallId" ∷ "outboundAttemptId" ∷ "endpointId" ∷ "targetEndpointId"
    ∷ "recordingId" ∷ "backendId" ∷ "sdp" ∷ "sdpOffer" ∷ "sdpAnswer" ∷ "offerGeneration"
    ∷ "iceConfiguration" ∷ "action" ∷ "status" ∷ "reason" ∷ "headers" ∷ "receiverUrl" ∷ "digits"
    ∷ "terminatedBy" ∷ "playbackEndpointId" ∷ "messagePlayed" ∷ "terminator" ∷ "played" ∷ "deleted"
    ∷ "filePath" ∷ "recordingPath" ∷ "downloadPath" ∷ "durationMs" ∷ "packets" ∷ "routes"
    ∷ "sessions" ∷ "recordings" ∷ "total" ∷ "skip" ∷ "limit" ∷ []

-- `method` is absent or has no character where a response answers no request that is known
unfoldable pub response_fields : Option String → List String
response_fields none = []
response_fields (some method) =
    if method == ""
    then []
    else if has_length (request_fields method)
        || method == "session.list"
        || starts_with method "sip."
    then common_response_fields
    else []

unfoldable pub event_fields : String → FieldList
event_fields event =
    if event == "control.connected"
    then listed ("connectionId" ∷ [])
    else if event == "dtmf"
    then listed ("endpointId" ∷ "digit" ∷ "durationMs" ∷ "sensitive" ∷ [])
    else if starts_with event "sip."
    then request_fields event
    else listed []

abbrev pub rtpbridge_request_table : Map (List String)
rtpbridge_request_table =
    ("session.create", [])
    ∷ ("session.destroy", "sessionId" ∷ [])
    ∷ ("server.info", [])
    ∷ ("endpoint.webrtc.create_offer", "sessionId" ∷ "direction" ∷ [])
    ∷ ("endpoint.webrtc.create_from_offer", "sessionId" ∷ "sdp" ∷ "direction" ∷ [])
    ∷ ("endpoint.webrtc.accept_answer", "endpointId" ∷ "sdp" ∷ "offerGeneration" ∷ [])
    ∷ ("endpoint.webrtc.accept_offer", "endpointId" ∷ "sdp" ∷ [])
    ∷ ("endpoint.webrtc.ice_restart", "endpointId" ∷ [])
    ∷ (
      "endpoint.rtp.create_offer",
      "sessionId" ∷ "direction" ∷ "srtp" ∷ "srtpOptional" ∷ "codecs" ∷ [],
    )
    ∷ ("endpoint.rtp.create_from_offer", "sessionId" ∷ "sdp" ∷ "direction" ∷ [])
    ∷ ("endpoint.rtp.accept_answer", "endpointId" ∷ "sdp" ∷ [])
    ∷ ("endpoint.rtp.reinvite", "endpointId" ∷ "sdp" ∷ [])
    ∷ ("session.bridge", "targetSessionId" ∷ "direction" ∷ [])
    ∷ ("endpoint.dtmf.inject", "endpointId" ∷ "digit" ∷ [])
    ∷ ("endpoint.dtmf.set_sensitive", "endpointId" ∷ "enabled" ∷ [])
    ∷ (
      "endpoint.create_with_file",
      "sessionId" ∷ "source" ∷ "loopCount" ∷ "startMs" ∷ "timeoutMs" ∷ "cacheTtlSecs" ∷ "shared"
          ∷ "headers" ∷ [],
    )
    ∷ ("endpoint.create_tone", "sessionId" ∷ "tone" ∷ "frequency" ∷ "durationMs" ∷ [])
    ∷ ("endpoint.remove", "endpointId" ∷ [])
    ∷ ("endpoint.update_direction", "endpointId" ∷ "direction" ∷ [])
    ∷ ("recording.start", "sessionId" ∷ "endpointId" ∷ "filePath" ∷ [])
    ∷ ("recording.stop", "recordingId" ∷ [])
    ∷ ("vad.start", "endpointId" ∷ "silenceIntervalMs" ∷ "speechThreshold" ∷ [])
    ∷ ("vad.stop", "endpointId" ∷ [])
    ∷ []

unfoldable pub rtpbridge_request_fields : String → FieldList
rtpbridge_request_fields method = fields_in rtpbridge_request_table method

abbrev pub rtpbridge_common_response_fields : List String
rtpbridge_common_response_fields =
    "sessionId" ∷ "endpointId" ∷ "targetEndpointId" ∷ "recordingId" ∷ "sdp" ∷ "sdpOffer"
    ∷ "sdpAnswer" ∷ "offerGeneration" ∷ "connectToken" ∷ "filePath" ∷ "durationMs" ∷ "packets"
    ∷ "hostname" ∷ "version" ∷ "mediaIp" ∷ "tone" ∷ "ok" ∷ []

unfoldable pub rtpbridge_response_fields : String → List String
rtpbridge_response_fields method =
    if has_length (rtpbridge_request_fields method)
      || method == "session.create"
      || method == "server.info"
    then rtpbridge_common_response_fields
    else []

abbrev pub rtpbridge_common_event_fields : List String
rtpbridge_common_event_fields =
    "endpointId" ∷ "recordingId" ∷ "targetSessionId" ∷ "sourceSessionId" ∷ "sessionId" ∷ "digit"
    ∷ "durationMs" ∷ "sensitive" ∷ "oldState" ∷ "newState" ∷ "iceState" ∷ "reason" ∷ "error"
    ∷ "filePath" ∷ "packets" ∷ "droppedPackets" ∷ "silenceDurationMs" ∷ "timeoutRemainingMs"
    ∷ "idleTimeoutSecs" ∷ "emptyTimeoutSecs" ∷ "count" ∷ "endpoints" ∷ []

abbrev pub known_event_prefixes : List String
known_event_prefixes = "endpoint." ∷ "recording." ∷ "session." ∷ "vad." ∷ "fax." ∷ []

unfoldable pub starts_with_any : String → List String → Bool
starts_with_any s [] = false
starts_with_any s (p ∷ ps) = starts_with s p || starts_with_any s ps

unfoldable pub rtpbridge_event_fields : String → List String
unfolding starts_with_any
rtpbridge_event_fields event =
    if event == "dtmf"
      || starts_with_any event known_event_prefixes
      || event == "events.dropped"
      || event == "stats"
    then rtpbridge_common_event_fields
    else []
