-- ===== src/ControlLog/Summaries.antt =====
-- src/control-log.ts: how the value of a field is logged, by what the field's name says of it.
use rtc_session_gateway.Base.Text.{trim_start, length as units}
use rtc_session_gateway.Base.{◌+◌, ◌*◌, ◌-◌, some, none, ℕ, Option, length}
use rtc_session_gateway.ControlLog.Uri.{after_any_case, summarize_uri, redacted_bytes}
use rtc_session_gateway.ControlLog.Redaction.{
  byte_length, safe_protocol_name, points, tildes, is_identifier, redact_digit_runs, redacted_text,
  is_error_code, safe_header_name,
}
use rtc_session_gateway.Base.Text.{all_char, is_char, is_digit}
use rtc_session_gateway.ControlLog.Values.{
  sort, contains, type_marker, texts_of, bytes_of, record_of,
}
use rtc_session_gateway.Json.{
  as_object, items, entries, nil, nat, end, num, field, cons, bool, undefined, str, prop, obj, arr,
  Items, Json, Fields,
}
use Prim.Native.Char.{code, Char}
use rtc_session_gateway.Base.{
  ◌==◌, ◌&&◌, length, ◌||◌, true, not, leb, if◌then◌else◌, ◌∷◌, Bool, List, String, [],
}

-- /^[0-9A-D#*]+$/
abbrev pub is_tone : Char → Bool
is_tone c =
    is_digit c || (leb b'A' (code c) && leb (code c) b'D') || is_char b'#' c || is_char b'*' c

unfoldable pub summarize_digits : Json → (sensitive : Bool) → Json
summarize_digits (str value) sensitive = str (
    if sensitive || leb 6 (units value)
    then tildes (points value)
    else if all_char is_tone value && not (value == "")
    then value
    else redacted_text)
summarize_digits value sensitive = type_marker value

unfoldable pub scrub_identifier : Json → Json
scrub_identifier (str value) =
    if leb 129 (units value) || not (is_identifier value)
    then redacted_bytes value
    else str (redact_digit_runs value)
scrub_identifier value = type_marker value

abbrev pub safe_values : List String
safe_values =
    "active" ∷ "answer" ∷ "auto" ∷ "buffering" ∷ "checking" ∷ "completed" ∷ "connected"
    ∷ "connecting" ∷ "disconnected" ∷ "exact" ∷ "finished" ∷ "inactive" ∷ "new" ∷ "paused"
    ∷ "playing" ∷ "recvonly" ∷ "reject" ∷ "rtp" ∷ "sendonly" ∷ "sendrecv" ∷ "userPrefix" ∷ "webrtc"
    ∷ []

unfoldable pub summarize_enum : Json → Json
summarize_enum (str value) = str (if contains value safe_values then value else redacted_text)
summarize_enum value = type_marker value

unfoldable pub summarize_text : Json → Json
summarize_text (str value) = record_of (
    ("bytes", bytes_of value)
    ∷ ("digitRunsRedacted", bool (not (redact_digit_runs value == value)))
    ∷ [])
summarize_text value = type_marker value

unfoldable pub summarize_array : Json → Json
summarize_array (arr values) = record_of (("count", num (nat (length (items values)))) ∷ [])
summarize_array value = type_marker value

unfoldable pub header_names : Fields → List String
header_names end = []
header_names (prop key value headers) = safe_header_name key ∷ header_names headers

unfoldable pub summarize_headers : Json → Json
unfolding header_names
summarize_headers (obj headers) = record_of (
    ("names", texts_of (sort (header_names headers)))
    ∷ ("count", num (nat (length (entries headers))))
    ∷ [])
summarize_headers value = type_marker value

unfoldable pub summarize_user : Json → Json
summarize_user (str username) =
    record_of (("present", bool true) ∷ ("bytes", bytes_of username) ∷ [])
summarize_user value = type_marker value

unfoldable pub summarize_auth : Json → Json
unfolding summarize_user
summarize_auth (obj auth) =
    record_of
      (("username", summarize_user (field "username" auth)) ∷ ("password", str redacted_text) ∷ [])
summarize_auth value = type_marker value

unfoldable pub summarize_route : Json → Json
summarize_route (obj route) = record_of (
    ("match", summarize_enum (field "match" route))
    ∷ ("value", scrub_identifier (field "value" route))
    ∷ [])
summarize_route route = type_marker route

unfoldable pub map_items : (Json → Json) → Items → Items
map_items f nil = nil
map_items f (cons value values) = cons (f value) (map_items f values)

unfoldable pub summarize_routes : Json → Json
unfolding map_items summarize_route
summarize_routes (arr routes) = arr (map_items summarize_route routes)
summarize_routes value = type_marker value

-- `value === undefined ? undefined : shown`
unfoldable pub if_defined : Json → Json → Json
if_defined undefined shown = undefined
if_defined value shown = shown

abbrev pub present : Json
present = record_of (("present", bool true) ∷ [])

unfoldable pub summarize_urls : Json → Json
unfolding map_items
summarize_urls (arr urls) = arr (map_items summarize_uri urls)
summarize_urls urls = arr (cons (summarize_uri urls) nil)

unfoldable pub summarize_server : Json → Json
unfolding summarize_urls if_defined
summarize_server (obj server) = record_of (
    ("urls", summarize_urls (field "urls" server))
    ∷ ("username", if_defined (field "username" server) present)
    ∷ ("credential", if_defined (field "credential" server) (str redacted_text))
    ∷ [])
summarize_server server = type_marker server

unfoldable pub summarize_servers : Json → Json
unfolding map_items summarize_server
summarize_servers (arr servers) = arr (map_items summarize_server servers)
summarize_servers value = type_marker value

unfoldable pub summarize_ice_configuration : Json → Json
unfolding summarize_servers if_defined
summarize_ice_configuration (obj ice) = record_of (
    ("backendId", scrub_identifier (field "backendId" ice))
    ∷ ("mediaIp", if_defined (field "mediaIp" ice) present)
    ∷ ("expiresAt", if_defined (field "expiresAt" ice) present)
    ∷ ("servers", summarize_servers (field "servers" ice))
    ∷ [])
summarize_ice_configuration value = type_marker value

unfoldable pub error_code : Json → Json
error_code (str code) = str (if is_error_code code then code else redacted_text)
error_code value = str redacted_text

unfoldable pub error_message : Json → Json
error_message (str message) = redacted_bytes message
error_message value = type_marker value

unfoldable pub scrub_error : Json → Json
unfolding error_code error_message if_defined
scrub_error (obj error) = record_of (
    ("code", error_code (field "code" error))
    ∷ ("message", error_message (field "message" error))
    ∷ ("details", if_defined (field "details" error) (type_marker (field "details" error)))
    ∷ [])
scrub_error value = type_marker value

pub record ControlErrorLogSummary : Type 0 where
  pub name : String
  pub code : Option String
  pub sip_status : Option ℕ
  pub message_bytes : ℕ

-- what was thrown: an `Error` with its `code`, or another value with what `String(error)` makes of it
pub data Caught : Type 0 where
  an_error : (name message : String) → (code : Json) → Caught
  other_value : (value : Json) → (text : String) → Caught

unfoldable pub code_of : Json → Option String
code_of (str code) = if is_error_code code then some code else none
code_of value = none

abbrev digit_value : Char → ℕ
digit_value c = code c - b'0'

-- \d{3}
unfoldable pub three_digits : String → Option ℕ
three_digits (String.◌∷◌ a (String.◌∷◌ b (String.◌∷◌ c s))) =
    if is_digit a && is_digit b && is_digit c
    then some (100 * digit_value a + 10 * digit_value b + digit_value c)
    else none
three_digits s = none

abbrev status_after : Option String → Option ℕ
status_after none = none
status_after (some rest) = three_digits (trim_start rest)

-- /sip non-success response:\s*(\d{3})/i, anywhere in the text
unfoldable pub sip_status_in : String → Option ℕ
unfolding three_digits
sip_status_in String.[] = none
sip_status_in (String.◌∷◌ c s) =
    elim (status_after (after_any_case "sip non-success response:" (String.◌∷◌ c s))) [
      | some status ↦ some status
      | none ↦ sip_status_in s
    ]

unfoldable pub scrub_control_error : Caught → ControlErrorLogSummary
unfolding code_of sip_status_in
scrub_control_error (an_error name message code) = record {
  name = safe_protocol_name name;
  code = code_of code;
  sip_status = sip_status_in message;
  message_bytes = byte_length message;
}
scrub_control_error (other_value value text) = record {
  name = "Error";
  code = elim (as_object value) [ none ↦ none | some fields ↦ code_of (field "code" fields) ];
  sip_status = sip_status_in text;
  message_bytes = byte_length text;
}
