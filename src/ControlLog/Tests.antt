-- ===== src/ControlLog/Tests.antt =====
-- Lines of src/control-log.ts at concrete messages.
use rtc_session_gateway.ControlLog.Hidden.{
  no_servers, hides_credential, spelled, IceAlike, IsSecret, IsIce, IsDigits, IsAuth,
}
use rtc_session_gateway.ControlLog.Uri.{
  after_any_case, after, after_user, host_at, uri_of, scheme_in, without_slashes,
}
use rtc_session_gateway.Base.Text.{
  starts_with, to_lower_char, take_until, drop_until, includes, to_lower, all_char, length,
  trim_start,
}
use rtc_session_gateway.ControlLog.Redaction.{
  byte_length, safe_field_name, tildes, safe_protocol_name,
}
use rtc_session_gateway.ControlLog.Values.{type_name, from_entries, contains, type_marker}
use rtc_session_gateway.ControlLog.Summaries.{summarize_digits}
use rtc_session_gateway.ControlLog.Throwing.{
  scrub_control_request-throws, scrub_control_request-logs,
}
use rtc_session_gateway.Errors.{plain, ok, err}
use rtc_session_gateway.ControlLog.Secrets.{
  hides_credentials, hides_password, hides, ends, same, event_is_sensitive_dtmf_iff, counts,
  SaysPublic, scrub_known_object-Alike,
}
use rtc_session_gateway.ControlLog.Clean.Objects.{IsLogged, scrub_known_object-IsLogged}
use rtc_session_gateway.ControlLog.Values.{record_of}
use rtc_session_gateway.ControlLog.Tables.{FieldList, listed, object_prototype}
use rtc_session_gateway.Json.{
  nil, cons, arr, field, nat, num, undefined, end, bool, str, prop, obj, Fields,
}
use rtc_session_gateway.ControlLog.Uri.{Platform, summarize_uri, host_after_user}
use rtc_session_gateway.ControlLog.Summaries.{an_error, scrub_control_error}
use rtc_session_gateway.ControlLog.Scrub.{
  scrub_known_object, field_kind, StructuredControlLogBody, ControlLogContext,
}
use rtc_session_gateway.ControlLog.Redaction.{
  leading_digits, shown_in, begun, run_at, redact_from, normalize_field, redact_digit_runs, points,
}
use rtc_session_gateway.ControlLog.DigitRuns.{redact_digit_runs_lem, has_digit_run}
use rtc_session_gateway.ControlLog.Clean.{is_clean}
use rtc_session_gateway.ControlLog.Bodies.{scrub_control_request, event_is_sensitive_dtmf}
use rtc_session_gateway.Base.Assoc.{lookup}
use rtc_session_gateway.Base.{◌≢◌, String, ◌↔◌, [], ◌∷◌, some, none, true, false, ◌≡◌, refl}

-- no text is a URL here, and each is its own base name
abbrev plain_platform : Platform
plain_platform = record { url = λ s. none; basename = λ s. s }

abbrev gather_context : ControlLogContext
gather_context = record { method = some "media.gather"; sensitive = some true }

runs_hidden : redact_digit_runs "tel 5551234, ext 12345" ≡ "tel ~~~~~~~, ext 12345"
unfolding redact_digit_runs redact_from run_at begun shown_in leading_digits
runs_hidden = refl

redact_digit_runs_lem_example :
    (has_digit_run (redact_digit_runs "+15551234567 x12") ≡ false)
    × (points (redact_digit_runs "+15551234567 x12") ≡ points "+15551234567 x12")
    × (has_digit_run "+15551234567 x12" ≡ false
        → redact_digit_runs "+15551234567 x12" ≡ "+15551234567 x12")
redact_digit_runs_lem_example = redact_digit_runs_lem "+15551234567 x12"

uri_shown :
    summarize_uri (str "sip:alice@pbx.example.org;transport=udp")
    ≡ record_of (
        ("scheme", str "sip")
        ∷ ("host", str "pbx.example.org")
        ∷ ("path", str ";transport=udp")
        ∷ ("user", record_of (("present", bool true) ∷ ("bytes", num (nat 5)) ∷ []))
        ∷ ("hasQuery", bool false)
        ∷ [])
unfolding summarize_uri after_any_case after after_user host_at run_at shown_in starts_with
    leading_digits uri_of scheme_in to_lower_char host_after_user take_until without_slashes
    drop_until redact_digit_runs includes redact_from byte_length
uri_shown = refl

-- A SIP URI whose host is empty shows its user in the place of the host.
userless_host : host_after_user "alice@;transport=udp" ≡ some ("alice@", ";transport=udp")
unfolding host_after_user take_until drop_until
userless_host = refl

abbrev gathered : Fields
gathered = prop "digits" (str "4711") (prop "backendId" (str "b1") end)

abbrev account : String → Fields
account password = prop "username" (str "alice") (prop "password" (str password) end)

abbrev turn_server : String → Fields
turn_server credential =
    prop "urls" (str "turn:turn.example.org")
      (prop "username" (str "u1") (prop "credential" (str credential) end))

abbrev ice_configuration : String → Fields
ice_configuration credential =
    prop "backendId" (str "b1") (prop "servers" (arr (cons (obj (turn_server credential)) nil)) end)

-- an object with a secret of each kind
abbrev with_secrets : (token digits password credential : String) → Fields
with_secrets token digits password credential = prop "connect_token" (str token) (
    prop "digits" (str digits) (
      prop "auth" (obj (account password)) (
        prop "iceConfiguration" (obj (ice_configuration credential))
          (prop "backendId" (str "b1") end))))

abbrev secret_fields : FieldList
secret_fields = listed ("connectToken" ∷ "digits" ∷ "auth" ∷ "iceConfiguration" ∷ "backendId" ∷ [])

four_digits : points "4711" ≡ points "0815"
unfolding points
four_digits = refl

same_type : type_name (str "t1") ≡ type_name (str "t2")
unfolding type_name
same_type = refl

is_connect_token : IsSecret "connect_token"
unfolding contains
is_connect_token = spelled refl

is_digits : IsDigits "digits"
unfolding contains
is_digits = spelled refl

is_auth : IsAuth "auth"
unfolding contains
is_auth = spelled refl

is_ice : IsIce "iceConfiguration"
unfolding contains
is_ice = spelled refl

same_user : field "username" (account "p1") ≡ field "username" (account "p2")
unfolding field
same_user = refl

ice_alike : IceAlike (ice_configuration "c1") (ice_configuration "c2")
unfolding field
ice_alike = record {
  servers = cons (obj (turn_server "c1")) nil;
  other_servers = cons (obj (turn_server "c2")) nil;
  backend = refl;
  media_ip = refl;
  expires_at = refl;
  reads = refl;
  reads_other = refl;
  alike = hides_credential (turn_server "c1") (turn_server "c2") refl refl refl no_servers;
}

hidden_sensitivity : gather_context.sensitive ≢ some false
hidden_sensitivity e = cc

scrub_known_object-Alike_example :
    scrub_known_object plain_platform
      (obj (with_secrets "t1" "4711" "p1" "c1"))
      secret_fields
      gather_context
    ≡ scrub_known_object plain_platform
        (obj (with_secrets "t2" "0815" "p2" "c2"))
        secret_fields
        gather_context
scrub_known_object-Alike_example =
    scrub_known_object-Alike plain_platform gather_context secret_fields (
      hides "connect_token" (str "t1") (str "t2") is_connect_token same_type (
        counts "digits" "4711" "0815" is_digits hidden_sensitivity four_digits (
          hides_password "auth" (account "p1") (account "p2") is_auth same_user (
            hides_credentials "iceConfiguration" (ice_configuration "c1") (ice_configuration "c2")
              is_ice ice_alike (same "backendId" (str "b1") ends)))))

gathered_logged :
    scrub_known_object plain_platform (obj gathered) (listed ("digits" ∷ [])) gather_context
    ≡ ok (
        record_of (
          ("digits", str "~~~~")
          ∷ ("backendId", record_of (("redacted", bool true) ∷ ("type", str "string") ∷ []))
          ∷ []))
unfolding scrub_known_object from_entries safe_field_name all_char length contains normalize_field
    to_lower field_kind type_marker lookup summarize_digits tildes points
gathered_logged = refl

-- The name of a field is not searched for digits.
name_shown : safe_field_name "call_491512345678" ≡ "call_491512345678"
unfolding safe_field_name all_char length
name_shown = refl

scrub_known_object-IsLogged_example : IsLogged (
    record_of (
      ("digits", str "~~~~")
      ∷ ("backendId", record_of (("redacted", bool true) ∷ ("type", str "string") ∷ []))
      ∷ []))
scrub_known_object-IsLogged_example =
    scrub_known_object-IsLogged plain_platform (obj gathered) (listed ("digits" ∷ []))
      gather_context gathered_logged

event_is_sensitive_dtmf_iff_example :
    (event_is_sensitive_dtmf (obj (prop "sensitive" (str "false") end)) ≡ false)
    ↔ SaysPublic (obj (prop "sensitive" (str "false") end))
event_is_sensitive_dtmf_iff_example =
    event_is_sensitive_dtmf_iff (obj (prop "sensitive" (str "false") end))

is_own : lookup "session.get" object_prototype ≡ none
unfolding lookup
is_own = refl

scrub_control_request-logs_example :
    (body : StructuredControlLogBody) × (scrub_control_request plain_platform "1" "session.get"
        (obj (prop "sessionId" (str "s1") end))
      ≡ ok body)
    × (is_clean body.id ≡ true)
    × IsLogged body.value
scrub_control_request-logs_example =
    scrub_control_request-logs plain_platform "1" "session.get"
      (obj (prop "sessionId" (str "s1") end)) is_own

is_inherited : lookup "constructor" object_prototype ≡ some 1
unfolding lookup
is_inherited = refl

scrub_control_request-throws_example :
    scrub_control_request plain_platform "1" "constructor" (obj end)
    ≡ err (plain "allowedFields.map is not a function")
scrub_control_request-throws_example =
    scrub_control_request-throws plain_platform "1" "constructor" end 1 is_inherited

sip_status_found :
    scrub_control_error (an_error "SipError" "Sip non-success response: 486" undefined)
    ≡ record { name = "SipError"; code = none; sip_status = some 486; message_bytes = 29 }
unfolding scrub_control_error safe_protocol_name after_any_case byte_length all_char to_lower_char
    length trim_start
sip_status_found = refl
