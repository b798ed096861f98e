-- ===== src/ControlLog/Scrub.antt =====
-- src/control-log.ts: what is logged of a request, a response or an event.
use rtc_session_gateway.Json.{undefined, null}
use rtc_session_gateway.Base.Text.{ends_with}
use rtc_session_gateway.Base.{length}
use rtc_session_gateway.ControlLog.Summaries.{
  summarize_text, summarize_enum, summarize_ice_configuration, summarize_routes, scrub_identifier,
  summarize_digits, summarize_auth, summarize_array, summarize_headers,
}
use rtc_session_gateway.ControlLog.Sdp.{summarize_sdp}
use rtc_session_gateway.ControlLog.Values.{from_entries, type_marker, bytes_of, record_of, contains}
use rtc_session_gateway.Errors.{plain, ok, err, Result}
use rtc_session_gateway.ControlLog.Tables.{listed, inherited, FieldList}
use rtc_session_gateway.ControlLog.Redaction.{redacted_text, safe_field_name, normalize_field}
use rtc_session_gateway.Json.{null, entries, nat, arr, obj, str, num, Fields, bool, Json}
use rtc_session_gateway.ControlLog.Uri.{
  summarize_path, summarize_uri, summarize_url_or_path, Platform,
}
use rtc_session_gateway.Base.Assoc.{lookup, Map}
use rtc_session_gateway.Base.{
  none, false, true, or_else, ◌∷◌, some, if◌then◌else◌, List, Bool, map, Option, String, [],
}

pub record ControlLogContext : Type 0 where
  pub method : Option String
  pub sensitive : Option Bool

pub data BodyKind : Type 0 where
  request_body : BodyKind
  response_body : BodyKind
  event_body : BodyKind

pub record StructuredControlLogBody : Type 0 where
  pub kind : BodyKind  -- `type`
  pub id : Json
  pub method : Option String
  pub event : Option String
  pub success : Option Bool  -- `ok`
  pub value : Json

pub data FieldKind : Type 0 where
  secret sdp_field headers_field auth_field url_field uri_field path_field digits_field : FieldKind
  terminator_field id_field routes_field ice_field array_field enum_field reason_field : FieldKind

-- the names that `scrubKnownField` compares the normalized key with, in its order
abbrev pub early_fields : Map FieldKind
early_fields =
    ("password", secret)
    ∷ ("credential", secret)
    ∷ ("connecttoken", secret)
    ∷ ("token", secret)
    ∷ ("authorization", secret)
    ∷ ("sdp", sdp_field)
    ∷ ("sdpoffer", sdp_field)
    ∷ ("sdpanswer", sdp_field)
    ∷ ("localsdp", sdp_field)
    ∷ ("remotesdp", sdp_field)
    ∷ ("headers", headers_field)
    ∷ ("auth", auth_field)
    ∷ ("source", url_field)
    ∷ ("messagesource", url_field)
    ∷ ("promptsource", url_field)
    ∷ ("receiverurl", url_field)
    ∷ ("downloadpath", url_field)
    ∷ ("requesturi", uri_field)
    ∷ ("destinationuri", uri_field)
    ∷ ("sourceuri", uri_field)
    ∷ ("from", uri_field)
    ∷ ("to", uri_field)
    ∷ ("contact", uri_field)
    ∷ ("proxy", uri_field)
    ∷ ("filepath", path_field)
    ∷ ("recordingpath", path_field)
    ∷ ("path", path_field)
    ∷ ("digit", digits_field)
    ∷ ("digits", digits_field)
    ∷ ("terminator", terminator_field)
    ∷ []

-- those that are compared after the test for an id
abbrev pub late_fields : Map FieldKind
late_fields =
    ("routes", routes_field)
    ∷ ("iceconfiguration", ice_field)
    ∷ ("servers", array_field)
    ∷ ("sessions", array_field)
    ∷ ("recordings", array_field)
    ∷ ("endpoints", array_field)
    ∷ ("codecs", array_field)
    ∷ ("direction", enum_field)
    ∷ ("action", enum_field)
    ∷ ("match", enum_field)
    ∷ ("event", enum_field)
    ∷ ("state", enum_field)
    ∷ ("oldstate", enum_field)
    ∷ ("newstate", enum_field)
    ∷ ("endpointtype", enum_field)
    ∷ ("icestate", enum_field)
    ∷ ("tone", enum_field)
    ∷ ("reason", reason_field)
    ∷ []

unfoldable pub kind_of_rest : String → Option FieldKind
kind_of_rest name = if ends_with name "id" then some id_field else lookup name late_fields

unfoldable pub kind_found : Option FieldKind → String → Option FieldKind
unfolding kind_of_rest
kind_found (some kind) name = some kind
kind_found none name = kind_of_rest name

unfoldable pub field_kind : String → Option FieldKind
unfolding kind_found
field_kind name = kind_found (lookup name early_fields) name

-- a field of no special name
unfoldable pub scrub_plain : Json → Json
scrub_plain null = null
scrub_plain (bool b) = bool b
scrub_plain (num n) = num n
scrub_plain (str value) = record_of (("stringBytes", bytes_of value) ∷ [])
scrub_plain (arr values) = summarize_array (arr values)
scrub_plain (obj fields) = record_of (("objectFields", num (nat (length (entries fields)))) ∷ [])
scrub_plain undefined = type_marker undefined

unfoldable pub scrub_as : Platform → ControlLogContext → Option FieldKind → Json → Json
unfolding scrub_plain
scrub_as platform context none value = scrub_plain value
scrub_as platform context (some secret) value = str redacted_text
scrub_as platform context (some sdp_field) value = summarize_sdp value
scrub_as platform context (some headers_field) value = summarize_headers value
scrub_as platform context (some auth_field) value = summarize_auth value
scrub_as platform context (some url_field) value = summarize_url_or_path platform value
scrub_as platform context (some uri_field) value = summarize_uri value
scrub_as platform context (some path_field) value = summarize_path platform value
scrub_as platform context (some digits_field) value =
    summarize_digits value (or_else context.sensitive true)
scrub_as platform context (some terminator_field) value = summarize_digits value false
scrub_as platform context (some id_field) value = scrub_identifier value
scrub_as platform context (some routes_field) value = summarize_routes value
scrub_as platform context (some ice_field) value = summarize_ice_configuration value
scrub_as platform context (some array_field) value = summarize_array value
scrub_as platform context (some enum_field) value = summarize_enum value
scrub_as platform context (some reason_field) value = summarize_text value

unfoldable pub scrub_known_field : Platform → ControlLogContext → String → Json → Json
unfolding scrub_as
scrub_known_field platform context key value =
    scrub_as platform context (field_kind (normalize_field key)) value

unfoldable pub scrub_entry :
    Platform → ControlLogContext → List String → String × Json → String × Json
unfolding scrub_known_field
scrub_entry platform context allowed (key, value) = (
  safe_field_name key,
  if contains (normalize_field key) allowed
      then scrub_known_field platform context key value
      else type_marker value,
)

unfoldable pub scrub_fields : Platform → FieldList → ControlLogContext → Fields → Result Json
unfolding scrub_entry
scrub_fields platform (inherited size) context fields =
    err (plain "allowedFields.map is not a function")
scrub_fields platform (listed allowed) context fields = ok (
    obj (
      from_entries
        (map (scrub_entry platform context (map normalize_field allowed)) (entries fields))))

unfoldable pub scrub_known_object : Platform → Json → FieldList → ControlLogContext → Result Json
unfolding scrub_fields
scrub_known_object platform (obj fields) allowed context =
    scrub_fields platform allowed context fields
scrub_known_object platform value allowed context = ok (type_marker value)
