-- ===== src/ControlLog/Clean/Summaries.antt =====
-- What src/control-log.ts logs of single values has no six digits in a row.
use rtc_session_gateway.ControlLog.DigitRuns.{has_digit_run}
use rtc_session_gateway.ControlLog.Redaction.{leading_digits}
use rtc_session_gateway.ControlLog.Values.{type_marker}
use rtc_session_gateway.ControlLog.Redaction.{points, is_identifier, redacted_text}
use rtc_session_gateway.ControlLog.Clean.Uris.{uri_clean}
use rtc_session_gateway.ControlLog.Uri.{summarize_uri}
use rtc_session_gateway.ControlLog.Values.{from_entries, put_all, put}
use rtc_session_gateway.ControlLog.Summaries.{
  is_tone, safe_values, present, summarize_user, summarize_urls, summarize_text, summarize_servers,
  summarize_server, summarize_routes, summarize_route, summarize_ice_configuration,
  summarize_headers, summarize_enum, summarize_digits, summarize_auth, summarize_array,
  scrub_identifier, map_items, if_defined,
}
use rtc_session_gateway.ControlLog.Scrub.{scrub_plain}
use rtc_session_gateway.Base.{
  ◌&&◌, inr, ◌==◌, not, inl, ◌||◌, leb, arith, Bool-cases, refl, ◌≡◌, Bool, true,
}
use rtc_session_gateway.Json.{nil, field, undefined, null}
use rtc_session_gateway.Base.Text.{all_char, length as units}
use rtc_session_gateway.ControlLog.Clean.{
  free_clean, WithoutRuns, redacted_text_clean, all_free, short_clean, redacted_clean, tildes_clean,
  contains_clean, contains, type_marker_clean, num, cons, str, obj, bool, arr, are_clean, Items,
  Json, is_clean,
}

pub digits_clean : (v : Json) (sensitive : Bool) → is_clean (summarize_digits v sensitive) ≡ true
unfolding summarize_digits is_clean has_digit_run leading_digits
digits_clean (str s) sensitive = elim (Bool-cases (sensitive || leb 6 (units s))) [
  | inl hide ↦ rw (hide, tildes_clean (points s)) refl
  | inr show ↦ elim (Bool-cases (all_char is_tone s && not (s == ""))) [
    | inl tones ↦ rw (show, tones, short_clean s (ground arith)) refl
    | inr other ↦ rw (show, other) refl
  ]
]
digits_clean v sensitive = type_marker_clean v

pub identifier_clean : (v : Json) → is_clean (scrub_identifier v) ≡ true
unfolding scrub_identifier is_clean rtc_session_gateway.ControlLog.Values.contains
identifier_clean (str s) = elim (Bool-cases (leb 129 (units s) || not (is_identifier s))) [
  | inl hide ↦ rw hide refl
  | inr show ↦ rw (show, redacted_clean s) refl
]
identifier_clean v = type_marker_clean v

safe_values_clean : WithoutRuns safe_values
unfolding all_free
safe_values_clean = free_clean safe_values refl

pub enum_clean : (v : Json) → is_clean (summarize_enum v) ≡ true
unfolding summarize_enum is_clean
enum_clean (str s) = elim (Bool-cases (contains s safe_values)) [
  | inl known ↦ rw (known, contains_clean s safe_values safe_values_clean known) refl
  | inr other ↦ rw other redacted_text_clean
]
enum_clean v = type_marker_clean v

pub text_clean : (v : Json) → is_clean (summarize_text v) ≡ true
unfolding summarize_text is_clean rtc_session_gateway.ControlLog.Values.contains
text_clean (str s) = refl
text_clean v = type_marker_clean v

pub array_clean : (v : Json) → is_clean (summarize_array v) ≡ true
unfolding summarize_array is_clean rtc_session_gateway.ControlLog.Values.contains
array_clean (arr values) = refl
array_clean v = type_marker_clean v

pub headers_clean : (v : Json) → is_clean (summarize_headers v) ≡ true
unfolding summarize_headers is_clean rtc_session_gateway.ControlLog.Values.contains
headers_clean (obj headers) = refl
headers_clean v = type_marker_clean v

user_clean : (v : Json) → is_clean (summarize_user v) ≡ true
unfolding summarize_user is_clean rtc_session_gateway.ControlLog.Values.contains
user_clean (str s) = refl
user_clean v = type_marker_clean v

pub auth_clean : (v : Json) → is_clean (summarize_auth v) ≡ true
unfolding summarize_auth is_clean rtc_session_gateway.ControlLog.Values.contains has_digit_run
    leading_digits
auth_clean (obj auth) = rw (user_clean (field "username" auth)) refl
auth_clean v = type_marker_clean v

items_clean :
    (f : Json → Json) (vs : Items)
    → ((v : Json) → is_clean (f v) ≡ true)
    → are_clean (map_items f vs) ≡ true
unfolding is_clean map_items
items_clean f nil p = refl
items_clean f (cons v vs) p = rw (p v) (items_clean f vs p)

route_clean : (v : Json) → is_clean (summarize_route v) ≡ true
unfolding summarize_route is_clean rtc_session_gateway.ControlLog.Values.contains
route_clean (obj route) =
    rw (enum_clean (field "match" route), identifier_clean (field "value" route)) refl
route_clean v = type_marker_clean v

pub routes_clean : (v : Json) → is_clean (summarize_routes v) ≡ true
unfolding summarize_routes is_clean
routes_clean (arr routes) = items_clean summarize_route routes route_clean
routes_clean v = type_marker_clean v

if_defined_clean : (v shown : Json) → is_clean shown ≡ true → is_clean (if_defined v shown) ≡ true
unfolding if_defined is_clean
if_defined_clean undefined shown p = refl
if_defined_clean v shown p = p

urls_clean : (v : Json) → is_clean (summarize_urls v) ≡ true
unfolding summarize_urls is_clean
urls_clean (arr urls) = items_clean summarize_uri urls uri_clean
urls_clean v = rw (uri_clean v) refl

server_clean : (v : Json) → is_clean (summarize_server v) ≡ true
unfolding summarize_server is_clean rtc_session_gateway.ControlLog.Values.contains has_digit_run
    leading_digits
server_clean (obj server) =
    rw
      (
        urls_clean (field "urls" server),
        if_defined_clean (field "username" server) present refl,
        if_defined_clean (field "credential" server) (str redacted_text) refl,
      )
      refl
server_clean v = type_marker_clean v

servers_clean : (v : Json) → is_clean (summarize_servers v) ≡ true
unfolding summarize_servers is_clean
servers_clean (arr servers) = items_clean summarize_server servers server_clean
servers_clean v = type_marker_clean v

pub ice_clean : (v : Json) → is_clean (summarize_ice_configuration v) ≡ true
unfolding summarize_ice_configuration is_clean rtc_session_gateway.ControlLog.Values.contains
ice_clean (obj ice) =
    rw
      (
        identifier_clean (field "backendId" ice),
        if_defined_clean (field "mediaIp" ice) present refl,
        if_defined_clean (field "expiresAt" ice) present refl,
        servers_clean (field "servers" ice),
      )
      refl
ice_clean v = type_marker_clean v

pub plain_clean : (v : Json) → is_clean (scrub_plain v) ≡ true
unfolding scrub_plain is_clean type_marker rtc_session_gateway.ControlLog.Values.contains
    has_digit_run leading_digits summarize_array
plain_clean undefined = refl
plain_clean null = refl
plain_clean (bool b) = refl
plain_clean (num n) = refl
plain_clean (str s) = refl
plain_clean (arr vs) = refl
plain_clean (obj fs) = refl
