-- ===== src/ControlLog/Uri.antt =====
-- src/control-log.ts: what is logged of addresses and paths. `new URL` and `path.basename` are
-- parameters: `url` answers none where the URL constructor throws.
use rtc_session_gateway.Base.{[]}
use rtc_session_gateway.Base.{or_else}
use rtc_session_gateway.ControlLog.Redaction.{safe_query_key, redact_digit_runs}
use Prim.Native.String.{[]}
use rtc_session_gateway.ControlLog.Values.{unique, sort, texts_of, bytes_of, type_marker, record_of}
use rtc_session_gateway.Base.Text.{to_lower_char, includes, drop_until, ◌<>◌, take_until, is_char}
use rtc_session_gateway.Json.{nat, num, bool, str, Json}
use rtc_session_gateway.Base.Assoc.{lookup, Map}
use rtc_session_gateway.Base.{
  false, ◌==◌, true, not, ◌||◌, ◌&&◌, eqb, ◌∷◌, some, none, if◌then◌else◌, or_else, map, Option,
  List, Bool, String,
}
use Prim.Native.Char.{Char, code}

-- what is read of a URL
pub record Url : Type 0 where
  pub protocol : String
  pub hostname : String
  pub pathname : String
  pub search_keys : List String  -- [...url.searchParams.keys()]
  pub username : String
  pub password : String

pub record Platform : Type 0 where
  pub url : String → Option Url
  pub basename : String → String

unfoldable pub summarize_path : Platform → Json → Json
summarize_path platform (str value) = record_of (
    ("basename", str (redact_digit_runs (platform.basename value)))
    ∷ ("bytes", bytes_of value)
    ∷ [])
summarize_path platform value = type_marker value

-- the rest of a text after a prefix
unfoldable pub after : String → String → Option String
after String.[] s = some s
after (String.◌∷◌ d p) String.[] = none
after (String.◌∷◌ d p) (String.◌∷◌ c s) =
    let rest = after p s in if eqb (code c) (code d) then rest else none

-- the same in any case: the prefix is given in lower case
unfoldable pub after_any_case : String → String → Option String
after_any_case String.[] s = some s
after_any_case (String.◌∷◌ d p) String.[] = none
after_any_case (String.◌∷◌ d p) (String.◌∷◌ c s) =
    let rest = after_any_case p s in if eqb (code (to_lower_char c)) (code d) then rest else none

abbrev pub scheme_or : String → Option String → Option (String × String) → Option (String × String)
scheme_or scheme (some rest) other = some (scheme, rest)
scheme_or scheme none other = other

-- the first scheme that a text begins with, and the text after its colon
unfoldable pub scheme_in : List String → String → Option (String × String)
unfolding after_any_case
scheme_in [] value = none
scheme_in (scheme ∷ schemes) value =
    scheme_or scheme (after_any_case (scheme <> ":") value) (scheme_in schemes value)

-- /^(sips?|https?|wss?):/i
abbrev pub schemes : List String
schemes = "sip" ∷ "sips" ∷ "http" ∷ "https" ∷ "ws" ∷ "wss" ∷ []

-- s.replace(/^\/\//, '')
unfoldable pub without_slashes : String → String
unfolding after
without_slashes s = or_else (after "//" s) s

abbrev pub ends_user : Char → Bool
ends_user c = is_char b'@' c || is_char b'/' c

abbrev pub ends_host : Char → Bool
ends_host c = is_char b';' c || is_char b'/' c || is_char b'?' c

abbrev pub ends_path : Char → Bool
ends_path c = is_char b'?' c || is_char b'#' c

-- (?:[^@/]+@): the rest after it
unfoldable pub after_user : String → Option String
unfolding after
after_user s = if take_until ends_user s == "" then none else after "@" (drop_until ends_user s)

-- [^;/?]+ and what follows it
unfoldable pub host_at : String → Option (String × String)
host_at s =
    if take_until ends_host s == ""
    then none
    else some (take_until ends_host s, drop_until ends_host s)

abbrev either : Option (String × String) → Option (String × String) → Option (String × String)
either none other = other
either found other = found

-- (?:[^@/]+@)?([^;/?]+): the user is left out where a host follows it, and is part of the host where
-- none does
unfoldable pub host_after_user : String → Option (String × String)
unfolding after_user host_at
host_after_user s = elim (after_user s) [
  | none ↦ host_at s
  | some rest ↦ either (host_at rest) (host_at s)
]

-- (?:\?([^#]*))?: whether the query has a character
unfoldable pub has_query : String → Bool
has_query (String.◌∷◌ c s) = is_char b'?' c && not (take_until (is_char b'#') s == "")
has_query String.[] = false

abbrev pub redacted_bytes : String → Json
redacted_bytes value = record_of (("redacted", bool true) ∷ ("bytes", bytes_of value) ∷ [])

-- the user part of the text after the scheme
abbrev user_of : String → String → Json
user_of value rest = record_of (
    ("present", bool (includes value "@"))
    ∷ (
      "bytes",
      if includes value "@"
          then bytes_of (take_until (is_char b'@') (without_slashes rest))
          else num (nat 0),
    )
    ∷ [])

unfoldable pub uri_parts : String → String → String → Option (String × String) → Json
unfolding has_query
uri_parts value scheme rest none = redacted_bytes value
uri_parts value scheme rest (some (host, tail)) = record_of (
    ("scheme", str scheme)
    ∷ ("host", str (redact_digit_runs host))
    ∷ ("path", str (redact_digit_runs (take_until ends_path tail)))
    ∷ ("user", user_of value rest)
    ∷ ("hasQuery", bool (has_query (drop_until ends_path tail)))
    ∷ [])

unfoldable pub uri_of : String → Option (String × String) → Json
unfolding uri_parts
uri_of value none = redacted_bytes value
uri_of value (some (scheme, rest)) =
    uri_parts value scheme rest (host_after_user (without_slashes rest))

unfoldable pub summarize_uri : Json → Json
unfolding uri_of
summarize_uri (str value) = uri_of value (scheme_in schemes value)
summarize_uri value = type_marker value

-- the URLs that are logged in parts, by `url.protocol`, and the protocol without its colon
abbrev pub web_protocols : Map String
web_protocols = ("http:", "http") ∷ ("https:", "https") ∷ ("ws:", "ws") ∷ ("wss:", "wss") ∷ []

unfoldable pub url_parts : String → Url → Option String → Json
url_parts value url none = summarize_uri (str value)
url_parts value url (some scheme) = record_of (
    ("kind", str "url")
    ∷ ("scheme", str scheme)
    ∷ ("host", str (redact_digit_runs url.hostname))
    ∷ ("path", str (redact_digit_runs url.pathname))
    ∷ ("queryKeys", texts_of (sort (unique (map safe_query_key url.search_keys))))
    ∷ ("hasUserinfo", bool (not (url.username == "") || not (url.password == "")))
    ∷ [])

unfoldable pub parsed_url : Platform → String → Option Url → Json
unfolding url_parts
parsed_url platform value none = summarize_path platform (str value)
parsed_url platform value (some url) = url_parts value url (lookup url.protocol web_protocols)

unfoldable pub summarize_url_or_path : Platform → Json → Json
unfolding parsed_url
summarize_url_or_path platform (str value) = parsed_url platform value (platform.url value)
summarize_url_or_path platform value = type_marker value
