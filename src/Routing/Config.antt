-- ===== src/Routing/Config.antt =====
-- src/routing.ts: `parseAllowedSipDomains` and `parseRoutesJson`. `JSON.parse` and the test that
-- `new URL` makes are parameters.
use rtc_session_gateway.Base.{
  ℕ, ◌+◌, String, Bool, not, ◌&&◌, Option, none, some, List, [], ◌∷◌, ◌==◌, if◌then◌else◌, leb, eqb,
  any, length,
}
use rtc_session_gateway.Base.Text
use rtc_session_gateway.Base.Text.{◌<>◌, is_blank, to_lower}
use rtc_session_gateway.Base.Decimal.{decimal}
use rtc_session_gateway.Json.{Json, str, arr, obj, Fields, end, field, items}
use rtc_session_gateway.Errors.{Result, ok, err, plain, ◌>>=◌, ◌>>◌, guard}
use rtc_session_gateway.Routing.{
  RouteMatchType, exact, user_prefix, RouteConfig, strip_dot, valid_hostname, normalize_route_value,
}

read_domain : Json → Result String
read_domain (str domain) =
    if leb (Text.length domain) 253 && valid_hostname (strip_dot domain)
    then ok (strip_dot (to_lower domain))
    else err (plain "Invalid allowed SIP domain")
read_domain _ = err (plain "Invalid allowed SIP domain")

read_domains : List Json → Result (List String)
unfolding read_domain
read_domains [] = ok []
read_domains (v ∷ vs) = do domain ← read_domain v; rest ← read_domains vs; ok (domain ∷ rest)

-- [...new Set(xs)]
unique_from : List String → List String → List String
unique_from seen [] = []
unique_from seen (x ∷ xs) =
    let later = unique_from seen xs in
    let next = x ∷ unique_from (x ∷ seen) xs in if any (λ y. y == x) seen then later else next

bad_domains : Result (List String)
bad_domains = err (plain "SIP_ALLOWED_DOMAINS_JSON must contain exact SIP hostnames")

domains_of : Json → Result (List String)
unfolding read_domains unique_from bad_domains
domains_of (arr vs) = do
  guard (not (eqb (length (items vs)) 0) && leb (length (items vs)) 128)
      (plain "SIP_ALLOWED_DOMAINS_JSON must contain exact SIP hostnames")
  domains ← read_domains (items vs)
  ok (unique_from [] domains)
domains_of _ = bad_domains

-- the properties that `candidate` has: an array has none of those read here
properties : Json → Option Fields
properties (obj fs) = some fs
properties (arr vs) = some end
properties _ = none

abbrev route_label : ℕ → String
route_label index = "ROUTES_JSON[" <> decimal index <> "]"

unfoldable pub read_match : Json → Option RouteMatchType
read_match (str s) =
    if s == "exact" then some exact else if s == "userPrefix" then some user_prefix else none
read_match _ = none

module _ (json_parse : String → Result Json) (is_url : String → Bool) where
  unfoldable pub parse_allowed_sip_domains : Option String → Result (Option (List String))
  unfolding domains_of
  parse_allowed_sip_domains none = ok none
  parse_allowed_sip_domains (some value) = do
    domains ← json_parse value
    read ← domains_of domains
    ok (some read)

  text_or : Json → String → Result String
  text_or (str s) message = if is_blank s then err (plain message) else ok s
  text_or _ message = err (plain message)

  match_or : Option RouteMatchType → String → Result RouteMatchType
  match_or none message = err (plain message)
  match_or (some m) message = ok m

  route_of : ℕ → Option Fields → Result RouteConfig
  unfolding text_or match_or read_match
  route_of index none = err (plain (route_label index <> " must be an object"))
  route_of index (some candidate) = do
    match ←
        match_or (read_match (field "match" candidate))
          (route_label index <> ".match must be \"exact\" or \"userPrefix\"")
    value ←
        text_or (field "value" candidate) (route_label index <> ".value must be a non-empty string")
    url ← text_or (field "url" candidate) (route_label index <> ".url must be a non-empty string")
    guard (is_url url) (plain "Invalid URL")
    ok (record { match = match; value = normalize_route_value value; url = url })

  routes_from : ℕ → List Json → Result (List RouteConfig)
  unfolding route_of properties
  routes_from index [] = ok []
  routes_from index (v ∷ vs) = do
    route ← route_of index (properties v)
    rest ← routes_from (index + 1) vs
    ok (route ∷ rest)

  routes_of : Json → Result (List RouteConfig)
  unfolding routes_from
  routes_of (arr vs) = routes_from 0 (items vs)
  routes_of _ = err (plain "ROUTES_JSON must be an array")

  unfoldable pub parse_routes_json : Option String → Result (List RouteConfig)
  unfolding routes_of
  parse_routes_json none = ok []
  parse_routes_json (some value) =
      if is_blank value then ok [] else do parsed ← json_parse value; routes_of parsed
