-- ===== src/Routing.antt =====
-- src/routing.ts: SIP URIs, host names, and which route takes an INVITE.
pub mod Config
pub mod Matching
mod Tests
use Prim.Native.Char.{Char, code}
use rtc_session_gateway.Base.{
  ℕ, ◌+◌, String, Bool, true, false, not, ◌&&◌, ◌||◌, Option, none, some, List, [], ◌∷◌, ◌==◌,
  if◌then◌else◌, leb, eqb, any, all, find,
}
use rtc_session_gateway.Base.Text
use rtc_session_gateway.Base.Text.{
  is_space, is_line_break, is_digit, is_upper, is_alnum, is_char, trim, starts_with, drop_until,
  take_until, any_char, all_char, split, to_lower,
}

infixl 5 ◌>>=◌
abbrev ◌>>=◌ : {A B : Type 0} → Option A → (A → Option B) → Option B
none >>= f = none
some a >>= f = f a

pub data RouteMatchType : Type 0 where
  exact user_prefix : RouteMatchType

pub record RouteConfig : Type 0 where
  pub match : RouteMatchType
  pub value : String
  pub url : String

pub record InviteDestination : Type 0 where
  pub destination_uri : String
  pub destination_user : Option String

-- the text between `<` and the next `>`: the group of /<([^>]+)>/ at a `<`
bracketed : String → Option String
bracketed s =
    if any_char (is_char b'>') s && not (take_until (is_char b'>') s == "")
    then some (take_until (is_char b'>') s)
    else none

-- /<([^>]+)>/.exec(s)?.[1]: the leftmost `<` at which the expression matches
name_addr : String → Option String
unfolding bracketed
name_addr String.[] = none
name_addr (String.◌∷◌ c s) =
    let later = name_addr s in
    if is_char b'<' c then (elim (bracketed s) [ some uri ↦ some uri | none ↦ later ]) else later

-- s.replace(/[?;].*$/, ''): `.` matches no line break, and `$` is the end of the text
unfoldable pub cut_params : String → String
cut_params String.[] = ""
cut_params (String.◌∷◌ c s) =
    let rest = String.◌∷◌ c (cut_params s) in
    if (is_char b'?' c || is_char b';' c) && not (any_char is_line_break s) then "" else rest

abbrev named : Option String → String → String
named none trimmed = trimmed
named (some uri) trimmed = uri

unfoldable pub strip_sip_uri : String → String
unfolding name_addr cut_params trim any_char take_until
strip_sip_uri value = let trimmed = trim value in cut_params (named (name_addr trimmed) trimmed)

unfoldable pub normalize_route_value : String → String
unfolding strip_sip_uri
normalize_route_value value = trim (strip_sip_uri value)

-- the letter `n` in either case
abbrev is_letter : ℕ → Char → Bool
is_letter n c = eqb (code c) n || eqb (code c + 32) n

-- what follows /^sips?:/i, if the text begins so
unfoldable pub sip_scheme : String → Option String
sip_scheme (String.◌∷◌ a (String.◌∷◌ b (String.◌∷◌ c (String.◌∷◌ d String.[])))) =
    if is_letter b's' a && is_letter b'i' b && is_letter b'p' c && is_char b':' d
    then some ""
    else none
sip_scheme (String.◌∷◌ a (String.◌∷◌ b (String.◌∷◌ c (String.◌∷◌ d (String.◌∷◌ e s))))) =
    if is_letter b's' a && is_letter b'i' b && is_letter b'p' c
    then (if is_char b':' d
        then some (String.◌∷◌ e s)
        else if is_letter b's' d && is_char b':' e
        then some s
        else none)
    else none
sip_scheme _ = none

-- uri.replace(/^sips?:/i, '')
unfoldable pub strip_scheme : String → String
unfolding sip_scheme
strip_scheme uri = elim (sip_scheme uri) [ none ↦ uri | some rest ↦ rest ]

-- `s || undefined`
abbrev pub non_empty : String → Option String
non_empty s = if s == "" then none else some s

unfoldable pub get_sip_user : String → Option String
unfolding strip_sip_uri strip_scheme
get_sip_user uri =
    let without_scheme = strip_scheme (strip_sip_uri uri) in
    if any_char (is_char b'@') without_scheme
    then non_empty (take_until (is_char b'@') without_scheme)
    else non_empty without_scheme

-- a label of /^[a-zA-Z0-9](?:[a-zA-Z0-9-]{0,61}[a-zA-Z0-9])?$/
ends_alnum : String → Bool
ends_alnum String.[] = false
ends_alnum (String.◌∷◌ c String.[]) = is_alnum c
ends_alnum (String.◌∷◌ c (String.◌∷◌ d s)) = ends_alnum (String.◌∷◌ d s)

starts_alnum : String → Bool
starts_alnum String.[] = false
starts_alnum (String.◌∷◌ c s) = is_alnum c

unfoldable pub valid_label : String → Bool
unfolding ends_alnum starts_alnum all_char Text.length
valid_label label =
    starts_alnum label
    && ends_alnum label
    && all_char (λ c. is_alnum c || is_char b'-' c) label
    && leb (Text.length label) 63

unfoldable pub valid_hostname : String → Bool
unfolding valid_label split Text.length
valid_hostname host = leb (Text.length host) 253 && all valid_label (split (is_char b'.') host)

-- (?::[0-9]+)?$ from the first `:` on
is_port : String → Bool
unfolding all_char
is_port String.[] = true
is_port (String.◌∷◌ c digits) = not (digits == "") && all_char is_digit digits

-- /^([a-zA-Z0-9.-]+)(?::[0-9]+)?$/ of an authority: the group
unfoldable pub authority_host : String → Option String
unfolding take_until drop_until all_char is_port
authority_host authority =
    let host = take_until (is_char b':') authority in
    let port = drop_until (is_char b':') authority in
    if not (host == "")
      && all_char (λ c. is_alnum c || is_char b'.' c || is_char b'-' c) host
      && is_port port
    then some host
    else none

-- s.replace(/\.$/, '')
unfoldable pub strip_dot : String → String
strip_dot String.[] = ""
strip_dot (String.◌∷◌ c String.[]) = if is_char b'.' c then "" else String.◌∷◌ c String.[]
strip_dot (String.◌∷◌ c (String.◌∷◌ d s)) = String.◌∷◌ c (strip_dot (String.◌∷◌ d s))

-- the host of an authority, if it is a valid hostname
unfoldable pub checked_host : String → Option String
unfolding authority_host strip_dot valid_hostname to_lower
checked_host authority = do
  matched ← authority_host authority
  let host = strip_dot (to_lower matched)
  if not (host == "") && valid_hostname host then some host else none

bad_part : String → Bool
unfolding any_char
bad_part part = part == "" || any_char (λ c. is_space c || is_char b'<' c || is_char b'>' c) part

host_of_parts : List String → Option String
unfolding bad_part checked_host
host_of_parts (authority ∷ []) = if bad_part authority then none else checked_host authority
host_of_parts (user ∷ authority ∷ []) =
    if bad_part user || bad_part authority then none else checked_host authority
host_of_parts _ = none

unfoldable pub get_sip_host : String → Option String
unfolding strip_sip_uri sip_scheme host_of_parts split
get_sip_host uri = do
  rest ← sip_scheme (strip_sip_uri uri)
  host_of_parts (split (is_char b'@') rest)

unfoldable pub accepts_sip_host : String → Option (List String) → Bool
unfolding get_sip_host
accepts_sip_host uri none = true
accepts_sip_host uri (some domains) = elim (get_sip_host uri) [
  | none ↦ false
  | some host ↦ any (λ d. d == host) domains
]

-- the test of `matchRoute` on one route, over the normalized destination
takes_by : RouteMatchType → String → String → Option String → Bool
takes_by exact value uri none = value == uri
takes_by exact value uri (some user) = value == uri || value == user
takes_by user_prefix value uri none = starts_with uri value
takes_by user_prefix value uri (some user) = starts_with uri value || starts_with user value

unfoldable pub takes : String → Option String → RouteConfig → Bool
unfolding takes_by
takes uri user route = takes_by route.match route.value uri user

-- `destinationUser ? normalizeRouteValue(destinationUser) : undefined`
unfoldable pub normalize_user : Option String → Option String
unfolding normalize_route_value
normalize_user none = none
normalize_user (some user) = if user == "" then none else some (normalize_route_value user)

unfoldable pub match_route : List RouteConfig → InviteDestination → Option RouteConfig
unfolding normalize_route_value normalize_user takes
match_route routes destination =
    find
      (takes (normalize_route_value destination.destination_uri)
        (normalize_user destination.destination_user))
      routes
