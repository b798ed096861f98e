-- ===== src/ControlLog/Clean/Uris.antt =====
-- What src/control-log.ts logs of an address or a path has no six digits in a row.
use rtc_session_gateway.ControlLog.Values.{contains}
use rtc_session_gateway.ControlLog.Redaction.{leading_digits}
use rtc_session_gateway.ControlLog.Values.{bytes_of}
use rtc_session_gateway.Base.{
  some_injective, subst, if◌then◌else◌, Bool, [], ◌∷◌, some, none, true, false,
}
use rtc_session_gateway.Json.{nat}
use rtc_session_gateway.Base.Text.{is_char, includes, take_until}
use rtc_session_gateway.Base.{refl, none, [], ◌∷◌, false, true, some, ◌≡◌, Option}
use rtc_session_gateway.ControlLog.Uri.{
  web_protocols, scheme_or, parsed_url, ends_path, without_slashes, schemes, host_after_user, Url,
  Platform, url_parts, uri_parts, uri_of, summarize_url_or_path, summarize_uri, summarize_path,
  scheme_in,
}
use rtc_session_gateway.ControlLog.Clean.{
  num, lookup_clean, lookup, type_marker_clean, redacted_clean, str, has_digit_run, ◌≡◌,
  WithoutRuns, String, List, Json, is_clean,
}

pub path_clean : (platform : Platform) (v : Json) → is_clean (summarize_path platform v) ≡ true
unfolding is_clean summarize_path contains
path_clean platform (str value) = rw (redacted_clean (platform.basename value))
path_clean platform v = type_marker_clean v

scheme_or_clean :
    (scheme : String) (after : Option String) (other : Option (String × String))
    (found : String × String)
    → has_digit_run scheme ≡ false
    → (other ≡ some found → has_digit_run found.0 ≡ false)
    → scheme_or scheme after other ≡ some found
    → has_digit_run found.0 ≡ false
scheme_or_clean scheme (some rest) other found p q h =
    subst (λ f. has_digit_run f.0 ≡ false) (some_injective h) p
scheme_or_clean scheme none other found p q h = q h

scheme_clean :
    (list : List String) (value : String) (found : String × String)
    → WithoutRuns list
    → scheme_in list value ≡ some found
    → has_digit_run found.0 ≡ false
unfolding scheme_in
scheme_clean [] value found p h = absurd (cc)
scheme_clean (scheme ∷ list) value found p h =
    scheme_or_clean scheme _ _ found p.0 (scheme_clean list value found p.1) h

bytes_clean : (b : Bool) (s : String) → is_clean (if b then bytes_of s else num (nat 0)) ≡ true
unfolding is_clean
bytes_clean true s = refl
bytes_clean false s = refl

uri_parts_clean :
    (value scheme rest : String) (host : Option (String × String))
    → has_digit_run scheme ≡ false
    → is_clean (uri_parts value scheme rest host) ≡ true
unfolding is_clean uri_parts contains
uri_parts_clean value scheme rest none p = refl
uri_parts_clean value scheme rest (some (host, tail)) p =
    rw (p, redacted_clean host, redacted_clean (take_until ends_path tail))
      (rw (bytes_clean (includes value "@") (take_until (is_char b'@') (without_slashes rest))))

uri_of_clean :
    (value : String) (found : Option (String × String))
    → ((s r : String) → found ≡ some (s, r) → has_digit_run s ≡ false)
    → is_clean (uri_of value found) ≡ true
unfolding uri_of is_clean contains
uri_of_clean value none p = refl
uri_of_clean value (some (scheme, rest)) p =
    uri_parts_clean value scheme rest (host_after_user (without_slashes rest)) (p scheme rest refl)

pub uri_clean : (v : Json) → is_clean (summarize_uri v) ≡ true
unfolding summarize_uri rtc_session_gateway.ControlLog.DigitRuns.has_digit_run leading_digits
uri_clean (str value) = uri_of_clean value (scheme_in schemes value) (λ s r e.
    scheme_clean schemes value (s, r) (refl, (refl, (refl, (refl, (refl, (refl, tt)))))) e)
uri_clean v = type_marker_clean v

url_parts_clean :
    (value : String) (url : Url) (scheme : Option String)
    → ((s : String) → scheme ≡ some s → has_digit_run s ≡ false)
    → is_clean (url_parts value url scheme) ≡ true
unfolding url_parts is_clean contains rtc_session_gateway.ControlLog.DigitRuns.has_digit_run
    leading_digits
url_parts_clean value url none p = uri_clean (str value)
url_parts_clean value url (some scheme) p =
    rw (p scheme refl, redacted_clean url.hostname, redacted_clean url.pathname)

parsed_clean :
    (platform : Platform) (value : String) (url : Option Url)
    → is_clean (parsed_url platform value url) ≡ true
unfolding parsed_url rtc_session_gateway.ControlLog.DigitRuns.has_digit_run leading_digits
parsed_clean platform value none = path_clean platform (str value)
parsed_clean platform value (some url) =
    url_parts_clean value url (lookup url.protocol web_protocols)
      (λ s e. lookup_clean url.protocol web_protocols s (refl, (refl, (refl, (refl, tt)))) e)

pub url_or_path_clean :
    (platform : Platform) (v : Json) → is_clean (summarize_url_or_path platform v) ≡ true
unfolding summarize_url_or_path
url_or_path_clean platform (str value) = parsed_clean platform value (platform.url value)
url_or_path_clean platform v = type_marker_clean v
