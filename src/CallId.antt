-- ===== src/CallId.antt =====
-- src/call-id.ts: the call id under which a SIP Call-ID is known, fit to stand in a URL path.
-- The text that `randomUUID` answers is an argument.
pub mod Tidy
mod Tests
use Prim.Native.Char.{Char, code}
use Prim.Native.String
use rtc_session_gateway.Base.{
  String, Bool, true, false, not, ◌&&◌, ◌||◌, Option, none, some, ◌==◌, if◌then◌else◌, eqb, or_else,
}
use rtc_session_gateway.Base.Text.{◌<>◌, is_space, is_alnum, is_char, trim}

abbrev dash : Char
dash = "-"

abbrev pub is_dash : Char → Bool
is_dash c = is_char b'-' c

-- a character outside SafePathChars, /[^A-Za-z0-9._~:@+=-]+/
abbrev pub is_safe : Char → Bool
is_safe c =
    is_alnum c
    || is_char b'.' c
    || is_char b'_' c
    || is_char b'~' c
    || is_char b':' c
    || is_char b'@' c
    || is_char b'+' c
    || is_char b'=' c
    || is_dash c

is_quote : Char → Bool
is_quote c = is_char 34 c || is_char 39 c

-- .replace(/^["'<\s]+/, '')
strip_open : String → String
unfolding is_quote
strip_open String.[] = ""
strip_open (String.◌∷◌ c s) =
    if is_quote c || is_char b'<' c || is_space c then strip_open s else String.◌∷◌ c s

-- .replace(/[>"'\s]+$/, '')
strip_close : String → String
unfolding is_quote
strip_close String.[] = ""
strip_close (String.◌∷◌ c s) =
    let rest = strip_close s in
    if (is_quote c || is_char b'>' c || is_space c) && rest == "" then "" else String.◌∷◌ c rest

-- .replace(/^sip:/i, '')
strip_sip : String → String
strip_sip (String.◌∷◌ a (String.◌∷◌ b (String.◌∷◌ c (String.◌∷◌ d s)))) =
    if (is_char b's' a || is_char b'S' a)
      && (is_char b'i' b || is_char b'I' b)
      && (is_char b'p' c || is_char b'P' c)
      && is_char b':' d
    then s
    else String.◌∷◌ a (String.◌∷◌ b (String.◌∷◌ c (String.◌∷◌ d s)))
strip_sip s = s

-- .replace(SafePathChars, '-'): a dash for each run, `in_run` behind its first character
replace_unsafe : Bool → String → String
replace_unsafe in_run String.[] = ""
replace_unsafe in_run (String.◌∷◌ c s) =
    let kept = String.◌∷◌ c (replace_unsafe false s) in
    let run = replace_unsafe true s in
    if is_safe c then kept else if in_run then run else String.◌∷◌ dash run

-- .replace(/-+/g, '-'), `behind` a dash
collapse : Bool → String → String
collapse behind String.[] = ""
collapse behind (String.◌∷◌ c s) =
    let kept = String.◌∷◌ c (collapse false s) in
    let run = collapse true s in
    if is_dash c then (if behind then run else String.◌∷◌ c run) else kept

-- .replace(/^-|-$/g, '')
strip_first : String → String
strip_first String.[] = ""
strip_first (String.◌∷◌ c s) = if is_dash c then s else String.◌∷◌ c s

strip_last : String → String
strip_last String.[] = ""
strip_last (String.◌∷◌ c String.[]) = if is_dash c then "" else String.◌∷◌ c String.[]
strip_last (String.◌∷◌ c (String.◌∷◌ d s)) = String.◌∷◌ c (strip_last (String.◌∷◌ d s))

unfoldable pub stripped_call_id : String → String
unfolding trim strip_open strip_close strip_sip replace_unsafe collapse strip_first strip_last
stripped_call_id sip_call_id =
    let bare = strip_sip (strip_close (strip_open (trim sip_call_id))) in
    strip_last (strip_first (collapse false (replace_unsafe false bare)))

unfoldable pub normalize_call_id : String → Option String → String
unfolding stripped_call_id
normalize_call_id uuid sip_call_id =
    let stripped = stripped_call_id (or_else sip_call_id "") in
    if stripped == "" then "call-" <> uuid else stripped
