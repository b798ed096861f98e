-- ===== src/ControlLog/Clean/Objects.antt =====
-- What src/control-log.ts logs of an object whose fields are known: names that are short words, and values
-- without six digits in a row.
use rtc_session_gateway.Base.Text.{length as units, is_char, is_alnum, all_char}
use Prim.Native.Char.{Char}
use rtc_session_gateway.ControlLog.DigitRuns.{has_digit_run}
use rtc_session_gateway.ControlLog.Clean.Summaries.{
  digits_clean, identifier_clean, enum_clean, text_clean, array_clean, headers_clean, auth_clean,
  routes_clean, ice_clean, plain_clean,
}
use rtc_session_gateway.ControlLog.Scrub.{reason_field}
use rtc_session_gateway.ControlLog.Clean.Sdp.{sdp_clean}
use rtc_session_gateway.Errors.{ok_injective, ok}
use rtc_session_gateway.ControlLog.Tables.{listed, inherited, FieldList}
use rtc_session_gateway.ControlLog.Redaction.{
  leading_digits, safe_field_name, is_field_name, normalize_field,
}
use rtc_session_gateway.ControlLog.Clean.Uris.{path_clean, url_or_path_clean, uri_clean}
use rtc_session_gateway.ControlLog.Uri.{Platform}
use rtc_session_gateway.ControlLog.Values.{type_marker, type_name, from_entries, put_all, put}
use rtc_session_gateway.ControlLog.Scrub.{
  enum_field, array_field, ice_field, routes_field, id_field, terminator_field, digits_field,
  path_field, uri_field, url_field, auth_field, headers_field, sdp_field, secret, field_kind,
  FieldKind, ControlLogContext, scrub_known_field, scrub_fields, scrub_known_object, scrub_entry,
  scrub_as,
}
use rtc_session_gateway.Base.{
  ◌||◌, ◌≤◌, Bool, ◌⊎◌, subst, map, inr, Option, ◌==◌, inl, arith, Bool-cases, All, refl, ◌≡◌, List,
  String, [], ◌∷◌, some, none, true, false,
}
use rtc_session_gateway.Json.{null, undefined, entries, end}
use rtc_session_gateway.ControlLog.Clean.{
  arr, num, bool, str, redacted_text_clean, prop, contains, type_marker_clean, obj, Json, Fields,
  is_clean,
}

-- letters, digits, `_`, `.` and `-`
abbrev pub is_word_char : Char → Bool
is_word_char c = is_alnum c || is_char b'_' c || is_char b'.' c || is_char b'-' c

field_name_word :
    (key : String)
    → is_field_name key ≡ true
    → (1 ≤ units key) × (units key ≤ 64) × (all_char is_word_char key ≡ true)
unfolding is_field_name all_char units
field_name_word String.[] h = absurd (cc)
field_name_word (String.◌∷◌ c s) h = ground arith

-- The name of a logged field: the caller's own if it is a short word, and a fixed text otherwise.
abbrev pub IsFieldKey : String → Type 0
IsFieldKey key =
    (key ≡ "[REDACTED_FIELD]")
    ⊎ ((1 ≤ units key) × (units key ≤ 64) × (all_char is_word_char key ≡ true))

-- Fields that may be logged: their names are such words, and their values are clean.
pub data AreLogged : Fields → Type 0 where
  no_fields : AreLogged end
  logs :
      {key : String} {value : Json} {fields : Fields}
      → IsFieldKey key
      → is_clean value ≡ true
      → AreLogged fields
      → AreLogged (prop key value fields)

-- What may be logged of a value: an object of such fields, or a value that is clean.
abbrev pub IsLogged : Json → Type 0
IsLogged (obj fields) = AreLogged fields
IsLogged value = is_clean value ≡ true

safe_field_name-IsFieldKey : (key : String) → IsFieldKey (safe_field_name key)
unfolding safe_field_name
safe_field_name-IsFieldKey key = elim (Bool-cases (is_field_name key)) [
  | inl named ↦ rw named (inr (field_name_word key named))
  | inr other ↦ rw other (inl refl)
]

scrub_as_clean :
    (platform : Platform) (context : ControlLogContext) (kind : Option FieldKind) (v : Json)
    → is_clean (scrub_as platform context kind v) ≡ true
unfolding scrub_as is_clean
scrub_as_clean platform context none v = plain_clean v
scrub_as_clean platform context (some secret) v = redacted_text_clean
scrub_as_clean platform context (some sdp_field) v = sdp_clean v
scrub_as_clean platform context (some headers_field) v = headers_clean v
scrub_as_clean platform context (some auth_field) v = auth_clean v
scrub_as_clean platform context (some url_field) v = url_or_path_clean platform v
scrub_as_clean platform context (some uri_field) v = uri_clean v
scrub_as_clean platform context (some path_field) v = path_clean platform v
scrub_as_clean platform context (some digits_field) v = digits_clean v _
scrub_as_clean platform context (some terminator_field) v = digits_clean v false
scrub_as_clean platform context (some id_field) v = identifier_clean v
scrub_as_clean platform context (some routes_field) v = routes_clean v
scrub_as_clean platform context (some ice_field) v = ice_clean v
scrub_as_clean platform context (some array_field) v = array_clean v
scrub_as_clean platform context (some enum_field) v = enum_clean v
scrub_as_clean platform context (some reason_field) v = text_clean v

entry_clean :
    (platform : Platform) (context : ControlLogContext) (allowed : List String) (e : String × Json)
    → is_clean (scrub_entry platform context allowed e).1 ≡ true
unfolding scrub_entry scrub_known_field
entry_clean platform context allowed (key, v) =
    elim (Bool-cases (contains (normalize_field key) allowed)) [
      | inl known ↦ rw known (scrub_as_clean platform context (field_kind (normalize_field key)) v)
      | inr other ↦ rw other (type_marker_clean v)
    ]

put-AreLogged :
    (key : String) (v : Json) (fs : Fields)
    → IsFieldKey key
    → is_clean v ≡ true
    → AreLogged fs
    → AreLogged (put key v fs)
unfolding put
put-AreLogged key v end i p q = logs i p no_fields
put-AreLogged key v (prop k w fs) i p (logs j c later) = elim (Bool-cases (k == key)) [
  | inl same ↦ rw same (logs j p later)
  | inr other ↦ rw other (logs j c (put-AreLogged key v fs i p later))
]

put_all-AreLogged :
    (fs : Fields) (es : List (String × Json))
    → AreLogged fs
    → All (λ e. IsFieldKey e.0 × (is_clean e.1 ≡ true)) es
    → AreLogged (put_all fs es)
unfolding put_all
put_all-AreLogged fs [] p q = p
put_all-AreLogged fs ((key, v) ∷ es) p q =
    put_all-AreLogged (put key v fs) es (put-AreLogged key v fs q.0.0 q.0.1 p) q.1

entries_logged :
    (platform : Platform) (context : ControlLogContext) (allowed : List String)
    (es : List (String × Json))
    → All
        (λ e. IsFieldKey e.0 × (is_clean e.1 ≡ true))
        (map (scrub_entry platform context allowed) es)
unfolding scrub_entry
entries_logged platform context allowed [] = tt
entries_logged platform context allowed ((key, v) ∷ es) = (
  (safe_field_name-IsFieldKey key, entry_clean platform context allowed (key, v)),
  entries_logged platform context allowed es,
)

type_name_clean : (v : Json) → is_clean (str (type_name v)) ≡ true
unfolding type_name is_clean has_digit_run leading_digits
type_name_clean undefined = refl
type_name_clean null = refl
type_name_clean (bool b) = refl
type_name_clean (num n) = refl
type_name_clean (str s) = refl
type_name_clean (arr xs) = refl
type_name_clean (obj fs) = refl

type_marker-IsLogged : (v : Json) → IsLogged (type_marker v)
unfolding type_marker is_clean all_char units
type_marker-IsLogged v =
    logs (inr (omega arith, omega arith, refl)) refl
      (logs (inr (omega arith, omega arith, refl)) (type_name_clean v) no_fields)

-- Whatever the object, its known fields and the context: in the values of the logged fields, at any
-- depth, no text has six digits in a row, but for the texts at a nested property `names` or
-- `queryKeys` (the names of headers, the keys of queries). The names of the fields are the caller's, and
-- may have such digits: each is logged as 1 to 64 letters, digits, `_`, `.` and `-`, or as
-- "[REDACTED_FIELD]".
pub scrub_known_object-IsLogged :
    (platform : Platform) (value : Json) (allowed : FieldList) (context : ControlLogContext)
    {logged : Json}
    → scrub_known_object platform value allowed context ≡ ok logged
    → IsLogged logged
unfolding scrub_known_object scrub_fields from_entries
scrub_known_object-IsLogged platform (obj fields) (inherited size) context h = absurd (cc)
scrub_known_object-IsLogged platform (obj fields) (listed allowed) context h =
    subst IsLogged (ok_injective h) (
      put_all-AreLogged end _ no_fields
        (entries_logged platform context (map normalize_field allowed) (entries fields)))
scrub_known_object-IsLogged platform v allowed context h =
    subst IsLogged (ok_injective h) (type_marker-IsLogged v)
