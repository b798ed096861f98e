-- ===== src/ControlLog/Redaction.antt =====
-- src/control-log.ts: what becomes of single texts. A regular expression is a test by recursion.
use rtc_session_gateway.Base.{
  ℕ, zero, suc, ◌+◌, String, Bool, false, ◌&&◌, ◌||◌, if◌then◌else◌, leb, ltb,
}
use rtc_session_gateway.Base.Text.{
  to_lower, is_lower, is_digit, is_upper, is_alnum, is_char, all_char, length,
}
use Prim.Native.Char.{Char, code}

abbrev pub redacted_text : String
redacted_text = "[REDACTED]"

-- Buffer.byteLength(value): the bytes of a text in UTF-8
unfoldable pub byte_length : String → ℕ
byte_length String.[] = 0
byte_length (String.◌∷◌ c s) =
    (if ltb (code c) 0x80
      then 1
      else if ltb (code c) 0x800
      then 2
      else if ltb (code c) 0x10000
      then 3
      else 4)
    + byte_length s

-- [...value].length
unfoldable pub points : String → ℕ
points String.[] = 0
points (String.◌∷◌ c s) = suc (points s)

-- '~'.repeat(n)
unfoldable pub tildes : ℕ → String
tildes zero = ""
tildes (suc n) = String.◌∷◌ "~" (tildes n)

-- how many digits a text begins with
unfoldable pub leading_digits : String → ℕ
leading_digits String.[] = 0
leading_digits (String.◌∷◌ c s) = if is_digit c then suc (leading_digits s) else 0

-- Where a scan of `\d{6,}` stands: outside the digits, in a run that is too short, in one that is hidden.
pub data Run : Type 0 where
  outside : Run
  kept : Run
  hidden : Run

-- the run that begins with a digit followed by `more` digits
unfoldable pub begun : (more : ℕ) → Run
begun more = if leb 5 more then hidden else kept

-- the run that a character stands in, from that of the character before it
unfoldable pub run_at : Run → Char → String → Run
unfolding begun
run_at run c rest =
    if is_digit c
    then elim run [ outside ↦ begun (leading_digits rest) | kept ↦ kept | hidden ↦ hidden ]
    else outside

unfoldable pub shown_in : Run → Char → Char
shown_in hidden c = "~"
shown_in _ c = c

unfoldable pub redact_from : Run → String → String
redact_from run String.[] = ""
redact_from run (String.◌∷◌ c s) =
    let now = run_at run c s in String.◌∷◌ (shown_in now c) (redact_from now s)

-- value.replace(/\d{6,}/g, digits => '~'.repeat(digits.length))
unfoldable pub redact_digit_runs : String → String
redact_digit_runs s = redact_from outside s

-- /^[first][rest]{0,n}$/
abbrev pub matches_name : (Char → Bool) → (Char → Bool) → ℕ → String → Bool
matches_name first rest most String.[] = false
matches_name first rest most (String.◌∷◌ c s) = first c && all_char rest s && leb (length s) most

abbrev pub is_letter : Char → Bool
is_letter c = is_upper c || is_lower c

unfoldable pub is_error_code : String → Bool
is_error_code = matches_name is_upper (λ c. is_upper c || is_digit c || is_char b'_' c) 63

-- the test of `safeFieldName` and of `safeQueryKey`
unfoldable pub is_field_name : String → Bool
is_field_name =
    matches_name (λ c. is_letter c || is_char b'_' c)
      (λ c. is_alnum c || is_char b'_' c || is_char b'.' c || is_char b'-' c) 63

-- /^[A-Za-z0-9_.:@-]+$/
unfoldable pub is_identifier : String → Bool
is_identifier value =
    all_char
      (λ c.
        is_alnum c
        || is_char b'_' c
        || is_char b'.' c
        || is_char b':' c
        || is_char b'@' c
        || is_char b'-' c)
      value
    && leb 1 (length value)

unfoldable pub safe_header_name : String → String
safe_header_name value =
    if all_char (λ c. is_alnum c || is_char b'-' c) value
      && leb 1 (length value)
      && leb (length value) 64
    then to_lower value
    else redacted_text

unfoldable pub safe_query_key : String → String
unfolding is_field_name
safe_query_key value = if is_field_name value then value else redacted_text

unfoldable pub safe_field_name : String → String
unfolding is_field_name
safe_field_name value = if is_field_name value then value else "[REDACTED_FIELD]"

unfoldable pub safe_protocol_name : String → String
safe_protocol_name value =
    if matches_name is_letter (λ c. is_alnum c || is_char b'_' c || is_char b'.' c) 127 value
    then value
    else redacted_text

-- value.replaceAll('_', '').toLowerCase()
unfoldable pub without_underscores : String → String
without_underscores String.[] = ""
without_underscores (String.◌∷◌ c s) =
    let rest = without_underscores s in if is_char b'_' c then rest else String.◌∷◌ c rest

unfoldable pub normalize_field : String → String
unfolding without_underscores
normalize_field value = to_lower (without_underscores value)
