-- ===== src/ControlLog/Clean/Sdp.antt =====
-- What src/control-log.ts logs of a session description has no six digits in a row.
use rtc_session_gateway.ControlLog.DigitRuns.{has_digit_run}
use rtc_session_gateway.ControlLog.Redaction.{leading_digits}
use rtc_session_gateway.ControlLog.Uri.{after}
use rtc_session_gateway.ControlLog.Redaction.{byte_length}
use rtc_session_gateway.Base.Text.{
  is_char, split, is_space, to_lower, take_until, starts_with, trim,
}
use rtc_session_gateway.ControlLog.Sdp.{
  codec_word, media_words, nothing_found, codec_names, direction_words, media_after,
  direction_after, sdp_record, read_line, summarize_sdp, safe_codec, read_lines, media_in,
  direction_in, codec_in, SdpSummary,
}
use Prim.Native.String.{String}
use rtc_session_gateway.Base.{
  ◌==◌, inr, not, ◌&&◌, inl, refl, or_else, if◌then◌else◌, Bool-cases, ◌≡◌, List, ℕ, Option, [],
  ◌∷◌, some, none, true, false,
}
use rtc_session_gateway.ControlLog.Clean.{
  leading_digits, type_marker_clean, lookup_clean, contains_clean, contains, str, set_clean, lookup,
  has_digit_run, Json, WithoutRuns, is_clean,
}

abbrev SdpWithoutRuns : SdpSummary → Type 0
SdpWithoutRuns s = WithoutRuns s.media_types × WithoutRuns s.codecs × WithoutRuns s.directions

-- a word that is taken only if it is one of some clean words
taken_clean :
    (word : String) (words found : List String)
    → WithoutRuns words
    → WithoutRuns found
    → WithoutRuns (if contains word words then word ∷ found else found)
taken_clean word words found w p = elim (Bool-cases (contains word words)) [
  | inl e ↦ rw e (contains_clean word words w e, p)
  | inr e ↦ rw e p
]

media_in_clean :
    (line : String) (found : List String) → WithoutRuns found → WithoutRuns (media_in line found)
unfolding media_in has_digit_run leading_digits
media_in_clean line found p = known (after "m=" line)
  where
    known : (o : Option String) → WithoutRuns (media_after o found)
    known none = p
    known (some rest) =
        taken_clean (take_until is_space rest) media_words found (refl, (refl, (refl, tt))) p

direction_in_clean :
    (line : String) (found : List String)
    → WithoutRuns found
    → WithoutRuns (direction_in line found)
unfolding direction_in has_digit_run leading_digits
direction_in_clean line found p = known (after "a=" line)
  where
    known : (o : Option String) → WithoutRuns (direction_after o found)
    known none = p
    known (some word) = taken_clean word direction_words found (refl, (refl, (refl, (refl, tt)))) p

codec_clean :
    (o : Option String)
    → ((v : String) → o ≡ some v → has_digit_run v ≡ false)
    → has_digit_run (or_else o "other") ≡ false
unfolding has_digit_run leading_digits
codec_clean none p = refl
codec_clean (some v) p = p v refl

safe_codec_clean : (value : String) → has_digit_run (safe_codec value) ≡ false
unfolding safe_codec has_digit_run leading_digits
safe_codec_clean value =
    codec_clean (lookup (to_lower value) codec_names)
      (λ v. lookup_clean (to_lower value) codec_names v (refl, (refl, (refl, (refl, (refl, tt))))))

codec_in_clean :
    (line : String) (found : List String) → WithoutRuns found → WithoutRuns (codec_in line found)
unfolding codec_in
codec_in_clean line found p =
    elim (Bool-cases (starts_with line "a=rtpmap:" && not (codec_word line == ""))) [
      | inl e ↦ rw e (safe_codec_clean (codec_word line), p)
      | inr e ↦ rw e p
    ]

read_lines_clean :
    (s : SdpSummary) (lines : List String) → SdpWithoutRuns s → SdpWithoutRuns (read_lines s lines)
unfolding read_lines read_line
read_lines_clean s [] p = p
read_lines_clean s (line ∷ lines) p = read_lines_clean (read_line s (trim line)) lines (
  media_in_clean (trim line) s.media_types p.0,
  codec_in_clean (trim line) s.codecs p.1,
  direction_in_clean (trim line) s.directions p.2,
)

sdp_record_clean :
    (bytes : ℕ) (s : SdpSummary) → SdpWithoutRuns s → is_clean (sdp_record bytes s) ≡ true
unfolding is_clean rtc_session_gateway.ControlLog.Values.contains
sdp_record_clean bytes s p =
    rw (set_clean s.media_types p.0, set_clean s.codecs p.1, set_clean s.directions p.2)

pub sdp_clean : (v : Json) → is_clean (summarize_sdp v) ≡ true
unfolding summarize_sdp
sdp_clean (str value) =
    sdp_record_clean (byte_length value) (read_lines nothing_found (split (is_char 10) value))
      (read_lines_clean nothing_found (split (is_char 10) value) (tt, tt, tt))
sdp_clean v = type_marker_clean v
