-- ===== src/ControlLog/Sdp.antt =====
-- src/control-log.ts: what is logged of a session description, line by line.
use rtc_session_gateway.Base.{Option, some, none}
use rtc_session_gateway.ControlLog.Uri.{after}
use rtc_session_gateway.ControlLog.Redaction.{byte_length}
use rtc_session_gateway.ControlLog.Values.{contains, unique, sort, type_marker, texts_of, record_of}
use Prim.Native.String.{◌∷◌}
use rtc_session_gateway.Json.{bool, nat, num, str, Json}
use rtc_session_gateway.Base.Text.{
  includes, drop_until, trim_start, split, trim, to_lower, is_space, starts_with, is_char,
  take_until,
}
use rtc_session_gateway.Base.Assoc.{lookup, Map}
use rtc_session_gateway.Base.{
  ◌==◌, ◌||◌, not, ◌+◌, ◌&&◌, ◌∷◌, Bool, ℕ, or_else, if◌then◌else◌, false, List, String, [],
}

-- what the loop over the lines has found: the sets are lists, in the order of finding
pub record SdpSummary : Type 0 where
  pub media_types : List String
  pub codecs : List String
  pub directions : List String
  pub candidate_count : ℕ
  pub has_ice : Bool
  pub has_srtp : Bool

abbrev pub nothing_found : SdpSummary
nothing_found = record {
  media_types = [];
  codecs = [];
  directions = [];
  candidate_count = 0;
  has_ice = false;
  has_srtp = false;
}

abbrev pub media_words : List String
media_words = "audio" ∷ "video" ∷ "application" ∷ []

abbrev pub direction_words : List String
direction_words = "sendrecv" ∷ "sendonly" ∷ "recvonly" ∷ "inactive" ∷ []

abbrev pub codec_names : Map String
codec_names =
    ("pcmu", "PCMU")
    ∷ ("pcma", "PCMA")
    ∷ ("g722", "G722")
    ∷ ("opus", "opus")
    ∷ ("telephone-event", "telephone-event")
    ∷ []

unfoldable pub safe_codec : String → String
safe_codec value = or_else (lookup (to_lower value) codec_names) "other"

abbrev pub media_after : Option String → List String → List String
media_after none found = found
media_after (some rest) found =
    if contains (take_until is_space rest) media_words
    then take_until is_space rest ∷ found
    else found

-- m=<media>, with a media that is known
unfoldable pub media_in : String → List String → List String
media_in line found = media_after (after "m=" line) found

-- the second word of a line up to a slash; a line without a blank has no second word
abbrev pub codec_word : String → String
codec_word line =
    take_until (is_char b'/') (take_until is_space (trim_start (drop_until is_space line)))

unfoldable pub codec_in : String → List String → List String
unfolding safe_codec
codec_in line found =
    if starts_with line "a=rtpmap:" && not (codec_word line == "")
    then safe_codec (codec_word line) ∷ found
    else found

abbrev pub direction_after : Option String → List String → List String
direction_after none found = found
direction_after (some word) found = if contains word direction_words then word ∷ found else found

unfoldable pub direction_in : String → List String → List String
direction_in line found = direction_after (after "a=" line) found

-- one turn of the loop, on a line that is trimmed
unfoldable pub read_line : SdpSummary → String → SdpSummary
unfolding media_in codec_in direction_in
read_line s line = record {
  media_types = media_in line s.media_types;
  codecs = codec_in line s.codecs;
  directions = direction_in line s.directions;
  candidate_count =
      if starts_with line "a=candidate:" then s.candidate_count + 1 else s.candidate_count;
  has_ice = s.has_ice || starts_with line "a=ice-ufrag:" || starts_with line "a=ice-pwd:";
  has_srtp =
      s.has_srtp
      || starts_with line "a=fingerprint:"
      || starts_with line "a=crypto:"
      || includes line "RTP/SAVP";
}

unfoldable pub read_lines : SdpSummary → List String → SdpSummary
unfolding read_line
read_lines s [] = s
read_lines s (line ∷ lines) = read_lines (read_line s (trim line)) lines

abbrev pub sdp_record : ℕ → SdpSummary → Json
sdp_record bytes s = record_of (
    ("bytes", num (nat bytes))
    ∷ ("mediaTypes", texts_of (sort (unique s.media_types)))
    ∷ ("codecs", texts_of (sort (unique s.codecs)))
    ∷ ("directions", texts_of (sort (unique s.directions)))
    ∷ ("candidateCount", num (nat s.candidate_count))
    ∷ ("hasIce", bool s.has_ice)
    ∷ ("hasSrtp", bool s.has_srtp)
    ∷ [])

-- The lines are split at line feeds alone: a carriage return before one is trimmed off.
unfoldable pub summarize_sdp : Json → Json
unfolding read_lines
summarize_sdp (str value) =
    sdp_record (byte_length value) (read_lines nothing_found (split (is_char 10) value))
summarize_sdp value = type_marker value
