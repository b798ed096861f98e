-- ===== src/SessionCommands/Valid.antt =====
-- What an action of the session commands (src/session-commands.ts) may ask of the gateway and the
-- media sessions: the conditions on its arguments and on the handler that it comes from.
pub mod Sip
pub mod Media
pub mod Play
pub mod Printed
pub mod Run
pub mod Consequences
use rtc_session_gateway.SessionCommands.Validators.{require_object}
use rtc_session_gateway.SessionCommands.Media.{both_set}
use rtc_session_gateway.SessionCommands.Sip.{is_new_call}
use rtc_session_gateway.MediaServerManager.{truthy}
use rtc_session_gateway.SessionCommands.{
  Action, OutboundParams, SessionCommandHandler, SipAuthCredentials, accepting, accepts_rtp_answer,
  accepts_webrtc_answer, accepts_webrtc_offer, bridges, cancels_attempt, creates_outbound,
  creates_rtp_from_offer, creates_rtp_offer, creates_session, creates_webrtc_from_offer,
  creates_webrtc_offer, deletes_recording, destroys_session, gathers, injects_dtmf, leaves_message,
  lists_recordings, plays, plays_and_gathers, plays_and_waits, reinvites, reinvites_rtp,
  require_media, restarts_ice, says_bye, starts_recording, stops_media, stops_recording, unbridges,
  updates_direction,
}
use rtc_session_gateway.MediaController.{PlayParams, LeaveMessageParams, GatherParams}
use rtc_session_gateway.Base.{Bool, true, false, Option, none, some, is_some, not, ◌||◌, ◌≡◌}
use rtc_session_gateway.Json.{Fields, Json, Number, nat}
use rtc_session_gateway.Errors.{◌>>=◌, Result, ok}
use rtc_session_gateway.SessionCommands.Meets.{
  bind, require_media-Meets, weaken, Meets, IsText, IsOptionalText, IsPositive, IsNatural,
  IsInteger, IsFinite, IsNullableInteger, AreTexts,
}
use rtc_session_gateway.SessionCommands.Meets.Parameters.{require_object-Meets}

abbrev pub HasMedia : SessionCommandHandler → Type 0
HasMedia h = is_some h.media ≡ true

abbrev pub IsAccepting : SessionCommandHandler → Type 0
IsAccepting h = accepting h.lifecycle ≡ ok tt

abbrev pub AreCredentials : Option SipAuthCredentials → Type 0
AreCredentials none = Unit
AreCredentials (some auth) = IsText auth.username × IsText auth.password

-- Parameters of an outbound call: an answer can reach somebody, and the texts are not blank.
pub record IsOutbound (p : OutboundParams) : Type 0 where
  pub request_uri_text : IsText p.request_uri
  pub sdp_text : IsText p.sdp
  pub receiver_url_text : IsOptionalText p.receiver_url
  pub reachable : (is_some (truthy p.control_connection_id) || is_some p.receiver_url) ≡ true
  pub calling_number_text : IsOptionalText p.calling_number
  pub calling_name_text : IsOptionalText p.calling_name
  pub proxy_text : IsOptionalText p.proxy
  pub attempt_text : IsOptionalText p.outbound_attempt_id
  pub credentials : AreCredentials p.auth

pub record IsPlay (p : PlayParams) : Type 0 where
  pub source_text : IsText p.source
  pub loop_count_integer : IsNullableInteger p.loop_count
  pub cache_ttl_integer : IsInteger p.cache_ttl_secs

pub record IsGather (p : GatherParams) : Type 0 where
  pub endpoint_text : IsText p.endpoint_id
  pub num_digits_positive : IsPositive p.num_digits
  pub timeout_positive : IsPositive p.timeout_ms
  pub inter_digit_positive : IsPositive p.inter_digit_timeout_ms
  pub terminator_text : IsOptionalText p.terminator

pub record IsLeaveMessage (p : LeaveMessageParams) : Type 0 where
  pub endpoint_text : IsText p.endpoint_id
  pub source_text : IsOptionalText p.message_source
  pub max_wait_positive : IsPositive p.max_wait_ms
  pub playback_positive : IsPositive p.playback_timeout_ms
  pub silence_positive : IsPositive p.silence_interval_ms
  pub threshold_finite : IsFinite p.speech_threshold
  pub terminator_text : IsOptionalText p.terminator

-- Of the actions on media sessions, all but the answers to `session.list` and `session.get` come
-- from a handler that has media sessions.
abbrev pub IsValid : SessionCommandHandler → Action → Type 0
IsValid h (creates_outbound p) = IsOutbound p × IsAccepting h
IsValid h (cancels_attempt attempt connection) = IsText attempt × (h.cancels_outbound ≡ true)
IsValid h (reinvites id sdp headers) = IsText id × IsText sdp
IsValid h (says_bye id reason headers) = IsText id
IsValid h (destroys_session id) = IsText id × HasMedia h
IsValid h (creates_session call_id owner) =
    IsOptionalText call_id × HasMedia h × (is_new_call h.registry call_id ≡ true → IsAccepting h)
IsValid h (creates_webrtc_offer id direction) = IsText id × IsOptionalText direction × HasMedia h
IsValid h (creates_webrtc_from_offer id sdp direction) =
    IsText id × IsText sdp × IsOptionalText direction × HasMedia h
IsValid h (accepts_webrtc_answer id sdp generation) =
    IsText id × IsText sdp × IsNatural generation × HasMedia h
IsValid h (accepts_webrtc_offer id sdp) = IsText id × IsText sdp × HasMedia h
IsValid h (restarts_ice id) = IsText id × HasMedia h
IsValid h (creates_rtp_offer id options) =
    IsText id
    × IsOptionalText options.direction
    × (both_set options.srtp options.srtp_optional ≡ false)
    × AreTexts options.codecs
    × HasMedia h
IsValid h (creates_rtp_from_offer id sdp direction) =
    IsText id × IsText sdp × IsOptionalText direction × HasMedia h
IsValid h (accepts_rtp_answer id sdp) = IsText id × IsText sdp × HasMedia h
IsValid h (reinvites_rtp id sdp) = IsText id × IsText sdp × HasMedia h
IsValid h (plays id p) = IsText id × IsPlay p × HasMedia h
IsValid h (plays_and_waits id source timeout) =
    IsText id × IsText source × IsPositive timeout × HasMedia h
IsValid h (stops_media id) = IsText id × HasMedia h
IsValid h (updates_direction id direction) = IsText id × HasMedia h
IsValid h (bridges id target direction) = IsText id × IsText target × HasMedia h
IsValid h (unbridges id) = IsText id × HasMedia h
IsValid h (gathers id p) = IsText id × IsGather p × HasMedia h
IsValid h (plays_and_gathers id p) =
    IsText id
    × IsGather p.gather
    × IsPlay p.play
    × IsPositive p.post_playback_timeout_ms
    × HasMedia h
IsValid h (leaves_message id p) = IsText id × IsLeaveMessage p × HasMedia h
IsValid h (injects_dtmf id digit) = IsText id × IsText digit × HasMedia h
IsValid h (starts_recording id endpoint path) =
    IsText id × IsOptionalText endpoint × IsOptionalText path × HasMedia h
IsValid h (stops_recording id) = IsText id × HasMedia h
IsValid h (lists_recordings backend starts_with skip limit) =
    IsOptionalText backend
    × IsOptionalText starts_with
    × IsNatural skip
    × IsPositive limit
    × HasMedia h
IsValid h (deletes_recording backend path) = IsText backend × IsText path × HasMedia h
IsValid h _ = Unit

pub HasMedia-Meets : (h : SessionCommandHandler) → Meets (λ media. HasMedia h) (require_media h)
HasMedia-Meets h = weaken (λ media e. rw e) (require_media-Meets h)

-- the two first steps of a media command
pub with_body-Meets :
    (h : SessionCommandHandler) (params : Json) (rest : Fields → Result Action)
    → ((body : Fields) → HasMedia h → Meets (IsValid h) (rest body))
    → Meets (IsValid h) (require_object params >>= λ body. require_media h >>= λ media. rest body)
with_body-Meets h params rest p =
    bind (require_object-Meets params) (λ body q. bind (HasMedia-Meets h) (λ media m. p body m))
