-- ===== src/SessionCommands/Valid/Media.antt =====
-- The media commands of src/session-commands.ts: each ends in a valid action or in a refusal.
use rtc_session_gateway.Base.{arith, false, ◌||◌}
use rtc_session_gateway.Base.{◌≡◌}
use rtc_session_gateway.SessionCommands.Valid.{
  with_body-Meets, ◌||◌, true, ◌≡◌, not, HasMedia-Meets, HasMedia, IsValid,
}
use rtc_session_gateway.SessionCommands.Meets.{
  refuses, invalid, IsText, guard-Meets, IsNatural, returns, bind, Meets,
}
use rtc_session_gateway.SessionCommands.Meets.Parameters.{
  optional_positive_integer-Meets, optional_boolean-Meets, optional_non_negative_integer-Meets,
  required_direction-Meets, optional_texts-Meets, optional_object-Meets, optional_direction-Meets,
  require_object-Meets, optional_string-Meets, required_string-Meets,
}
use rtc_session_gateway.SessionCommands.Media.{
  both_set, with_id, with_endpoint_sdp, update_direction, start_recording, offer_generation_in,
  list_recordings, inject_dtmf, delete_recording, create_webrtc_from_offer, create_rtp_offer,
  create_rtp_from_offer, bridge, accept_webrtc_answer, create_webrtc_offer,
}
use rtc_session_gateway.Json.{has_field, undefined, nat, num, Json}
use rtc_session_gateway.SessionCommands.{some, none, String, Bool, SessionCommandHandler, Action}

pub create_webrtc_offer-Meets :
    (h : SessionCommandHandler) (params : Json) → Meets (IsValid h) (create_webrtc_offer h params)
unfolding create_webrtc_offer
create_webrtc_offer-Meets h params = with_body-Meets h params _ λ body m.
    bind (required_string-Meets _ _)
      λ id p. bind (optional_string-Meets _ _) λ direction q. returns _ (p, q, m)

pub create_webrtc_from_offer-Meets :
    (h : SessionCommandHandler) (params : Json)
    → Meets (IsValid h) (create_webrtc_from_offer h params)
unfolding create_webrtc_from_offer
create_webrtc_from_offer-Meets h params = with_body-Meets h params _ λ body m.
    bind (required_string-Meets _ _) λ id p.
      bind (required_string-Meets _ _)
        λ sdp s. bind (optional_string-Meets _ _) λ direction q. returns _ (p, s, q, m)

offer_generation_in-Meets : (v : Json) → Meets IsNatural (offer_generation_in v)
unfolding offer_generation_in
offer_generation_in-Meets undefined = returns none tt
offer_generation_in-Meets (num (nat n)) = returns (some (nat n)) tt
offer_generation_in-Meets _ = refuses _ (invalid _)

pub accept_webrtc_answer-Meets :
    (h : SessionCommandHandler) (params : Json) → Meets (IsValid h) (accept_webrtc_answer h params)
unfolding accept_webrtc_answer
accept_webrtc_answer-Meets h params = bind (require_object-Meets params) λ body b.
    bind (offer_generation_in-Meets _) λ generation g. bind (HasMedia-Meets h) λ media m.
      bind (required_string-Meets _ _)
        λ id p. bind (required_string-Meets _ _) λ sdp s. returns _ (p, s, g, m)

pub with_endpoint_sdp-Meets :
    (h : SessionCommandHandler) (action : String → String → Action) (params : Json)
    → ((id sdp : String) → IsText id → IsText sdp → HasMedia h → IsValid h (action id sdp))
    → Meets (IsValid h) (with_endpoint_sdp h action params)
unfolding with_endpoint_sdp
with_endpoint_sdp-Meets h action params valid = with_body-Meets h params _ λ body m.
    bind (required_string-Meets _ _)
      λ id p. bind (required_string-Meets _ _) λ sdp s. returns _ (valid id sdp p s m)

pub with_id-Meets :
    (h : SessionCommandHandler) (name : String) (action : String → Action) (params : Json)
    → ((id : String) → IsText id → HasMedia h → IsValid h (action id))
    → Meets (IsValid h) (with_id h name action params)
unfolding with_id
with_id-Meets h name action params valid =
    with_body-Meets h params _
      λ body m. bind (required_string-Meets _ _) λ id p. returns _ (valid id p m)

not-eq-true : (b : Bool) → not b ≡ true → b ≡ false
not-eq-true b h = ground arith

pub create_rtp_offer-Meets :
    (h : SessionCommandHandler) (params : Json) → Meets (IsValid h) (create_rtp_offer h params)
unfolding create_rtp_offer
create_rtp_offer-Meets h params = bind (require_object-Meets params) λ body b.
    bind (optional_texts-Meets _ _ (invalid _)) λ codecs c.
      bind (optional_boolean-Meets _ _) λ srtp x.
        bind (optional_boolean-Meets _ _) λ srtp_optional y.
          bind (guard-Meets (not (both_set srtp srtp_optional)) _ (invalid _)) λ u one.
            bind (HasMedia-Meets h) λ media m. bind (required_string-Meets _ _) λ id p.
              bind (optional_string-Meets _ _)
                λ direction q. returns _ (p, q, not-eq-true (both_set srtp srtp_optional) one, c, m)

pub create_rtp_from_offer-Meets :
    (h : SessionCommandHandler) (params : Json) → Meets (IsValid h) (create_rtp_from_offer h params)
unfolding create_rtp_from_offer
create_rtp_from_offer-Meets h params = with_body-Meets h params _ λ body m.
    bind (required_string-Meets _ _) λ id p.
      bind (required_string-Meets _ _)
        λ sdp s. bind (optional_string-Meets _ _) λ direction q. returns _ (p, s, q, m)

pub update_direction-Meets :
    (h : SessionCommandHandler) (params : Json) → Meets (IsValid h) (update_direction h params)
unfolding update_direction
update_direction-Meets h params = bind (require_object-Meets params) λ body b.
    bind (required_direction-Meets _) λ direction d.
      bind (HasMedia-Meets h) λ media m. bind (required_string-Meets _ _) λ id p. returns _ (p, m)

pub bridge-Meets : (h : SessionCommandHandler) (params : Json) → Meets (IsValid h) (bridge h params)
unfolding bridge
bridge-Meets h params = with_body-Meets h params _ λ body m.
    bind (required_string-Meets _ _) λ id p.
      bind (required_string-Meets _ _)
        λ target q. bind (optional_direction-Meets _) λ direction d. returns _ (p, q, m)

pub inject_dtmf-Meets :
    (h : SessionCommandHandler) (params : Json) → Meets (IsValid h) (inject_dtmf h params)
unfolding inject_dtmf
inject_dtmf-Meets h params = with_body-Meets h params _ λ body m.
    bind (required_string-Meets _ _)
      λ id p. bind (required_string-Meets _ _) λ digit q. returns _ (p, q, m)

pub start_recording-Meets :
    (h : SessionCommandHandler) (params : Json) → Meets (IsValid h) (start_recording h params)
unfolding start_recording
start_recording-Meets h params = bind (require_object-Meets params) λ body b.
    bind
      (guard-Meets (not (has_field "recordOutbound" body || has_field "record_outbound" body)) _
        (invalid _))
      λ u one. bind (HasMedia-Meets h) λ media m. bind (required_string-Meets _ _) λ id p.
        bind (optional_string-Meets _ _)
          λ endpoint q. bind (optional_string-Meets _ _) λ path r. returns _ (p, q, r, m)

pub list_recordings-Meets :
    (h : SessionCommandHandler) (params : Json) → Meets (IsValid h) (list_recordings h params)
unfolding list_recordings
list_recordings-Meets h params = bind (optional_object-Meets params) λ body b.
    bind (HasMedia-Meets h) λ media m. bind (optional_string-Meets _ _) λ backend p.
      bind (optional_string-Meets _ _) λ starts_with q.
        bind (optional_non_negative_integer-Meets _ _)
          λ skip s. bind (optional_positive_integer-Meets _ _) λ limit l. returns _ (p, q, s, l, m)

pub delete_recording-Meets :
    (h : SessionCommandHandler) (params : Json) → Meets (IsValid h) (delete_recording h params)
unfolding delete_recording
delete_recording-Meets h params = with_body-Meets h params _ λ body m.
    bind (required_string-Meets _ _)
      λ backend p. bind (required_string-Meets _ _) λ path q. returns _ (p, q, m)
