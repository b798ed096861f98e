-- ===== src/SessionCommands/Execute.antt =====
-- src/session-commands.ts: `execute`. Its `switch` is a table of the method names and a function by
-- clauses on the methods.
use rtc_session_gateway.SessionCommands.Media.{
  bridge, delete_recording, list_recordings, start_recording, inject_dtmf, update_direction,
  create_rtp_from_offer, create_rtp_offer, with_id, with_endpoint_sdp, accept_webrtc_answer,
  create_webrtc_from_offer, create_webrtc_offer,
}
use rtc_session_gateway.SessionCommands.Gathering.{leave_message, play_and_gather, gather}
use rtc_session_gateway.SessionCommands.Playing.{play_and_wait, play}
use rtc_session_gateway.SessionCommands.Sip.{
  bye, reinvite, cancel_outbound, create_outbound, create_media_session, delete_session,
  get_session,
}
use rtc_session_gateway.SessionCommands.{
  acknowledges, stops_recording, unbridges, stops_media, reinvites_rtp, accepts_rtp_answer,
  restarts_ice, accepts_webrtc_offer, lists_sessions, Action, CommandContext, SessionCommandHandler,
}
use rtc_session_gateway.MediaController.{MediaSessionSnapshot}
use rtc_session_gateway.Base.{String, Option, none, some, List, [], ◌∷◌}
use rtc_session_gateway.Base.Text.{◌<>◌}
use rtc_session_gateway.Base.Assoc.{Map, lookup, values}
use rtc_session_gateway.Json.{Json}
use rtc_session_gateway.Errors.{Result, ok, err, command_not_implemented, command_validation}
use rtc_session_gateway.CallRegistry

pub data Method : Type 0 where
  session_list session_get session_delete session_create : Method
  sip_create_outbound sip_cancel_outbound sip_reinvite sip_bye : Method
  webrtc_create_offer webrtc_create_from_offer webrtc_accept_answer webrtc_accept_offer : Method
  webrtc_restart_ice rtp_create_offer rtp_create_from_offer rtp_accept_answer rtp_reinvite : Method
  media_play media_play_and_wait media_stop endpoint_update_direction media_bridge : Method
  media_unbridge media_gather media_play_and_gather media_leave_message dtmf_inject : Method
  recording_start recording_stop recording_list recording_delete event_ack : Method
  not_in_slice deferred : Method

abbrev pub methods : Map Method
methods =
    ("session.list", session_list)
    ∷ ("session.get", session_get)
    ∷ ("session.delete", session_delete)
    ∷ ("session.create", session_create)
    ∷ ("sip.createOutbound", sip_create_outbound)
    ∷ ("sip.cancelOutbound", sip_cancel_outbound)
    ∷ ("sip.reinvite", sip_reinvite)
    ∷ ("sip.bye", sip_bye)
    ∷ ("webrtc.createOffer", webrtc_create_offer)
    ∷ ("webrtc.createFromOffer", webrtc_create_from_offer)
    ∷ ("webrtc.acceptAnswer", webrtc_accept_answer)
    ∷ ("webrtc.acceptOffer", webrtc_accept_offer)
    ∷ ("webrtc.restartIce", webrtc_restart_ice)
    ∷ ("rtp.createOffer", rtp_create_offer)
    ∷ ("rtp.createFromOffer", rtp_create_from_offer)
    ∷ ("rtp.acceptAnswer", rtp_accept_answer)
    ∷ ("rtp.reinvite", rtp_reinvite)
    ∷ ("media.play", media_play)
    ∷ ("media.playAndWait", media_play_and_wait)
    ∷ ("media.stop", media_stop)
    ∷ ("endpoint.updateDirection", endpoint_update_direction)
    ∷ ("media.bridge", media_bridge)
    ∷ ("media.unbridge", media_unbridge)
    ∷ ("media.gather", media_gather)
    ∷ ("media.playAndGather", media_play_and_gather)
    ∷ ("media.leaveMessage", media_leave_message)
    ∷ ("dtmf.inject", dtmf_inject)
    ∷ ("recording.start", recording_start)
    ∷ ("recording.stop", recording_stop)
    ∷ ("recording.list", recording_list)
    ∷ ("recording.delete", recording_delete)
    ∷ ("event.ack", event_ack)
    ∷ ("sip.answer", not_in_slice)
    ∷ ("sip.reject", not_in_slice)
    ∷ ("vad.start", deferred)
    ∷ ("vad.stop", deferred)
    ∷ ("amd.start", deferred)
    ∷ ("amd.stop", deferred)
    ∷ []

-- this.media?.list() ?? []
abbrev media_list : Option (Map MediaSessionSnapshot) → List MediaSessionSnapshot
media_list none = []
media_list (some sessions) = values sessions

unfoldable pub run_method :
    SessionCommandHandler → Method → String → Json → CommandContext → Result Action
run_method h session_list name params context =
    ok (lists_sessions (CallRegistry.list h.registry) (media_list h.media))
run_method h session_get name params context = get_session h params
run_method h session_delete name params context = delete_session h params
run_method h session_create name params context = create_media_session h params context
run_method h sip_create_outbound name params context = create_outbound h params context
run_method h sip_cancel_outbound name params context = cancel_outbound h params context
run_method h sip_reinvite name params context = reinvite params
run_method h sip_bye name params context = bye params
run_method h webrtc_create_offer name params context = create_webrtc_offer h params
run_method h webrtc_create_from_offer name params context = create_webrtc_from_offer h params
run_method h webrtc_accept_answer name params context = accept_webrtc_answer h params
run_method h webrtc_accept_offer name params context =
    with_endpoint_sdp h accepts_webrtc_offer params
run_method h webrtc_restart_ice name params context = with_id h "endpointId" restarts_ice params
run_method h rtp_create_offer name params context = create_rtp_offer h params
run_method h rtp_create_from_offer name params context = create_rtp_from_offer h params
run_method h rtp_accept_answer name params context = with_endpoint_sdp h accepts_rtp_answer params
run_method h rtp_reinvite name params context = with_endpoint_sdp h reinvites_rtp params
run_method h media_play name params context = play h params
run_method h media_play_and_wait name params context = play_and_wait h params
run_method h media_stop name params context = with_id h "endpointId" stops_media params
run_method h endpoint_update_direction name params context = update_direction h params
run_method h media_bridge name params context = bridge h params
run_method h media_unbridge name params context = with_id h "endpointId" unbridges params
run_method h media_gather name params context = gather h params
run_method h media_play_and_gather name params context = play_and_gather h params
run_method h media_leave_message name params context = leave_message h params
run_method h dtmf_inject name params context = inject_dtmf h params
run_method h recording_start name params context = start_recording h params
run_method h recording_stop name params context = with_id h "recordingId" stops_recording params
run_method h recording_list name params context = list_recordings h params
run_method h recording_delete name params context = delete_recording h params
run_method h event_ack name params context = ok acknowledges
run_method h not_in_slice name params context =
    err (command_not_implemented (name <> " is not implemented in this gateway slice yet"))
run_method h deferred name params context =
    err (command_not_implemented (name <> " is intentionally deferred"))

unfoldable pub execute_found :
    SessionCommandHandler → Option Method → String → Json → CommandContext → Result Action
unfolding run_method
execute_found h none name params context = err (command_validation ("Unknown method " <> name))
execute_found h (some method) name params context = run_method h method name params context

unfoldable pub execute : SessionCommandHandler → String → Json → CommandContext → Result Action
unfolding execute_found
execute h name params context = execute_found h (lookup name methods) name params context
