-- ===== src/SessionCommands/Valid/Run.antt =====
-- src/session-commands.ts: `execute` ends in a valid action, or in an error that has a code.
use rtc_session_gateway.SessionCommands.Valid.Consequences.{RefusedWith}
use rtc_session_gateway.ControlProtocol.{make_control_error}
use rtc_session_gateway.Json.{undefined}
use rtc_session_gateway.Base.{some}
use rtc_session_gateway.SessionCommands.Execute.{
  media_bridge, media_unbridge, media_gather, media_play_and_gather, media_leave_message,
  dtmf_inject, recording_start, recording_stop, recording_list, recording_delete, event_ack,
  not_in_slice, deferred,
}
use rtc_session_gateway.SessionCommands.Valid.Play.{
  leave_message-Meets, play_and_gather-Meets, gather-Meets, play_and_wait-Meets, play-Meets,
}
use rtc_session_gateway.SessionCommands.Valid.Media.{
  delete_recording-Meets, list_recordings-Meets, start_recording-Meets, inject_dtmf-Meets,
  bridge-Meets, update_direction-Meets, create_rtp_from_offer-Meets, create_rtp_offer-Meets,
  with_id-Meets, with_endpoint_sdp-Meets, accept_webrtc_answer-Meets,
  create_webrtc_from_offer-Meets, create_webrtc_offer-Meets,
}
use rtc_session_gateway.SessionCommands.ErrorCodes.{control_error_for_command}
use rtc_session_gateway.SessionCommands.Valid.Sip.{
  bye-Meets, reinvite-Meets, cancel_outbound-Meets, create_outbound-Meets,
  create_media_session-Meets, delete_session-Meets, get_session-Meets,
}
use rtc_session_gateway.SessionCommands.Valid.Consequences.{
  gathering_accepted, of_err, draining_refuses, refusal_coded, IsNewWork-IsAccepting, IsNewWork,
  of_ok,
}
use rtc_session_gateway.Base.Assoc.{lookup}
use rtc_session_gateway.SessionCommands.Valid.{IsValid}
use rtc_session_gateway.MediaSessionService.Gather.{gathering_of, Gathering, Hooks}
use rtc_session_gateway.Base.{◌≤◌, true, none, some, ◌≡◌}
use rtc_session_gateway.SessionCommands.Meets.{missing, returns, refuses, invalid, Meets}
use rtc_session_gateway.Errors.{ok, err, Error}
use rtc_session_gateway.Json.{Json}
use rtc_session_gateway.SessionCommands.Execute.{
  endpoint_update_direction, media_stop, media_play_and_wait, media_play, rtp_reinvite,
  rtp_accept_answer, rtp_create_from_offer, rtp_create_offer, webrtc_restart_ice,
  webrtc_accept_offer, webrtc_accept_answer, webrtc_create_from_offer, webrtc_create_offer, sip_bye,
  sip_reinvite, sip_cancel_outbound, sip_create_outbound, session_create, session_delete,
  session_get, session_list, methods, execute, Method, run_method, execute_found,
}
use rtc_session_gateway.SessionCommands.{
  stops_recording, unbridges, unbridges, stops_media, reinvites_rtp, accepts_rtp_answer,
  restarts_ice, accepts_webrtc_offer, gathers, GatherParams, GatewayLifecycle, CommandContext,
  Option, String, SessionCommandHandler, Action,
}

run_method-Meets :
    (h : SessionCommandHandler) (method : Method) (name : String) (params : Json)
    (context : CommandContext)
    → Meets (IsValid h) (run_method h method name params context)
unfolding run_method
run_method-Meets h session_list name params context = returns _ tt
run_method-Meets h session_get name params context = get_session-Meets h params
run_method-Meets h session_delete name params context = delete_session-Meets h params
run_method-Meets h session_create name params context = create_media_session-Meets h params context
run_method-Meets h sip_create_outbound name params context = create_outbound-Meets h params context
run_method-Meets h sip_cancel_outbound name params context = cancel_outbound-Meets h params context
run_method-Meets h sip_reinvite name params context = reinvite-Meets h params
run_method-Meets h sip_bye name params context = bye-Meets h params
run_method-Meets h webrtc_create_offer name params context = create_webrtc_offer-Meets h params
run_method-Meets h webrtc_create_from_offer name params context =
    create_webrtc_from_offer-Meets h params
run_method-Meets h webrtc_accept_answer name params context = accept_webrtc_answer-Meets h params
run_method-Meets h webrtc_accept_offer name params context =
    with_endpoint_sdp-Meets h accepts_webrtc_offer params (λ id sdp p q m. (p, q, m))
run_method-Meets h webrtc_restart_ice name params context =
    with_id-Meets h "endpointId" restarts_ice params (λ id p m. (p, m))
run_method-Meets h rtp_create_offer name params context = create_rtp_offer-Meets h params
run_method-Meets h rtp_create_from_offer name params context = create_rtp_from_offer-Meets h params
run_method-Meets h rtp_accept_answer name params context =
    with_endpoint_sdp-Meets h accepts_rtp_answer params (λ id sdp p q m. (p, q, m))
run_method-Meets h rtp_reinvite name params context =
    with_endpoint_sdp-Meets h reinvites_rtp params (λ id sdp p q m. (p, q, m))
run_method-Meets h media_play name params context = play-Meets h params
run_method-Meets h media_play_and_wait name params context = play_and_wait-Meets h params
run_method-Meets h media_stop name params context =
    with_id-Meets h "endpointId" stops_media params (λ id p m. (p, m))
run_method-Meets h endpoint_update_direction name params context = update_direction-Meets h params
run_method-Meets h media_bridge name params context = bridge-Meets h params
run_method-Meets h media_unbridge name params context =
    with_id-Meets h "endpointId" unbridges params (λ id p m. (p, m))
run_method-Meets h media_gather name params context = gather-Meets h params
run_method-Meets h media_play_and_gather name params context = play_and_gather-Meets h params
run_method-Meets h media_leave_message name params context = leave_message-Meets h params
run_method-Meets h dtmf_inject name params context = inject_dtmf-Meets h params
run_method-Meets h recording_start name params context = start_recording-Meets h params
run_method-Meets h recording_stop name params context =
    with_id-Meets h "recordingId" stops_recording params (λ id p m. (p, m))
run_method-Meets h recording_list name params context = list_recordings-Meets h params
run_method-Meets h recording_delete name params context = delete_recording-Meets h params
run_method-Meets h event_ack name params context = returns _ tt
run_method-Meets h not_in_slice name params context = refuses _ (missing _)
run_method-Meets h deferred name params context = refuses _ (missing _)

execute_found-Meets :
    (h : SessionCommandHandler) (method : Option Method) (name : String) (params : Json)
    (context : CommandContext)
    → Meets (IsValid h) (execute_found h method name params context)
unfolding execute_found
execute_found-Meets h none name params context = refuses _ (invalid _)
execute_found-Meets h (some method) name params context =
    run_method-Meets h method name params context

module _ (h : SessionCommandHandler) (name : String) (params : Json)
    (context : CommandContext) where
  execute-Meets : Meets (IsValid h) (execute h name params context)
  unfolding execute
  execute-Meets = execute_found-Meets h (lookup name methods) name params context

  -- Whatever the method and the parameters, an action that `execute` ends in is valid. The texts that it
  -- requires, and those that it is given of the others, are not blank, but for the reason of a hang-up
  -- and the headers, which may be. Numbers of digits, time limits and the limit of a list are positive;
  -- the generation of an offer and the entries that a list skips are not negative; the number of loops
  -- and the time in the cache are integers of any sign, and the number of loops may be null; a speech
  -- threshold is finite. An RTP offer does not ask for SRTP and for optional SRTP at once. An action on
  -- media comes from a handler with media sessions, and a cancellation from one whose gateway cancels.
  -- An outbound call comes from a gateway that accepts and has somebody to answer to, and a session of a
  -- call that is not registered comes from a gateway that accepts.
  pub execute-IsValid :
      {action : Action} → execute h name params context ≡ ok action → IsValid h action
  execute-IsValid e = of_ok (execute-Meets) e

  -- Every error that `execute` throws itself is one of six refusals, each of which has its code:
  -- SHUTTING_DOWN for a gateway that drains, BAD_REQUEST for a parameter or a header that is not valid,
  -- NOT_IMPLEMENTED, NOT_FOUND for an unknown session and MEDIA_UNAVAILABLE. `controlErrorForCommand`
  -- answers that code with the error's message.
  pub execute-coded :
      {thrown : Error}
      → execute h name params context ≡ err thrown
      → (code message : String) × RefusedWith thrown code message
        × (control_error_for_command thrown ≡ some (make_control_error code message undefined))
  execute-coded e = refusal_coded _ (of_err execute-Meets e)

  -- While the gateway drains, no command ends in an outbound call, and none in a media session that
  -- belongs to no call or to a call that the registry neither holds nor has reserved.
  pub execute_while_draining :
      (g : GatewayLifecycle) {action : Action}
      → h.lifecycle ≡ some g
      → g.is_draining ≡ true
      → execute h name params context ≡ ok action
      → ¬ (IsNewWork h action)
  execute_while_draining g {action} at draining e new =
      draining_refuses h g at draining (IsNewWork-IsAccepting h action (execute-IsValid e) new)

  -- The parameters of an accepted gathering are never refused by the gathering itself, and each of
  -- its two timers is armed for at least a millisecond.
  pub execute-gathering :
      {session_id : String} {p : GatherParams} (hooks : Hooks)
      → execute h name params context ≡ ok (gathers session_id p)
      → (g : Gathering) × (gathering_of p hooks ≡ ok g)
        × (1 ≤ g.timeout_ms)
        × (1 ≤ g.inter_digit_timeout_ms)
  execute-gathering hooks e = gathering_accepted _ hooks (execute-IsValid e).1
