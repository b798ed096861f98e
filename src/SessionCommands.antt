-- ===== src/SessionCommands.antt =====
-- src/session-commands.ts: what a command asks of the call registry, the SIP gateway and the media
-- sessions. A handler reads the parameters and ends in an action: the one call that it makes, with its
-- arguments, or the answer that it gives without one. The registry and the media sessions' snapshots
-- are read from the handler's record.
pub mod Validators
pub mod Sip
pub mod Media
pub mod Playing
pub mod Gathering
pub mod Execute
pub mod ErrorCodes
pub mod Meets
pub mod Valid
mod Tests
use rtc_session_gateway.Base.{ℕ, String, Bool, Option, none, some, List}
use rtc_session_gateway.Base.Assoc.{Map}
use rtc_session_gateway.Json.{Number}
use rtc_session_gateway.Errors.{Result, ok, or_throw, media_unavailable}
use rtc_session_gateway.HttpContract.{SipHeaders}
use rtc_session_gateway.CallRegistry.{CallRegistry, ActiveCallSnapshot}
use rtc_session_gateway.GatewayLifecycle.{GatewayLifecycle, assert_accepting}
use rtc_session_gateway.MediaController.{
  MediaSessionSnapshot, RtpOfferOptions, Direction, GatherParams, PlayParams, PlayAndGatherParams,
  LeaveMessageParams,
}

pub record CommandContext : Type 0 where
  pub control_connection_id : Option String

-- `gateway.cancelOutbound` is optional, and so are `media` and `lifecycle`
pub record SessionCommandHandler : Type 0 where
  pub registry : CallRegistry
  pub cancels_outbound : Bool
  pub media : Option (Map MediaSessionSnapshot)
  pub lifecycle : Option GatewayLifecycle

pub record SipAuthCredentials : Type 0 where
  pub username : String
  pub password : String

-- the argument of `gateway.createOutbound`
pub record OutboundParams : Type 0 where
  pub request_uri : String
  pub sdp : String
  pub headers : Option SipHeaders
  pub receiver_url : Option String
  pub control_connection_id : Option String
  pub calling_number : Option String
  pub calling_name : Option String
  pub proxy : Option String
  pub outbound_attempt_id : Option String
  pub auth : Option SipAuthCredentials

pub data Action : Type 0 where
  lists_sessions : List ActiveCallSnapshot → List MediaSessionSnapshot → Action
  shows_call : ActiveCallSnapshot → Action
  shows_media_session : MediaSessionSnapshot → Action
  acknowledges : Action  -- { ok: true }, with no call
  creates_outbound : OutboundParams → Action
  cancels_attempt :
      (outbound_attempt_id : String) → (control_connection_id : Option String) → Action
  reinvites : (call_id sdp : String) → (headers : Option SipHeaders) → Action
  says_bye : (call_id : String) → (reason : Option String) → (headers : Option SipHeaders) → Action
  destroys_session : (session_id : String) → Action
  creates_session : (call_id owner_connection_id : Option String) → Action
  creates_webrtc_offer : (session_id : String) → (direction : Option String) → Action
  creates_webrtc_from_offer : (session_id sdp : String) → (direction : Option String) → Action
  accepts_webrtc_answer : (endpoint_id sdp : String) → (offer_generation : Option Number) → Action
  accepts_webrtc_offer : (endpoint_id sdp : String) → Action
  restarts_ice : (endpoint_id : String) → Action
  creates_rtp_offer : (session_id : String) → RtpOfferOptions → Action
  creates_rtp_from_offer : (session_id sdp : String) → (direction : Option String) → Action
  accepts_rtp_answer : (endpoint_id sdp : String) → Action
  reinvites_rtp : (endpoint_id sdp : String) → Action
  plays : (session_id : String) → PlayParams → Action
  plays_and_waits : (session_id source : String) → (playback_timeout_ms : Option Number) → Action
  stops_media : (endpoint_id : String) → Action
  updates_direction : (endpoint_id : String) → Direction → Action
  bridges : (session_id target_session_id : String) → Option Direction → Action
  unbridges : (endpoint_id : String) → Action
  gathers : (session_id : String) → GatherParams → Action
  plays_and_gathers : (session_id : String) → PlayAndGatherParams → Action
  leaves_message : (session_id : String) → LeaveMessageParams → Action
  injects_dtmf : (endpoint_id digit : String) → Action
  starts_recording : (session_id : String) → (endpoint_id file_path : Option String) → Action
  stops_recording : (recording_id : String) → Action
  lists_recordings :
      (backend_id starts_with : Option String) → (skip limit : Option Number) → Action
  deletes_recording : (backend_id path : String) → Action

unfoldable pub require_media : SessionCommandHandler → Result (Map MediaSessionSnapshot)
require_media h = or_throw h.media (media_unavailable "Media commands require RTPBRIDGE_HOST")

-- lifecycle?.assertAccepting()
unfoldable pub accepting : Option GatewayLifecycle → Result (Unit {0})
accepting none = ok tt
accepting (some lifecycle) = assert_accepting lifecycle
