-- ===== src/MediaController.antt =====
-- src/media-controller.ts: the data that the session commands hand to the media sessions and get back.
use rtc_session_gateway.Base.{String, Bool, Option, List}
use rtc_session_gateway.Json.{Number}
use rtc_session_gateway.HttpContract.{SipHeaders}

pub data MediaEndpointType : Type 0 where
  webrtc rtp file tone websocket bridge : MediaEndpointType

pub record MediaEndpointSnapshot : Type 0 where
  pub endpoint_id : String
  pub kind : MediaEndpointType  -- `type`
  pub direction : Option String
  pub paired_session_id : Option String
  pub paired_endpoint_id : Option String
  pub created_at : String

pub record RtpOfferOptions : Type 0 where
  pub direction : Option String
  pub srtp : Option Bool
  pub srtp_optional : Option Bool
  pub codecs : Option (List String)

pub record RtcIceServer : Type 0 where
  pub urls : List String
  pub username : Option String
  pub credential : Option String

pub record RtcIceConfiguration : Type 0 where
  pub backend_id : String
  pub media_ip : String
  pub expires_at : String
  pub servers : List RtcIceServer

pub record MediaSessionSnapshot : Type 0 where
  pub session_id : String
  pub call_id : Option String
  pub backend_id : Option String
  pub ice_configuration : Option RtcIceConfiguration
  pub created_at : String
  pub updated_at : String
  pub endpoints : List MediaEndpointSnapshot

-- 'sendrecv' | 'recvonly' | 'sendonly' | 'inactive'
pub data Direction : Type 0 where
  sendrecv recvonly sendonly inactive : Direction

pub record GatherParams : Type 0 where
  pub endpoint_id : String
  pub num_digits : Option Number
  pub timeout_ms : Option Number
  pub inter_digit_timeout_ms : Option Number
  pub terminator : Option String
  pub sensitive : Option Bool

-- what is played: none is an absent `loopCount`, and some none is null
pub record PlayParams : Type 0 where
  pub source : String
  pub loop_count : Option (Option Number)
  pub cache_ttl_secs : Option Number
  pub headers : Option SipHeaders

pub record PlayAndGatherParams : Type 0 where
  pub gather : GatherParams
  pub play : PlayParams
  pub stop_playback_on_digit : Option Bool
  pub post_playback_timeout_ms : Option Number

pub record LeaveMessageParams : Type 0 where
  pub endpoint_id : String
  pub message_source : Option String
  pub max_wait_ms : Option Number
  pub playback_timeout_ms : Option Number
  pub silence_interval_ms : Option Number
  pub speech_threshold : Option Number
  pub terminator : Option String
