-- ===== src/ControlServer/Upgrades.antt =====
-- src/control-server.ts: which requests for an upgrade become control connections.
use rtc_session_gateway.Json.{end, str, prop, obj}
use rtc_session_gateway.ControlHub.{register_connection}
use rtc_session_gateway.MediaServerManager.{truthy}
use rtc_session_gateway.ControlProtocol.{ControlEvent}
use rtc_session_gateway.Base.Text.{◌<>◌, is_char, take_until}
use rtc_session_gateway.ControlServer.{GatewayLifecycle, ControlServer}
use rtc_session_gateway.Base.{
  not, is_some, ◌==◌, or_else, if◌then◌else◌, String, Bool, true, false, Option, none, some,
}

pub data AuthMode : Type 0 where
  bearer : AuthMode
  open_to_all : AuthMode  -- 'none'

pub record ControlServerConfig : Type 0 where
  pub path : String  -- CONTROL_WS_PATH
  pub auth_mode : Option AuthMode
  pub auth_token : Option String

-- config.CONTROL_AUTH_MODE ?? (config.CONTROL_AUTH_TOKEN ? 'bearer' : 'none')
unfoldable pub mode_of : ControlServerConfig → AuthMode
mode_of config =
    or_else config.auth_mode (if is_some (truthy config.auth_token) then bearer else open_to_all)

unfoldable pub bears : Option String → Option String → Bool
bears none header = false
bears (some token) none = false
bears (some token) (some header) = header == "Bearer " <> token

unfoldable pub authorized_in : AuthMode → Option String → Option String → Bool
unfolding bears
authorized_in open_to_all token header = true
authorized_in bearer token header = bears (truthy token) header

unfoldable pub is_authorized : ControlServerConfig → Option String → Bool
unfolding mode_of authorized_in
is_authorized config header = authorized_in (mode_of config) config.auth_token header

pub data Upgrade : Type 0 where
  not_ours : Upgrade
  unauthorized : Upgrade  -- 401, and the socket is destroyed
  unavailable : Upgrade  -- 503, and the socket is destroyed
  not_upgraded : Upgrade  -- the library that upgrades refuses the handshake
  connected : ControlServer → ControlEvent → Upgrade

-- this.lifecycle?.isDraining
abbrev pub draining_in : Option GatewayLifecycle → Bool
draining_in none = false
draining_in (some g) = g.is_draining

-- (req.url ?? '').split('?')[0]
abbrev pub path_of : Option String → String
path_of url = take_until (is_char b'?') (or_else url "")

-- `shakes_hands` is whether the WebSocket library completes the upgrade of this request, which it does if
-- the request is a proper handshake. The id of the new connection is the UUID that the hub draws; `now`
-- is the time.
unfoldable pub upgrade :
    ControlServerConfig
    → ControlServer
    → (url header : Option String) → (shakes_hands : Bool) → (connection_id now : String) → Upgrade
upgrade config s url header shakes_hands connection_id now =
    if not (path_of url == config.path)
    then not_ours
    else if not (is_authorized config header)
    then unauthorized
    else if draining_in s.lifecycle
    then unavailable
    else if not shakes_hands
    then not_upgraded
    else connected (record s { hub = register_connection s.hub connection_id })
        (record {
          event = "control.connected";
          event_id = connection_id;
          session_id = none;
          sequence = none;
          occurred_at = now;
          payload = obj (prop "connectionId" (str connection_id) end);
        })
