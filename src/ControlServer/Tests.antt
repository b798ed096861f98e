-- ===== src/ControlServer/Tests.antt =====
-- src/control-server.ts at concrete connections and requests.
use rtc_session_gateway.Base.Text.{take_until}
use rtc_session_gateway.ControlLog.Bodies.{scrub_control_request}
use rtc_session_gateway.ControlLog.Scrub.{scrub_known_object}
use rtc_session_gateway.ControlLog.Tables.{request_fields, fields_in}
use rtc_session_gateway.ControlLog.Uri.{Platform}
use rtc_session_gateway.SessionCommands.{says_bye}
use rtc_session_gateway.Json.{str, prop, null, end, obj}
use rtc_session_gateway.ControlServer.Answering.{
  later, complete_request-ends, pending, handle_request-Settles, Settles,
}
use rtc_session_gateway.ControlLog.Tables.{object_prototype}
use rtc_session_gateway.GatewayLifecycle.{begin_operation, running}
use rtc_session_gateway.ControlServer.Upgrades.{
  draining_in, path_of, bearer, upgrade, is_authorized, ControlServerConfig,
}
use rtc_session_gateway.ControlServer.Requests.{
  waits, handle_request, complete_request, begin_for, Progress,
}
use rtc_session_gateway.ControlServer.Admission.{
  upgrade-connects_iff, is_authorized_iff, Authorized, connects,
}
use rtc_session_gateway.ControlProtocol.{ControlRequest}
use rtc_session_gateway.ControlHub.{register_connection, ControlHub}
use rtc_session_gateway.Base.Text.{is_blank}
use rtc_session_gateway.Base.Assoc.{lookup}
use rtc_session_gateway.CallRegistry
use rtc_session_gateway.ControlHub
use rtc_session_gateway.Errors.{err, ok, plain}
use rtc_session_gateway.Base.{[], ◌∷◌, some, none, true, false, ◌≡◌, ◌↔◌, refl}
use rtc_session_gateway.ControlServer.{SessionCommandHandler, ControlServer}

-- no text is a URL here, and each is its own base name
abbrev plain_platform : Platform
plain_platform = record { url = λ s. none; basename = λ s. s }

abbrev commands : SessionCommandHandler
commands = record {
  registry = CallRegistry.empty;
  cancels_outbound = true;
  media = some [];
  lifecycle = none;
}

abbrev connected_hub : ControlHub
connected_hub = register_connection ControlHub.empty "c1"

abbrev server : ControlServer
server = record { hub = connected_hub; lifecycle = some running; commands = commands }

abbrev hang_up : ControlRequest
hang_up = record { id = "1"; method = "sip.bye"; params = obj (prop "callId" (str "k1") end) }

hang_up_own : lookup "sip.bye" object_prototype ≡ none
unfolding lookup
hang_up_own = refl

handle_request-Settles_example :
    (progress : Progress) × (handle_request plain_platform server "c1" hang_up ≡ ok progress)
    × Settles server hang_up progress
handle_request-Settles_example =
    handle_request-Settles plain_platform server "c1" hang_up hang_up_own

abbrev begun_server : ControlServer
begun_server = record server {
  lifecycle = some (record running { pending_operations = 1; finished = false ∷ [] });
}

hang_up_begins : begin_for server.lifecycle ≡ ok (begun_server.lifecycle, some 0)
unfolding begin_for begin_operation
hang_up_begins = refl

hang_up_waits : Settles server hang_up (waits begun_server (some 0) (says_bye "k1" none none))
unfolding is_blank
hang_up_waits = later begun_server (some 0) (says_bye "k1" none none) hang_up_begins refl

complete_request-ends_example :
    ((complete_request begun_server (some 0) hang_up (ok null)).1.id ≡ "1")
    × (pending (complete_request begun_server (some 0) hang_up (ok null)).0.lifecycle ≡ 0)
complete_request-ends_example =
    complete_request-ends server begun_server hang_up (some 0) (says_bye "k1" none none) (ok null)
      hang_up_waits

abbrev config : ControlServerConfig
config = record { path = "/control"; auth_mode = none; auth_token = some "s3cret" }

is_authorized_iff_example :
    (is_authorized config (some "Bearer s3cret") ≡ true)
    ↔ Authorized none (some "s3cret") (some "Bearer s3cret")
is_authorized_iff_example = is_authorized_iff config (some "Bearer s3cret")

upgrade-connects_iff_example :
    (connects (upgrade config server (some "/control?v=1") (some "Bearer s3cret") true "c2" "now")
      ≡ true)
    ↔ ((path_of (some "/control?v=1") ≡ "/control")
        × Authorized none (some "s3cret") (some "Bearer s3cret")
        × (draining_in (some running) ≡ false)
        × (true ≡ true))
upgrade-connects_iff_example =
    upgrade-connects_iff config server (some "/control?v=1") (some "Bearer s3cret") true "c2" "now"

admitted :
    connects (upgrade config server (some "/control?v=1") (some "Bearer s3cret") true "c2" "now")
    ≡ true
unfolding upgrade take_until is_authorized
admitted = refl

-- A bearer mode without a token admits nobody, whatever the header.
no_token_set :
    is_authorized
      (record { path = "/control"; auth_mode = some bearer; auth_token = none })
      (some "Bearer ")
    ≡ false
unfolding is_authorized
no_token_set = refl

-- A request named like a property of Object.prototype is not answered: the handler throws.
constructor_unanswered :
    handle_request plain_platform server "c1"
      (record { id = "1"; method = "constructor"; params = obj end })
    ≡ err (plain "allowedFields.map is not a function")
unfolding handle_request scrub_control_request scrub_known_object request_fields fields_in lookup
constructor_unanswered = refl
