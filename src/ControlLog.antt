-- ===== src/ControlLog.antt =====
-- src/control-log.ts: which control requests are sensitive.
pub mod Redaction
pub mod Values
pub mod Uri
pub mod Sdp
pub mod Tables
pub mod Summaries
pub mod Scrub
pub mod Bodies
pub mod DigitRuns
pub mod Clean
pub mod Hidden
pub mod Secrets
pub mod Throwing
mod Tests
use rtc_session_gateway.Base.{String, Bool, false, ◌||◌, ◌==◌, if◌then◌else◌}
use rtc_session_gateway.Json.{Json, bool, obj, field}

-- `v === true`
abbrev pub is_true : Json → Bool
is_true (bool b) = b
is_true _ = false

marked_sensitive : Json → Bool
marked_sensitive (obj params) = is_true (field "sensitive" params)
marked_sensitive _ = false

unfoldable pub is_sensitive_control_request : String → Json → Bool
unfolding marked_sensitive
is_sensitive_control_request method params =
    if method == "media.gather" || method == "media.playAndGather"
    then marked_sensitive params
    else false
