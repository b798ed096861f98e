-- ===== src/MediaSessionService.antt =====
-- src/media-session-service.ts: what its media actions share, and the actions as child modules.
pub mod Gather
mod Tests
use rtc_session_gateway.Base.{ℕ, suc, Option, none, some}
use rtc_session_gateway.Json.{Number, nat}
use rtc_session_gateway.Errors.{Result, ok, err, media_recording_proxy}

-- `undefined` is none; a result of none is `undefined` as well
unfoldable pub positive_integer_or_default : Option Number → Option ℕ → Result (Option ℕ)
positive_integer_or_default none fallback = ok fallback
positive_integer_or_default (some (nat (suc n))) fallback = ok (some (suc n))
positive_integer_or_default (some value) fallback =
    err (media_recording_proxy 400 "media action timing and count values must be positive integers")
