-- ===== src/SessionCommands/Playing.antt =====
-- src/session-commands.ts: the commands that play.
use rtc_session_gateway.SessionCommands.Validators.{
  optional_positive_integer, require_object, optional_integer, optional_nullable_integer,
  required_string,
}
use rtc_session_gateway.SessionCommands.{
  plays_and_waits, plays, require_media, Action, SessionCommandHandler,
}
use rtc_session_gateway.Json.{Json, Fields, field}
use rtc_session_gateway.Errors.{Result, ok, ◌>>=◌}
use rtc_session_gateway.HttpContract.{parse_optional_headers}
use rtc_session_gateway.MediaController.{PlayParams}

-- the parameters of what is played, read in this order
unfoldable pub play_params : Fields → Result PlayParams
play_params body = do
  source ← required_string (field "source" body) "source"
  loop_count ← optional_nullable_integer (field "loopCount" body) "loopCount"
  cache_ttl_secs ← optional_integer (field "cacheTtlSecs" body) "cacheTtlSecs"
  headers ← parse_optional_headers (field "headers" body)
  ok (record {
    source = source;
    loop_count = loop_count;
    cache_ttl_secs = cache_ttl_secs;
    headers = headers;
  })

unfoldable pub play : SessionCommandHandler → Json → Result Action
play h params = do
  body ← require_object params
  media ← require_media h
  session_id ← required_string (field "sessionId" body) "sessionId"
  what ← play_params body
  ok (plays session_id what)

unfoldable pub play_and_wait : SessionCommandHandler → Json → Result Action
play_and_wait h params = do
  body ← require_object params
  media ← require_media h
  session_id ← required_string (field "sessionId" body) "sessionId"
  source ← required_string (field "source" body) "source"
  timeout ← optional_positive_integer (field "playbackTimeoutMs" body) "playbackTimeoutMs"
  ok (plays_and_waits session_id source timeout)
