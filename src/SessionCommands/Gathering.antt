-- ===== src/SessionCommands/Gathering.antt =====
-- src/session-commands.ts: the commands that gather digits and leave a message.
use rtc_session_gateway.SessionCommands.Playing.{play_params}
use rtc_session_gateway.SessionCommands.Validators.{
  optional_number, or_nullish, optional_positive_integer, optional_boolean, require_object,
  required_string, optional_string,
}
use rtc_session_gateway.SessionCommands.{
  leaves_message, plays_and_gathers, gathers, require_media, Action, SessionCommandHandler,
}
use rtc_session_gateway.Base.{String, Option, none, some}
use rtc_session_gateway.Json.{Json, field}
use rtc_session_gateway.Errors.{Result, ok, ◌>>=◌}

unfoldable pub gather : SessionCommandHandler → Json → Result Action
gather h params = do
  body ← require_object params
  media ← require_media h
  session_id ← required_string (field "sessionId" body) "sessionId"
  endpoint_id ← required_string (field "endpointId" body) "endpointId"
  num_digits ← optional_positive_integer (field "numDigits" body) "numDigits"
  timeout_ms ← optional_positive_integer (field "timeoutMs" body) "timeoutMs"
  inter_digit_timeout_ms ←
      optional_positive_integer (field "interDigitTimeoutMs" body) "interDigitTimeoutMs"
  terminator ← optional_string (field "terminator" body) "terminator"
  sensitive ← optional_boolean (field "sensitive" body) "sensitive"
  ok (
      gathers session_id (record {
        endpoint_id = endpoint_id;
        num_digits = num_digits;
        timeout_ms = timeout_ms;
        inter_digit_timeout_ms = inter_digit_timeout_ms;
        terminator = terminator;
        sensitive = sensitive;
      }))

unfoldable pub play_and_gather : SessionCommandHandler → Json → Result Action
play_and_gather h params = do
  body ← require_object params
  media ← require_media h
  session_id ← required_string (field "sessionId" body) "sessionId"
  endpoint_id ← required_string (field "endpointId" body) "endpointId"
  what ← play_params body
  num_digits ← optional_positive_integer (field "numDigits" body) "numDigits"
  timeout_ms ← optional_positive_integer (field "timeoutMs" body) "timeoutMs"
  inter_digit_timeout_ms ←
      optional_positive_integer (field "interDigitTimeoutMs" body) "interDigitTimeoutMs"
  terminator ← optional_string (field "terminator" body) "terminator"
  stop_playback_on_digit ← optional_boolean (field "stopPlaybackOnDigit" body) "stopPlaybackOnDigit"
  post_playback_timeout_ms ←
      optional_positive_integer (field "postPlaybackTimeoutMs" body) "postPlaybackTimeoutMs"
  sensitive ← optional_boolean (field "sensitive" body) "sensitive"
  ok (
      plays_and_gathers session_id (record {
        gather = record {
          endpoint_id = endpoint_id;
          num_digits = num_digits;
          timeout_ms = timeout_ms;
          inter_digit_timeout_ms = inter_digit_timeout_ms;
          terminator = terminator;
          sensitive = sensitive;
        };
        play = what;
        stop_playback_on_digit = stop_playback_on_digit;
        post_playback_timeout_ms = post_playback_timeout_ms;
      }))

-- `optionalString(a, ...) ?? optionalString(b, ...)`
unfoldable pub first_string : Option String → Json → String → Result (Option String)
first_string (some text) other name = ok (some text)
first_string none other name = optional_string other name

unfoldable pub leave_message : SessionCommandHandler → Json → Result Action
leave_message h params = do
  body ← require_object params
  media ← require_media h
  session_id ← required_string (field "sessionId" body) "sessionId"
  endpoint_id ← required_string (field "endpointId" body) "endpointId"
  message ← optional_string (field "messageSource" body) "messageSource"
  message_source ← first_string message (field "promptSource" body) "promptSource"
  max_wait_ms ←
      optional_positive_integer (or_nullish (field "maxWaitMs" body) (field "maxDurationMs" body))
        "maxWaitMs"
  playback_timeout_ms ←
      optional_positive_integer (field "playbackTimeoutMs" body) "playbackTimeoutMs"
  silence_interval_ms ←
      optional_positive_integer (field "silenceIntervalMs" body) "silenceIntervalMs"
  speech_threshold ← optional_number (field "speechThreshold" body) "speechThreshold"
  terminator ← optional_string (field "terminator" body) "terminator"
  ok (
      leaves_message session_id (record {
        endpoint_id = endpoint_id;
        message_source = message_source;
        max_wait_ms = max_wait_ms;
        playback_timeout_ms = playback_timeout_ms;
        silence_interval_ms = silence_interval_ms;
        speech_threshold = speech_threshold;
        terminator = terminator;
      }))
