-- ===== src/MediaSessionService/Tests.antt =====
-- src/media-session-service.ts: a gather of three digits.
use rtc_session_gateway.MediaSessionService.Gather.{on_dtmf, on_timeout_reset, on_timer}
use rtc_session_gateway.Base.Text.{to_upper, length}
use rtc_session_gateway.MediaSessionService.Gather.Refines.{
  run-gathered, gathered, as_list, resolutions,
}
use rtc_session_gateway.Base.{true, some, List, [], ◌∷◌, ◌≡◌, refl}
use rtc_session_gateway.MediaSessionService.Gather.{
  start, run, Gathering, GatherResult, Event, dtmf, playback_ends, timer_fires, digits_done,
}
use rtc_session_gateway.MediaSessionService.Gather.Waiting.{
  run-IsArmed, IsOutcome, IsArmed, run-IsOutcome,
}

abbrev three_digits : Gathering
three_digits = record {
  endpoint_id = "e";
  num_digits = some 3;
  timeout_ms = 5000;
  inter_digit_timeout_ms = 2000;
  terminator = "#";
  hooks = record { on_first_digit = true; reset_timeout_on = some ("p", 1000) };
}

abbrev presses : List Event
presses =
    playback_ends (some "p")
    ∷ dtmf (some "e") (some "1")
    ∷ dtmf (some "other") (some "2")
    ∷ dtmf (some "e") (some "a")
    ∷ dtmf (some "e") (some "3")
    ∷ timer_fires
    ∷ []

abbrev result : GatherResult
result = record { digits = "1A3"; reason = digits_done }

run_test : resolutions (run three_digits (start three_digits) presses).1 ≡ result ∷ []
unfolding run on_dtmf on_timeout_reset start to_upper length on_timer
run_test = refl

run-gathered_example :
    resolutions (run three_digits (start three_digits) presses).1
    ≡ as_list (gathered three_digits "" presses)
run-gathered_example = run-gathered three_digits presses

run-IsArmed_example : IsArmed (run three_digits (start three_digits) presses).0
run-IsArmed_example = run-IsArmed three_digits presses

run-IsOutcome_example : IsOutcome three_digits.num_digits result
unfolding run length on_dtmf on_timeout_reset start to_upper on_timer
run-IsOutcome_example = run-IsOutcome three_digits presses result refl
