-- ===== src/MediaSessionService/Gather.antt =====
-- src/media-session-service.ts: `collectDtmf`, which collects the digits that a caller presses. Its
-- promise's variables are the fields of `DtmfGather`; its listeners and its timer act only while they
-- are there. What it does to the outside comes back as a list of effects.
pub mod Refines
pub mod Waiting
use rtc_session_gateway.MediaSessionService.{positive_integer_or_default}
use rtc_session_gateway.Base.{
  ℕ, ◌+◌, String, Bool, true, false, not, ◌&&◌, ◌||◌, Option, none, some, List, [], ◌∷◌, ◌++◌, ◌==◌,
  if◌then◌else◌, leb, eqb, or_else,
}
use rtc_session_gateway.Base.Text
use rtc_session_gateway.Base.Text.{◌<>◌, to_upper, includes}
use rtc_session_gateway.MediaController.{GatherParams}
use rtc_session_gateway.Json.{Number}
use rtc_session_gateway.Errors.{Result, ok, ◌>>=◌}

-- what `playAndGather` passes for its hooks: whether there is an `onFirstDigit`, and the endpoint and
-- the delay of `resetTimeoutOn`
pub record Hooks : Type 0 where
  pub on_first_digit : Bool
  pub reset_timeout_on : Option (String × ℕ)

-- the constants of one gather
pub record Gathering : Type 0 where
  pub endpoint_id : String
  pub num_digits : Option ℕ
  pub timeout_ms : ℕ
  pub inter_digit_timeout_ms : ℕ
  pub terminator : String
  pub hooks : Hooks

-- the `!` of `positiveIntegerOrDefault(...)!`: with a default there is a value
abbrev pub with_default : Option Number → ℕ → Result ℕ
with_default value fallback = do
  read ← positive_integer_or_default value (some fallback)
  ok (or_else read fallback)

unfoldable pub gathering_of : GatherParams → Hooks → Result Gathering
gathering_of params hooks = do
  num_digits ← positive_integer_or_default params.num_digits none
  timeout_ms ← with_default params.timeout_ms 5000
  inter_digit_timeout_ms ← with_default params.inter_digit_timeout_ms timeout_ms
  ok (record {
    endpoint_id = params.endpoint_id;
    num_digits = num_digits;
    timeout_ms = timeout_ms;
    inter_digit_timeout_ms = inter_digit_timeout_ms;
    terminator = or_else params.terminator "#";
    hooks = hooks;
  })

pub data GatherReason : Type 0 where
  digits_done : GatherReason  -- 'digits'
  terminator_pressed : GatherReason  -- 'terminator'
  timed_out : GatherReason  -- 'timeout'
  cancelled : GatherReason

pub record GatherResult : Type 0 where
  pub digits : String
  pub reason : GatherReason

pub record DtmfGather : Type 0 where
  pub digits : String
  pub timer : Option ℕ  -- the delay of the timer that is armed
  pub finished : Bool
  pub first_digit : Bool
  pub listening : Bool  -- the listeners are registered

pub data Effect : Type 0 where
  releases : Effect  -- release() of the endpoint's action
  resolves : GatherResult → Effect
  calls_first_digit : Effect  -- hooks.onFirstDigit()

unfoldable pub start : Gathering → DtmfGather
start g = record {
  digits = "";
  timer = some g.timeout_ms;
  finished = false;
  first_digit = true;
  listening = true;
}

unfoldable pub finish : DtmfGather → GatherReason → DtmfGather × List Effect
finish s reason = if s.finished then (s, []) else (
  record s { finished = true; timer = none; listening = false },
  releases ∷ resolves (record { digits = s.digits; reason = reason }) ∷ [],
)

abbrev pub arm_timer : DtmfGather → ℕ → DtmfGather
arm_timer s delay_ms = record s { timer = some delay_ms }

-- `numDigits && digits.length >= numDigits`
abbrev pub is_full : Option ℕ → String → Bool
is_full none digits = false
is_full (some num_digits) digits = not (eqb num_digits 0) && leb num_digits (Text.length digits)

-- `onDtmf` from the digit on, in upper case
unfoldable pub take_digit : Gathering → DtmfGather → String → DtmfGather × List Effect
unfolding finish includes
take_digit g s digit =
    if includes g.terminator digit
    then finish s terminator_pressed
    else let added = record s { digits = s.digits <> digit; first_digit = false } in
      let called = if s.first_digit && g.hooks.on_first_digit then calls_first_digit ∷ [] else [] in
      let (done, out) = finish added digits_done in
      if is_full g.num_digits added.digits
      then (done, called ++ out)
      else (arm_timer added g.inter_digit_timeout_ms, called)

-- `event.endpointId !== params.endpointId || !event.digit` returns
abbrev pub pressed : Gathering → Option String → Option String → Option String
pressed g (some endpoint_id) (some digit) =
    if endpoint_id == g.endpoint_id && not (digit == "") then some (to_upper digit) else none
pressed g _ _ = none

unfoldable pub dtmf_pressed : Gathering → DtmfGather → Option String → DtmfGather × List Effect
unfolding take_digit
dtmf_pressed g s none = (s, [])
dtmf_pressed g s (some digit) = take_digit g s digit

unfoldable pub on_dtmf :
    Gathering → DtmfGather → Option String → Option String → DtmfGather × List Effect
unfolding dtmf_pressed
on_dtmf g s endpoint_id digit =
    if s.listening then dtmf_pressed g s (pressed g endpoint_id digit) else (s, [])

-- hooks.resetTimeoutOn?.matches(event), and then its delay
unfoldable pub reset_delay : Option (String × ℕ) → Option String → Option ℕ
reset_delay (some (expected, delay_ms)) (some endpoint_id) =
    if endpoint_id == expected then some delay_ms else none
reset_delay _ _ = none

unfoldable pub reset_by : DtmfGather → Option ℕ → DtmfGather
reset_by s none = s
reset_by s (some delay_ms) = if s.digits == "" then arm_timer s delay_ms else s

unfoldable pub on_timeout_reset : Gathering → DtmfGather → Option String → DtmfGather
unfolding reset_delay reset_by
on_timeout_reset g s endpoint_id =
    if s.listening then reset_by s (reset_delay g.hooks.reset_timeout_on endpoint_id) else s

unfoldable pub fire : DtmfGather → Option ℕ → DtmfGather × List Effect
unfolding finish
fire s none = (s, [])
fire s (some delay_ms) = finish s timed_out

-- the timer goes off, if it is armed
unfoldable pub on_timer : DtmfGather → DtmfGather × List Effect
unfolding fire
on_timer s = fire s s.timer

unfoldable pub cancel : DtmfGather → DtmfGather × List Effect
unfolding finish
cancel s = finish s cancelled

pub data Event : Type 0 where
  dtmf : (endpoint_id digit : Option String) → Event
  playback_ends : (endpoint_id : Option String) → Event
  timer_fires : Event
  cancels : Event

unfoldable pub step : Gathering → DtmfGather → Event → DtmfGather × List Effect
step g s (dtmf endpoint_id digit) = on_dtmf g s endpoint_id digit
step g s (playback_ends endpoint_id) = (on_timeout_reset g s endpoint_id, [])
step g s timer_fires = on_timer s
step g s cancels = cancel s

unfoldable pub run : Gathering → DtmfGather → List Event → DtmfGather × List Effect
unfolding step
run g s [] = (s, [])
run g s (event ∷ events) =
    let (s', out) = step g s event in let (last, rest) = run g s' events in (last, out ++ rest)
