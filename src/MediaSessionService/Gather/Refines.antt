-- ===== src/MediaSessionService/Gather/Refines.antt =====
-- src/media-session-service.ts: what `collectDtmf` promises, as a function of what happens, and that the
-- code with its timer, listeners and flags answers exactly that.
use rtc_session_gateway.MediaSessionService.Gather.{
  start, timer_fires, reset_delay, cancelled, cancel, timed_out, fire, playback_ends, on_timer,
  pressed, on_timeout_reset, digits_done, resolves, on_dtmf, is_full, finish, dtmf,
  calls_first_digit, terminator_pressed, take_digit, step, run, Event, Effect, reset_by,
  dtmf_pressed, Gathering, GatherResult, DtmfGather,
}
use rtc_session_gateway.Base.{
  ℕ, String, Bool, true, false, ◌&&◌, Option, none, some, List, [], ◌∷◌, ◌++◌, ◌==◌, if◌then◌else◌,
  ◌⊎◌, inl, inr, ◌≡◌, refl, Bool-cases, ap, ◌∙◌,
}
use rtc_session_gateway.MediaSessionService.Gather.{
  releases, resolves, calls_first_digit, dtmf, playback_ends, timer_fires, cancels, digits_done,
  terminator_pressed, timed_out, cancelled,
}
use rtc_session_gateway.Base.Text.{◌<>◌, includes}

-- What one event makes of the digits so far: more digits, or the result.
abbrev pub after_press : Gathering → String → Option String → String ⊎ GatherResult
after_press g digits none = inl digits
after_press g digits (some digit) =
    if includes g.terminator digit
    then inr (record { digits = digits; reason = terminator_pressed })
    else if is_full g.num_digits (digits <> digit)
    then inr (record { digits = digits <> digit; reason = digits_done })
    else inl (digits <> digit)

abbrev pub next : Gathering → String → Event → String ⊎ GatherResult
next g digits (dtmf endpoint_id digit) = after_press g digits (pressed g endpoint_id digit)
next g digits (playback_ends endpoint_id) = inl digits
next g digits timer_fires = inr (record { digits = digits; reason = timed_out })
next g digits cancels = inr (record { digits = digits; reason = cancelled })

-- The result that a sequence of events leads to, if it ends the gather.
abbrev pub go_on : (String → Option GatherResult) → String ⊎ GatherResult → Option GatherResult
go_on later (inl digits) = later digits
go_on later (inr result) = some result

unfoldable pub gathered : Gathering → String → List Event → Option GatherResult
gathered g digits [] = none
gathered g digits (event ∷ events) = go_on (λ more. gathered g more events) (next g digits event)

-- the results that the promise was resolved with
abbrev pub resolutions : List Effect → List GatherResult
resolutions [] = []
resolutions (resolves result ∷ out) = result ∷ resolutions out
resolutions (effect ∷ out) = resolutions out

resolutions-append :
    (out rest : List Effect) → resolutions (out ++ rest) ≡ resolutions out ++ resolutions rest
resolutions-append [] rest = refl
resolutions-append (releases ∷ out) rest = resolutions-append out rest
resolutions-append (resolves result ∷ out) rest = ap (λ l. result ∷ l) (resolutions-append out rest)
resolutions-append (calls_first_digit ∷ out) rest = resolutions-append out rest

abbrev pub open_gather : String → ℕ → Bool → DtmfGather
open_gather digits delay_ms first_digit = record {
  digits = digits;
  timer = some delay_ms;
  finished = false;
  first_digit = first_digit;
  listening = true;
}

abbrev pub closed_gather : String → Bool → DtmfGather
closed_gather digits first_digit = record {
  digits = digits;
  timer = none;
  finished = true;
  first_digit = first_digit;
  listening = false;
}

abbrev pub IsOpen : String → DtmfGather → Type 0
IsOpen digits s = (delay_ms : ℕ) × (first : Bool) × (s ≡ open_gather digits delay_ms first)

abbrev pub IsClosed : DtmfGather → Type 0
IsClosed s = (digits : String) × (first : Bool) × (s ≡ closed_gather digits first)

abbrev pub Follows : String ⊎ GatherResult → DtmfGather × List Effect → Type 0
Follows (inl digits) (s, out) = IsOpen digits s × (resolutions out ≡ [])
Follows (inr result) (s, out) = IsClosed s × (resolutions out ≡ result ∷ [])

first_silent :
    (called : Bool) (out : List Effect)
    → resolutions ((if called then calls_first_digit ∷ [] else []) ++ out) ≡ resolutions out
first_silent true out = refl
first_silent false out = refl

silent : (called : Bool) → resolutions (if called then calls_first_digit ∷ [] else []) ≡ []
silent true = refl
silent false = refl

press-Follows :
    (g : Gathering) (digits : String) (delay_ms : ℕ) (first : Bool) (press : Option String)
    → Follows
        (after_press g digits press)
        (dtmf_pressed g (open_gather digits delay_ms first) press)
unfolding dtmf_pressed take_digit finish
press-Follows g digits delay_ms first none = ((delay_ms, first, refl), refl)
press-Follows g digits delay_ms first (some digit) =
    elim (Bool-cases (includes g.terminator digit)) [
      | inl ends ↦ rw ends ((digits, first, refl), refl)
      | inr adds ↦ rw adds (elim (Bool-cases (is_full g.num_digits (digits <> digit))) [
        | inl full ↦
            rw full
              ((digits <> digit, false, refl), first_silent (first && g.hooks.on_first_digit) _)
        | inr more ↦
            rw more
              ((g.inter_digit_timeout_ms, false, refl), silent (first && g.hooks.on_first_digit))
      ])
    ]

reset-IsOpen :
    (digits : String) (delay_ms : ℕ) (first : Bool) (reset : Option ℕ)
    → IsOpen digits (reset_by (open_gather digits delay_ms first) reset)
unfolding reset_by
reset-IsOpen digits delay_ms first none = (delay_ms, first, refl)
reset-IsOpen digits delay_ms first (some other_ms) = elim (Bool-cases (digits == "")) [
  | inl e ↦ rw e (other_ms, first, refl)
  | inr e ↦ rw e (delay_ms, first, refl)
]

pub step-Follows :
    (g : Gathering) (digits : String) (delay_ms : ℕ) (first : Bool) (event : Event)
    → Follows (next g digits event) (step g (open_gather digits delay_ms first) event)
unfolding step on_dtmf on_timeout_reset on_timer fire cancel finish
step-Follows g digits delay_ms first (dtmf endpoint_id digit) =
    press-Follows g digits delay_ms first (pressed g endpoint_id digit)
step-Follows g digits delay_ms first (playback_ends endpoint_id) =
    (reset-IsOpen digits delay_ms first (reset_delay g.hooks.reset_timeout_on endpoint_id), refl)
step-Follows g digits delay_ms first timer_fires = ((digits, first, refl), refl)
step-Follows g digits delay_ms first cancels = ((digits, first, refl), refl)

pub step_closed :
    (g : Gathering) (digits : String) (first : Bool) (event : Event)
    → step g (closed_gather digits first) event ≡ (closed_gather digits first, [])
unfolding step on_dtmf on_timeout_reset on_timer fire cancel finish
step_closed g digits first (dtmf endpoint_id digit) = refl
step_closed g digits first (playback_ends endpoint_id) = refl
step_closed g digits first timer_fires = refl
step_closed g digits first cancels = refl

run_closed :
    (g : Gathering) (digits : String) (first : Bool) (events : List Event)
    → run g (closed_gather digits first) events ≡ (closed_gather digits first, [])
unfolding run
run_closed g digits first [] = refl
run_closed g digits first (event ∷ events) =
    rw (step_closed g digits first event) (rw (run_closed g digits first events) refl)

abbrev pub as_list : Option GatherResult → List GatherResult
as_list none = []
as_list (some result) = result ∷ []

followed_gathers :
    (g : Gathering) (outcome : String ⊎ GatherResult) (result : DtmfGather × List Effect)
    (events : List Event)
    → Follows outcome result
    → ((digits : String) (delay_ms : ℕ) (first : Bool)
        → resolutions (run g (open_gather digits delay_ms first) events).1
          ≡ as_list (gathered g digits events))
    → resolutions result.1 ++ resolutions (run g result.0 events).1
      ≡ as_list (go_on (λ more. gathered g more events) outcome)
followed_gathers g (inl digits) result events ((delay_ms, first, same), quiet) later =
    rw quiet (rw same (later digits delay_ms first))
followed_gathers g (inr answer) result events ((digits, first, same), once) later =
    rw once (rw same (rw (run_closed g digits first events) refl))

opened_gathers :
    (g : Gathering) (digits : String) (delay_ms : ℕ) (first : Bool) (events : List Event)
    → resolutions (run g (open_gather digits delay_ms first) events).1
      ≡ as_list (gathered g digits events)
unfolding run gathered
opened_gathers g digits delay_ms first [] = refl
opened_gathers g digits delay_ms first (event ∷ events) =
    let result = step g (open_gather digits delay_ms first) event in
    resolutions-append result.1 (run g result.0 events).1
    ∙ followed_gathers g (next g digits event) result events
        (step-Follows g digits delay_ms first event) (λ d m f. opened_gathers g d m f events)

-- Whatever happens, the promise of a gather is resolved with exactly what the description `gathered`
-- says: not at all while nothing ends it, and otherwise once, with the digits pressed so far, by the
-- first of the terminator, the last digit that was wanted, the timer and a cancellation.
pub run-gathered :
    (g : Gathering) (events : List Event)
    → resolutions (run g (start g) events).1 ≡ as_list (gathered g "" events)
unfolding start
run-gathered g events = opened_gathers g "" g.timeout_ms true events
