-- ===== src/MediaSessionService/Gather/Waiting.antt =====
-- src/media-session-service.ts: a gather never waits without its timer, and the digits it answers.
use rtc_session_gateway.Base.{◌≤◌}
use rtc_session_gateway.MediaSessionService.Gather.Refines.{
  step_closed, run-gathered, step-Follows, resolutions, go_on, gathered, as_list, next, after_press,
  IsClosed, Follows, IsOpen,
}
use rtc_session_gateway.Base.{
  arith, some_injective, ◌↔◌, ◌≢◌, ℕ, String, true, false, not, Option, none, some, List, [], ◌∷◌,
  ◌⊎◌, inl, inr, ◌≡◌, refl, sym, subst, Bool-cases, ◌∙◌, is_some,
}
use rtc_session_gateway.Base.Text
use rtc_session_gateway.Base.Text.{◌<>◌, includes}
use rtc_session_gateway.MediaSessionService.Gather.{
  pressed, GatherReason, step, is_full, Event, Effect, start, run, Gathering, GatherResult,
  DtmfGather, dtmf, playback_ends, timer_fires, cancels, digits_done, terminator_pressed, timed_out,
  cancelled,
}

-- The gather waits with its timer armed and its listeners registered, or it has finished and has
-- neither.
abbrev pub IsArmed : DtmfGather → Type 0
IsArmed s = (is_some s.timer ≡ s.listening) × (s.listening ≡ not s.finished)

OpenOrClosed : DtmfGather → Type 0
OpenOrClosed s = (digits : String) × (IsOpen digits s ⊎ IsClosed s)

followed-armed :
    (outcome : String ⊎ GatherResult) (result : DtmfGather × List Effect)
    → Follows outcome result
    → OpenOrClosed result.0
unfolding OpenOrClosed
followed-armed (inl digits) result f = (digits, inl f.0)
followed-armed (inr answer) result f = ("", inr f.0)

run_phase :
    (g : Gathering) (s : DtmfGather) (events : List Event)
    → OpenOrClosed s
    → OpenOrClosed (run g s events).0
unfolding run OpenOrClosed
run_phase g s [] p = p
run_phase g s (event ∷ events) (digits, inl (delay_ms, first, same)) =
    run_phase g (step g s event).0 events (
      subst (λ (x : DtmfGather). OpenOrClosed (step g x event).0) (sym same)
        (followed-armed (next g digits event) _ (step-Follows g digits delay_ms first event)))
run_phase g s (event ∷ events) (e, inr (digits, first, same)) =
    run_phase g (step g s event).0 events (
      subst (λ (x : DtmfGather). OpenOrClosed (step g x event).0) (sym same)
        (rw (step_closed g digits first event) ("", inr (digits, first, refl))))

IsArmed-phase : (s : DtmfGather) → OpenOrClosed s → IsArmed s
unfolding OpenOrClosed
IsArmed-phase s (digits, inl (delay_ms, first, same)) =
    subst (λ (x : DtmfGather). IsArmed x) (sym same) (refl, refl)
IsArmed-phase s (d, inr (digits, first, same)) =
    subst (λ (x : DtmfGather). IsArmed x) (sym same) (refl, refl)

-- After any events, a gather that has not finished has its timer armed and its listeners registered,
-- and one that has finished has neither.
pub run-IsArmed : (g : Gathering) (events : List Event) → IsArmed (run g (start g) events).0
unfolding start OpenOrClosed
run-IsArmed g events =
    IsArmed-phase _ (run_phase g (start g) events ("", inl (g.timeout_ms, true, refl)))

-- a positive number of digits is wanted, and the digits are at least that many
abbrev pub Enough : Option ℕ → String → Type 0
Enough none digits = ⊥
Enough (some num_digits) digits = (1 ≤ num_digits) × (num_digits ≤ Text.length digits)

is_full_iff :
    (num_digits : Option ℕ) (digits : String)
    → (is_full num_digits digits ≡ true) ↔ Enough num_digits digits
is_full_iff none digits = (λ e. cc e, λ e. absurd e)
is_full_iff (some n) digits = (λ e. (ground arith, ground arith), λ e. ground arith)

-- The reason says that enough digits were pressed exactly if they were.
abbrev pub IsOutcome : Option ℕ → GatherResult → Type 0
IsOutcome num_digits result = (result.reason ≡ digits_done) ↔ Enough num_digits result.digits

abbrev Sound : Option ℕ → String ⊎ GatherResult → Type 0
Sound num_digits (inl digits) = is_full num_digits digits ≡ false
Sound num_digits (inr result) = IsOutcome num_digits result

unfilled-IsOutcome :
    (num_digits : Option ℕ) (digits : String) (reason : GatherReason)
    → is_full num_digits digits ≡ false
    → reason ≢ digits_done
    → IsOutcome num_digits (record { digits = digits; reason = reason })
unfilled-IsOutcome num_digits digits reason short other = (
  λ e. absurd (other e),
  λ e. let full = (is_full_iff num_digits digits).1 e in absurd (cc (short, full)),
)

press-Sound :
    (g : Gathering) (digits : String) (press : Option String)
    → is_full g.num_digits digits ≡ false
    → Sound g.num_digits (after_press g digits press)
press-Sound g digits none short = short
press-Sound g digits (some digit) short = elim (Bool-cases (includes g.terminator digit)) [
  | inl ends ↦ rw ends (unfilled-IsOutcome g.num_digits digits terminator_pressed short (λ e. cc e))
  | inr adds ↦ rw adds (elim (Bool-cases (is_full g.num_digits (digits <> digit))) [
    | inl full ↦ rw full (λ e. (is_full_iff g.num_digits (digits <> digit)).0 full, λ e. refl)
    | inr more ↦ rw more more
  ])
]

next-Sound :
    (g : Gathering) (digits : String) (event : Event)
    → is_full g.num_digits digits ≡ false
    → Sound g.num_digits (next g digits event)
next-Sound g digits (dtmf endpoint_id digit) short =
    press-Sound g digits (pressed g endpoint_id digit) short
next-Sound g digits (playback_ends endpoint_id) short = short
next-Sound g digits timer_fires short =
    unfilled-IsOutcome g.num_digits digits timed_out short (λ e. cc e)
next-Sound g digits cancels short =
    unfilled-IsOutcome g.num_digits digits cancelled short (λ e. cc e)

go_on-IsOutcome :
    (num_digits : Option ℕ) (later : String → Option GatherResult) (outcome : String ⊎ GatherResult)
    (result : GatherResult)
    → Sound num_digits outcome
    → ((digits : String)
        → is_full num_digits digits ≡ false
        → later digits ≡ some result
        → IsOutcome num_digits result)
    → go_on later outcome ≡ some result
    → IsOutcome num_digits result
go_on-IsOutcome num_digits later (inl digits) result short more h = more digits short h
go_on-IsOutcome num_digits later (inr answer) result sound more h =
    subst (IsOutcome num_digits) (some_injective h) sound

gathered-IsOutcome :
    (g : Gathering) (digits : String) (events : List Event) (result : GatherResult)
    → is_full g.num_digits digits ≡ false
    → gathered g digits events ≡ some result
    → IsOutcome g.num_digits result
unfolding gathered
gathered-IsOutcome g digits [] result short h = absurd (cc)
gathered-IsOutcome g digits (event ∷ events) result short h =
    go_on-IsOutcome g.num_digits (λ more. gathered g more events) (next g digits event) result
      (next-Sound g digits event short) (λ d s e. gathered-IsOutcome g d events result s e) h

as_list_inv :
    (answer : Option GatherResult) (result : GatherResult)
    → as_list answer ≡ result ∷ []
    → answer ≡ some result
as_list_inv none result h = absurd (cc)
as_list_inv (some r) result h = cc

is_full-empty : (num_digits : Option ℕ) → is_full num_digits "" ≡ false
unfolding Text.length
is_full-empty none = refl
is_full-empty (some n) = ground arith

-- When a gather resolves, its reason is that enough digits were pressed exactly if a positive number of
-- digits was wanted and the digits that it answers are at least that many.
pub run-IsOutcome :
    (g : Gathering) (events : List Event) (result : GatherResult)
    → resolutions (run g (start g) events).1 ≡ result ∷ []
    → IsOutcome g.num_digits result
run-IsOutcome g events result h =
    gathered-IsOutcome g "" events result (is_full-empty g.num_digits)
      (as_list_inv (gathered g "" events) result (sym (run-gathered g events) ∙ h))
