-- ===== src/GatewayLifecycle/Invariant.antt =====
-- src/gateway-lifecycle.ts: the phases of the gateway, which each event keeps or moves on from, and what
-- the effects of a run are counted by.
use rtc_session_gateway.GatewayLifecycle.{
  end_cleanup, reach_deadline, stop, poll, drain_from, drain, finish_found, finish, assert_running,
  begin_operation, polls, after_begin, step, Event, resolved, emits_draining, stops,
  resolves_completion, absent, Effect, set_true, GatewayLifecycle,
}
use rtc_session_gateway.Base.{
  ℕ, zero, suc, ◌+◌, Bool, true, false, ◌&&◌, some, List, [], ◌∷◌, ◌++◌, if◌then◌else◌, eqb,
  get_elem?, ◌≡◌, refl, arith,
}
use rtc_session_gateway.GatewayLifecycle.{
  begins, finishes, drains, polls, deadlines, cleans, emits_draining, stops, resolves_completion,
  emits_stopped, absent, awaited, resolved,
}

-- how many operations have not finished
unfoldable pub unfinished : List Bool → ℕ
unfinished [] = 0
unfinished (flag ∷ flags) = (if flag then 0 else 1) + unfinished flags

-- how often the effects stop the gateway, and how often they resolve the completion
abbrev pub stop_count : List Effect → ℕ
stop_count [] = 0
stop_count (stops forced ∷ out) = 1 + stop_count out
stop_count (effect ∷ out) = stop_count out

abbrev pub completion_count : List Effect → ℕ
completion_count [] = 0
completion_count (resolves_completion ∷ out) = 1 + completion_count out
completion_count (effect ∷ out) = completion_count out

pub stop_count-append :
    (out rest : List Effect) → stop_count (out ++ rest) ≡ stop_count out + stop_count rest
stop_count-append [] rest = omega arith
stop_count-append (emits_draining ∷ out) rest = stop_count-append out rest
stop_count-append (stops forced ∷ out) rest = omega (arith, stop_count-append out rest)
stop_count-append (resolves_completion ∷ out) rest = stop_count-append out rest
stop_count-append (emits_stopped ∷ out) rest = stop_count-append out rest

pub completion_count-append :
    (out rest : List Effect)
    → completion_count (out ++ rest) ≡ completion_count out + completion_count rest
completion_count-append [] rest = omega arith
completion_count-append (emits_draining ∷ out) rest = completion_count-append out rest
completion_count-append (stops forced ∷ out) rest = completion_count-append out rest
completion_count-append (resolves_completion ∷ out) rest =
    omega (arith, completion_count-append out rest)
completion_count-append (emits_stopped ∷ out) rest = completion_count-append out rest

pub unfinished-append_new :
    (flags : List Bool) → unfinished (flags ++ false ∷ []) ≡ unfinished flags + 1
unfolding unfinished
unfinished-append_new [] = omega arith
unfinished-append_new (flag ∷ flags) = omega (arith, unfinished-append_new flags)

pub unfinished-set_true :
    (flags : List Bool) (n : ℕ)
    → get_elem? flags n ≡ some false
    → unfinished (set_true flags n) + 1 ≡ unfinished flags
unfolding unfinished set_true
unfinished-set_true [] n h = absurd (cc)
unfinished-set_true (true ∷ flags) zero h = absurd (cc)
unfinished-set_true (false ∷ flags) zero h = omega arith
unfinished-set_true (flag ∷ flags) (suc n) h = omega (arith, unfinished-set_true flags n h)

-- The phases that the gateway goes through, in this order.
pub data Phase : Type 0 where
  serving : Phase
  draining : Phase
  cleaning_up : Phase
  done : Phase

-- What the fields are in each phase.
abbrev pub InPhase : GatewayLifecycle → Phase → Type 0
InPhase g serving =
    (g.completion ≡ absent)
    × (g.is_draining ≡ false)
    × (g.is_stopping ≡ false)
    × (g.polling ≡ false)
    × (g.deadline ≡ false)
    × (g.cleaning ≡ false)
InPhase g draining =
    (g.completion ≡ awaited)
    × (g.is_draining ≡ true)
    × (g.is_stopping ≡ false)
    × (g.polling ≡ true)
    × (g.deadline ≡ true)
    × (g.cleaning ≡ false)
InPhase g cleaning_up =
    (g.completion ≡ awaited)
    × (g.is_draining ≡ true)
    × (g.is_stopping ≡ true)
    × (g.polling ≡ false)
    × (g.deadline ≡ false)
    × (g.cleaning ≡ true)
InPhase g done =
    (g.completion ≡ resolved)
    × (g.is_draining ≡ true)
    × (g.is_stopping ≡ true)
    × (g.polling ≡ false)
    × (g.deadline ≡ false)
    × (g.cleaning ≡ false)

-- The phase after an event.
abbrev pub next_phase : GatewayLifecycle → Phase → Event → Phase
next_phase g serving drains = draining
next_phase g draining (polls n) =
    if eqb g.pending_operations 0 && eqb n 0 then cleaning_up else draining
next_phase g draining deadlines = cleaning_up
next_phase g cleaning_up cleans = done
next_phase g phase event = phase

pub step-InPhase :
    (g : GatewayLifecycle) (phase : Phase) (event : Event)
    → InPhase g phase
    → InPhase (step g event).0 (next_phase g phase event)
unfolding step after_begin begin_operation assert_running finish finish_found drain drain_from poll
    stop reach_deadline end_cleanup
step-InPhase g serving begins p = ground arith
step-InPhase g draining begins p = ground arith
step-InPhase g cleaning_up begins p = ground arith
step-InPhase g done begins p = ground arith
step-InPhase g serving (finishes n) p = ground arith
step-InPhase g draining (finishes n) p = ground arith
step-InPhase g cleaning_up (finishes n) p = ground arith
step-InPhase g done (finishes n) p = ground arith
step-InPhase g serving drains p = rw p.0 (refl, refl, p.2, refl, refl, p.5)
step-InPhase g draining drains p = rw p.0 (refl, p.1, p.2, p.3, p.4, p.5)
step-InPhase g cleaning_up drains p = rw p.0 (refl, p.1, p.2, p.3, p.4, p.5)
step-InPhase g done drains p = rw p.0 (refl, p.1, p.2, p.3, p.4, p.5)
step-InPhase g serving (polls n) p = ground arith
step-InPhase g draining (polls n) p = ground arith
step-InPhase g cleaning_up (polls n) p = ground arith
step-InPhase g done (polls n) p = ground arith
step-InPhase g serving deadlines p = ground arith
step-InPhase g draining deadlines p = ground arith
step-InPhase g cleaning_up deadlines p = ground arith
step-InPhase g done deadlines p = ground arith
step-InPhase g serving cleans p = ground arith
step-InPhase g draining cleans p = ground arith
step-InPhase g cleaning_up cleans p = ground arith
step-InPhase g done cleans p = ground arith
