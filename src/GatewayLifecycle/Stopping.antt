-- ===== src/GatewayLifecycle/Stopping.antt =====
-- src/gateway-lifecycle.ts under any sequence of events: the count of the operations under way, that the
-- gateway stops once, when it stops gracefully, and that draining ends.
use rtc_session_gateway.Base.{
  subst, ℕ, ◌+◌, Bool, true, false, not, ◌&&◌, Option, none, some, List, [], ◌∷◌, if◌then◌else◌,
  get_elem?, ◌≡◌, refl, arith, ◌↔◌,
}
use rtc_session_gateway.GatewayLifecycle.{
  end_cleanup, assert_running, reach_deadline, begin_operation, stop, running, finish, drain,
  after_begin, step, run, poll, finish_found, drain_from, Event, GatewayLifecycle, begins, finishes,
  drains, polls, deadlines, cleans, absent, awaited, resolved, Completion,
}
use rtc_session_gateway.GatewayLifecycle.Invariant.{
  completion_count-append, stop_count-append, unfinished-append_new, step-InPhase, completion_count,
  unfinished-set_true, stop_count, next_phase, unfinished, Phase, InPhase, serving, draining,
  cleaning_up, done,
}

-- whether the gateway was told to stop by this phase, and whether its cleanup has ended, as numbers
abbrev stopped : Phase → ℕ
stopped serving = 0
stopped draining = 0
stopped _ = 1

abbrev completed : Phase → ℕ
completed done = 1
completed _ = 0

step_counts :
    (g : GatewayLifecycle) (phase : Phase) (event : Event)
    → InPhase g phase
    → (stop_count (step g event).1 + stopped phase ≡ stopped (next_phase g phase event))
      × (completion_count (step g event).1 + completed phase ≡ completed (next_phase g phase event))
unfolding step drain drain_from poll stop reach_deadline end_cleanup
step_counts g serving begins p = ground arith
step_counts g draining begins p = ground arith
step_counts g cleaning_up begins p = ground arith
step_counts g done begins p = ground arith
step_counts g serving (finishes n) p = ground arith
step_counts g draining (finishes n) p = ground arith
step_counts g cleaning_up (finishes n) p = ground arith
step_counts g done (finishes n) p = ground arith
step_counts g serving drains p = rw p.0 (omega arith, omega arith)
step_counts g draining drains p = rw p.0 (omega arith, omega arith)
step_counts g cleaning_up drains p = rw p.0 (omega arith, omega arith)
step_counts g done drains p = rw p.0 (omega arith, omega arith)
step_counts g serving (polls n) p = ground arith
step_counts g draining (polls n) p = ground arith
step_counts g cleaning_up (polls n) p = ground arith
step_counts g done (polls n) p = ground arith
step_counts g serving deadlines p = ground arith
step_counts g draining deadlines p = ground arith
step_counts g cleaning_up deadlines p = ground arith
step_counts g done deadlines p = ground arith
step_counts g serving cleans p = ground arith
step_counts g draining cleans p = ground arith
step_counts g cleaning_up cleans p = ground arith
step_counts g done cleans p = ground arith

-- The phase that a run ends in.
run_phase :
    (g : GatewayLifecycle) (phase : Phase) (events : List Event)
    → InPhase g phase
    → (last : Phase) × InPhase (run g events).0 last
      × (stop_count (run g events).1 + stopped phase ≡ stopped last)
      × (completion_count (run g events).1 + completed phase ≡ completed last)
unfolding run
run_phase g phase [] p = (phase, p, omega arith, omega arith)
run_phase g phase (event ∷ events) p =
    let (g', out) = step g event in
    let (once, ended) = step_counts g phase event p in
    let (last, q, begun, ends) =
      run_phase g' (next_phase g phase event) events (step-InPhase g phase event p) in
    (
      last,
      q,
      omega (arith, once, begun, stop_count-append out (run g' events).1),
      omega (arith, ended, ends, completion_count-append out (run g' events).1),
    )

running-InPhase : InPhase running serving
running-InPhase = (refl, refl, refl, refl, refl, refl)

phase_counts :
    (g : GatewayLifecycle) (phase : Phase)
    → InPhase g phase
    → (stopped phase ≡ (if g.is_stopping then 1 else 0))
      × (completed phase ≡ (if g.is_stopping && not g.cleaning then 1 else 0))
phase_counts g serving p = ground arith
phase_counts g draining p = ground arith
phase_counts g cleaning_up p = ground arith
phase_counts g done p = ground arith

-- Whatever events come, the gateway's `stop` option has been called once if `isStopping` is set and
-- never otherwise, and the completion has been resolved once if moreover the cleanup has ended, and
-- never otherwise.
pub run-stops_once :
    (events : List Event)
    → let (g, out) = run running events in
      (stop_count out ≡ (if g.is_stopping then 1 else 0))
      × (completion_count out ≡ (if g.is_stopping && not g.cleaning then 1 else 0))
run-stops_once events =
    let (last, p, begun, ends) = run_phase running serving events running-InPhase in
    let (once, ended) = phase_counts (run running events).0 last p in
    (omega (arith, begun, once), omega (arith, ends, ended))

begin_counted :
    (g : GatewayLifecycle)
    → g.pending_operations ≡ unfinished g.finished
    → (step g begins).0.pending_operations ≡ unfinished (step g begins).0.finished
unfolding step after_begin begin_operation assert_running
begin_counted g h = ground (arith, unfinished-append_new g.finished)

finish_counted :
    (g : GatewayLifecycle) (n : ℕ) (found : Option Bool)
    → get_elem? g.finished n ≡ found
    → g.pending_operations ≡ unfinished g.finished
    → (finish_found g n found).pending_operations ≡ unfinished (finish_found g n found).finished
unfolding finish_found
finish_counted g n none e h = h
finish_counted g n (some true) e h = h
finish_counted g n (some false) e h = omega (arith, h, unfinished-set_true g.finished n e)

drain_counted :
    (g : GatewayLifecycle) (completion : Completion)
    → g.pending_operations ≡ unfinished g.finished
    → (drain_from g completion).0.pending_operations
      ≡ unfinished (drain_from g completion).0.finished
unfolding drain_from
drain_counted g absent h = h
drain_counted g awaited h = h
drain_counted g resolved h = h

step_counted :
    (g : GatewayLifecycle) (event : Event)
    → g.pending_operations ≡ unfinished g.finished
    → (step g event).0.pending_operations ≡ unfinished (step g event).0.finished
unfolding step finish drain poll stop reach_deadline end_cleanup
step_counted g begins h = begin_counted g h
step_counted g (finishes n) h = finish_counted g n (get_elem? g.finished n) refl h
step_counted g drains h = drain_counted g g.completion h
step_counted g (polls n) h = ground arith
step_counted g deadlines h = ground arith
step_counted g cleans h = ground arith

counted_from :
    (g : GatewayLifecycle) (events : List Event)
    → g.pending_operations ≡ unfinished g.finished
    → (run g events).0.pending_operations ≡ unfinished (run g events).0.finished
unfolding run
counted_from g [] h = h
counted_from g (event ∷ events) h = counted_from (step g event).0 events (step_counted g event h)

-- Whatever events come, `pendingOperations` is the number of operations that were begun and have not
-- finished, however often the function that ends an operation is called.
pub run-counts :
    (events : List Event)
    → (run running events).0.pending_operations ≡ unfinished (run running events).0.finished
unfolding unfinished
run-counts events = counted_from running events refl

poll_phase :
    (g : GatewayLifecycle) (phase : Phase) (n : ℕ)
    → InPhase g phase
    → (stop_count (poll g n).1 ≡ 1)
      ↔ ((g.is_draining ≡ true) × (g.is_stopping ≡ false) × (g.pending_operations ≡ 0) × (n ≡ 0))
unfolding poll stop
poll_phase g serving n p = ground arith
poll_phase g draining n p = ground arith
poll_phase g cleaning_up n p = ground arith
poll_phase g done n p = ground arith

-- After any events, the poll stops the gateway exactly when it drains, has not been stopped yet, every
-- operation that was begun has finished and no resource is active.
pub poll_stops_iff :
    (events : List Event) (active_resources : ℕ)
    → let g = (run running events).0 in
      (stop_count (poll g active_resources).1 ≡ 1) ↔ (
        (g.is_draining ≡ true)
        × (g.is_stopping ≡ false)
        × (unfinished g.finished ≡ 0)
        × (active_resources ≡ 0))
poll_stops_iff events n =
    let (last, p, begun, ends) = run_phase running serving events running-InPhase in
    subst
      (λ k. (stop_count (poll (run running events).0 n).1 ≡ 1) ↔ (
        ((run running events).0.is_draining ≡ true)
        × ((run running events).0.is_stopping ≡ false)
        × (k ≡ 0)
        × (n ≡ 0)))
      (run-counts events) (poll_phase (run running events).0 last n p)

-- Draining, its deadline and the end of the cleanup lead to the last phase from any phase.
drained_phase :
    (g g' g'' : GatewayLifecycle) (phase : Phase)
    → next_phase g'' (next_phase g' (next_phase g phase drains) deadlines) cleans ≡ done
drained_phase g g' g'' serving = refl
drained_phase g g' g'' draining = refl
drained_phase g g' g'' cleaning_up = refl
drained_phase g g' g'' done = refl

-- Whatever came before, once `drain` was called and its deadline and the time of the cleanup have
-- passed, the completion that `drain` returned is resolved.
pub drain_completes :
    (events : List Event)
    → (run (run running events).0 (drains ∷ deadlines ∷ cleans ∷ [])).0.completion ≡ resolved
unfolding run
drain_completes events =
    let (phase, p, begun, ends) = run_phase running serving events running-InPhase in
    let g = (run running events).0 in
    let g1 = (step g drains).0 in
    let g2 = (step g1 deadlines).0 in
    let p1 = step-InPhase g phase drains p in
    let p2 = step-InPhase g1 (next_phase g phase drains) deadlines p1 in
    let p3 = step-InPhase g2 (next_phase g1 (next_phase g phase drains) deadlines) cleans p2 in
    (subst (InPhase (step g2 cleans).0) (drained_phase g g1 g2 phase) p3).0
