-- ===== src/GatewayLifecycle/Tests.antt =====
-- src/gateway-lifecycle.ts at work: an operation, a drain that waits for it, and the stop.
use rtc_session_gateway.GatewayLifecycle.Stopping.{
  run-stops_once, run-counts, poll_stops_iff, drain_completes,
}
use rtc_session_gateway.GatewayLifecycle.Invariant.{unfinished, completion_count, stop_count}
use rtc_session_gateway.Base.{
  ℕ, ◌≡◌, ◌↔◌, ◌&&◌, not, ◌∷◌, [], List, refl, true, false, if◌then◌else◌,
}
use rtc_session_gateway.GatewayLifecycle.{
  begin_operation, drain, finish, running, run, poll, Event, begins, finishes, drains, polls,
  deadlines, cleans, resolved,
}

abbrev busy : List Event
busy = begins ∷ drains ∷ polls 0 ∷ finishes 0 ∷ finishes 0 ∷ []

run-stops_once_example :
    let (g, out) = run running (begins ∷ drains ∷ polls 0 ∷ finishes 0 ∷ polls 0 ∷ cleans ∷ []) in
    (stop_count out ≡ (if g.is_stopping then 1 else 0))
    × (completion_count out ≡ (if g.is_stopping && not g.cleaning then 1 else 0))
run-stops_once_example =
    run-stops_once (begins ∷ drains ∷ polls 0 ∷ finishes 0 ∷ polls 0 ∷ cleans ∷ [])

run-counts_example :
    (run running busy).0.pending_operations ≡ unfinished (run running busy).0.finished
run-counts_example = run-counts busy

poll_test : stop_count (poll (run running busy).0 0).1 ≡ 1
unfolding poll run finish drain begin_operation
poll_test = refl

poll_stops_iff_example :
    let g = (run running busy).0 in
    let active : ℕ = 0 in
    (stop_count (poll g active).1 ≡ 1) ↔ (
      (g.is_draining ≡ true) × (g.is_stopping ≡ false) × (unfinished g.finished ≡ 0) × (active ≡ 0))
poll_stops_iff_example = poll_stops_iff busy 0

drain_completes_example :
    (run (run running (begins ∷ [])).0 (drains ∷ deadlines ∷ cleans ∷ [])).0.completion ≡ resolved
drain_completes_example = drain_completes (begins ∷ [])
