-- ===== src/GatewayLifecycle.antt =====
-- src/gateway-lifecycle.ts: the operations under way, and draining and stopping the gateway.
-- The `finished` flag of the closure that `beginOperation` returns is an entry of `finished`; the
-- closure is its index. How many resources are active is an argument of the poll. A promise and a
-- timer are fields; what happens to the outside comes back as a list of effects.
pub mod Invariant
pub mod Stopping
mod Tests
use rtc_session_gateway.Base.{
  ℕ, zero, suc, ◌+◌, ◌-◌, Bool, true, false, not, ◌&&◌, Option, none, some, List, [], ◌∷◌, ◌++◌,
  if◌then◌else◌, eqb, length, get_elem?,
}
use rtc_session_gateway.Errors.{Result, ok, err, ◌>>=◌, ◌>>◌, guard, gateway_draining}

pub data Completion : Type 0 where
  absent : Completion  -- completion === undefined
  awaited : Completion
  resolved : Completion

pub record GatewayLifecycle : Type 0 where
  pub pending_operations : ℕ
  pub finished : List Bool
  pub completion : Completion
  pub polling : Bool  -- pollTimer is armed
  pub deadline : Bool  -- deadlineTimer is armed
  pub is_draining : Bool
  pub is_stopping : Bool
  pub cleaning : Bool  -- `stop` awaits the race of the cleanup with its timeout

abbrev pub running : GatewayLifecycle
running = record {
  pending_operations = 0;
  finished = [];
  completion = absent;
  polling = false;
  deadline = false;
  is_draining = false;
  is_stopping = false;
  cleaning = false;
}

pub data Effect : Type 0 where
  emits_draining : Effect
  stops : (forced : Bool) → Effect  -- options.stop(forced)
  resolves_completion : Effect
  emits_stopped : Effect

unfoldable pub assert_accepting : GatewayLifecycle → Result (Unit {0})
assert_accepting g = guard (not g.is_draining) gateway_draining

unfoldable pub assert_running : GatewayLifecycle → Result (Unit {0})
assert_running g = guard (not g.is_stopping) gateway_draining

-- The index of the new flag stands for the function that ends the operation.
unfoldable pub begin_operation : GatewayLifecycle → Result (GatewayLifecycle × ℕ)
unfolding assert_running
begin_operation g = do
  assert_running g
  ok (
    record g { pending_operations = g.pending_operations + 1; finished = g.finished ++ false ∷ [] },
    length g.finished,
  )

unfoldable pub set_true : List Bool → ℕ → List Bool
set_true [] n = []
set_true (flag ∷ flags) zero = true ∷ flags
set_true (flag ∷ flags) (suc n) = flag ∷ set_true flags n

finish_found : GatewayLifecycle → ℕ → Option Bool → GatewayLifecycle
unfolding set_true
finish_found g n none = g
finish_found g n (some true) = g
finish_found g n (some false) = record g {
  pending_operations = g.pending_operations - 1;
  finished = set_true g.finished n;
}

-- the function that `beginOperation` returned
unfoldable pub finish : GatewayLifecycle → ℕ → GatewayLifecycle
unfolding finish_found
finish g n = finish_found g n (get_elem? g.finished n)

drain_from : GatewayLifecycle → Completion → GatewayLifecycle × List Effect
drain_from g absent = (
  record g { is_draining = true; completion = awaited; polling = true; deadline = true },
  emits_draining ∷ [],
)
drain_from g _ = (g, [])

unfoldable pub drain : GatewayLifecycle → GatewayLifecycle × List Effect
unfolding drain_from
drain g = drain_from g g.completion

-- `stop`, up to its first `await`
unfoldable pub stop : GatewayLifecycle → Bool → GatewayLifecycle × List Effect
stop g forced = if g.is_stopping then (g, []) else (
  record g { is_stopping = true; polling = false; deadline = false; cleaning = true },
  stops forced ∷ [],
)

-- the interval of `drain`, while it is armed
unfoldable pub poll : GatewayLifecycle → ℕ → GatewayLifecycle × List Effect
unfolding stop
poll g active_resources =
    if g.polling && eqb g.pending_operations 0 && eqb active_resources 0
    then stop g false
    else (g, [])

-- the timeout of `drain`, which fires once
unfoldable pub reach_deadline : GatewayLifecycle → GatewayLifecycle × List Effect
unfolding stop
reach_deadline g = if g.deadline then stop (record g { deadline = false }) true else (g, [])

-- The race of `stop` ends: the cleanup is done or has failed, or its time is over. Then the `finally`.
unfoldable pub end_cleanup : GatewayLifecycle → GatewayLifecycle × List Effect
end_cleanup g =
    if g.cleaning
    then (
      record g { cleaning = false; completion = resolved },
      resolves_completion ∷ emits_stopped ∷ [],
    )
    else (g, [])

pub data Event : Type 0 where
  begins : Event
  finishes : (operation : ℕ) → Event
  drains : Event
  polls : (active_resources : ℕ) → Event
  deadlines : Event
  cleans : Event

after_begin : GatewayLifecycle → Result (GatewayLifecycle × ℕ) → GatewayLifecycle
after_begin g (ok (g', n)) = g'
after_begin g (err error) = g

unfoldable pub step : GatewayLifecycle → Event → GatewayLifecycle × List Effect
unfolding after_begin
step g begins = (after_begin g (begin_operation g), [])
step g (finishes n) = (finish g n, [])
step g drains = drain g
step g (polls active_resources) = poll g active_resources
step g deadlines = reach_deadline g
step g cleans = end_cleanup g

unfoldable pub run : GatewayLifecycle → List Event → GatewayLifecycle × List Effect
unfolding step
run g [] = (g, [])
run g (event ∷ events) =
    let (g', out) = step g event in let (last, rest) = run g' events in (last, out ++ rest)
