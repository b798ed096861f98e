-- ===== src/ControlServer/Answering.antt =====
-- Every control request that src/control-server.ts logs is answered once, under its own id, and the
-- operation that it began ends.
use rtc_session_gateway.ControlHub.Routes.{set_routes}
use rtc_session_gateway.SessionCommands.Valid.Run.{execute-IsValid}
use rtc_session_gateway.SessionCommands.Valid.{IsValid}
use rtc_session_gateway.ControlLog.Throwing.{scrub_control_request-logs}
use rtc_session_gateway.SessionCommands.Execute.{execute}
use rtc_session_gateway.SessionCommands.{accepting, Action}
use rtc_session_gateway.ControlLog.Tables.{object_prototype}
use rtc_session_gateway.Json.{Json}
use rtc_session_gateway.Base.Assoc.{lookup}
use rtc_session_gateway.ControlProtocol.{parse_route_registrations, ControlResponse, ControlRequest}
use rtc_session_gateway.Base.{
  sym, inr, arith, ◌==◌, subst, inl, ℕ, Bool-cases, List, [], ◌∷◌, ◌++◌, ◌≡◌, refl,
}
use rtc_session_gateway.Base.{length}
use rtc_session_gateway.Base.{get_elem?}
use rtc_session_gateway.Errors.{ok_injective, Result, >>=-eq-ok, ok, err}
use rtc_session_gateway.GatewayLifecycle.{assert_running, begin_operation, finish}
use rtc_session_gateway.ControlLog.Uri.{Platform}
use rtc_session_gateway.ControlServer.Requests.{
  waits, answered, finish_in, awaits, finished, done, Progress, work_on, register_routes,
  handle_request, execute_command, complete_request, begin_for, after_work, Work, after_begin,
}
use rtc_session_gateway.ControlServer.{SessionCommandHandler, GatewayLifecycle, ControlServer}
use rtc_session_gateway.Base.{String, Bool, false, Option, none, some}

-- the operations under way; a gateway without a lifecycle counts none
abbrev pub pending : Option GatewayLifecycle → ℕ
pending none = 0
pending (some g) = g.pending_operations

-- the server's commands, which share its lifecycle
abbrev pub commands_of : ControlServer → SessionCommandHandler
commands_of s = record s.commands { lifecycle = s.lifecycle }

-- Either the request is answered at once, under its id, and no operation is left that was not there;
-- or its operation has begun, and a valid action is awaited.
pub data Settles (s : ControlServer) (r : ControlRequest) : Progress → Type 0 where
  at_once :
      (s' : ControlServer) (answer : ControlResponse)
      → answer.id ≡ r.id
      → pending s'.lifecycle ≡ pending s.lifecycle
      → Settles s r (answered s' answer)
  later :
      (s' : ControlServer) (operation : Option ℕ) (action : Action)
      → begin_for s.lifecycle ≡ ok (s'.lifecycle, operation)
      → IsValid (commands_of s') action
      → Settles s r (waits s' operation action)

get_elem?-new : (flags : List Bool) → get_elem? (flags ++ false ∷ []) (length flags) ≡ some false
get_elem?-new [] = refl
get_elem?-new (flag ∷ flags) = get_elem?-new flags

operation_ends :
    (g : GatewayLifecycle) (begun : GatewayLifecycle × ℕ)
    → begin_operation g ≡ ok begun
    → (finish begun.0 begun.1).pending_operations ≡ g.pending_operations
unfolding begin_operation assert_running finish
operation_ends g begun e = elim (Bool-cases g.is_stopping) [
  | inl stopping ↦ absurd (ground arith)
  | inr running ↦
      subst (λ b. (finish b.0 b.1).pending_operations ≡ g.pending_operations)
        (ok_injective (rw running at e)) (rw (get_elem?-new g.finished) (omega arith))
]

begun_ends :
    (l : Option GatewayLifecycle) (begun : Option GatewayLifecycle × Option ℕ)
    → begin_for l ≡ ok begun
    → pending (finish_in begun.0 begun.1) ≡ pending l
unfolding begin_for
begun_ends none begun e = subst (λ b. pending (finish_in b.0 b.1) ≡ 0) (ok_injective e) refl
begun_ends (some g) begun e =
    let (b, f, h) = >>=-eq-ok (begin_operation g) _ e in
    subst (λ c. pending (finish_in c.0 c.1) ≡ g.pending_operations) (ok_injective h)
      (operation_ends g b f)

-- what the `try` block comes to: the lifecycle is as it was, and an action is valid
abbrev IsWork : ControlServer → Work → Type 0
IsWork s (done s' result) = s'.lifecycle ≡ s.lifecycle
IsWork s (awaits action) = IsValid (commands_of s) action

register_routes-IsWork :
    (s : ControlServer) (id : String) (params : Json) (w : Work)
    → register_routes s id params ≡ ok w
    → IsWork s w
unfolding register_routes
register_routes-IsWork s id params w e =
    let (u, a, f) = >>=-eq-ok (accepting s.lifecycle) _ e in
    let (routes, b, g) = >>=-eq-ok (parse_route_registrations params) _ f in
    let (registered, c, h) = >>=-eq-ok (set_routes s.hub id routes) _ g in
    subst (IsWork s) (ok_injective h) refl

execute_command-IsWork :
    (s : ControlServer) (id : String) (r : ControlRequest) (w : Work)
    → execute_command s id r ≡ ok w
    → IsWork s w
unfolding execute_command
execute_command-IsWork s id r w e =
    let (action, a, f) = >>=-eq-ok (execute (commands_of s) r.method r.params _) _ e in
    subst (IsWork s) (ok_injective f) (
      execute-IsValid (commands_of s) r.method r.params (record { control_connection_id = some id })
        a)

work_on-IsWork :
    (s : ControlServer) (id : String) (r : ControlRequest) (w : Work)
    → work_on s id r ≡ ok w
    → IsWork s w
unfolding work_on
work_on-IsWork s id r w e = elim (Bool-cases (r.method == "route.register")) [
  | inl routes ↦ register_routes-IsWork s id r.params w (rw routes at e)
  | inr command ↦ execute_command-IsWork s id r w (rw command at e)
]

after_work-Settles :
    (s s' : ControlServer) (operation : Option ℕ) (r : ControlRequest) (work : Result Work)
    → begin_for s.lifecycle ≡ ok (s'.lifecycle, operation)
    → ((w : Work) → work ≡ ok w → IsWork s' w)
    → Settles s r (after_work s' operation r work)
unfolding after_work finished
after_work-Settles s s' operation r (err thrown) begun worked =
    at_once _ _ refl (begun_ends s.lifecycle (s'.lifecycle, operation) begun)
after_work-Settles s s' operation r (ok (done t result)) begun worked = at_once _ _ refl (
    subst (λ l. pending (finish_in l operation) ≡ pending s.lifecycle) (sym (worked _ refl))
      (begun_ends s.lifecycle (s'.lifecycle, operation) begun))
after_work-Settles s s' operation r (ok (awaits action)) begun worked =
    later s' operation action begun (worked _ refl)

after_begin-Settles :
    (s : ControlServer) (id : String) (r : ControlRequest)
    (begun : Result (Option GatewayLifecycle × Option ℕ))
    → begin_for s.lifecycle ≡ begun
    → Settles s r (after_begin s id r begun)
unfolding after_begin
after_begin-Settles s id r (err thrown) e = at_once s _ refl refl
after_begin-Settles s id r (ok (lifecycle, operation)) e =
    let s' : ControlServer = record s { lifecycle = lifecycle } in
    after_work-Settles s s' operation r (work_on s' id r) e (work_on-IsWork s' id r)

-- A request whose method is not the name of a property of Object.prototype is never dropped: it is
-- answered at once, under its own id and with no operation left behind, or its operation has begun and
-- the one action that is awaited is valid.
pub handle_request-Settles :
    (platform : Platform) (s : ControlServer) (id : String) (r : ControlRequest)
    → lookup r.method object_prototype ≡ none
    → (progress : Progress) × (handle_request platform s id r ≡ ok progress) × Settles s r progress
unfolding handle_request
handle_request-Settles platform s id r own =
    let (body, logged, _, _) = scrub_control_request-logs platform r.id r.method r.params own in
    (after_begin s id r (begin_for s.lifecycle), rw logged refl, after_begin-Settles s id r _ refl)

-- When the call that a request was left waiting for returns or throws, with nothing else under way in
-- between, the request is answered under its own id, and as many operations are under way as before it.
pub complete_request-ends :
    (s s' : ControlServer) (r : ControlRequest) (operation : Option ℕ) (action : Action)
    (answer : Result Json)
    → Settles s r (waits s' operation action)
    → ((complete_request s' operation r answer).1.id ≡ r.id)
      × (pending (complete_request s' operation r answer).0.lifecycle ≡ pending s.lifecycle)
unfolding complete_request finished
complete_request-ends s s' r operation action (ok result) (later _ _ _ begun valid) =
    (refl, begun_ends s.lifecycle (s'.lifecycle, operation) begun)
complete_request-ends s s' r operation action (err thrown) (later _ _ _ begun valid) =
    (refl, begun_ends s.lifecycle (s'.lifecycle, operation) begun)
