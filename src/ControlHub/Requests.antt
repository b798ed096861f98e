-- ===== src/ControlHub/Requests.antt =====
-- src/control-hub.ts: the requests that wait for an answer: `request`, `handleResponse`, the timeout and
-- `removeConnection`.
use rtc_session_gateway.Base.{
  String, Bool, true, false, Option, none, some, List, [], ◌∷◌, ◌++◌, ◌==◌, if◌then◌else◌, or_else,
}
use rtc_session_gateway.Base.Text.{◌<>◌}
use rtc_session_gateway.Base.Assoc.{Map, lookup, insert, erase}
use rtc_session_gateway.Json.{undefined}
use rtc_session_gateway.Errors.{Error, control_connection_unavailable, control_request_error}
use rtc_session_gateway.ControlProtocol.{
  ControlRequest, ControlResponse, request, make_control_error,
}
use rtc_session_gateway.ControlLog.{is_sensitive_control_request}
use rtc_session_gateway.ControlHub.{
  ControlConnection, PendingRequest, ControlHub, Effect, sends, resolves, rejects, disconnects,
  not_available,
}

-- `pending.delete(id); clearTimeout(pending.timer)`
abbrev pub forget : ControlHub → String → ControlHub
forget hub id = record hub { pending = erase id hub.pending; timers = erase id hub.timers }

unfoldable pub reject_found :
    ControlHub → String → Error → Option PendingRequest → ControlHub × List Effect
reject_found hub id error none = (hub, [])
reject_found hub id error (some pending) = (forget hub id, rejects id error ∷ [])

unfoldable pub reject_pending : ControlHub → String → Error → ControlHub × List Effect
unfolding reject_found
reject_pending hub id error = reject_found hub id error (lookup id hub.pending)

abbrev pub waiting_for : ControlHub → String → String → PendingRequest → ControlHub
waiting_for hub id method pending = record hub {
  pending = insert id pending hub.pending;
  timers = insert id method hub.timers;
}

unfoldable pub send_request :
    ControlHub → String → ControlRequest → Bool → Option Error → ControlHub × List Effect
unfolding reject_pending
send_request hub connection_id message false thrown =
    reject_pending hub message.id
      (control_connection_unavailable ("Control connection " <> connection_id <> " is not open"))
send_request hub connection_id message true none = (hub, sends connection_id (request message) ∷ [])
send_request hub connection_id message true (some error) = reject_pending hub message.id error

unfoldable pub request_on :
    ControlHub
    → Option ControlConnection
    → String
    → ControlRequest
    → Bool
    → Option Error
    → ControlHub × List Effect
unfolding send_request
request_on hub none connection_id message ready thrown =
    (hub, rejects message.id (not_available connection_id) ∷ [])
request_on hub (some connection) connection_id message ready thrown =
    let pending : PendingRequest = record {
      connection_id = connection_id;
      method = message.method;
      sensitive = is_sensitive_control_request message.method message.params;
    } in
    send_request (waiting_for hub message.id message.method pending) connection_id message ready
      thrown

-- `ControlHub.request`, which is async: what it throws rejects its promise
unfoldable pub send_control_request :
    ControlHub → String → ControlRequest → Bool → Option Error → ControlHub × List Effect
unfolding request_on
send_control_request hub connection_id message ready thrown =
    request_on hub (lookup connection_id hub.connections) connection_id message ready thrown

-- the timeout of a request, which runs only while it is armed
unfoldable pub time_out_of : ControlHub → String → Option String → ControlHub × List Effect
time_out_of hub id none = (hub, [])
time_out_of hub id (some method) = (
  forget hub id,
  rejects id (control_connection_unavailable ("Control request " <> method <> " timed out")) ∷ [],
)

unfoldable pub time_out : ControlHub → String → ControlHub × List Effect
unfolding time_out_of
time_out hub id = time_out_of hub id (lookup id hub.timers)

unfoldable pub settlement : ControlResponse → Effect
settlement r =
    if r.is_ok
    then resolves r.id r.result
    else rejects r.id (
        control_request_error
          (or_else r.error (make_control_error "ERROR" "Request failed" undefined)))

unfoldable pub respond_to :
    ControlHub → Option PendingRequest → String → ControlResponse → Bool × ControlHub × List Effect
unfolding settlement
respond_to hub none connection_id r = (false, hub, [])
respond_to hub (some pending) connection_id r =
    if pending.connection_id == connection_id
    then (true, forget hub r.id, settlement r ∷ [])
    else (false, hub, [])

unfoldable pub handle_response :
    ControlHub → String → ControlResponse → Bool × ControlHub × List Effect
unfolding respond_to
handle_response hub connection_id r = respond_to hub (lookup r.id hub.pending) connection_id r

-- the entries that the loop of `removeConnection` does not skip
unfoldable pub owned_by : String → Map PendingRequest → Map PendingRequest
owned_by connection_id [] = []
owned_by connection_id ((id, pending) ∷ rest) =
    if pending.connection_id == connection_id
    then (id, pending) ∷ owned_by connection_id rest
    else owned_by connection_id rest

unfoldable pub reject_all : String → Map PendingRequest → ControlHub → ControlHub × List Effect
reject_all connection_id [] hub = (hub, [])
reject_all connection_id ((id, pending) ∷ rest) hub =
    let (hub', out) = reject_all connection_id rest (forget hub id) in
    (
      hub',
      rejects id (
            control_connection_unavailable
              ("Control connection " <> connection_id <> " closed during " <> pending.method))
          ∷ out,
    )

unfoldable pub remove_found :
    ControlHub → String → Option ControlConnection → ControlHub × List Effect
unfolding owned_by reject_all
remove_found hub connection_id none = (hub, [])
remove_found hub connection_id (some connection) =
    let without = record hub { connections = erase connection_id hub.connections } in
    let (hub', out) = reject_all connection_id (owned_by connection_id hub.pending) without in
    (hub', out ++ disconnects connection_id ∷ [])

unfoldable pub remove_connection : ControlHub → String → ControlHub × List Effect
unfolding remove_found
remove_connection hub connection_id =
    remove_found hub connection_id (lookup connection_id hub.connections)
