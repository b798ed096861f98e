-- ===== src/Lib.antt =====
-- rtc-session-gateway: a gateway between SIP calls, media servers and control backends, in TypeScript.
-- Paths are from the repository's root.
--
-- A SIP call comes in as an INVITE. `src/routing.ts` decides which backend takes it: the routes that
-- backends registered over their control WebSocket, held in `src/control-hub.ts`, are tried in order.
-- The call gets an id (`src/call-id.ts`), reserved in `src/call-registry.ts` until the call is answered.
-- `src/media-server-manager.ts` picks the media backend that serves it.
-- `src/control-hub.ts` sends requests and events to the backends, in the messages of
-- `src/control-protocol.ts`, and `src/gateway-lifecycle.ts` drains and stops the whole.
-- What the backends ask for comes in at `src/control-server.ts`, which logs it by `src/control-log.ts` and
-- has it run by `src/session-commands.ts`.
--
-- Files and what they model. A name of the source is here in snake_case; an operation that changes
-- state takes the state and returns the new one.
-- - Base: the libraries' names, tests, lists, association lists for `Map` and `Set`, texts with the
--   string methods that the sources call, decimal numbers.
-- - Json, Errors: JavaScript values, and the exceptions as values.
-- - Routing: src/routing.ts. Regular expressions are functions on texts by recursion. Routing/Config
--   has the two readers of environment variables, with `JSON.parse` and the URL test as parameters.
-- - ControlProtocol: src/control-protocol.ts; ControlProtocol/Encode: the objects that
--   src/control-hub.ts and src/control-server.ts write; ControlProtocol/Wire: what `JSON.stringify` and
--   `JSON.parse` make of them.
-- - CallId, CallRegistry: src/call-id.ts, src/call-registry.ts. A UUID, the time and the SIP dialog are
--   arguments. The loop of `reserveCallId` runs on fuel, one more than the calls and reservations
--   there are, which is enough since its candidates are all different.
-- - HttpContract: of src/http-contract.ts, the reading of what a receiver of a call answers.
-- - ControlLog: src/control-log.ts. Redaction has what becomes of single texts, Values the objects that
--   are written, Uri and Sdp two kinds of texts, Tables the fields that are logged of each message,
--   Summaries and Scrub the values by the name of their field, Bodies the exported functions. `new URL`
--   and `path.basename` are parameters. Case mapping is that of ASCII texts. A field list that an
--   object literal inherits is a value of its own, since the source then throws. Hidden names what is to
--   be kept out of the log without the source's tables.
-- - ControlHub: src/control-hub.ts. ControlHub/Routes has `setRoutes` and `findRoute`, Requests the
--   requests that wait for an answer, Events and Broadcast the rest that is sent; ControlHub/Run makes
--   calls of all of them, in any order, of which the other children speak. Sockets are outside: whether
--   one is open and what its `send` throws are arguments, and what the hub does to the outside is a list
--   of effects.
-- - GatewayLifecycle: src/gateway-lifecycle.ts as a state machine of events: operations, polls,
--   the deadline and the end of the cleanup.
-- - MediaServerManager: of src/media-server-manager.ts, the pins of calls to media backends and the
--   selection of a backend. The backends that were discovered, and the time, are arguments.
-- - MediaSessionService: of src/media-session-service.ts, the collection of DTMF digits (`collectDtmf`)
--   with its timer, listeners and hooks, as a state machine.
-- - MediaController: of src/media-controller.ts, the data that commands hand to the media sessions.
-- - SessionCommands: src/session-commands.ts. Validators reads single parameters; Sip, Media, Playing and
--   Gathering have the handlers, Execute the dispatch, ErrorCodes the codes of answers. A handler ends in
--   an action: the one call on the gateway or the media sessions that it makes. Meets has the
--   postconditions of the parts, and Valid what an action may ask.
-- - ControlServer: src/control-server.ts. Upgrades admits connections, the WebSocket library's part in
--   the handshake being an argument; Requests takes messages to their
--   responses; a command that calls the gateway or the media sessions waits, and `complete_request` goes
--   on when the call has ended.
-- Tests in each part evaluate the definitions and apply the theorems to concrete inputs.
--
-- Not modelled: the writing of log lines; the rest of the media sessions, the HTTP and SIP servers, the media
-- servers' client, how media backends are discovered, and the configuration, which are not part of
-- this library; the libraries that the sources call.
pub mod Base
pub mod Json
pub mod Errors
pub mod Routing
pub mod ControlProtocol
pub mod CallId
pub mod CallRegistry
pub mod HttpContract
pub mod ControlLog
pub mod ControlHub
pub mod GatewayLifecycle
pub mod MediaServerManager
pub mod MediaController
pub mod MediaSessionService
pub mod SessionCommands
pub mod ControlServer
