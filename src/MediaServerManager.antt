-- ===== src/MediaServerManager.antt =====
-- src/media-server-manager.ts: which media backend a call is served by. The backends that the catalog
-- or DNS answers, the time and whether a call is active are arguments; so is the order in which the
-- operations run, since each of them is atomic after the discovery.
pub mod Selection
pub mod Affinity
pub mod Pins
mod Tests
use rtc_session_gateway.Base.{
  ℕ, zero, suc, ◌+◌, ◌-◌, ◌%◌, Bool, true, false, not, ◌&&◌, ◌||◌, Option, none, some, List, [],
  ◌∷◌, ◌++◌, if◌then◌else◌, eqb, ltb, leb, length, get_elem?, String, ◌==◌, find, keep, is_some,
}
use rtc_session_gateway.Base.Text.{◌<>◌}
use rtc_session_gateway.Base.Assoc.{Map, lookup, insert, erase}
use rtc_session_gateway.Errors.{
  Error, Result, ok, err, ◌>>=◌, ◌>>◌, guard, or_throw, media_backend_not_found,
  media_backend_unavailable,
}
use rtc_session_gateway.Routing.{non_empty}

pub record MediaBackend : Type 0 where
  pub id : String
  pub url : String
  pub http_url : String
  pub accept_new : Option Bool
  pub server_name : Option String
  pub recording_server_name : Option String
  pub turn_urls : Option (List String)

-- an entry of `callToBackend`
pub record Pin : Type 0 where
  pub backend_id : String
  pub created_at : ℕ
  pub refs : ℕ

pub record MediaServerManager : Type 0 where
  pub call_to_backend : Map Pin
  pub next_backend_index : ℕ

-- CALL_BACKEND_TTL_MS
abbrev pub call_backend_ttl_ms : ℕ
call_backend_ttl_ms = 14400000

-- `o` where its text counts as true
abbrev pub truthy : Option String → Option String
truthy none = none
truthy (some s) = non_empty s

abbrev put : MediaServerManager → String → Pin → MediaServerManager
put m call_id pin = record m { call_to_backend = insert call_id pin m.call_to_backend }

unfoldable pub different_backend : Error
different_backend = media_backend_unavailable "Call is pinned to a different backend"

unfoldable pub register_found :
    MediaServerManager → String → String → ℕ → Option Pin → Result MediaServerManager
unfolding different_backend
register_found m call_id backend_id now none =
    ok (put m call_id (record { backend_id = backend_id; created_at = now; refs = 1 }))
register_found m call_id backend_id now (some pin) =
    if pin.backend_id == backend_id
    then ok (put m call_id (record pin { refs = pin.refs + 1; created_at = now }))
    else err different_backend

unfoldable pub register_call : MediaServerManager → String → String → ℕ → Result MediaServerManager
unfolding register_found
register_call m call_id backend_id now =
    register_found m call_id backend_id now (lookup call_id m.call_to_backend)

-- `backendId && existing.backendId !== backendId`
unfoldable pub other_backend : Option String → String → Bool
other_backend none pinned = false
other_backend (some backend_id) pinned = not (pinned == backend_id)

unfoldable pub unregister_found :
    MediaServerManager → String → Option String → ℕ → Bool → Option Pin → MediaServerManager
unfolding other_backend
unregister_found m call_id backend_id now is_call_active none = m
unregister_found m call_id backend_id now is_call_active (some pin) =
    if other_backend (truthy backend_id) pin.backend_id
    then m
    else if ltb 1 pin.refs
    then put m call_id (record pin { refs = pin.refs - 1; created_at = now })
    else if is_call_active
    then put m call_id (record pin { refs = 0; created_at = now })
    else record m { call_to_backend = erase call_id m.call_to_backend }

unfoldable pub unregister_call :
    MediaServerManager → String → Option String → ℕ → Bool → MediaServerManager
unfolding unregister_found
unregister_call m call_id backend_id now is_call_active =
    unregister_found m call_id backend_id now is_call_active (lookup call_id m.call_to_backend)

unfoldable pub backend_of : Option Pin → Option String
backend_of none = none
backend_of (some pin) = some pin.backend_id

unfoldable pub get_backend_for_call : MediaServerManager → String → Option String
unfolding backend_of
get_backend_for_call m call_id = backend_of (lookup call_id m.call_to_backend)

unfoldable pub pin_found :
    MediaServerManager → String → String → ℕ → Option Pin → MediaServerManager
pin_found m call_id backend_id now none =
    put m call_id (record { backend_id = backend_id; created_at = now; refs = 0 })
pin_found m call_id backend_id now (some pin) =
    if pin.backend_id == backend_id
    then put m call_id (record pin { created_at = now })
    else put m call_id (record { backend_id = backend_id; created_at = now; refs = 0 })

unfoldable pub pin_call : MediaServerManager → String → String → ℕ → MediaServerManager
unfolding pin_found
pin_call m call_id backend_id now =
    pin_found m call_id backend_id now (lookup call_id m.call_to_backend)

-- `backend.acceptNew !== false`
abbrev pub accepts_new : MediaBackend → Bool
accepts_new backend = elim backend.accept_new [ none ↦ true | some accepts ↦ accepts ]

-- `accepting[nextBackendIndex % accepting.length]`, after the test that there is one
unfoldable pub select_next :
    MediaServerManager → List MediaBackend → Result (MediaBackend × MediaServerManager)
select_next m [] = err (media_backend_unavailable "No rtpbridge backend accepts new sessions")
select_next m (first ∷ more) =
    let count = length (first ∷ more) in
    do
      backend ←
          or_throw (get_elem? (first ∷ more) (m.next_backend_index % count))
            (media_backend_unavailable "No rtpbridge backend accepts new sessions")
      ok (backend, record m { next_backend_index = (m.next_backend_index + 1) % count })

-- the branch of `selectBackend` with a preferred backend
unfoldable pub preferred_backend : List MediaBackend → String → Result MediaBackend
preferred_backend backends preferred_id = do
  preferred ←
      or_throw (find (λ b. b.id == preferred_id) backends)
        (media_backend_not_found ("Pinned rtpbridge backend " <> preferred_id <> " not found"))
  guard (accepts_new preferred)
      (media_backend_unavailable "Pinned rtpbridge backend is not admitting sessions")
  ok preferred

unfoldable pub select_by :
    MediaServerManager
    → List MediaBackend
    → Option String
    → Result (MediaBackend × MediaServerManager)
unfolding select_next preferred_backend
select_by m backends none = select_next m (keep accepts_new backends)
select_by m backends (some preferred_id) = do
  preferred ← preferred_backend backends preferred_id
  ok (preferred, m)

unfoldable pub select_backend :
    MediaServerManager
    → List MediaBackend
    → Option String
    → Result (MediaBackend × MediaServerManager)
unfolding select_by
select_backend m backends preferred_id = select_by m backends (truthy preferred_id)

-- the pin that the options name, if any
unfoldable pub pinned_for : MediaServerManager → Option String → Option String
unfolding get_backend_for_call
pinned_for m none = none
pinned_for m (some call_id) = get_backend_for_call m call_id

-- `pinnedId && options?.backendId && pinnedId !== options.backendId`
unfoldable pub conflicts : Option String → Option String → Bool
conflicts (some pinned) (some backend_id) = not (pinned == backend_id)
conflicts _ _ = false

abbrev or_first : Option String → Option String → Option String
or_first none second = second
or_first (some first) second = some first

unfoldable pub pin_chosen : MediaServerManager → Option String → String → ℕ → MediaServerManager
pin_chosen m none backend_id now = m
pin_chosen m (some call_id) backend_id now = pin_call m call_id backend_id now

-- `pickBackend` from the point where the backends are known, for a call id that counts as true
unfoldable pub pick_with :
    MediaServerManager
    → List MediaBackend
    → (backend_id call_id : Option String) → ℕ
    → Result (MediaBackend × MediaServerManager)
unfolding different_backend pinned_for conflicts pin_chosen
pick_with m backends backend_id call_id now = do
  let pinned = pinned_for m call_id
  guard (not (conflicts (truthy pinned) (truthy backend_id))) different_backend
  (backend, selected) ← select_backend m backends (or_first pinned backend_id)
  ok (backend, pin_chosen selected call_id backend.id now)

unfoldable pub pick_backend :
    MediaServerManager
    → List MediaBackend
    → (backend_id call_id : Option String) → ℕ
    → Result (MediaBackend × MediaServerManager)
unfolding pick_with
pick_backend m backends backend_id call_id now =
    pick_with m backends backend_id (truthy call_id) now

unfoldable pub is_stale : ℕ → (String → Bool) → String → Pin → Bool
is_stale now is_call_active call_id pin =
    eqb pin.refs 0 && ltb call_backend_ttl_ms (now - pin.created_at) && not (is_call_active call_id)

unfoldable pub sweep_pins : ℕ → (String → Bool) → Map Pin → Map Pin
unfolding is_stale
sweep_pins now is_call_active [] = []
sweep_pins now is_call_active ((call_id, pin) ∷ pins) =
    if is_stale now is_call_active call_id pin
    then sweep_pins now is_call_active pins
    else (call_id, pin) ∷ sweep_pins now is_call_active pins

unfoldable pub sweep_stale_entries : MediaServerManager → ℕ → (String → Bool) → MediaServerManager
unfolding sweep_pins
sweep_stale_entries m now is_call_active = record m {
  call_to_backend = sweep_pins now is_call_active m.call_to_backend;
}
