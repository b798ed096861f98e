-- ===== src/ControlServer/Admission.antt =====
-- Which requests for an upgrade src/control-server.ts admits.
use rtc_session_gateway.Base.Text.{◌<>◌}
use rtc_session_gateway.MediaServerManager.{truthy}
use rtc_session_gateway.ControlProtocol.{ControlEvent}
use rtc_session_gateway.Base.{
  or_else, not, Bool-cases, ◌&&◌, is_some, if◌then◌else◌, ◌≡◌, ◌≢◌, ◌↔◌, refl, sym, ap, ◌∙◌, inl,
  inr, eq_iff, eq_refl, ◌==◌,
}
use rtc_session_gateway.ControlServer.{ControlServer}
use rtc_session_gateway.ControlServer.Upgrades.{
  not_upgraded, draining_in, path_of, mode_of, ControlServerConfig, upgrade, is_authorized, bears,
  authorized_in, Upgrade, open_to_all, bearer, connected, unavailable, unauthorized, not_ours,
}
use rtc_session_gateway.ControlServer.Upgrades.{AuthMode}
use rtc_session_gateway.Base.{String, Bool, true, false, Option, none, some}

-- The header bears the token that is set, or no token is asked for: the mode says so, or neither a mode
-- nor a token is set.
pub data Authorized (mode : Option AuthMode) (token header : Option String) : Type 0 where
  opened : mode ≡ some open_to_all → Authorized mode token header
  unset : mode ≡ none → truthy token ≡ none → Authorized mode token header
  bears_it :
      (secret : String)
      → mode ≢ some open_to_all
      → truthy token ≡ some secret
      → header ≡ some ("Bearer " <> secret)
      → Authorized mode token header

bears_sound :
    (token header : Option String)
    → bears token header ≡ true
    → (secret : String) × (token ≡ some secret) × (header ≡ some ("Bearer " <> secret))
unfolding bears
bears_sound none header h = absurd (cc)
bears_sound (some secret) none h = absurd (cc)
bears_sound (some secret) (some given) h =
    (secret, refl, ap some ((eq_iff given ("Bearer " <> secret)).0 h))

by_token :
    (mode : Option AuthMode) (token header : Option String)
    → mode ≢ some open_to_all
    → bears (truthy token) header ≡ true
    → Authorized mode token header
by_token mode token header n h =
    let (secret, e, f) = bears_sound (truthy token) header h in bears_it secret n e f

eq_none : {A : Type 0} (o : Option A) → is_some o ≡ false → o ≡ none
eq_none none h = refl
eq_none (some a) h = absurd (cc)

-- the mode that holds where none is set
mode_without : Option String → AuthMode
mode_without token = if is_some token then bearer else open_to_all

unset_sound :
    (token header : Option String)
    → authorized_in (mode_without (truthy token)) token header ≡ true
    → Authorized none token header
unfolding mode_without authorized_in
unset_sound token header h = elim (Bool-cases (is_some (truthy token))) [
  | inl there ↦ by_token none token header (λ e. cc) (rw there at h)
  | inr missing ↦ unset refl (eq_none (truthy token) missing)
]

mode_sound :
    (mode : Option AuthMode) (token header : Option String)
    → authorized_in (or_else mode (mode_without (truthy token))) token header ≡ true
    → Authorized mode token header
unfolding authorized_in
mode_sound none token header h = unset_sound token header h
mode_sound (some bearer) token header h = by_token (some bearer) token header (λ e. cc) h
mode_sound (some open_to_all) token header h = opened refl

bears_complete : (secret : String) → bears (some secret) (some ("Bearer " <> secret)) ≡ true
unfolding bears
bears_complete secret = eq_refl ("Bearer " <> secret)

token_complete :
    (mode : Option AuthMode) (token header : Option String) (secret : String)
    → mode ≢ some open_to_all
    → truthy token ≡ some secret
    → header ≡ some ("Bearer " <> secret)
    → authorized_in (or_else mode (mode_without (truthy token))) token header ≡ true
unfolding authorized_in mode_without
token_complete none token header secret n e f = rw (e, e, f) (bears_complete secret)
token_complete (some bearer) token header secret n e f = rw (e, f) (bears_complete secret)
token_complete (some open_to_all) token header secret n e f = absurd (n refl)

mode_complete :
    {mode : Option AuthMode} {token header : Option String}
    → Authorized mode token header
    → authorized_in (or_else mode (mode_without (truthy token))) token header ≡ true
unfolding authorized_in mode_without
mode_complete {mode} {token} {header} (opened e) = rw e refl
mode_complete {mode} {token} {header} (unset e f) = rw (e, f) refl
mode_complete {mode} {token} {header} (bears_it secret n e f) =
    token_complete mode token header secret n e f

-- `isAuthorized` answers true exactly for a header that bears the token, or where none is asked for. In
-- particular a server that asks for a token and has none set admits nobody.
pub is_authorized_iff :
    (config : ControlServerConfig) (header : Option String)
    → (is_authorized config header ≡ true) ↔ Authorized config.auth_mode config.auth_token header
unfolding is_authorized mode_of mode_without
is_authorized_iff config header =
    (mode_sound config.auth_mode config.auth_token header, λ a. mode_complete a)

abbrev pub connects : Upgrade → Bool
connects (connected s e) = true
connects _ = false

and_four :
    (a b c d : Bool)
    → (a && b && not c && d) ≡ true
    → (a ≡ true) × (b ≡ true) × (c ≡ false) × (d ≡ true)
and_four true true false true h = (refl, refl, refl, refl)
and_four _ _ _ _ h = absurd (cc)

all_four :
    (path allowed draining shakes_hands : Bool) (s : ControlServer) (e : ControlEvent)
    → connects (
        if not path
        then not_ours
        else if not allowed
        then unauthorized
        else if draining
        then unavailable
        else if not shakes_hands
        then not_upgraded
        else connected s e)
      ≡ (path && allowed && not draining && shakes_hands)
all_four false allowed draining shakes_hands s e = refl
all_four true false draining shakes_hands s e = refl
all_four true true true shakes_hands s e = refl
all_four true true false false s e = refl
all_four true true false true s e = refl

-- A request for an upgrade becomes a control connection exactly if its path is that of control
-- connections, it is authorized, the gateway does not drain, and the WebSocket library completes the
-- handshake.
pub upgrade-connects_iff :
    (config : ControlServerConfig) (s : ControlServer) (url header : Option String)
    (shakes_hands : Bool) (connection_id now : String)
    → (connects (upgrade config s url header shakes_hands connection_id now) ≡ true) ↔ (
        (path_of url ≡ config.path)
        × Authorized config.auth_mode config.auth_token header
        × (draining_in s.lifecycle ≡ false)
        × (shakes_hands ≡ true))
unfolding upgrade
upgrade-connects_iff config s url header shakes_hands connection_id now =
    let four =
      all_four (path_of url == config.path) (is_authorized config header) (draining_in s.lifecycle)
        shakes_hands _ _ in
    let allowed = is_authorized_iff config header in
    (
      λ h.
          let all = and_four _ _ _ _ (sym four ∙ h) in
          ((eq_iff (path_of url) config.path).0 all.0, allowed.0 all.1, all.2, all.3),
      λ p. four ∙ rw ((eq_iff (path_of url) config.path).1 p.0, allowed.1 p.1, p.2, p.3) refl,
    )
