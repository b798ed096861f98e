-- ===== src/SessionCommands/Valid/Consequences.antt =====
-- What a valid action and a refusal of the session commands (src/session-commands.ts) lead to: the
-- code of the answer, draining, and the gathering of digits of src/media-session-service.ts.
use rtc_session_gateway.ControlProtocol.{make_control_error}
use rtc_session_gateway.Json.{undefined}
use rtc_session_gateway.Base.{String}
use rtc_session_gateway.Errors.{
  gateway_draining, command_validation, invalid_http_action, command_not_implemented,
  call_not_found, media_unavailable,
}
use rtc_session_gateway.SessionCommands.Meets.{draining}
use rtc_session_gateway.MediaSessionService.Gather.{with_default, Gathering, Hooks, gathering_of}
use rtc_session_gateway.MediaSessionService.{positive_integer_or_default}
use rtc_session_gateway.Base.{or_else, ◌≤◌, ℕ, Option, refl, subst, arith, none}
use rtc_session_gateway.CallRegistry.{has_call_or_reservation}
use rtc_session_gateway.SessionCommands.Valid.{
  nat, IsGather, true, not, false, IsAccepting, IsValid,
}
use rtc_session_gateway.SessionCommands.Meets.{
  IsPositive, no_media, unknown_session, missing, bad_headers, invalid, refuses, returns, IsRefusal,
  Meets,
}
use rtc_session_gateway.Base.{◌≡◌}
use rtc_session_gateway.Errors.{err_injective, Result, ok_injective, ok, err, Error}
use rtc_session_gateway.SessionCommands.Sip.{is_new_call}
use rtc_session_gateway.SessionCommands.ErrorCodes.{control_error_for_command}
use rtc_session_gateway.SessionCommands.{
  Number, GatherParams, creates_session, creates_outbound, accepting, SessionCommandHandler, Action,
}
use rtc_session_gateway.Base.{some, none, Bool, ◌≡◌, suc, true, false}
use rtc_session_gateway.GatewayLifecycle.{GatewayLifecycle, assert_accepting}

module _ {A : Type 0} {P : A → Type 0} where
  pub of_ok : {r : Result A} {a : A} → Meets P r → r ≡ ok a → P a
  of_ok (returns b p) e = subst P (ok_injective e) p
  of_ok (refuses t x) e = absurd (cc)

  pub of_err : {r : Result A} {t : Error} → Meets P r → r ≡ err t → IsRefusal t
  of_err (returns b p) e = absurd (cc)
  of_err (refuses u x) e = subst IsRefusal (err_injective e) x

-- the code and the message that a refusal is answered with
pub data RefusedWith : Error → (code message : String) → Type 0 where
  shutting_down :
      RefusedWith gateway_draining "SHUTTING_DOWN"
        "Gateway is draining; send new calls and sessions to another instance"
  bad_parameter :
      (message : String) → RefusedWith (command_validation message) "BAD_REQUEST" message
  bad_header : (message : String) → RefusedWith (invalid_http_action message) "BAD_REQUEST" message
  not_implemented :
      (message : String) → RefusedWith (command_not_implemented message) "NOT_IMPLEMENTED" message
  not_found : (message : String) → RefusedWith (call_not_found message) "NOT_FOUND" message
  media_missing :
      (message : String) → RefusedWith (media_unavailable message) "MEDIA_UNAVAILABLE" message

pub refusal_coded :
    (t : Error)
    → IsRefusal t
    → (code message : String) × RefusedWith t code message
      × (control_error_for_command t ≡ some (make_control_error code message undefined))
unfolding control_error_for_command
refusal_coded _ draining = (_, _, shutting_down, refl)
refusal_coded _ (invalid m) = (_, _, bad_parameter m, refl)
refusal_coded _ (bad_headers m) = (_, _, bad_header m, refl)
refusal_coded _ (missing m) = (_, _, not_implemented m, refl)
refusal_coded _ (unknown_session m) = (_, _, not_found m, refl)
refusal_coded _ (no_media m) = (_, _, media_missing m, refl)

-- an outbound call, or a session of no call or of one that the registry does not know
abbrev pub IsNewWork : SessionCommandHandler → Action → Type 0
IsNewWork h (creates_outbound p) = Unit
IsNewWork h (creates_session none owner) = Unit
IsNewWork h (creates_session (some id) owner) = has_call_or_reservation h.registry id ≡ false
IsNewWork h _ = ⊥

not_held : (b : Bool) → b ≡ false → not b ≡ true
not_held b e = ground arith

pub IsNewWork-IsAccepting :
    (h : SessionCommandHandler) (action : Action)
    → IsValid h action
    → IsNewWork h action
    → IsAccepting h
unfolding is_new_call
IsNewWork-IsAccepting h (creates_outbound p) v new = v.1
IsNewWork-IsAccepting h (creates_session none owner) v new = v.2 refl
IsNewWork-IsAccepting h (creates_session (some id) owner) v new = v.2 (not_held _ new)
IsNewWork-IsAccepting h _ v new = absurd new

pub draining_refuses :
    (h : SessionCommandHandler) (g : GatewayLifecycle)
    → h.lifecycle ≡ some g
    → g.is_draining ≡ true
    → ¬ (IsAccepting h)
unfolding accepting assert_accepting
draining_refuses h g at is_draining accepts = ground arith

digits_accepted :
    (value : Option Number)
    → IsPositive value
    → (n : Option ℕ) × (positive_integer_or_default value none ≡ ok n)
unfolding positive_integer_or_default
digits_accepted none p = (none, refl)
digits_accepted (some (nat (suc n))) p = (some (suc n), refl)
digits_accepted (some _) p = absurd p

time_accepted :
    (value : Option Number) (fallback : ℕ)
    → IsPositive value
    → 1 ≤ fallback
    → (n : ℕ) × (with_default value fallback ≡ ok n) × (1 ≤ n)
unfolding positive_integer_or_default
time_accepted none fallback p h = (fallback, refl, h)
time_accepted (some (nat (suc n))) fallback p h = (suc n, refl, omega arith)
time_accepted (some _) fallback p h = absurd p

-- the parameters of a valid gathering make one, whose timers are armed for a millisecond at least
pub gathering_accepted :
    (p : GatherParams) (hooks : Hooks)
    → IsGather p
    → (g : Gathering) × (gathering_of p hooks ≡ ok g)
      × (1 ≤ g.timeout_ms)
      × (1 ≤ g.inter_digit_timeout_ms)
unfolding gathering_of
gathering_accepted p hooks v =
    let digits = digits_accepted p.num_digits v.num_digits_positive in
    let time = time_accepted p.timeout_ms 5000 v.timeout_positive (omega arith) in
    let inter = time_accepted p.inter_digit_timeout_ms time.0 v.inter_digit_positive time.2 in
    let g : Gathering = record {
      endpoint_id = p.endpoint_id;
      num_digits = digits.0;
      timeout_ms = time.0;
      inter_digit_timeout_ms = inter.0;
      terminator = or_else p.terminator "#";
      hooks = hooks;
    } in
    (g, rw (digits.1, time.1, inter.1), time.2, inter.2)
