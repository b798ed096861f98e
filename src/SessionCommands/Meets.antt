-- ===== src/SessionCommands/Meets.antt =====
-- Postconditions of the handlers of src/session-commands.ts: what a value that is returned satisfies,
-- and that what is thrown is answered with one of the handlers' own codes.
pub mod Parameters
use rtc_session_gateway.SessionCommands.Validators.{
  directions, texts, required_string, required_direction, require_object, positive, optional_texts,
  optional_string, optional_positive_integer, optional_object, optional_number,
  optional_nullable_integer, optional_non_negative_integer, optional_integer, optional_direction,
  optional_boolean, non_negative, cons_text, as_integer, as_finite,
}
use rtc_session_gateway.HttpContract.{read_headers, parse_optional_headers}
use rtc_session_gateway.Base.Assoc.{lookup}
use rtc_session_gateway.Base.{
  arith, zero, suc, List, [], ◌∷◌, some_injective, All, not, String, Bool, true, false, Option,
  none, some, ◌≡◌, refl, subst,
}
use rtc_session_gateway.Base.Text.{is_blank}
use rtc_session_gateway.Json.{
  Json, Number, nat, neg, undefined, null, bool, num, str, arr, obj, fraction, infinity, items,
  entries, as_text, as_object,
}
use rtc_session_gateway.Errors.{
  Error, Result, ok, err, ◌>>=◌, guard, or_throw, gateway_draining, command_not_implemented,
  command_validation, invalid_http_action, media_unavailable, call_not_found,
}
use rtc_session_gateway.SessionCommands.{SessionCommandHandler, require_media, accepting}
use rtc_session_gateway.GatewayLifecycle.{GatewayLifecycle, assert_accepting}

-- the errors that the handlers throw themselves
pub data IsRefusal : Error → Type 0 where
  draining : IsRefusal gateway_draining
  invalid : (message : String) → IsRefusal (command_validation message)
  bad_headers : (message : String) → IsRefusal (invalid_http_action message)
  missing : (message : String) → IsRefusal (command_not_implemented message)
  unknown_session : (message : String) → IsRefusal (call_not_found message)
  no_media : (message : String) → IsRefusal (media_unavailable message)

pub data Meets {A : Type 0} (P : A → Type 0) : Result A → Type 0 where
  returns : (a : A) → P a → Meets P (ok a)
  refuses : (e : Error) → IsRefusal e → Meets P (err e)

module _ {A B : Type 0} {P : A → Type 0} {Q : B → Type 0} where
  pub bind :
      {m : Result A} {f : A → Result B}
      → Meets P m
      → ((a : A) → P a → Meets Q (f a))
      → Meets Q (m >>= f)
  bind (returns a p) rest = rest a p
  bind (refuses e r) rest = refuses e r

-- A text that is not blank.
abbrev pub IsText : String → Type 0
IsText s = is_blank s ≡ false

abbrev pub IsOptionalText : Option String → Type 0
IsOptionalText none = Unit
IsOptionalText (some s) = IsText s

abbrev pub IsPositive : Option Number → Type 0
IsPositive none = Unit
IsPositive (some (nat (suc n))) = Unit
IsPositive _ = ⊥

abbrev pub IsNatural : Option Number → Type 0
IsNatural none = Unit
IsNatural (some (nat n)) = Unit
IsNatural _ = ⊥

abbrev pub IsInteger : Option Number → Type 0
IsInteger none = Unit
IsInteger (some (nat n)) = Unit
IsInteger (some (neg n)) = Unit
IsInteger _ = ⊥

abbrev pub IsFinite : Option Number → Type 0
IsFinite (some infinity) = ⊥
IsFinite _ = Unit

abbrev pub IsNullableInteger : Option (Option Number) → Type 0
IsNullableInteger none = Unit
IsNullableInteger (some n) = IsInteger n

abbrev pub AreTexts : Option (List String) → Type 0
AreTexts none = Unit
AreTexts (some xs) = All IsText xs

-- anything at all
abbrev pub Any {ℓ} : {A : Type ℓ} → A → Type 0
Any a = Unit

pub guard-Meets : (test : Bool) (e : Error) → IsRefusal e → Meets (λ u. test ≡ true) (guard test e)
guard-Meets true e r = returns tt refl
guard-Meets false e r = refuses e r

pub or_throw-Meets :
    {A : Type 0} (o : Option A) (e : Error) → IsRefusal e → Meets (λ a. o ≡ some a) (or_throw o e)
or_throw-Meets none e r = refuses e r
or_throw-Meets (some a) e r = returns a refl

pub weaken :
    {A : Type 0} {P Q : A → Type 0} {m : Result A} → ((a : A) → P a → Q a) → Meets P m → Meets Q m
weaken f (returns a p) = returns a (f a p)
weaken f (refuses e r) = refuses e r

pub require_media-Meets :
    (h : SessionCommandHandler) → Meets (λ media. h.media ≡ some media) (require_media h)
unfolding require_media
require_media-Meets h = or_throw-Meets h.media _ (no_media _)

accepts_if :
    (b : Bool)
    → Meets (λ u. guard (not b) gateway_draining ≡ ok tt) (guard (not b) gateway_draining)
accepts_if true = refuses _ draining
accepts_if false = returns tt refl

pub accepting-Meets :
    (lifecycle : Option GatewayLifecycle)
    → Meets (λ u. accepting lifecycle ≡ ok tt) (accepting lifecycle)
unfolding accepting assert_accepting
accepting-Meets none = returns tt refl
accepting-Meets (some g) = accepts_if g.is_draining
