-- ===== src/Errors.antt =====
-- The exceptions of src/*.ts as values: one constructor for each class, and `plain` for `Error`.
-- What a method throws is the `err` of its result.
use rtc_session_gateway.Base.{ℕ, String, Bool, true, false, Option, none, some, ◌≡◌, refl, ap}
use rtc_session_gateway.Json.{Json}

pub record ControlErrorBody : Type 0 where
  pub code : String
  pub message : String
  pub details : Json

pub data Error : Type 0 where
  control_protocol_error : (message code : String) → Error
  control_connection_unavailable : (message : String) → Error
  control_request_error : ControlErrorBody → Error
  gateway_draining : Error
  command_validation : (message : String) → Error
  command_not_implemented : (message : String) → Error
  invalid_http_action : (message : String) → Error
  http_post_error : (message : String) (code : Option String) → Error
  call_not_found : (message : String) → Error
  invalid_call_state : (message : String) → Error
  media_session_not_found : (message : String) → Error
  media_endpoint_not_found : (message : String) → Error
  media_unavailable : (message : String) → Error
  media_action_conflict : (message : String) → Error
  media_recording_proxy : (status : ℕ) (message : String) → Error
  media_backend_not_found : (message : String) → Error
  media_backend_unavailable : (message : String) → Error
  plain : (message : String) → Error

pub data Result {ℓ} (A : Type ℓ) : Type ℓ where
  ok : A → Result A
  err : Error → Result A

-- `if (!test) throw e`
abbrev pub guard : Bool → Error → Result (Unit {0})
guard false thrown = err thrown
guard true thrown = ok tt

infixl 5 ◌>>=◌ ◌>>◌
-- the statements after one that may throw
abbrev pub ◌>>=◌ {ℓ κ} : {A : Type ℓ} {B : Type κ} → Result A → (A → Result B) → Result B
err thrown >>= rest = err thrown
ok value >>= rest = rest value

abbrev pub ◌>>◌ {ℓ κ} : {A : Type ℓ} {B : Type κ} → Result A → Result B → Result B
first >> rest = first >>= λ _. rest

-- `if (o === undefined) throw e`
abbrev pub or_throw {ℓ} : {A : Type ℓ} → Option A → Error → Result A
or_throw none e = err e
or_throw (some a) e = ok a

pub ok_injective {ℓ} : {A : Type ℓ} {a b : A} → ok a ≡ ok b → a ≡ b
ok_injective h = cc

pub err_injective {ℓ} : {A : Type ℓ} {s t : Error} → (let r : Result A = err s in r) ≡ err t → s ≡ t
err_injective h = cc

-- Statements that end well: the first returned a value, and the others ended well from it.
pub >>=-eq-ok {ℓ κ} :
    {A : Type ℓ} {B : Type κ} (first : Result A) (rest : A → Result B) {result : B}
    → (first >>= rest) ≡ ok result
    → (value : A) × (first ≡ ok value) × (rest value ≡ ok result)
>>=-eq-ok (err thrown) rest h = absurd (cc)
>>=-eq-ok (ok value) rest h = (value, refl, h)

pub or_throw_inv {ℓ} :
    {A : Type ℓ} (o : Option A) (e : Error) {a : A} → or_throw o e ≡ ok a → o ≡ some a
or_throw_inv none e h = absurd (cc)
or_throw_inv (some a) e h = ap some (ok_injective h)

-- A check that passes before the rest: its test held, and the rest passed.
pub guard_inv {ℓ} :
    {B : Type ℓ} (test : Bool) (e : Error) (k : Result B) {b : B}
    → (guard test e >> k) ≡ ok b
    → (test ≡ true) × (k ≡ ok b)
guard_inv true e k h = (refl, h)
guard_inv false e k h = absurd (cc)
