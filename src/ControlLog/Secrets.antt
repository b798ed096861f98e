-- ===== src/ControlLog/Secrets.antt =====
-- What src/control-log.ts must not show: secrets and the digits that a caller presses make no difference
-- in what is logged.
use rtc_session_gateway.ControlLog.Hidden.{
  summarize_ice-eq, summarize_auth-eq, IsIce-kind, IsSecret-kind, IsDigits-kind, IsAuth-kind,
  IceAlike, IsSecret, IsIce, IsDigits, IsAuth,
}
use rtc_session_gateway.Base.{◌≢◌}
use rtc_session_gateway.Errors.{ok}
use rtc_session_gateway.ControlLog.Summaries.{summarize_digits}
use rtc_session_gateway.ControlLog.Tables.{listed, inherited, FieldList}
use rtc_session_gateway.ControlLog.Uri.{Platform}
use rtc_session_gateway.Base.{
  ap₂, ◌⊎◌, inr, arith, ◌↔◌, refl, map, inl, Bool, Option, List, Bool-cases, ◌==◌, eq_iff,
}
use rtc_session_gateway.ControlLog.Redaction.{points, normalize_field}
use rtc_session_gateway.Json.{entries, prop, obj, str, field, end, bool, Fields, Json}
use rtc_session_gateway.ControlLog.Values.{from_entries, record_of, type_name, type_marker}
use rtc_session_gateway.ControlLog.Scrub.{
  scrub_known_field, scrub_entry, scrub_as, field_kind, scrub_fields, scrub_known_object,
  ControlLogContext,
}
use rtc_session_gateway.ControlLog.Bodies.{event_is_sensitive_dtmf, flag_in, nested_sensitivity}
use rtc_session_gateway.Base.{
  or_else, some_injective, String, ap, ◌≡◌, [], ◌∷◌, some, none, true, false,
}

-- Two objects with the same keys, whose values may differ where nothing of them is to be seen: a secret
-- is of the same type, digits that are not known to be public are as many, and credentials and
-- configurations of ICE may differ in the secrets inside.
pub data Alike (context : ControlLogContext) : Fields → Fields → Type 0 where
  ends : Alike context end end
  same :
      (key : String) (value : Json) {fs gs : Fields}
      → Alike context fs gs
      → Alike context (prop key value fs) (prop key value gs)
  hides :
      (key : String) (v w : Json) {fs gs : Fields}
      → IsSecret key
      → type_name v ≡ type_name w
      → Alike context fs gs
      → Alike context (prop key v fs) (prop key w gs)
  counts :
      (key s t : String) {fs gs : Fields}
      → IsDigits key
      → context.sensitive ≢ some false
      → points s ≡ points t
      → Alike context fs gs
      → Alike context (prop key (str s) fs) (prop key (str t) gs)
  hides_password :
      (key : String) (a b : Fields) {fs gs : Fields}
      → IsAuth key
      → field "username" a ≡ field "username" b
      → Alike context fs gs
      → Alike context (prop key (obj a) fs) (prop key (obj b) gs)
  hides_credentials :
      (key : String) (a b : Fields) {fs gs : Fields}
      → IsIce key
      → IceAlike a b
      → Alike context fs gs
      → Alike context (prop key (obj a) fs) (prop key (obj b) gs)

marker-eq : (v w : Json) → type_name v ≡ type_name w → type_marker v ≡ type_marker w
unfolding type_marker
marker-eq v w e = ap (λ name. record_of (("redacted", bool true) ∷ ("type", str name) ∷ [])) e

text_marker-eq : (s t : String) → type_marker (str s) ≡ type_marker (str t)
unfolding type_marker type_name
text_marker-eq s t = refl

object_marker-eq : (a b : Fields) → type_marker (obj a) ≡ type_marker (obj b)
unfolding type_marker type_name
object_marker-eq a b = refl

unless_public : (sensitive : Option Bool) → sensitive ≢ some false → or_else sensitive true ≡ true
unless_public none h = refl
unless_public (some true) h = refl
unless_public (some false) h = absurd (h refl)

module _ (platform : Platform) (context : ControlLogContext) (allowed : List String) where
  entry-eq :
      (key : String) (v w : Json)
      → type_marker v ≡ type_marker w
      → scrub_as platform context (field_kind (normalize_field key)) v
        ≡ scrub_as platform context (field_kind (normalize_field key)) w
      → scrub_entry platform context allowed (key, v)
        ≡ scrub_entry platform context allowed (key, w)
  unfolding scrub_entry scrub_known_field
  entry-eq key v w e f = rw (e, f)

  secret-eq :
      (key : String) (v w : Json)
      → IsSecret key
      → scrub_as platform context (field_kind (normalize_field key)) v
        ≡ scrub_as platform context (field_kind (normalize_field key)) w
  unfolding scrub_as
  secret-eq key v w h = rw (IsSecret-kind key h)

  digits-eq :
      (key s t : String)
      → IsDigits key
      → context.sensitive ≢ some false
      → points s ≡ points t
      → scrub_as platform context (field_kind (normalize_field key)) (str s)
        ≡ scrub_as platform context (field_kind (normalize_field key)) (str t)
  unfolding scrub_as summarize_digits
  digits-eq key s t h hidden n = rw (IsDigits-kind key h, unless_public context.sensitive hidden, n)

  auth-eq :
      (key : String) (a b : Fields)
      → IsAuth key
      → field "username" a ≡ field "username" b
      → scrub_as platform context (field_kind (normalize_field key)) (obj a)
        ≡ scrub_as platform context (field_kind (normalize_field key)) (obj b)
  unfolding scrub_as
  auth-eq key a b h e = rw (IsAuth-kind key h) (summarize_auth-eq a b e)

  ice-eq :
      (key : String) (a b : Fields)
      → IsIce key
      → IceAlike a b
      → scrub_as platform context (field_kind (normalize_field key)) (obj a)
        ≡ scrub_as platform context (field_kind (normalize_field key)) (obj b)
  unfolding scrub_as
  ice-eq key a b h alike = rw (IsIce-kind key h) (summarize_ice-eq a b alike)

  entries-eq :
      {fs gs : Fields}
      → Alike context fs gs
      → map (scrub_entry platform context allowed) (entries fs)
        ≡ map (scrub_entry platform context allowed) (entries gs)
  entries-eq ends = refl
  entries-eq (same key value later) =
      ap (λ es. scrub_entry platform context allowed (key, value) ∷ es) (entries-eq later)
  entries-eq (hides key v w h t later) =
      ap₂ (λ a es. a ∷ es) (entry-eq key v w (marker-eq v w t) (secret-eq key v w h))
        (entries-eq later)
  entries-eq (counts key s t h hidden n later) =
      ap₂ (λ a es. a ∷ es)
        (entry-eq key (str s) (str t) (text_marker-eq s t) (digits-eq key s t h hidden n))
        (entries-eq later)
  entries-eq (hides_password key a b h e later) =
      ap₂ (λ a es. a ∷ es)
        (entry-eq key (obj a) (obj b) (object_marker-eq a b) (auth-eq key a b h e))
        (entries-eq later)
  entries-eq (hides_credentials key a b h alike later) =
      ap₂ (λ a es. a ∷ es)
        (entry-eq key (obj a) (obj b) (object_marker-eq a b) (ice-eq key a b h alike))
        (entries-eq later)

-- Two objects are logged alike if they have the same keys in the same order and differ only in these:
-- the value of a secret (a key password, credential, connectToken, token or authorization, in any case
-- and with any `_`), if both values are of one type; the text of digits (digit or digits, likewise), if
-- the context does not say that they are public and both texts have as many characters; in credentials
-- (auth), everything but the user name, so the password; and in an ICE configuration (iceConfiguration)
-- everything but the backend, the presence of an address and of an expiry, and the servers, of which
-- all may differ but the URLs and the presence of a user name and of a credential.
pub scrub_known_object-Alike :
    (platform : Platform) (context : ControlLogContext) (allowed : FieldList) {fs gs : Fields}
    → Alike context fs gs
    → scrub_known_object platform (obj fs) allowed context
      ≡ scrub_known_object platform (obj gs) allowed context
unfolding scrub_known_object scrub_fields
scrub_known_object-Alike platform context (inherited size) alike = refl
scrub_known_object-Alike platform context (listed allowed) alike =
    ap (λ es. ok (obj (from_entries es)))
      (entries-eq platform context (map normalize_field allowed) alike)

-- An event says itself that its digits are public, or its own flag is no boolean, its `event` is "dtmf"
-- and its `data` is an object that says so.
pub data SaysPublic : Json → Type 0 where
  itself : (fs : Fields) → field "sensitive" fs ≡ bool false → SaysPublic (obj fs)
  carried :
      (fs gs : Fields)
      → ((flag : Bool) → field "sensitive" fs ≢ bool flag)
      → field "event" fs ≡ str "dtmf"
      → field "data" fs ≡ obj gs
      → field "sensitive" gs ≡ bool false
      → SaysPublic (obj fs)

flag_false : (v : Json) → flag_in v ≡ some false → v ≡ bool false
flag_false (bool b) h = ap bool (some_injective h)
flag_false v h = absurd (cc)

flag_none : (v : Json) → flag_in v ≡ none → (flag : Bool) → v ≢ bool flag
flag_none (bool b) h flag e = cc
flag_none v h flag e = cc

no_flag : (v : Json) → ((flag : Bool) → v ≢ bool flag) → flag_in v ≡ none
no_flag (bool b) n = absurd (n b refl)
no_flag _ n = refl

default_false :
    (o : Option Bool) (other : Bool)
    → or_else o other ≡ false
    → (o ≡ some false) ⊎ ((o ≡ none) × (other ≡ false))
default_false none other h = inr (refl, h)
default_false (some b) other h = inl (ap some h)

nested_public :
    (event payload : Json)
    → nested_sensitivity event payload ≡ false
    → (gs : Fields) × (event ≡ str "dtmf")
      × (payload ≡ obj gs)
      × (field "sensitive" gs ≡ bool false)
unfolding nested_sensitivity
nested_public (str event) (obj gs) h = elim (Bool-cases (event == "dtmf")) [
  | inl e ↦ elim (default_false (flag_in (field "sensitive" gs)) true (ground arith)) [
    | inl said ↦ (gs, ap str ((eq_iff event "dtmf").0 e), refl, flag_false _ said)
    | inr (n, c) ↦ absurd (cc)
  ]
  | inr e ↦ absurd (ground arith)
]
nested_public _ _ h = absurd (cc)

public_sound : (v : Json) → event_is_sensitive_dtmf v ≡ false → SaysPublic v
unfolding event_is_sensitive_dtmf
public_sound (obj fs) h =
    elim (default_false (flag_in (field "sensitive" fs))
      (nested_sensitivity (field "event" fs) (field "data" fs)) h) [
        | inl said ↦ itself fs (flag_false _ said)
        | inr (silent, nested) ↦
            let (gs, e, d, said) = nested_public (field "event" fs) (field "data" fs) nested in
            carried fs gs (flag_none _ silent) e d said
      ]
public_sound _ h = absurd (cc)

public_complete : (v : Json) → SaysPublic v → event_is_sensitive_dtmf v ≡ false
unfolding event_is_sensitive_dtmf nested_sensitivity
public_complete v (itself fs said) = rw said refl
public_complete v (carried fs gs silent e d said) =
    rw (no_flag (field "sensitive" fs) silent, e, d) (rw said refl)

-- The digits of an event are taken for public exactly if its `sensitive` is false, or its `sensitive` is
-- no boolean, its `event` is "dtmf" and its `data` is an object whose `sensitive` is false.
pub event_is_sensitive_dtmf_iff : (v : Json) → (event_is_sensitive_dtmf v ≡ false) ↔ SaysPublic v
event_is_sensitive_dtmf_iff v = (public_sound v, public_complete v)
