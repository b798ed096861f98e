-- ===== src/ControlProtocol/Registrations.antt =====
-- `parseRouteRegistrations`: which parameters are accepted, and what is read from them.
use rtc_session_gateway.Routing.{RouteMatchType, exact, user_prefix}
use rtc_session_gateway.Base.{eq_iff}
use rtc_session_gateway.Base.{
  ℕ, ◌+◌, String, false, some, List, [], ◌∷◌, ◌≡◌, refl, subst, ◌↔◌, arith,
}
use rtc_session_gateway.Base.Text.{is_blank}
use rtc_session_gateway.Json.{Json, str, arr, obj, Fields, Items, field, items, as_object, as_text}
use rtc_session_gateway.Errors.{ok, or_throw, or_throw_inv, >>=-eq-ok, ok_injective}
use rtc_session_gateway.Routing.Config.{read_match}
use rtc_session_gateway.ControlProtocol.{
  registrations_in, RouteRegistration, registration_of, registrations_from,
  parse_route_registrations,
}

-- how the two kinds of match are spelled
abbrev pub spelling : RouteMatchType → String
spelling exact = "exact"
spelling user_prefix = "userPrefix"

-- A value that states a registration: an object whose `match` spells its kind and whose `value` is a
-- text that is not blank.
pub record States (v : Json) (r : RouteRegistration) : Type 0 where
  pub candidate : Fields
  pub is_object : v ≡ obj candidate
  pub kind : field "match" candidate ≡ str (spelling r.match)
  pub text : field "value" candidate ≡ str r.value
  pub full : is_blank r.value ≡ false

abbrev pub StatesAll : List Json → List RouteRegistration → Type 0
StatesAll [] [] = Unit
StatesAll (v ∷ vs) (r ∷ rs) = States v r × StatesAll vs rs
StatesAll _ _ = ⊥

as_object_inv : (v : Json) (fs : Fields) → as_object v ≡ some fs → v ≡ obj fs
as_object_inv (obj gs) fs h = ground arith
as_object_inv _ fs h = absurd (cc)

as_text_inv : (v : Json) (s : String) → as_text v ≡ some s → (v ≡ str s) × (is_blank s ≡ false)
as_text_inv (str t) s h = ground arith
as_text_inv _ s h = absurd (cc)

read_match_sound : (v : Json) (m : RouteMatchType) → read_match v ≡ some m → v ≡ str (spelling m)
unfolding read_match
read_match_sound (str s) exact h = ground (arith, eq_iff s "exact", eq_iff s "userPrefix")
read_match_sound (str s) user_prefix h = ground (arith, eq_iff s "exact", eq_iff s "userPrefix")
read_match_sound _ m h = absurd (cc)

read_match_complete : (m : RouteMatchType) → read_match (str (spelling m)) ≡ some m
unfolding read_match
read_match_complete exact = refl
read_match_complete user_prefix = refl

registration_sound :
    (i : ℕ) (v : Json) (r : RouteRegistration) → registration_of i v ≡ ok r → States v r
unfolding registration_of
registration_sound i v r h =
    let (fs, p, h1) = >>=-eq-ok (or_throw (as_object v) _) _ h in
    let (m, q, h2) = >>=-eq-ok (or_throw (read_match (field "match" fs)) _) _ h1 in
    let (s, t, h3) = >>=-eq-ok (or_throw (as_text (field "value" fs)) _) _ h2 in
    let (e, full) = as_text_inv (field "value" fs) s (or_throw_inv _ _ t) in
    subst (States v) (ok_injective h3) (record {
      candidate = fs;
      is_object = as_object_inv v fs (or_throw_inv _ _ p);
      kind = read_match_sound (field "match" fs) m (or_throw_inv _ _ q);
      text = e;
      full = full;
    })

registration_complete :
    (i : ℕ) (v : Json) (r : RouteRegistration) → States v r → registration_of i v ≡ ok r
unfolding registration_of
registration_complete i v r s =
    rw s.is_object (rw (s.kind, s.text) (rw (read_match_complete r.match, s.full)))

from_sound :
    (i : ℕ) (vs : List Json) (rs : List RouteRegistration)
    → registrations_from i vs ≡ ok rs
    → StatesAll vs rs
unfolding registrations_from
from_sound i [] [] h = tt
from_sound i [] (r ∷ rs) h = absurd (cc)
from_sound i (v ∷ vs) rs h =
    let (r, p, h1) = >>=-eq-ok (registration_of i v) _ h in
    let (rest, q, h2) = >>=-eq-ok (registrations_from (i + 1) vs) _ h1 in
    subst (StatesAll (v ∷ vs)) (ok_injective h2)
      (registration_sound i v r p, from_sound (i + 1) vs rest q)

from_complete :
    (i : ℕ) (vs : List Json) (rs : List RouteRegistration)
    → StatesAll vs rs
    → registrations_from i vs ≡ ok rs
unfolding registrations_from
from_complete i [] [] s = refl
from_complete i [] (r ∷ rs) s = absurd s
from_complete i (v ∷ vs) [] s = absurd s
from_complete i (v ∷ vs) (r ∷ rs) s =
    rw (registration_complete i v r s.0, from_complete (i + 1) vs rs s.1)

-- The parameters of a `route.register`: an object whose `routes` is a list.
pub record Registers (input : Json) (rs : List RouteRegistration) : Type 0 where
  pub params : Fields
  pub listed : Items
  pub is_object : input ≡ obj params
  pub is_list : field "routes" params ≡ arr listed
  pub states : StatesAll (items listed) rs

in_sound :
    (v : Json) (rs : List RouteRegistration)
    → registrations_in v ≡ ok rs
    → (vs : Items) × (v ≡ arr vs) × StatesAll (items vs) rs
unfolding registrations_in
in_sound (arr vs) rs h = (vs, refl, from_sound 0 (items vs) rs h)
in_sound _ rs h = absurd (cc)

-- Registrations are read exactly from an object whose `routes` lists, in order, one object for each
-- of them, whose `match` is "exact" or "userPrefix" as its kind is, and whose `value` is its value, a
-- text that is not blank.
pub parse_route_registrations_iff :
    (input : Json) (rs : List RouteRegistration)
    → (parse_route_registrations input ≡ ok rs) ↔ Registers input rs
unfolding parse_route_registrations registrations_in
parse_route_registrations_iff input rs = (
  λ h.
      let (fs, p, h1) = >>=-eq-ok (or_throw (as_object input) _) _ h in
      let (vs, e, s) = in_sound (field "routes" fs) rs h1 in
      record {
        params = fs;
        listed = vs;
        is_object = as_object_inv input fs (or_throw_inv _ _ p);
        is_list = e;
        states = s;
      },
  λ r. rw r.is_object (rw r.is_list (from_complete 0 (items r.listed) rs r.states)),
)
