-- ===== src/SessionCommands/Meets/Parameters.antt =====
-- The postconditions of the checks of single parameters of src/session-commands.ts.
use rtc_session_gateway.SessionCommands.Meets.{
  IsRefusal, invalid, bad_headers, Meets, returns, refuses, bind, IsText, IsOptionalText,
  IsPositive, IsNatural, IsInteger, IsFinite, IsNullableInteger, AreTexts, Any, or_throw-Meets,
  weaken,
}
use rtc_session_gateway.SessionCommands.Validators.{
  directions, texts, required_string, required_direction, require_object, positive, optional_texts,
  optional_string, optional_positive_integer, optional_object, optional_number,
  optional_nullable_integer, optional_non_negative_integer, optional_integer, optional_direction,
  optional_boolean, non_negative, cons_text, as_integer, as_finite,
}
use rtc_session_gateway.HttpContract.{with_header, read_headers, parse_optional_headers}
use rtc_session_gateway.Base.Assoc.{lookup}
use rtc_session_gateway.Base.{
  arith, zero, suc, List, [], ◌∷◌, some_injective, All, String, Option, none, some, ◌≡◌, refl,
  subst,
}
use rtc_session_gateway.Json.{
  Json, Number, nat, neg, undefined, null, bool, num, str, arr, obj, fraction, infinity, items,
  entries, as_text, as_object,
}
use rtc_session_gateway.Errors.{Error, ok, ◌>>=◌, or_throw}

pub as_text-IsText : (v : Json) (s : String) → as_text v ≡ some s → IsText s
as_text-IsText (str t) s h = ground arith
as_text-IsText _ s h = absurd (cc)

pub IsText-Meets : (v : Json) (e : Error) → IsRefusal e → Meets IsText (or_throw (as_text v) e)
IsText-Meets v e r = weaken (as_text-IsText v) (or_throw-Meets (as_text v) e r)

pub require_object-Meets : (v : Json) → Meets Any (require_object v)
unfolding require_object
require_object-Meets v = weaken (λ a p. tt) (or_throw-Meets (as_object v) _ (invalid _))

pub optional_object-Meets : (v : Json) → Meets Any (optional_object v)
unfolding optional_object
optional_object-Meets undefined = returns _ tt
optional_object-Meets null = returns _ tt
optional_object-Meets v = require_object-Meets v

pub required_string-Meets : (v : Json) (name : String) → Meets IsText (required_string v name)
unfolding required_string
required_string-Meets v name = IsText-Meets v _ (invalid _)

some_text :
    (v : Json) (e : Error)
    → IsRefusal e
    → Meets IsOptionalText (or_throw (as_text v) e >>= λ s. ok (some s))
some_text v e r = bind (IsText-Meets v e r) (λ s p. returns (some s) p)

pub optional_string-Meets :
    (v : Json) (name : String) → Meets IsOptionalText (optional_string v name)
unfolding optional_string
optional_string-Meets undefined name = returns none tt
optional_string-Meets null name = returns none tt
optional_string-Meets v name = some_text v _ (invalid _)

pub optional_boolean-Meets : (v : Json) (name : String) → Meets Any (optional_boolean v name)
unfolding optional_boolean
optional_boolean-Meets undefined name = returns none tt
optional_boolean-Meets null name = returns none tt
optional_boolean-Meets (bool b) name = returns (some b) tt
optional_boolean-Meets v name = refuses _ (invalid _)

as_integer-IsInteger : (v : Json) (n : Number) → as_integer v ≡ some n → IsInteger (some n)
unfolding as_integer
as_integer-IsInteger (num (nat k)) n h = subst (λ m. IsInteger (some m)) (some_injective h) tt
as_integer-IsInteger (num (neg k)) n h = subst (λ m. IsInteger (some m)) (some_injective h) tt
as_integer-IsInteger _ n h = absurd (cc)

IsInteger-Meets :
    (v : Json) (e : Error)
    → IsRefusal e
    → Meets (λ n. IsInteger (some n)) (or_throw (as_integer v) e)
IsInteger-Meets v e r = weaken (as_integer-IsInteger v) (or_throw-Meets (as_integer v) e r)

pub optional_integer-Meets : (v : Json) (name : String) → Meets IsInteger (optional_integer v name)
unfolding optional_integer
optional_integer-Meets undefined name = returns none tt
optional_integer-Meets null name = returns none tt
optional_integer-Meets v name = bind (IsInteger-Meets v _ (invalid _)) (λ n p. returns (some n) p)

pub optional_nullable_integer-Meets :
    (v : Json) (name : String) → Meets IsNullableInteger (optional_nullable_integer v name)
unfolding optional_nullable_integer
optional_nullable_integer-Meets undefined name = returns none tt
optional_nullable_integer-Meets null name = returns (some none) tt
optional_nullable_integer-Meets v name =
    bind (IsInteger-Meets v _ (invalid _)) (λ n p. returns (some (some n)) p)

as_finite-IsFinite : (v : Json) (n : Number) → as_finite v ≡ some n → IsFinite (some n)
unfolding as_finite
as_finite-IsFinite (num infinity) n h = absurd (cc)
as_finite-IsFinite (num k) n h = subst (λ m. IsFinite (some m)) (some_injective h) tt
as_finite-IsFinite _ n h = absurd (cc)

pub optional_number-Meets : (v : Json) (name : String) → Meets IsFinite (optional_number v name)
unfolding optional_number
optional_number-Meets undefined name = returns none tt
optional_number-Meets null name = returns none tt
optional_number-Meets v name =
    bind (weaken (as_finite-IsFinite v) (or_throw-Meets (as_finite v) _ (invalid _)))
      (λ n p. returns (some n) p)

non_negative-Meets :
    (n : Option Number) (e : Error) → IsRefusal e → IsInteger n → Meets IsNatural (non_negative n e)
unfolding non_negative
non_negative-Meets none e r p = returns none tt
non_negative-Meets (some (nat n)) e r p = returns (some (nat n)) tt
non_negative-Meets (some (neg n)) e r p = refuses e r
non_negative-Meets (some (fraction s)) e r p = absurd p
non_negative-Meets (some infinity) e r p = absurd p

pub optional_non_negative_integer-Meets :
    (v : Json) (name : String) → Meets IsNatural (optional_non_negative_integer v name)
unfolding optional_non_negative_integer
optional_non_negative_integer-Meets v name =
    bind (optional_integer-Meets v name) (λ n p. non_negative-Meets n _ (invalid _) p)

positive-Meets :
    (n : Option Number) (e : Error) → IsRefusal e → IsInteger n → Meets IsPositive (positive n e)
unfolding positive
positive-Meets none e r p = returns none tt
positive-Meets (some (nat zero)) e r p = refuses e r
positive-Meets (some (nat (suc n))) e r p = returns (some (nat (suc n))) tt
positive-Meets (some (neg n)) e r p = refuses e r
positive-Meets (some (fraction s)) e r p = absurd p
positive-Meets (some infinity) e r p = absurd p

pub optional_positive_integer-Meets :
    (v : Json) (name : String) → Meets IsPositive (optional_positive_integer v name)
unfolding optional_positive_integer
optional_positive_integer-Meets v name =
    bind (optional_integer-Meets v name) (λ n p. positive-Meets n _ (invalid _) p)

pub required_direction-Meets : (v : Json) → Meets Any (required_direction v)
unfolding required_direction
required_direction-Meets v =
    bind (required_string-Meets v "direction")
      (λ s p. weaken (λ d q. tt) (or_throw-Meets (lookup s directions) _ (invalid _)))

pub optional_direction-Meets : (v : Json) → Meets Any (optional_direction v)
unfolding optional_direction
optional_direction-Meets undefined = returns none tt
optional_direction-Meets null = returns none tt
optional_direction-Meets v = bind (required_direction-Meets v) (λ d p. returns (some d) tt)

cons_text-IsText :
    (o : Option String) (l : Option (List String)) (xs : List String)
    → ((s : String) → o ≡ some s → IsText s)
    → ((ys : List String) → l ≡ some ys → All IsText ys)
    → cons_text o l ≡ some xs
    → All IsText xs
unfolding cons_text
cons_text-IsText (some s) (some ys) xs p q h =
    subst (All IsText) (some_injective h) (p s refl, q ys refl)
cons_text-IsText none l xs p q h = absurd (cc)
cons_text-IsText (some s) none xs p q h = absurd (cc)

texts-IsText : (vs : List Json) (xs : List String) → texts vs ≡ some xs → All IsText xs
unfolding texts
texts-IsText [] xs h = subst (All IsText) (some_injective h) tt
texts-IsText (v ∷ vs) xs h =
    cons_text-IsText (as_text v) (texts vs) xs (as_text-IsText v) (texts-IsText vs) h

pub optional_texts-Meets :
    (v : Json) (e : Error) → IsRefusal e → Meets AreTexts (optional_texts v e)
unfolding optional_texts
optional_texts-Meets undefined e r = returns none tt
optional_texts-Meets (arr vs) e r =
    bind (weaken (texts-IsText (items vs)) (or_throw-Meets (texts (items vs)) e r))
      (λ xs p. returns (some xs) p)
optional_texts-Meets _ e r = refuses e r

read_headers-Meets : (entries : List (String × Json)) → Meets Any (read_headers entries)
unfolding read_headers
read_headers-Meets [] = returns [] tt
read_headers-Meets ((key, str value) ∷ more) =
    bind (read_headers-Meets more) (λ headers p. returns (with_header key value headers) tt)
read_headers-Meets ((key, _) ∷ more) = refuses _ (bad_headers _)

pub parse_optional_headers-Meets : (v : Json) → Meets Any (parse_optional_headers v)
unfolding parse_optional_headers
parse_optional_headers-Meets undefined = returns none tt
parse_optional_headers-Meets null = returns none tt
parse_optional_headers-Meets (obj input) =
    bind (read_headers-Meets (entries input)) (λ headers p. returns (some headers) tt)
parse_optional_headers-Meets _ = refuses _ (bad_headers _)
