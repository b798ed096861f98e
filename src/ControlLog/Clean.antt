-- ===== src/ControlLog/Clean.antt =====
-- No six digits in a row in the values that src/control-log.ts logs: the single texts, and lists of them.
pub mod Sdp
pub mod Uris
pub mod Summaries
pub mod Objects
use rtc_session_gateway.ControlLog.Values.{insert}
use rtc_session_gateway.ControlLog.Values.{
  text_leb, texts_of, unique_from, unique, type_marker, sort, contains,
}
use rtc_session_gateway.ControlLog.Redaction.{
  redacted_text, redact_digit_runs, tildes, leading_digits,
}
use rtc_session_gateway.Base.Assoc.{lookup, Map}
use Prim.Native.String.{String}
use rtc_session_gateway.Base.Text.{length as units}
use rtc_session_gateway.Base.{
  ◌||◌, ◌&&◌, some_injective, eq_iff, subst, ◌==◌, not, inr, true, refl, inl, false, arith, ◌≤◌,
  ◌≡◌, ◌<◌, ℕ, Bool-cases, Bool, All, map, List, zero, suc, some, none, [], ◌∷◌,
}
use rtc_session_gateway.Json.{
  end, nil, prop, Fields, cons, Items, obj, num, arr, bool, str, Json, undefined, null,
}
use Prim.Native.String
use rtc_session_gateway.ControlLog.DigitRuns.{redact_digit_runs_lem, has_digit_run}

-- the properties whose texts are names that somebody else chose: header names and query keys
abbrev pub is_exempt : String → Bool
is_exempt key = contains key ("names" ∷ "queryKeys" ∷ [])

-- Every text in a value, but for those at a property that is exempt, is free of six digits in a row.
unfoldable mutual
  pub is_clean : Json → Bool
  is_clean (str s) = not (has_digit_run s)
  is_clean (arr xs) = are_clean xs
  is_clean (obj fs) = is_clean_record fs
  is_clean undefined = true
  is_clean null = true
  is_clean (bool b) = true
  is_clean (num n) = true

  pub are_clean : Items → Bool
  are_clean nil = true
  are_clean (cons v vs) = is_clean v && are_clean vs

  pub is_clean_record : Fields → Bool
  is_clean_record end = true
  is_clean_record (prop k v fs) = (is_exempt k || is_clean v) && is_clean_record fs

abbrev pub WithoutRuns : List String → Type 0
WithoutRuns texts = All (λ s. has_digit_run s ≡ false) texts

pub type_marker_clean : (v : Json) → is_clean (type_marker v) ≡ true
unfolding is_clean type_marker contains has_digit_run leading_digits
type_marker_clean undefined = refl
type_marker_clean null = refl
type_marker_clean (bool b) = refl
type_marker_clean (num n) = refl
type_marker_clean (str s) = refl
type_marker_clean (arr xs) = refl
type_marker_clean (obj fs) = refl

leading_digits-tildes : (n : ℕ) → leading_digits (tildes n) ≡ 0
unfolding leading_digits tildes
leading_digits-tildes zero = refl
leading_digits-tildes (suc n) = refl

pub tildes_clean : (n : ℕ) → has_digit_run (tildes n) ≡ false
unfolding has_digit_run tildes leading_digits
tildes_clean zero = refl
tildes_clean (suc n) = tildes_clean n

leading_digits-le : (s : String) → leading_digits s ≤ units s
unfolding leading_digits units
leading_digits-le String.[] = omega arith
leading_digits-le (String.◌∷◌ c s) = ground (arith, leading_digits-le s)

-- a text shorter than six is clean
pub short_clean : (s : String) → units s < 6 → has_digit_run s ≡ false
unfolding has_digit_run units
short_clean String.[] h = refl
short_clean (String.◌∷◌ c s) h = ground (arith, leading_digits-le (String.◌∷◌ c s), short_clean s)

pub redacted_clean : (s : String) → has_digit_run (redact_digit_runs s) ≡ false
redacted_clean s = (redact_digit_runs_lem s).0

pub contains_clean :
    (s : String) (ts : List String)
    → WithoutRuns ts
    → contains s ts ≡ true
    → has_digit_run s ≡ false
unfolding contains
contains_clean s [] p h = absurd (cc)
contains_clean s (t ∷ ts) p h = elim (Bool-cases (t == s)) [
  | inl e ↦ subst (λ u. has_digit_run u ≡ false) ((eq_iff t s).0 e) p.0
  | inr e ↦ contains_clean s ts p.1 (ground arith)
]

abbrev pub MapWithoutRuns : Map String → Type 0
MapWithoutRuns m = All (λ e. has_digit_run e.1 ≡ false) m

pub lookup_clean :
    (k : String) (m : Map String) (v : String)
    → MapWithoutRuns m
    → lookup k m ≡ some v
    → has_digit_run v ≡ false
unfolding lookup
lookup_clean k [] v p h = absurd (cc)
lookup_clean k ((j, w) ∷ m) v p h = elim (Bool-cases (j == k)) [
  | inl e ↦ subst (λ u. has_digit_run u ≡ false) (some_injective (ground arith)) p.0
  | inr e ↦ lookup_clean k m v p.1 (ground arith)
]

unique_clean : (seen ts : List String) → WithoutRuns ts → WithoutRuns (unique_from seen ts)
unfolding unique_from
unique_clean seen [] p = tt
unique_clean seen (t ∷ ts) p = elim (Bool-cases (contains t seen)) [
  | inl e ↦ rw e (unique_clean seen ts p.1)
  | inr e ↦ rw e (p.0, unique_clean (t ∷ seen) ts p.1)
]

insert_clean :
    (s : String) (ts : List String)
    → has_digit_run s ≡ false
    → WithoutRuns ts
    → WithoutRuns (insert s ts)
unfolding insert
insert_clean s [] p q = (p, tt)
insert_clean s (t ∷ ts) p q = elim (Bool-cases (text_leb s t)) [
  | inl e ↦ rw e (p, q)
  | inr e ↦ rw e (q.0, insert_clean s ts p q.1)
]

sort_clean : (ts : List String) → WithoutRuns ts → WithoutRuns (sort ts)
unfolding sort
sort_clean [] p = tt
sort_clean (t ∷ ts) p = insert_clean t (sort ts) p.0 (sort_clean ts p.1)

texts_clean : (ts : List String) → WithoutRuns ts → is_clean (texts_of ts) ≡ true
unfolding is_clean
texts_clean [] p = refl
texts_clean (t ∷ ts) p = rw p.0 (texts_clean ts p.1)

-- a set of clean texts, as it is logged
pub set_clean : (ts : List String) → WithoutRuns ts → is_clean (texts_of (sort (unique ts))) ≡ true
unfolding unique
set_clean ts p = texts_clean _ (sort_clean _ (unique_clean [] ts p))

unfoldable pub all_free : List String → Bool
unfolding has_digit_run leading_digits
all_free [] = true
all_free (t ∷ ts) = not (has_digit_run t) && all_free ts

-- the texts of a table, checked one by one
pub free_clean : (ts : List String) → all_free ts ≡ true → WithoutRuns ts
unfolding all_free
free_clean [] h = tt
free_clean (t ∷ ts) h = (ground arith, free_clean ts (ground arith))

pub redacted_text_clean : is_clean (str redacted_text) ≡ true
unfolding is_clean has_digit_run leading_digits
redacted_text_clean = refl
