-- ===== src/CallId/Tidy.antt =====
-- What a normalized call id looks like.
use mathlib.Core.Bool.{and-eq-true_iff}
use rtc_session_gateway.CallId.{
  strip_open, strip_close, strip_sip, stripped_call_id, strip_last, strip_first, replace_unsafe,
  normalize_call_id, is_safe, is_dash, collapse,
}
use rtc_session_gateway.Base.{
  ne_of_eq-false, String, Bool, true, false, not, ◌&&◌, Option, ◌≡◌, ◌≢◌, refl, ◌⊎◌, inl, inr, ◌==◌,
  eq_iff, or_else, Bool-cases,
}
use rtc_session_gateway.Base.Text.{trim, ◌<>◌, all_char}

-- no dash stands behind a dash; `behind` says that one stands before the text
abbrev pub single_dashes : Bool → String → Bool
single_dashes behind String.[] = true
single_dashes behind (String.◌∷◌ c s) = not (behind && is_dash c) && single_dashes (is_dash c) s

abbrev pub ends_in_dash : String → Bool
ends_in_dash String.[] = false
ends_in_dash (String.◌∷◌ c String.[]) = is_dash c
ends_in_dash (String.◌∷◌ c (String.◌∷◌ d s)) = ends_in_dash (String.◌∷◌ d s)

-- Safe characters only, no dash at an end, and no two dashes together.
pub record IsTidy (s : String) : Type 0 where
  pub safe : all_char is_safe s ≡ true
  pub no_leading_or_double_dash : single_dashes true s ≡ true
  pub no_trailing_dash : ends_in_dash s ≡ false

safe-replace : (b : Bool) (s : String) → all_char is_safe (replace_unsafe b s) ≡ true
unfolding all_char replace_unsafe
safe-replace b String.[] = refl
safe-replace b (String.◌∷◌ c s) = elim (Bool-cases (is_safe c)) [
  | inl safe ↦ rw safe (rw safe (safe-replace false s))
  | inr unsafe ↦ rw unsafe (elim (Bool-cases b) [
    | inl run ↦ rw run (safe-replace true s)
    | inr new ↦ rw new (safe-replace true s)
  ])
]

safe-collapse :
    (b : Bool) (s : String) → all_char is_safe s ≡ true → all_char is_safe (collapse b s) ≡ true
unfolding all_char collapse
safe-collapse b String.[] h = refl
safe-collapse b (String.◌∷◌ c s) h =
    let (here, later) = (and-eq-true_iff (is_safe c) (all_char is_safe s)).0 h in
    elim (Bool-cases (is_dash c)) [
      | inl d ↦ rw d (elim (Bool-cases b) [
        | inl behind ↦ rw behind (safe-collapse true s later)
        | inr alone ↦ rw alone (rw here (safe-collapse true s later))
      ])
      | inr n ↦ rw n (rw here (safe-collapse false s later))
    ]

single-collapse : (b : Bool) (s : String) → single_dashes b (collapse b s) ≡ true
unfolding collapse
single-collapse b String.[] = refl
single-collapse true (String.◌∷◌ c s) = elim (Bool-cases (is_dash c)) [
  | inl d ↦ rw d (single-collapse true s)
  | inr n ↦ rw n (rw n (single-collapse false s))
]
single-collapse false (String.◌∷◌ c s) = elim (Bool-cases (is_dash c)) [
  | inl d ↦ rw d (rw d (single-collapse true s))
  | inr n ↦ rw n (rw n (single-collapse false s))
]

safe-strip_first :
    (s : String) → all_char is_safe s ≡ true → all_char is_safe (strip_first s) ≡ true
unfolding all_char strip_first
safe-strip_first String.[] h = refl
safe-strip_first (String.◌∷◌ c s) h = elim (Bool-cases (is_dash c)) [
  | inl d ↦ rw d ((and-eq-true_iff _ _).0 h).1
  | inr n ↦ rw n h
]

single-strip_first :
    (s : String) → single_dashes false s ≡ true → single_dashes true (strip_first s) ≡ true
unfolding strip_first
single-strip_first String.[] h = refl
single-strip_first (String.◌∷◌ c s) h = elim (Bool-cases (is_dash c)) [
  | inl d ↦ rw d (rw d at h)
  | inr n ↦ rw n (rw n (rw n at h))
]

safe-strip_last : (s : String) → all_char is_safe s ≡ true → all_char is_safe (strip_last s) ≡ true
unfolding all_char strip_last
safe-strip_last String.[] h = refl
safe-strip_last (String.◌∷◌ c String.[]) h = elim (Bool-cases (is_dash c)) [
  | inl d ↦ rw d
  | inr n ↦ rw n h
]
safe-strip_last (String.◌∷◌ c (String.◌∷◌ d s)) h =
    let (here, later) = (and-eq-true_iff _ _).0 h in
    (and-eq-true_iff _ _).1 (here, safe-strip_last (String.◌∷◌ d s) later)

single-strip_last :
    (b : Bool) (s : String) → single_dashes b s ≡ true → single_dashes b (strip_last s) ≡ true
unfolding strip_last
single-strip_last b String.[] h = refl
single-strip_last b (String.◌∷◌ c String.[]) h = elim (Bool-cases (is_dash c)) [
  | inl d ↦ rw d
  | inr n ↦ rw n h
]
single-strip_last b (String.◌∷◌ c (String.◌∷◌ d s)) h =
    let (here, later) = (and-eq-true_iff _ _).0 h in
    (and-eq-true_iff _ _).1 (here, single-strip_last (is_dash c) (String.◌∷◌ d s) later)

ends-strip_last :
    (b : Bool) (s : String) → single_dashes b s ≡ true → ends_in_dash (strip_last s) ≡ false
unfolding strip_last
ends-strip_last b String.[] h = refl
ends-strip_last b (String.◌∷◌ c String.[]) h = elim (Bool-cases (is_dash c)) [
  | inl d ↦ rw d
  | inr n ↦ rw n n
]
ends-strip_last b (String.◌∷◌ c (String.◌∷◌ d String.[])) h =
    let later = ((and-eq-true_iff (not (b && is_dash c)) _).0 h).1 in
    let apart = ((and-eq-true_iff (not (is_dash c && is_dash d)) _).0 later).0 in
    elim (Bool-cases (is_dash d)) [
      | inl e ↦
          rw e
            (elim (Bool-cases (is_dash c)) [ inl f ↦ absurd (cc (rw (f, e) at apart)) | inr g ↦ g ])
      | inr n ↦ rw n n
    ]
ends-strip_last b (String.◌∷◌ c (String.◌∷◌ d (String.◌∷◌ e s))) h =
    ends-strip_last (is_dash c) (String.◌∷◌ d (String.◌∷◌ e s)) ((and-eq-true_iff _ _).0 h).1

stripped_call_id-IsTidy : (s : String) → IsTidy (stripped_call_id s)
unfolding stripped_call_id
stripped_call_id-IsTidy s =
    let bare = strip_sip (strip_close (strip_open (trim s))) in
    let replaced = replace_unsafe false bare in
    let collapsed = collapse false replaced in
    let first = strip_first collapsed in
    let singles : single_dashes true first ≡ true =
      single-strip_first collapsed (single-collapse false replaced) in
    record {
      safe =
          safe-strip_last first
            (safe-strip_first collapsed (safe-collapse false replaced (safe-replace false bare)));
      no_leading_or_double_dash = single-strip_last true first singles;
      no_trailing_dash = ends-strip_last true first singles;
    }

-- A normalized call id is never empty. It is tidy (letters, digits and ._~:@+=- only, so no slash
-- and no space; no dash at an end, no two dashes together), or it is `call-` and the fresh UUID,
-- and then nothing of the Call-ID was left.
pub normalize_call_id-IsTidy :
    (uuid : String) (sip_call_id : Option String)
    → let id = normalize_call_id uuid sip_call_id in
      (IsTidy id × (id ≢ ""))
      ⊎ ((id ≡ "call-" <> uuid) × (stripped_call_id (or_else sip_call_id "") ≡ ""))
unfolding normalize_call_id
normalize_call_id-IsTidy uuid sip_call_id =
    let s = stripped_call_id (or_else sip_call_id "") in
    elim (Bool-cases (s == "")) [
      | inl empty ↦ rw empty (inr (refl, (eq_iff s "").0 empty))
      | inr full ↦
          rw full (inl (stripped_call_id-IsTidy (or_else sip_call_id ""), ne_of_eq-false s "" full))
    ]
