-- ===== src/ControlLog/DigitRuns.antt =====
-- What `redactDigitRuns` of src/control-log.ts promises: no run of six digits is left, the length stays,
-- and a text without such a run is left as it is.
use rtc_session_gateway.Base.Text.{is_digit}
use Prim.Native.Char.{Char}
use rtc_session_gateway.Base.{◌≢◌, refl, ◌||◌, arith, ◌≡◌, leb, false, ◌<◌, Bool, String}
use rtc_session_gateway.ControlLog.Redaction.{
  outside, hidden, redact_digit_runs, points, begun, kept, shown_in, run_at, leading_digits, Run,
  redact_from,
}

-- some six characters in a row are digits
unfoldable pub has_digit_run : String → Bool
has_digit_run String.[] = false
has_digit_run (String.◌∷◌ c s) = leb 6 (leading_digits (String.◌∷◌ c s)) || has_digit_run s

leading-kept : (s : String) → leading_digits (redact_from kept s) ≡ leading_digits s
unfolding leading_digits redact_from run_at shown_in
leading-kept String.[] = refl
leading-kept (String.◌∷◌ c s) = ground (arith, leading-kept s)

run_at-kept :
    (run : Run) (c : Char) (s : String)
    → (run ≡ kept → leading_digits (String.◌∷◌ c s) < 5)
    → run_at run c s ≡ kept
    → leading_digits s < 5
unfolding run_at begun leading_digits
run_at-kept outside c s h e = ground arith
run_at-kept kept c s h e = ground (arith, h refl)
run_at-kept hidden c s h e = ground arith

run_at-outside : (run : Run) (c : Char) (s : String) → run_at run c s ≡ outside → is_digit c ≡ false
unfolding run_at begun
run_at-outside outside c s e = ground arith
run_at-outside kept c s e = ground arith
run_at-outside hidden c s e = ground arith

-- one more character in front, in the run `now`
cons_free :
    (now : Run) (c : Char) (s : String)
    → (now ≡ kept → leading_digits s < 5)
    → (now ≡ outside → is_digit c ≡ false)
    → has_digit_run (redact_from now s) ≡ false
    → has_digit_run (String.◌∷◌ (shown_in now c) (redact_from now s)) ≡ false
unfolding has_digit_run shown_in leading_digits
cons_free outside c s h n free = rw (n refl) free
cons_free kept c s h n free = ground (arith, h refl, leading-kept s)
cons_free hidden c s h n free = free

run_free :
    (run : Run) (s : String)
    → (run ≡ kept → leading_digits s < 5)
    → has_digit_run (redact_from run s) ≡ false
unfolding has_digit_run redact_from
run_free run String.[] h = refl
run_free run (String.◌∷◌ c s) h =
    let now = run_at run c s in
    let fits : now ≡ kept → leading_digits s < 5 = run_at-kept run c s h in
    cons_free now c s fits (run_at-outside run c s) (run_free now s fits)

points-redact_from : (run : Run) (s : String) → points (redact_from run s) ≡ points s
unfolding points redact_from
points-redact_from run String.[] = refl
points-redact_from run (String.◌∷◌ c s) = omega (arith, points-redact_from (run_at run c s) s)

unchanged :
    (run : Run) (s : String) → run ≢ hidden → has_digit_run s ≡ false → redact_from run s ≡ s
unfolding has_digit_run redact_from run_at shown_in leading_digits begun
unchanged run String.[] n h = refl
unchanged outside (String.◌∷◌ c s) n h = ground (arith, unchanged outside s, unchanged kept s)
unchanged kept (String.◌∷◌ c s) n h = ground (arith, unchanged outside s, unchanged kept s)
unchanged hidden (String.◌∷◌ c s) n h = absurd (n refl)

-- Redaction leaves no six digits in a row, keeps the number of characters, and changes a text only if
-- it has six digits in a row.
pub redact_digit_runs_lem :
    (s : String)
    → (has_digit_run (redact_digit_runs s) ≡ false)
      × (points (redact_digit_runs s) ≡ points s)
      × (has_digit_run s ≡ false → redact_digit_runs s ≡ s)
unfolding redact_digit_runs
redact_digit_runs_lem s =
    (run_free outside s (λ e. cc), points-redact_from outside s, unchanged outside s (λ e. cc))
