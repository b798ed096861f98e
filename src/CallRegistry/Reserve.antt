-- ===== src/CallRegistry/Reserve.antt =====
-- `reserveCallId` ends, with an id that nobody has.
use text.Mathlib.TextLemmas.{cons-append, append-nil, nil≢cons, append_cancel_left}
use native.Mathlib.Decide.{ℕ_discrete}
use rtc_session_gateway.Base.{
  ℕ, zero, suc, ◌+◌, ◌≤◌, ◌<◌, String, Bool, true, false, Option, none, some, List, [], ◌∷◌, ◌++◌,
  ◌≡◌, ◌≢◌, refl, ap, sym, ◌∙◌, arith, if◌then◌else◌, ◌==◌, eq_iff, length, length-append,
  Bool-cases, inl, inr, any,
}
use rtc_session_gateway.Base.Text.{◌<>◌}
use rtc_session_gateway.Base.Assoc.{insert, Map, lookup, has, keys}
use rtc_session_gateway.Base.Decimal.{decimal, decimal_injective}
use rtc_session_gateway.CallId.{normalize_call_id}
use rtc_session_gateway.CallRegistry.{
  reserved, reserve_call_id, reserve_loop, CallRegistry, has_call_or_reservation,
}

abbrev mem : String → List String → Bool
mem k = any (λ x. x == k)

delete : String → List String → List String
delete k [] = []
delete k (x ∷ xs) = if x == k then xs else x ∷ delete k xs

length-delete : (k : String) (xs : List String) → mem k xs ≡ true → length (delete k xs) < length xs
unfolding delete
length-delete k [] h = absurd (cc)
length-delete k (x ∷ xs) h = ground (arith, length-delete k xs)

mem-delete :
    (j k : String) (xs : List String) → j ≢ k → mem j xs ≡ true → mem j (delete k xs) ≡ true
unfolding delete
mem-delete j k [] n h = h
mem-delete j k (x ∷ xs) n h = ground (arith, eq_iff x k, eq_iff x j, mem-delete j k xs n)

-- The candidates: the base, then `base-2`, `base-3`, and so on.
unfoldable pub candidate : String → ℕ → String
candidate base zero = base
candidate base (suc n) = base <> "-" <> decimal (n + 2)

search_from : ℕ → (String → Bool) → (ℕ → String) → ℕ → Option String
search_from zero taken name n = none
search_from (suc f) taken name n =
    let rest = search_from f taken name (suc n) in if taken (name n) then rest else some (name n)

loop-search :
    (f : ℕ) (taken : String → Bool) (base : String) (n : ℕ)
    → reserve_loop f taken base (candidate base n) (n + 2) ≡ search_from f taken (candidate base) n
unfolding reserve_loop search_from candidate
loop-search zero taken base n = refl
loop-search (suc f) taken base n =
    let e : n + 2 + 1 ≡ suc n + 2 = omega arith in
    rw e (ground (arith, loop-search f taken base (suc n)))

module _ (taken : String → Bool) (name : ℕ → String) where
  -- The first name from the `n`th on that is free.
  record First (n : ℕ) (found : Option String) : Type 0 where
    at : ℕ
    is_found : found ≡ some (name at)
    free : taken (name at) ≡ false
    before : (m : ℕ) → n ≤ m → m < at → taken (name m) ≡ true

  -- Each taken candidate uses up one of the taken ids, so there is a free one within their number.
  search-First :
      ((i j : ℕ) → name i ≡ name j → i ≡ j)
      → (f n : ℕ) (ids : List String) → length ids < f
      → ((m : ℕ) → n ≤ m → taken (name m) ≡ true → mem (name m) ids ≡ true)
      → First n (search_from f taken name n)
  unfolding search_from
  search-First inj zero n ids short all = absurd (omega arith)
  search-First inj (suc f) n ids short all = elim (Bool-cases (taken (name n))) [
    | inr free ↦ record {
      at = n;
      is_found = rw free;
      free = free;
      before = λ m le lt. absurd (omega arith);
    }
    | inl hit ↦
        let later =
          search-First inj f (suc n) (delete (name n) ids)
            (omega (arith, length-delete (name n) ids (all n (omega arith) hit)))
            (λ m above t.
              mem-delete (name m) (name n) ids
                (λ e. let same : m ≡ n = inj m n e in absurd (omega arith))
                (all m (omega arith) t)) in
        record {
          at = later.at;
          is_found = rw hit later.is_found;
          free = later.free;
          before = λ m le lt. elim (ℕ_discrete m n) [
            | yes e ↦ rw e hit
            | no ne ↦ later.before m (omega arith) lt
          ];
        }
  ]

no_suffix : (base s : String) → ¬ (base ≡ base <> "-" <> s)
no_suffix base s e =
    nil≢cons (append_cancel_left base "" ("-" <> s) (append-nil base ∙ e) ∙ cons-append _ _ _)

candidate_injective : (base : String) (i j : ℕ) → candidate base i ≡ candidate base j → i ≡ j
unfolding candidate
candidate_injective base zero zero e = refl
candidate_injective base zero (suc j) e = absurd (no_suffix base (decimal (j + 2)) e)
candidate_injective base (suc i) zero e = absurd (no_suffix base (decimal (i + 2)) (sym e))
candidate_injective base (suc i) (suc j) e =
    let digits =
      append_cancel_left "-" (decimal (i + 2)) (decimal (j + 2))
        (append_cancel_left base ("-" <> decimal (i + 2)) ("-" <> decimal (j + 2)) e) in
    omega (arith, decimal_injective (i + 2) (j + 2) digits)

mem-append_left : (k : String) (xs ys : List String) → mem k xs ≡ true → mem k (xs ++ ys) ≡ true
mem-append_left k [] ys h = absurd (cc)
mem-append_left k (x ∷ xs) ys h = ground (arith, mem-append_left k xs ys)

mem-append_right : (k : String) (xs ys : List String) → mem k ys ≡ true → mem k (xs ++ ys) ≡ true
mem-append_right k [] ys h = h
mem-append_right k (x ∷ xs) ys h = ground (arith, mem-append_right k xs ys h)

module _ {ℓ} {V : Type ℓ} where
  mem-keys : (k : String) (m : Map V) → has k m ≡ true → mem k (keys m) ≡ true
  unfolding lookup keys
  mem-keys k [] h = absurd (cc)
  mem-keys k ((j, v) ∷ m) h = ground (arith, mem-keys k m)

  length-keys : (m : Map V) → length (keys m) ≡ length m
  unfolding keys
  length-keys [] = refl
  length-keys ((k, v) ∷ m) = ap suc (length-keys m)

taken_ids : CallRegistry → List String
taken_ids r = keys r.calls ++ keys r.reservations

mem-taken_ids :
    (r : CallRegistry) (k : String)
    → has_call_or_reservation r k ≡ true
    → mem k (taken_ids r) ≡ true
unfolding taken_ids
mem-taken_ids r k h = elim (Bool-cases (has k r.calls)) [
  | inl call ↦ mem-append_left k (keys r.calls) _ (mem-keys k r.calls call)
  | inr n ↦ mem-append_right k (keys r.calls) _ (mem-keys k r.reservations (rw n at h))
]

length-taken_ids :
    (r : CallRegistry) → length (taken_ids r) ≡ length r.calls + length r.reservations
unfolding taken_ids
length-taken_ids r = omega (
  arith,
  length-append (keys r.calls) (keys r.reservations),
  length-keys r.calls,
  length-keys r.reservations,
)

-- The outcome of a reservation: the `at`th candidate, which nobody had, after as many that somebody
-- had. It is reserved, and nothing else has changed.
pub record Reserved (r : CallRegistry) (base : String) (outcome : Option (String × CallRegistry))
    : Type 0 where
  pub at : ℕ
  pub done :
      outcome
      ≡ some (
        candidate base at,
        record r { reservations = insert (candidate base at) tt r.reservations },
      )
  pub free : has_call_or_reservation r (candidate base at) ≡ false
  pub first : (m : ℕ) → m < at → has_call_or_reservation r (candidate base m) ≡ true

-- The loop of `reserveCallId` always ends: it reserves the first of `base`, `base-2`, `base-3`, ...
-- that is no call and no reservation, where `base` is the normalized Call-ID.
pub reserve_call_id-Reserved :
    (r : CallRegistry) (uuid sip_call_id : String)
    → Reserved r (normalize_call_id uuid (some sip_call_id)) (reserve_call_id r uuid sip_call_id)
unfolding reserve_call_id candidate
reserve_call_id-Reserved r uuid sip_call_id =
    let base = normalize_call_id uuid (some sip_call_id) in
    let taken = has_call_or_reservation r in
    let fuel = suc (length r.calls + length r.reservations) in
    let f =
      search-First taken (candidate base) (candidate_injective base) fuel 0 (taken_ids r)
        (omega (arith, length-taken_ids r)) (λ m _ t. mem-taken_ids r (candidate base m) t) in
    let e = loop-search fuel taken base 0 ∙ f.is_found in
    record {
      at = f.at;
      done = ap (reserved r) e;
      free = f.free;
      first = λ m lt. f.before m (omega arith) lt;
    }
