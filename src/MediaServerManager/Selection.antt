-- ===== src/MediaServerManager/Selection.antt =====
-- src/media-server-manager.ts: `selectBackend`: what it answers, and that it takes turns.
use rtc_session_gateway.MediaServerManager.{
  accepts_new, select_next, select_by, MediaBackend, select_backend, MediaServerManager,
}
use rtc_session_gateway.Base.{
  ℕ, zero, suc, ◌+◌, ◌%◌, ◌<◌, none, some, List, [], ◌∷◌, length, get_elem?, keep, ◌≡◌, ap, sym,
  ◌∙◌, refl, arith,
}
use rtc_session_gateway.Errors.{◌>>=◌, Result, ok}
use native.Mathlib.Nat.{mod-lt, mod-add-mod}

-- `selectBackend` without a preferred backend, several times in a row
unfoldable pub select_times :
    ℕ → MediaServerManager → List MediaBackend → Result (List MediaBackend × MediaServerManager)
select_times zero m backends = ok ([], m)
select_times (suc k) m backends = do
  (backend, next) ← select_backend m backends none
  (rest, last) ← select_times k next backends
  ok (backend ∷ rest, last)

get_elem?-below :
    {A : Type 0} (xs : List A) (i : ℕ) → i < length xs → (x : A) × (get_elem? xs i ≡ some x)
get_elem?-below [] i h = absurd (omega (arith, h))
get_elem?-below (x ∷ xs) zero h = (x, refl)
get_elem?-below (x ∷ xs) (suc i) h = get_elem?-below xs i (omega (arith, h))

-- the manager after a selection among `count` backends
abbrev advanced : MediaServerManager → ℕ → MediaServerManager
advanced m count = record m { next_backend_index = (m.next_backend_index + 1) % count }

select_next_found :
    (m : MediaServerManager) (accepting : List MediaBackend) (b : MediaBackend)
    → get_elem? accepting (m.next_backend_index % length accepting) ≡ some b
    → select_next m accepting ≡ ok (b, advanced m (length accepting))
unfolding select_next
select_next_found m [] b h = absurd (cc)
select_next_found m (first ∷ more) b h = rw h refl

-- The backends of `k` selections in a row: they take turns, from the next one on.
pub record TakesTurns (k : ℕ) (m : MediaServerManager) (backends : List MediaBackend) : Type 0 where
  pub chosen : List MediaBackend
  pub last : MediaServerManager
  pub selected : select_times k m backends ≡ ok (chosen, last)
  pub many : length chosen ≡ k
  pub turn :
      (j : ℕ)
      → j < k
      → get_elem? chosen j
        ≡ get_elem?
            (keep accepts_new backends)
            ((m.next_backend_index + j) % length (keep accepts_new backends))

turns_from :
    (accepting : List MediaBackend) (index : ℕ) (b : MediaBackend) (chosen : List MediaBackend)
    (k : ℕ)
    → get_elem? accepting (index % length accepting) ≡ some b
    → ((j : ℕ)
        → j < k
        → get_elem? chosen j
          ≡ get_elem? accepting (((index + 1) % length accepting + j) % length accepting))
    → (j : ℕ) → j < suc k
    → get_elem? (b ∷ chosen) j ≡ get_elem? accepting ((index + j) % length accepting)
turns_from accepting index b chosen k found later zero h =
    let here : index + 0 ≡ index = omega arith in rw here (sym found)
turns_from accepting index b chosen k found later (suc j) h =
    let shift : index + 1 + j ≡ index + suc j = omega arith in
    later j (omega (arith, h))
    ∙ ap (λ i. get_elem? accepting i)
        (mod-add-mod (index + 1) (length accepting) j ∙ ap (λ i. i % length accepting) shift)

-- While some backend accepts new sessions and the backends stay the same, selections without a
-- preferred backend succeed and take turns: the j-th of them answers the accepting backend whose place
-- in the list is the next index plus j, modulo their number.
pub select_times-TakesTurns :
    (k : ℕ) (m : MediaServerManager) (backends : List MediaBackend)
    → zero < length (keep accepts_new backends)
    → TakesTurns k m backends
unfolding select_times select_backend select_by
select_times-TakesTurns zero m backends some_accept = record {
  chosen = [];
  last = m;
  selected = refl;
  many = refl;
  turn = λ j h. absurd (omega (arith, h));
}
select_times-TakesTurns (suc k) m backends some_accept =
    let accepting = keep accepts_new backends in
    let count = length accepting in
    let index = m.next_backend_index in
    let (b, found) = get_elem?-below accepting (index % count) (mod-lt index some_accept) in
    let next = advanced m count in
    let later = select_times-TakesTurns k next backends some_accept in
    record {
      chosen = b ∷ later.chosen;
      last = later.last;
      selected = rw (select_next_found m accepting b found) (rw later.selected refl);
      many = ap suc later.many;
      turn = λ j h. turns_from accepting index b later.chosen k found later.turn j h;
    }
