-- ===== src/MediaServerManager/Affinity.antt =====
-- src/media-server-manager.ts: which backend `selectBackend` and `pickBackend` may answer, and that a
-- call stays with the backend that it is pinned to.
use rtc_session_gateway.MediaServerManager.{
  select_backend, pin_chosen, pinned_for, pick_with, pick_backend, or_first, backend_of,
  get_backend_for_call, pin_found, Pin, truthy, select_next, select_by, preferred_backend, pin_call,
  MediaServerManager, accepts_new, MediaBackend,
}
use rtc_session_gateway.Base.{
  Option-cases, inr, some_injective, inl, Bool-cases, ℕ, zero, suc, ◌%◌, true, false, Option, none,
  some, List, [], ◌∷◌, length, get_elem?, String, ◌==◌, find, keep, ◌≡◌, ◌≢◌, refl, arith, eq_iff,
  sym, ap, ◌∙◌, subst,
}
use rtc_session_gateway.Base.Assoc.{lookup-insert, insert, lookup, lookup-insert_self}
use rtc_session_gateway.Errors.{or_throw_inv, ok_injective, >>=-eq-ok, ok, or_throw, guard_inv}

pub data Mem : MediaBackend → List MediaBackend → Type 0 where
  here : {b : MediaBackend} {bs : List MediaBackend} → Mem b (b ∷ bs)
  there : {b c : MediaBackend} {bs : List MediaBackend} → Mem b bs → Mem b (c ∷ bs)

-- A backend that may be answered: one of those there are, it accepts new sessions, and it is the
-- preferred one if one is preferred.
pub record IsAdmitted (backends : List MediaBackend) (preferred : Option String) (b : MediaBackend)
    : Type 0 where
  pub listed : Mem b backends
  pub accepting : accepts_new b ≡ true
  pub wanted : (id : String) → preferred ≡ some id → b.id ≡ id

find_Mem :
    (backends : List MediaBackend) (id : String) (b : MediaBackend)
    → find (λ c. c.id == id) backends ≡ some b
    → Mem b backends × (b.id ≡ id)
find_Mem [] id b h = absurd (cc)
find_Mem (c ∷ backends) id b h = elim (Bool-cases (c.id == id)) [
  | inl e ↦
      let same : c ≡ b = some_injective (ground (arith, h, e)) in
      subst (λ (x : MediaBackend). Mem x (c ∷ backends) × (x.id ≡ id)) same
        (here, (eq_iff c.id id).0 e)
  | inr e ↦
      let (listed, named) = find_Mem backends id b (ground (arith, h, e)) in (there listed, named)
]

kept :
    (c : MediaBackend) (backends : List MediaBackend)
    → accepts_new c ≡ true
    → keep accepts_new (c ∷ backends) ≡ c ∷ keep accepts_new backends
kept c backends e = rw e refl

left_out :
    (c : MediaBackend) (backends : List MediaBackend)
    → accepts_new c ≡ false
    → keep accepts_new (c ∷ backends) ≡ keep accepts_new backends
left_out c backends e = rw e refl

keep_Mem :
    (backends : List MediaBackend) (i : ℕ) (b : MediaBackend)
    → get_elem? (keep accepts_new backends) i ≡ some b
    → Mem b backends × (accepts_new b ≡ true)
keep_Mem [] i b h = absurd (cc)
keep_Mem (c ∷ backends) zero b h = elim (Bool-cases (accepts_new c)) [
  | inl e ↦
      let same : c ≡ b =
        some_injective (subst (λ l. get_elem? l 0 ≡ some b) (kept c backends e) h) in
      subst (λ (x : MediaBackend). Mem x (c ∷ backends) × (accepts_new x ≡ true)) same (here, e)
  | inr e ↦
      let (listed, accepting) =
        keep_Mem backends 0 b (subst (λ l. get_elem? l 0 ≡ some b) (left_out c backends e) h) in
      (there listed, accepting)
]
keep_Mem (c ∷ backends) (suc i) b h = elim (Bool-cases (accepts_new c)) [
  | inl e ↦
      let (listed, accepting) =
        keep_Mem backends i b (subst (λ l. get_elem? l (suc i) ≡ some b) (kept c backends e) h) in
      (there listed, accepting)
  | inr e ↦
      let (listed, accepting) =
        keep_Mem backends (suc i) b
          (subst (λ l. get_elem? l (suc i) ≡ some b) (left_out c backends e) h) in
      (there listed, accepting)
]

select_next_inv :
    (m m' : MediaServerManager) (accepting : List MediaBackend) (b : MediaBackend)
    → select_next m accepting ≡ ok (b, m')
    → (get_elem? accepting (m.next_backend_index % length accepting) ≡ some b)
      × (m'.call_to_backend ≡ m.call_to_backend)
unfolding select_next
select_next_inv m m' [] b h = absurd (cc)
select_next_inv m m' (first ∷ more) b h =
    let (c, found, h1) = >>=-eq-ok (or_throw (get_elem? (first ∷ more) _) _) _ h in
    let same = ok_injective h1 in
    (
      or_throw_inv _ _ found ∙ ap (λ (p : MediaBackend × MediaServerManager). some (p.0)) same,
      sym (ap (λ (p : MediaBackend × MediaServerManager). p.1.call_to_backend) same),
    )

preferred_inv :
    (backends : List MediaBackend) (id : String) (b : MediaBackend)
    → preferred_backend backends id ≡ ok b
    → IsAdmitted backends (some id) b
unfolding preferred_backend
preferred_inv backends id b h =
    let (c, found, h1) = >>=-eq-ok (or_throw (find (λ c. c.id == id) backends) _) _ h in
    let (accepting, h2) = guard_inv (accepts_new c) _ _ h1 in
    let (listed, named) = find_Mem backends id c (or_throw_inv _ _ found) in
    subst (IsAdmitted backends (some id)) (ok_injective h2)
      (record { listed = listed; accepting = accepting; wanted = λ j e. named ∙ some_injective e })

pub select_by_inv :
    (m m' : MediaServerManager) (backends : List MediaBackend) (preferred : Option String)
    (b : MediaBackend)
    → select_by m backends preferred ≡ ok (b, m')
    → IsAdmitted backends preferred b × (m'.call_to_backend ≡ m.call_to_backend)
unfolding select_by
select_by_inv m m' backends none b h =
    let (at, same) = select_next_inv m m' (keep accepts_new backends) b h in
    let (listed, accepting) = keep_Mem backends _ b at in
    (record { listed = listed; accepting = accepting; wanted = λ id e. absurd (cc) }, same)
select_by_inv m m' backends (some id) b h =
    let (c, chosen, h1) = >>=-eq-ok (preferred_backend backends id) _ h in
    let same = ok_injective h1 in
    (
      subst (IsAdmitted backends (some id))
          (ap (λ (p : MediaBackend × MediaServerManager). p.0) same)
          (preferred_inv backends id c chosen),
      sym (ap (λ (p : MediaBackend × MediaServerManager). p.1.call_to_backend) same),
    )

-- What a successful pick for a call has done: the backend is one that accepts new sessions; it is the
-- one that the call was pinned to, or else the one asked for, where either is a text that is not
-- empty; afterwards the call is pinned to it, and every other call as before.
pub record IsPicked (m m' : MediaServerManager) (backends : List MediaBackend)
    (asked : Option String) (call_id : String) (b : MediaBackend) : Type 0 where
  pub listed : Mem b backends
  pub accepting : accepts_new b ≡ true
  pub stays :
      (pin : Pin)
      → lookup call_id m.call_to_backend ≡ some pin
      → pin.backend_id ≢ ""
      → b.id ≡ pin.backend_id
  pub asked_for :
      (id : String)
      → asked ≡ some id
      → id ≢ ""
      → lookup call_id m.call_to_backend ≡ none
      → b.id ≡ id
  pub pinned : get_backend_for_call m' call_id ≡ some b.id
  pub others : (j : String) → j ≢ call_id → lookup j m'.call_to_backend ≡ lookup j m.call_to_backend

pub other_key :
    (m : MediaServerManager) (call_id j : String) (pin : Pin)
    → j ≢ call_id
    → lookup j (insert call_id pin m.call_to_backend) ≡ lookup j m.call_to_backend
other_key m call_id j pin ne =
    ground
      (arith, lookup-insert call_id j pin m.call_to_backend, eq_iff call_id j, eq_iff j call_id)

pub truthy-some : (s : String) → s ≢ "" → truthy (some s) ≡ some s
truthy-some s h = ground (arith, eq_iff s "")

pin_call-pinned :
    (m : MediaServerManager) (call_id backend_id : String) (now : ℕ)
    → get_backend_for_call (pin_call m call_id backend_id now) call_id ≡ some backend_id
unfolding pin_call pin_found get_backend_for_call backend_of
pin_call-pinned m call_id backend_id now = elim (Option-cases (lookup call_id m.call_to_backend)) [
  | inl e ↦ rw e (rw (lookup-insert_self call_id _ m.call_to_backend) refl)
  | inr (pin, e) ↦ rw e (elim (Bool-cases (pin.backend_id == backend_id)) [
    | inl same ↦ rw same (
        rw (lookup-insert_self call_id _ m.call_to_backend)
          (ap some ((eq_iff pin.backend_id backend_id).0 same)))
    | inr other ↦ rw other (rw (lookup-insert_self call_id _ m.call_to_backend) refl)
  ])
]

pub pin_call-others :
    (m : MediaServerManager) (call_id backend_id : String) (now : ℕ) (j : String)
    → j ≢ call_id
    → lookup j (pin_call m call_id backend_id now).call_to_backend ≡ lookup j m.call_to_backend
unfolding pin_call pin_found
pin_call-others m call_id backend_id now j ne =
    elim (Option-cases (lookup call_id m.call_to_backend)) [
      | inl e ↦ rw e (other_key m call_id j _ ne)
      | inr (pin, e) ↦ rw e (elim (Bool-cases (pin.backend_id == backend_id)) [
        | inl same ↦ rw same (other_key m call_id j _ ne)
        | inr other ↦ rw other (other_key m call_id j _ ne)
      ])
    ]

pub preferred_pinned :
    (m : MediaServerManager) (call_id : String) (asked : Option String) (pin : Pin)
    → lookup call_id m.call_to_backend ≡ some pin
    → or_first (get_backend_for_call m call_id) asked ≡ some pin.backend_id
unfolding get_backend_for_call backend_of
preferred_pinned m call_id asked pin e = rw e refl

preferred_asked :
    (m : MediaServerManager) (call_id : String) (asked : Option String)
    → lookup call_id m.call_to_backend ≡ none
    → or_first (get_backend_for_call m call_id) asked ≡ asked
unfolding get_backend_for_call backend_of
preferred_asked m call_id asked e = rw e refl

-- A successful pick for a call whose id is not empty answers a backend of the list that accepts new
-- sessions. If the call was pinned, to a backend whose id is not empty, that backend is answered; if it
-- was not and a backend was asked for by an id that is not empty, that one is. Afterwards the call is
-- pinned to the answer, and every other call is pinned as before.
pub pick_backend-IsPicked :
    (m m' : MediaServerManager) (backends : List MediaBackend) (asked : Option String)
    (call_id : String) (now : ℕ) (b : MediaBackend)
    → call_id ≢ ""
    → pick_backend m backends asked (some call_id) now ≡ ok (b, m')
    → IsPicked m m' backends asked call_id b
unfolding pick_backend pick_with pinned_for pin_chosen select_backend
pick_backend-IsPicked m m' backends asked call_id now b named h =
    let h0 =
      subst (λ c. pick_with m backends asked c now ≡ ok (b, m')) (truthy-some call_id named) h in
    let (free, h1) = guard_inv _ _ _ h0 in
    let ((c, selected), chosen, h2) =
      >>=-eq-ok (select_by m backends (truthy (or_first (get_backend_for_call m call_id) asked))) _
        h1 in
    let (admitted, same) = select_by_inv m selected backends _ c chosen in
    let done = ok_injective h2 in
    let is_b : c ≡ b = ap (λ (p : MediaBackend × MediaServerManager). p.0) done in
    let is_m : pin_call selected call_id c.id now ≡ m' =
      ap (λ (p : MediaBackend × MediaServerManager). p.1) done in
    subst (λ (x : MediaServerManager). IsPicked m x backends asked call_id b) is_m
      (subst
        (λ (x : MediaBackend).
          IsPicked m (pin_call selected call_id c.id now) backends asked call_id x)
        is_b
        (record {
          listed = admitted.listed;
          accepting = admitted.accepting;
          stays = λ pin e full. admitted.wanted pin.backend_id (
              ap truthy (preferred_pinned m call_id asked pin e) ∙ truthy-some pin.backend_id full);
          asked_for = λ id e full fresh.
              admitted.wanted id
                (ap truthy (preferred_asked m call_id asked fresh ∙ e) ∙ truthy-some id full);
          pinned = pin_call-pinned selected call_id c.id now;
          others = λ j ne.
              pin_call-others selected call_id c.id now j ne ∙ ap (λ pins. lookup j pins) same;
        }))
