-- ===== src/MediaServerManager/Pins.antt =====
-- src/media-server-manager.ts: the pins of calls under any operations: while a call has references, it
-- stays with its backend.
use rtc_session_gateway.MediaServerManager.Affinity.{
  select_by_inv, truthy-some, preferred_pinned, other_key, IsAdmitted,
}
use rtc_session_gateway.MediaServerManager.{
  select_by, or_first, select_backend, pin_call, unregister_found, truthy, pinned_for, pin_found,
  pin_chosen, pick_with, sweep_stale_entries, unregister_call, register_call, put, pick_backend,
  sweep_pins, register_found, is_stale, Pin, MediaServerManager, MediaBackend,
}
use rtc_session_gateway.Base.{
  ne_of_eq-false, some_injective, inr, inl, Bool-cases, ℕ, zero, ◌+◌, ◌-◌, ◌<◌, ◌≤◌, Bool, false,
  Option, none, some, List, [], ◌∷◌, String, ◌==◌, ◌≡◌, ◌≢◌, refl, arith, eq_iff, sym, ap, ◌∙◌,
  subst,
}
use rtc_session_gateway.Base.Assoc.{lookup-erase, lookup-insert, lookup, Unique, Map}
use rtc_session_gateway.Errors.{ok_injective, >>=-eq-ok, guard_inv, Result, ok, err}

pub data Operation : Type 0 where
  picks : List MediaBackend → (backend_id call_id : Option String) → (now : ℕ) → Operation
  registers : (call_id backend_id : String) → (now : ℕ) → Operation
  unregisters :
      (call_id : String)
      → (backend_id : Option String) → (now : ℕ) → (is_call_active : Bool) → Operation
  sweeps : (now : ℕ) → (is_call_active : String → Bool) → Operation

-- an operation that throws leaves the manager as it is
after_pick : MediaServerManager → Result (MediaBackend × MediaServerManager) → MediaServerManager
after_pick m (ok (b, m')) = m'
after_pick m (err error) = m

after_register : MediaServerManager → Result MediaServerManager → MediaServerManager
after_register m (ok m') = m'
after_register m (err error) = m

unfoldable pub step : MediaServerManager → Operation → MediaServerManager
unfolding after_pick after_register
step m (picks backends backend_id call_id now) =
    after_pick m (pick_backend m backends backend_id call_id now)
step m (registers call_id backend_id now) =
    after_register m (register_call m call_id backend_id now)
step m (unregisters call_id backend_id now active) = unregister_call m call_id backend_id now active
step m (sweeps now active) = sweep_stale_entries m now active

-- whether the operation gives up a reference of the call
abbrev pub releases : String → Operation → Bool
releases call_id (unregisters i backend_id now active) = i == call_id
releases call_id operation = false

-- The call is still pinned to the backend, with no fewer references.
pub record IsHeld (call_id : String) (pin : Pin) (m : MediaServerManager) : Type 0 where
  pub now_pinned : Pin
  pub found : lookup call_id m.call_to_backend ≡ some now_pinned
  pub same_backend : now_pinned.backend_id ≡ pin.backend_id
  pub kept_refs : pin.refs ≤ now_pinned.refs

unchanged :
    (call_id : String) (pin : Pin) (m : MediaServerManager)
    → lookup call_id m.call_to_backend ≡ some pin
    → IsHeld call_id pin m
unchanged call_id pin m e = record {
  now_pinned = pin;
  found = e;
  same_backend = refl;
  kept_refs = omega arith;
}

held_not_stale :
    (now : ℕ) (active : String → Bool) (i : String) (pin : Pin)
    → zero < pin.refs
    → is_stale now active i pin ≡ false
unfolding is_stale
held_not_stale now active i pin r = ground arith

lookup-sweep :
    (now : ℕ) (active : String → Bool) (pins : Map Pin) (call_id : String) (pin : Pin)
    → Unique pins
    → lookup call_id pins ≡ some pin
    → zero < pin.refs
    → lookup call_id (sweep_pins now active pins) ≡ some pin
unfolding sweep_pins lookup
lookup-sweep now active [] call_id pin u h r = absurd (cc)
lookup-sweep now active ((i, p) ∷ pins) call_id pin u h r = elim (Bool-cases (i == call_id)) [
  | inl e ↦
      let same : p ≡ pin = some_injective (ground (arith, h, e)) in
      let fresh : is_stale now active i p ≡ false =
        subst (λ (x : Pin). is_stale now active i x ≡ false) (sym same)
          (held_not_stale now active i pin r) in
      rw fresh (rw e (ap some same))
  | inr e ↦
      let later = lookup-sweep now active pins call_id pin u.1 (ground (arith, h, e)) r in
      elim (Bool-cases (is_stale now active i p)) [
        | inl stale ↦ rw stale later
        | inr kept ↦ rw kept (rw e later)
      ]
]

-- The pin of a call takes the place of one to the same backend, with no fewer references.
replaced-IsHeld :
    (m : MediaServerManager) (call_id : String) (pin : Pin) (i : String) (p new : Pin)
    → lookup i m.call_to_backend ≡ some p
    → lookup call_id m.call_to_backend ≡ some pin
    → new.backend_id ≡ p.backend_id
    → p.refs ≤ new.refs
    → IsHeld call_id pin (put m i new)
replaced-IsHeld m call_id pin i p new e h named more = elim (Bool-cases (i == call_id)) [
  | inl same ↦
      let p_is : p ≡ pin =
        some_injective
          (sym e ∙ (ap (λ k. lookup k m.call_to_backend) ((eq_iff i call_id).0 same) ∙ h)) in
      record {
        now_pinned = new;
        found = ground (arith, lookup-insert i call_id new m.call_to_backend, same);
        same_backend = named ∙ ap (λ (x : Pin). x.backend_id) p_is;
        kept_refs = subst (λ (x : Pin). x.refs ≤ new.refs) p_is more;
      }
  | inr other ↦
      unchanged call_id pin (put m i new)
        (ground (arith, lookup-insert i call_id new m.call_to_backend, h, other))
]

register-IsHeld :
    (m : MediaServerManager) (call_id : String) (pin : Pin) (i backend_id : String) (now : ℕ)
    (found : Option Pin)
    → lookup i m.call_to_backend ≡ found
    → lookup call_id m.call_to_backend ≡ some pin
    → IsHeld call_id pin (after_register m (register_found m i backend_id now found))
unfolding after_register register_found
register-IsHeld m call_id pin i backend_id now none e h = elim (Bool-cases (i == call_id)) [
  | inl same ↦ absurd (ground (arith, e, h, eq_iff i call_id, same))
  | inr other ↦ record {
    now_pinned = pin;
    found = ground (
      arith,
      lookup-insert i call_id (record { backend_id = backend_id; created_at = now; refs = 1 })
          m.call_to_backend,
      h,
      other,
    );
    same_backend = refl;
    kept_refs = omega arith;
  }
]
register-IsHeld m call_id pin i backend_id now (some p) e h =
    elim (Bool-cases (p.backend_id == backend_id)) [
      | inr different ↦ rw different (unchanged call_id pin m h)
      | inl agrees ↦ rw agrees (
          replaced-IsHeld m call_id pin i p (record p { refs = p.refs + 1; created_at = now }) e h
            refl (omega arith))
    ]

-- What a pick does to the pins: the selection leaves them, and the answer is pinned.
pick_inv :
    (m m' : MediaServerManager) (backends : List MediaBackend) (asked call : Option String)
    (now : ℕ) (b : MediaBackend)
    → pick_with m backends asked call now ≡ ok (b, m')
    → (selected : MediaServerManager) × IsAdmitted backends
        (truthy (or_first (pinned_for m call) asked))
        b
      × (selected.call_to_backend ≡ m.call_to_backend)
      × (m' ≡ pin_chosen selected call b.id now)
unfolding pick_with select_backend
pick_inv m m' backends asked call now b h =
    let (free, h1) = guard_inv _ _ _ h in
    let ((c, selected), chosen, h2) =
      >>=-eq-ok (select_by m backends (truthy (or_first (pinned_for m call) asked))) _ h1 in
    let (admitted, same) = select_by_inv m selected backends _ c chosen in
    let done = ok_injective h2 in
    let is_b : c ≡ b = ap (λ (p : MediaBackend × MediaServerManager). p.0) done in
    let is_m : pin_chosen selected call c.id now ≡ m' =
      ap (λ (p : MediaBackend × MediaServerManager). p.1) done in
    (
      selected,
      subst
          (λ (x : MediaBackend).
            IsAdmitted backends (truthy (or_first (pinned_for m call) asked)) x)
          is_b admitted,
      same,
      sym is_m ∙ ap (λ (x : MediaBackend). pin_chosen selected call x.id now) is_b,
    )

pin_found-IsHeld :
    (m : MediaServerManager) (call_id : String) (pin : Pin) (i backend_id : String) (now : ℕ)
    (found : Option Pin)
    → lookup i m.call_to_backend ≡ found
    → lookup call_id m.call_to_backend ≡ some pin
    → (i ≡ call_id → backend_id ≡ pin.backend_id)
    → IsHeld call_id pin (pin_found m i backend_id now found)
unfolding pin_found
pin_found-IsHeld m call_id pin i backend_id now none e h stays = unchanged call_id pin _ (
    other_key m i call_id _
      (λ same. absurd (cc (h, sym e, ap (λ k. lookup k m.call_to_backend) same)))
    ∙ h)
pin_found-IsHeld m call_id pin i backend_id now (some p) e h stays =
    elim (Bool-cases (p.backend_id == backend_id)) [
      | inl agrees ↦
          rw agrees (
            replaced-IsHeld m call_id pin i p (record p { created_at = now }) e h refl
              (omega arith))
      | inr different ↦ rw different (
          unchanged call_id pin _ (
            other_key m i call_id _ (λ same.
              let p_is : p ≡ pin =
                some_injective (sym e ∙ (ap (λ k. lookup k m.call_to_backend) (sym same) ∙ h)) in
              absurd (
                ne_of_eq-false p.backend_id backend_id different
                  (ap (λ (x : Pin). x.backend_id) p_is ∙ sym (stays (sym same)))))
            ∙ h))
    ]

pinned_answer :
    (m : MediaServerManager) (backends : List MediaBackend) (asked : Option String) (i : String)
    (pin : Pin) (b : MediaBackend)
    → IsAdmitted backends (truthy (or_first (pinned_for m (some i)) asked)) b
    → lookup i m.call_to_backend ≡ some pin
    → pin.backend_id ≢ ""
    → b.id ≡ pin.backend_id
unfolding pinned_for
pinned_answer m backends asked i pin b admitted h full =
    admitted.wanted pin.backend_id
      (ap truthy (preferred_pinned m i asked pin h) ∙ truthy-some pin.backend_id full)

pick-IsHeld :
    (m : MediaServerManager) (call_id : String) (pin : Pin) (backends : List MediaBackend)
    (asked call : Option String) (now : ℕ) (result : Result (MediaBackend × MediaServerManager))
    → pick_with m backends asked call now ≡ result
    → lookup call_id m.call_to_backend ≡ some pin
    → pin.backend_id ≢ ""
    → IsHeld call_id pin (after_pick m result)
unfolding after_pick pin_chosen pin_call
pick-IsHeld m call_id pin backends asked call now (err error) e h full = unchanged call_id pin m h
pick-IsHeld m call_id pin backends asked none now (ok (b, m')) e h full =
    let (selected, admitted, same, last) = pick_inv m m' backends asked none now b e in
    subst (IsHeld call_id pin) (sym last)
      (unchanged call_id pin selected (ap (λ pins. lookup call_id pins) same ∙ h))
pick-IsHeld m call_id pin backends asked (some i) now (ok (b, m')) e h full =
    let (selected, admitted, same, last) = pick_inv m m' backends asked (some i) now b e in
    subst (IsHeld call_id pin) (sym last) (
      pin_found-IsHeld selected call_id pin i b.id now (lookup i selected.call_to_backend) refl
        (ap (λ pins. lookup call_id pins) same ∙ h)
        (λ is_call.
          pinned_answer m backends asked i pin b admitted
            (ap (λ k. lookup k m.call_to_backend) is_call ∙ h) full))

unregister_found-others :
    (m : MediaServerManager) (call_id : String) (pin : Pin) (i : String)
    (backend_id : Option String) (now : ℕ) (active : Bool) (found : Option Pin)
    → Unique m.call_to_backend
    → (i == call_id) ≡ false
    → lookup call_id m.call_to_backend ≡ some pin
    → lookup call_id (unregister_found m i backend_id now active found).call_to_backend ≡ some pin
unfolding unregister_found
unregister_found-others m call_id pin i backend_id now active none u ne h = h
unregister_found-others m call_id pin i backend_id now active (some p) u ne h = ground (
  arith,
  lookup-insert i call_id (record p { refs = p.refs - 1; created_at = now }) m.call_to_backend,
  lookup-insert i call_id (record p { refs = 0; created_at = now }) m.call_to_backend,
  lookup-erase i call_id m.call_to_backend u,
  ne,
  h,
)

-- In a manager whose pins have one entry for a call: while a call has references and is pinned to a
-- backend whose id is not empty, every operation that is not an `unregisterCall` of it leaves it pinned
-- to the same backend with no fewer references: picks, registrations, what other calls do, and the
-- sweep, whatever the time.
pub step-IsHeld :
    (m : MediaServerManager) (operation : Operation) (call_id : String) (pin : Pin)
    → Unique m.call_to_backend
    → lookup call_id m.call_to_backend ≡ some pin
    → zero < pin.refs
    → pin.backend_id ≢ ""
    → releases call_id operation ≡ false
    → IsHeld call_id pin (step m operation)
unfolding step pick_backend register_call unregister_call sweep_stale_entries
step-IsHeld m (picks backends asked call now) call_id pin u h r full kept =
    pick-IsHeld m call_id pin backends asked (truthy call) now _ refl h full
step-IsHeld m (registers i backend_id now) call_id pin u h r full kept =
    register-IsHeld m call_id pin i backend_id now (lookup i m.call_to_backend) refl h
step-IsHeld m (unregisters i backend_id now active) call_id pin u h r full kept =
    unchanged call_id pin _ (
      unregister_found-others m call_id pin i backend_id now active (lookup i m.call_to_backend) u
        kept h)
step-IsHeld m (sweeps now active) call_id pin u h r full kept =
    unchanged call_id pin _ (lookup-sweep now active m.call_to_backend call_id pin u h r)
