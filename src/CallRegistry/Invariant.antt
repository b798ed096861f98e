-- ===== src/CallRegistry/Invariant.antt =====
-- The registry under any sequence of its operations.
use rtc_session_gateway.Base.{
  some_injective, ap, ◌∙◌, sym, subst, ℕ, suc, ◌+◌, String, true, false, Option, none, some, List,
  [], ◌∷◌, ◌≡◌, refl, arith, eq_iff, Option-cases, inl, inr,
}
use rtc_session_gateway.Base.Assoc.{
  lookup-insert_self, lookup, has, insert, erase, Unique, lookup-insert, lookup-erase,
  insert-Unique, erase-Unique, length-insert_fresh, length-erase_hit,
}
use rtc_session_gateway.CallRegistry.{
  normalize_call_id, with_sdp, update_found, remove_found, ActiveCall, CallRegistry, empty,
  has_call_or_reservation, reserve_call_id, release_reservation, activate, get, remove, update_sdp,
  size, pending_count,
}
use rtc_session_gateway.CallRegistry.Reserve.{candidate, reserve_call_id-Reserved}

-- An id is a call or a reservation, never both, and a call stands under its own id.
pub record IsConsistent (r : CallRegistry) : Type 0 where
  pub calls_once : Unique r.calls
  pub reservations_once : Unique r.reservations
  pub apart : (id : String) → has id r.calls ≡ true → has id r.reservations ≡ false
  pub keyed : (id : String) (call : ActiveCall) → lookup id r.calls ≡ some call → call.call_id ≡ id

pub data Operation : Type 0 where
  reserves : (uuid sip_call_id : String) → Operation
  releases : (call_id : String) → Operation
  activates : ActiveCall → Operation
  removes : (call_id : String) → Operation
  updates : (call_id : String) (local_sdp remote_sdp : Option String) (now : String) → Operation

abbrev after_reserve : CallRegistry → Option (String × CallRegistry) → CallRegistry
after_reserve r none = r
after_reserve r (some (id, s)) = s

pub step : CallRegistry → Operation → CallRegistry
step r (reserves uuid sip_call_id) = after_reserve r (reserve_call_id r uuid sip_call_id)
step r (releases id) = release_reservation r id
step r (activates call) = activate r call
step r (removes id) = (remove r id).1
step r (updates id local_sdp remote_sdp now) = update_sdp r id local_sdp remote_sdp now

pub run : CallRegistry → List Operation → CallRegistry
run r [] = r
run r (op ∷ ops) = run (step r op) ops

reserve-IsConsistent :
    (r : CallRegistry) (id : String)
    → has_call_or_reservation r id ≡ false
    → IsConsistent r
    → IsConsistent (record r { reservations = insert id tt r.reservations })
reserve-IsConsistent r id free v = record {
  calls_once = v.calls_once;
  reservations_once = insert-Unique id tt r.reservations v.reservations_once;
  apart = λ j h. ground (arith, lookup-insert id j tt r.reservations, v.apart j h, eq_iff id j);
  keyed = v.keyed;
}

release-IsConsistent :
    (r : CallRegistry) (id : String) → IsConsistent r → IsConsistent (release_reservation r id)
unfolding release_reservation
release-IsConsistent r id v = record {
  calls_once = v.calls_once;
  reservations_once = erase-Unique id r.reservations v.reservations_once;
  apart = λ j h. ground (arith, lookup-erase id j r.reservations v.reservations_once, v.apart j h);
  keyed = v.keyed;
}

activate-IsConsistent :
    (r : CallRegistry) (call : ActiveCall) → IsConsistent r → IsConsistent (activate r call)
unfolding activate
activate-IsConsistent r call v = record {
  calls_once = insert-Unique call.call_id call r.calls v.calls_once;
  reservations_once = erase-Unique call.call_id r.reservations v.reservations_once;
  apart = λ j h. ground (
    arith,
    lookup-insert call.call_id j call r.calls,
    lookup-erase call.call_id j r.reservations v.reservations_once,
    v.apart j,
  );
  keyed = λ j c h.
      ground (arith, lookup-insert call.call_id j call r.calls, v.keyed j c, eq_iff call.call_id j);
}

erase-IsConsistent :
    (r : CallRegistry) (id : String)
    → IsConsistent r
    → IsConsistent (record r { calls = erase id r.calls })
erase-IsConsistent r id v = record {
  calls_once = erase-Unique id r.calls v.calls_once;
  reservations_once = v.reservations_once;
  apart = λ j h. ground (arith, lookup-erase id j r.calls v.calls_once, v.apart j);
  keyed = λ j c h. ground (arith, lookup-erase id j r.calls v.calls_once, v.keyed j c);
}

remove-IsConsistent :
    (r : CallRegistry) (id : String) → IsConsistent r → IsConsistent (remove r id).1
unfolding remove
remove-IsConsistent r id v = elim (Option-cases (get r id)) [
  | inl missing ↦ rw (missing, remove_found) v
  | inr (call, found) ↦ rw (found, remove_found) (erase-IsConsistent r id v)
]

-- replacing a call by one of the same id
replace-IsConsistent :
    (r : CallRegistry) (id : String) (old new : ActiveCall)
    → get r id ≡ some old
    → new.call_id ≡ old.call_id
    → IsConsistent r
    → IsConsistent (record r { calls = insert id new r.calls })
replace-IsConsistent r id old new found same v = record {
  calls_once = insert-Unique id new r.calls v.calls_once;
  reservations_once = v.reservations_once;
  apart = λ j h. ground (arith, lookup-insert id j new r.calls, v.apart j, eq_iff id j, found);
  keyed = λ j c h.
      ground
        (arith, lookup-insert id j new r.calls, v.keyed j c, v.keyed id old found, eq_iff id j);
}

update-IsConsistent :
    (r : CallRegistry) (id : String) (l m : Option String) (now : String)
    → IsConsistent r
    → IsConsistent (update_sdp r id l m now)
unfolding update_sdp
update-IsConsistent r id l m now v = elim (Option-cases (get r id)) [
  | inl missing ↦ rw (missing, update_found) v
  | inr (call, found) ↦
      rw (found, update_found)
        (replace-IsConsistent r id call (with_sdp call l m now) found (unfold with_sdp in refl) v)
]

step-IsConsistent : (r : CallRegistry) (op : Operation) → IsConsistent r → IsConsistent (step r op)
unfolding step
step-IsConsistent r (reserves uuid sip_call_id) v =
    let s = reserve_call_id-Reserved r uuid sip_call_id in
    rw s.done (reserve-IsConsistent r _ s.free v)
step-IsConsistent r (releases id) v = release-IsConsistent r id v
step-IsConsistent r (activates call) v = activate-IsConsistent r call v
step-IsConsistent r (removes id) v = remove-IsConsistent r id v
step-IsConsistent r (updates id l m now) v = update-IsConsistent r id l m now v

empty-IsConsistent : IsConsistent empty
unfolding lookup
empty-IsConsistent = record {
  calls_once = tt;
  reservations_once = tt;
  apart = λ id h. refl;
  keyed = λ id c h. absurd (cc);
}

run-IsConsistent :
    (r : CallRegistry) (ops : List Operation) → IsConsistent r → IsConsistent (run r ops)
unfolding run
run-IsConsistent r [] v = v
run-IsConsistent r (op ∷ ops) v = run-IsConsistent (step r op) ops (step-IsConsistent r op v)

-- After any sequence of operations on a fresh registry no id is both a call and a reservation, none
-- is held twice, and each call stands under its own id.
pub run-empty-IsConsistent : (ops : List Operation) → IsConsistent (run empty ops)
run-empty-IsConsistent ops = run-IsConsistent empty ops empty-IsConsistent

-- What the shutdown waits for: `registry.size + registry.pendingCount`.
abbrev pub resources : CallRegistry → ℕ
resources r = size r + pending_count r

abbrev HoldsOne : CallRegistry → ActiveCall → String × CallRegistry → Type 0
HoldsOne r call (id, s) =
    (resources s ≡ suc (resources r))
    × (resources (release_reservation s id) ≡ resources r)
    × (resources (activate s call) ≡ suc (resources r))
    × (resources (remove (activate s call) id).1 ≡ resources r)

abbrev with_reserved : CallRegistry → String → CallRegistry
with_reserved r id = record r { reservations = insert id tt r.reservations }

reserved_HoldsOne :
    (r : CallRegistry) (call : ActiveCall)
    → has_call_or_reservation r call.call_id ≡ false
    → HoldsOne r call (call.call_id, with_reserved r call.call_id)
unfolding release_reservation activate remove
reserved_HoldsOne r call free =
    let id = call.call_id in
    let no_call : lookup id r.calls ≡ none = ground arith in
    let no_reservation : lookup id r.reservations ≡ none = ground arith in
    let more = length-insert_fresh id tt r.reservations no_reservation in
    let back = length-erase_hit id tt _ (lookup-insert_self id tt r.reservations) in
    let called = length-insert_fresh id call r.calls no_call in
    let found = lookup-insert_self id call r.calls in
    let gone = length-erase_hit id call _ found in
    (
      omega (arith, more),
      omega (arith, more, back),
      omega (arith, more, back, called),
      rw (found, remove_found) (omega (arith, more, back, called, gone)),
    )

-- A call being set up holds one resource: its reservation takes one, a release gives it back, the
-- call that takes the place of the reservation holds it on, and the removal of the call gives it
-- back.
pub setup_holds_one :
    (r s : CallRegistry) (uuid sip_call_id id : String) (call : ActiveCall)
    → reserve_call_id r uuid sip_call_id ≡ some (id, s)
    → call.call_id ≡ id
    → (resources s ≡ suc (resources r))
      × (resources (release_reservation s id) ≡ resources r)
      × (resources (activate s call) ≡ suc (resources r))
      × (resources (remove (activate s call) id).1 ≡ resources r)
setup_holds_one r s uuid sip_call_id id call h e =
    let f = reserve_call_id-Reserved r uuid sip_call_id in
    let pair = some_injective (sym f.done ∙ h) in
    let same : call.call_id ≡ candidate (normalize_call_id uuid (some sip_call_id)) f.at =
      e ∙ sym (ap (λ (p : String × CallRegistry). p.0) pair) in
    subst (HoldsOne r call) pair (
      subst (λ j. has_call_or_reservation r j ≡ false → HoldsOne r call (j, with_reserved r j)) same
        (reserved_HoldsOne r call) f.free)
