-- ===== src/ControlHub/Exclusive.antt =====
-- src/control-hub.ts: `assertRoutesAvailable`: what passes it, and what it keeps apart.
use rtc_session_gateway.Errors.{guard_inv, >>=-eq-ok, ok}
use rtc_session_gateway.ControlHub.{ControlConnection}
use rtc_session_gateway.Routing.{RouteConfig}
use rtc_session_gateway.ControlHub.Routes.{
  route_key, claims, check_others, check_duplicates, check_claimed,
}
use rtc_session_gateway.Base.Assoc.{Map, lookup, Unique}
use rtc_session_gateway.Base.{
  some_injective, ne_of_eq-false, subst, inr, inl, Bool-cases, ◌≡◌, ◌≢◌, String, true, false, not,
  refl, any, arith, sym, List, [], ◌∷◌, if◌then◌else◌, ◌==◌, some, eq_iff,
}

-- No key is claimed twice in the list.
abbrev pub Distinct : List RouteConfig → Type 0
Distinct [] = Unit
Distinct (route ∷ routes) = (claims (route_key route) routes ≡ false) × Distinct routes

-- No key of one list is claimed by the other.
abbrev pub Apart : List RouteConfig → List RouteConfig → Type 0
Apart routes others = (key : String) → claims key routes ≡ true → claims key others ≡ false

pub claimed_sound :
    (claimed routes : List RouteConfig)
    → check_claimed claimed routes ≡ ok tt
    → Apart routes claimed
unfolding check_claimed
claimed_sound claimed [] h key c = absurd (cc)
claimed_sound claimed (r ∷ routes) h key c =
    let (free, rest) = guard_inv (not (claims (route_key r) claimed)) _ _ h in
    elim (Bool-cases (route_key r == key)) [
      | inl e ↦
          subst (λ k. claims k claimed ≡ false) ((eq_iff (route_key r) key).0 e)
            (ground (arith, free))
      | inr e ↦ claimed_sound claimed routes rest key (ground (arith, c, e))
    ]

claimed_complete :
    (claimed routes : List RouteConfig)
    → Apart routes claimed
    → check_claimed claimed routes ≡ ok tt
unfolding check_claimed
claimed_complete claimed [] apart = refl
claimed_complete claimed (r ∷ routes) apart =
    rw (apart (route_key r) (ground (arith, eq_iff (route_key r) (route_key r))))
      (claimed_complete claimed routes (λ key c. apart key (ground (arith, c))))

pub duplicates_sound :
    (seen : List String) (routes : List RouteConfig)
    → check_duplicates seen routes ≡ ok tt
    → Distinct routes
      × ((key : String) → any (λ k. k == key) seen ≡ true → claims key routes ≡ false)
unfolding check_duplicates
duplicates_sound seen [] h = (tt, λ key c. refl)
duplicates_sound seen (r ∷ routes) h =
    let (fresh, rest) = guard_inv (not (any (λ k. k == route_key r) seen)) _ _ h in
    let (distinct, free) = duplicates_sound (route_key r ∷ seen) routes rest in
    (
      (free (route_key r) (ground (arith, eq_iff (route_key r) (route_key r))), distinct),
      λ key c. elim (Bool-cases (route_key r == key)) [
        | inl e ↦
            let same =
              subst (λ k. any (λ j. j == k) seen ≡ true) (sym ((eq_iff (route_key r) key).0 e)) c in
            absurd (ground (arith, same, fresh))
        | inr e ↦ ground (arith, e, free key (ground (arith, c)))
      ],
    )

pub duplicates_complete :
    (seen : List String) (routes : List RouteConfig)
    → Distinct routes
    → ((key : String) → any (λ k. k == key) seen ≡ true → claims key routes ≡ false)
    → check_duplicates seen routes ≡ ok tt
unfolding check_duplicates
duplicates_complete seen [] distinct free = refl
duplicates_complete seen (r ∷ routes) distinct free =
    let fresh : any (λ k. k == route_key r) seen ≡ false =
      elim (Bool-cases (any (λ k. k == route_key r) seen)) [
        | inl e ↦ absurd (ground (arith, free (route_key r) e, eq_iff (route_key r) (route_key r)))
        | inr e ↦ e
      ] in
    rw fresh (
      duplicates_complete (route_key r ∷ seen) routes distinct.1 (λ key c.
        elim (Bool-cases (route_key r == key)) [
          | inl e ↦ subst (λ k. claims k routes ≡ false) ((eq_iff (route_key r) key).0 e) distinct.0
          | inr e ↦ ground (arith, e, free key (ground (arith, c, e)))
        ]))

-- No other connection of the map claims a key of the list.
abbrev pub ApartFrom : String → List RouteConfig → Map ControlConnection → Type 0
ApartFrom owner routes connections =
    (id : String) (c : ControlConnection)
    → lookup id connections ≡ some c
    → id ≢ owner
    → Apart routes c.routes

pub others_sound :
    (owner : String) (routes : List RouteConfig) (m : Map ControlConnection)
    → check_others owner routes m ≡ ok tt
    → ApartFrom owner routes m
unfolding check_others lookup
others_sound owner routes [] h id c found ne = absurd (cc)
others_sound owner routes ((i, d) ∷ m) h id c found ne =
    let (u, here, rest) =
      >>=-eq-ok (if i == owner then ok tt else check_claimed d.routes routes) _ h in
    elim (Bool-cases (i == id)) [
      | inl e ↦
          subst (λ (x : ControlConnection). Apart routes x.routes) {x = d} {y = c}
            (some_injective (ground (arith, e, found)))
            (claimed_sound d.routes routes
              (ground (arith, here, e, eq_iff i id, eq_iff i owner, ne)))
      | inr e ↦ others_sound owner routes m rest id c (ground (arith, e, found)) ne
    ]

pub others_complete :
    (owner : String) (routes : List RouteConfig) (m : Map ControlConnection)
    → Unique m
    → ApartFrom owner routes m
    → check_others owner routes m ≡ ok tt
unfolding check_others lookup
others_complete owner routes [] u apart = refl
others_complete owner routes ((i, d) ∷ m) u apart =
    let rest =
      others_complete owner routes m u.1
        (λ id c found ne. apart id c (ground (arith, u, eq_iff i id, found)) ne) in
    elim (Bool-cases (i == owner)) [
      | inl e ↦ rw e rest
      | inr e ↦ rw e (
          rw
            (claimed_complete d.routes routes
              (apart i d (ground (arith, eq_iff i i)) (ne_of_eq-false i owner e)))
            rest)
    ]
