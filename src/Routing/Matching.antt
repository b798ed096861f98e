-- ===== src/Routing/Matching.antt =====
-- Which routes take a destination, as a relation, and that `matchRoute` finds the first of them.
use rtc_session_gateway.Base.{
  ◌↔◌, [], find, false, String, true, Option, none, some, List, ◌∷◌, ◌++◌, ◌≡◌, refl, ap, ◌==◌,
  eq_iff, eq_refl, All, Bool-cases, inl, inr, arith,
}
use rtc_session_gateway.Base.Text.{◌<>◌, starts_with, starts_with-append, starts_with_rest}
use rtc_session_gateway.Routing.{
  normalize_user, normalize_route_value, InviteDestination, match_route, RouteMatchType, exact,
  user_prefix, RouteConfig, takes,
}

-- A route takes a normalized destination if its value is the URI or the user, or begins one of them.
pub data Takes (uri : String) (user : Option String) (route : RouteConfig) : Type 0 where
  exact_uri : route.match ≡ exact → route.value ≡ uri → Takes uri user route
  exact_user : route.match ≡ exact → user ≡ some route.value → Takes uri user route
  prefix_uri :
      route.match ≡ user_prefix → (rest : String) → uri ≡ route.value <> rest → Takes uri user route
  prefix_user :
      route.match ≡ user_prefix
      → (rest : String) → user ≡ some (route.value <> rest)
      → Takes uri user route

takes_sound :
    (uri : String) (user : Option String) (m : RouteMatchType) (value url : String)
    → takes uri user (record { match = m; value = value; url = url }) ≡ true
    → Takes uri user (record { match = m; value = value; url = url })
unfolding takes
takes_sound uri none exact value url h = exact_uri refl ((eq_iff value uri).0 h)
takes_sound uri (some u) exact value url h = elim (Bool-cases (value == uri)) [
  | inl same ↦ exact_uri refl ((eq_iff value uri).0 same)
  | inr other ↦ exact_user refl (ground (arith, eq_iff value u))
]
takes_sound uri none user_prefix value url h =
    let (rest, e) = starts_with_rest value uri h in prefix_uri refl rest e
takes_sound uri (some u) user_prefix value url h = elim (Bool-cases (starts_with uri value)) [
  | inl begins ↦ let (rest, e) = starts_with_rest value uri begins in prefix_uri refl rest e
  | inr other ↦
      let (rest, e) = starts_with_rest value u (ground arith) in prefix_user refl rest (ap some e)
]

takes_complete :
    {uri : String} {user : Option String} {route : RouteConfig}
    → Takes uri user route
    → takes uri user route ≡ true
unfolding takes
takes_complete {uri} {user} {route} (exact_uri m e) = ground (arith, eq_iff route.value uri)
takes_complete {uri} {user} {route} (exact_user m e) = ground (arith, eq_refl route.value)
takes_complete {uri} {user} {route} (prefix_uri m rest e) =
    let begins : starts_with uri route.value ≡ true = rw e (starts_with-append route.value rest) in
    ground arith
takes_complete {uri} {user} {route} (prefix_user m rest e) =
    ground (arith, starts_with-append route.value rest)

-- `r` stands in the list, and no route before it takes the destination.
pub record FirstTaken (uri : String) (user : Option String) (routes : List RouteConfig)
    (r : RouteConfig) : Type 0 where
  pub before : List RouteConfig
  pub after : List RouteConfig
  pub listed : routes ≡ before ++ r ∷ after
  pub passed : All (λ s. ¬ Takes uri user s) before
  pub taken : Takes uri user r

module _ (uri : String) (user : Option String) where
  refused : (r : RouteConfig) → takes uri user r ≡ false → ¬ Takes uri user r
  refused r h t = cc (takes_complete t)

  find-FirstTaken :
      (routes : List RouteConfig) (r : RouteConfig)
      → find (takes uri user) routes ≡ some r
      → FirstTaken uri user routes r
  find-FirstTaken [] r h = absurd (cc)
  find-FirstTaken (s ∷ routes) r h = elim (Bool-cases (takes uri user s)) [
    | inl hit ↦
        let e : s ≡ r = ground arith in
        record {
          before = [];
          after = routes;
          listed = ap (λ t. t ∷ routes) e;
          passed = tt;
          taken = takes_sound uri user r.match r.value r.url (rw e at hit);
        }
    | inr miss ↦
        let f = find-FirstTaken routes r (ground arith) in
        record {
          before = s ∷ f.before;
          after = f.after;
          listed = ap (λ t. s ∷ t) f.listed;
          passed = (refused s miss, f.passed);
          taken = f.taken;
        }
  ]

  FirstTaken-find :
      (before after : List RouteConfig) (r : RouteConfig)
      → All (λ s. ¬ Takes uri user s) before
      → Takes uri user r
      → find (takes uri user) (before ++ r ∷ after) ≡ some r
  FirstTaken-find [] after r passed taken = rw (takes_complete taken)
  FirstTaken-find (s ∷ before) after r passed taken = elim (Bool-cases (takes uri user s)) [
    | inl hit ↦ absurd (passed.0 (takes_sound uri user s.match s.value s.url hit))
    | inr miss ↦ rw miss (FirstTaken-find before after r passed.1 taken)
  ]

  find-none :
      (routes : List RouteConfig)
      → find (takes uri user) routes ≡ none
      → All (λ s. ¬ Takes uri user s) routes
  find-none [] h = tt
  find-none (s ∷ routes) h = elim (Bool-cases (takes uri user s)) [
    | inl hit ↦ absurd (ground arith)
    | inr miss ↦ (refused s miss, find-none routes (ground arith))
  ]

  none-find :
      (routes : List RouteConfig)
      → All (λ s. ¬ Takes uri user s) routes
      → find (takes uri user) routes ≡ none
  none-find [] h = refl
  none-find (s ∷ routes) h = elim (Bool-cases (takes uri user s)) [
    | inl hit ↦ absurd (h.0 (takes_sound uri user s.match s.value s.url hit))
    | inr miss ↦ rw miss (none-find routes h.1)
  ]

-- `matchRoute` answers a route exactly if it is the first of the list that takes the normalized
-- destination (an exact route by its URI or its user, a prefix route by a text that one of them
-- begins with), and answers nothing exactly if no route of the list takes it.
pub match_route_iff :
    (routes : List RouteConfig) (d : InviteDestination)
    → let uri = normalize_route_value d.destination_uri in
      let user = normalize_user d.destination_user in
      ((r : RouteConfig) → (match_route routes d ≡ some r) ↔ FirstTaken uri user routes r)
      × ((match_route routes d ≡ none) ↔ All (λ s. ¬ Takes uri user s) routes)
unfolding match_route
match_route_iff routes d =
    let uri = normalize_route_value d.destination_uri in
    let user = normalize_user d.destination_user in
    (
      λ r. (
        find-FirstTaken uri user routes r,
        λ f. rw f.listed (FirstTaken-find uri user f.before f.after r f.passed f.taken),
      ),
      (find-none uri user routes, none-find uri user routes),
    )
