-- ===== src/ControlHub/Clashes.antt =====
-- src/control-hub.ts: what it means that no two registered routes clash, and the changes of the map of
-- connections that keep it so.
use rtc_session_gateway.ControlHub.Routes.{claims}
use rtc_session_gateway.ControlHub.Exclusive.{ApartFrom, Apart, Distinct}
use rtc_session_gateway.ControlHub.{RouteConfig, ControlConnection}
use rtc_session_gateway.Base.Assoc.{Map, lookup, Unique, erase, insert, lookup-erase, lookup-insert}
use rtc_session_gateway.Base.{
  ◌∙◌, ne_of_eq-false, ◌≢◌, inr, ◌⊎◌, some_injective, inl, subst, Bool-cases, ◌≡◌, String, refl,
  arith, sym, List, ◌==◌, some, eq_iff,
}

-- No connection claims a key twice, and no two connections claim the same key.
unfoldable pub IsExclusive : Map ControlConnection → Type 0
IsExclusive connections =
    ((id : String) (c : ControlConnection) → lookup id connections ≡ some c → Distinct c.routes)
    × ((id : String) (c : ControlConnection)
        → lookup id connections ≡ some c
        → ApartFrom id c.routes connections)

-- What is known of the connections of a map after a call: each is one of before with its routes.
abbrev pub Inherits : Map ControlConnection → Map ControlConnection → Type 0
Inherits before after =
    (id : String) (c : ControlConnection)
    → lookup id after ≡ some c
    → (d : ControlConnection) × (lookup id before ≡ some d) × (c.routes ≡ d.routes)

pub Inherits-IsExclusive :
    (before after : Map ControlConnection)
    → Inherits before after
    → IsExclusive before
    → IsExclusive after
unfolding IsExclusive
Inherits-IsExclusive before after kept (distinct, apart) = (
  λ id c found.
      let (d, old, same) = kept id c found in subst Distinct (sym same) (distinct id d old),
  λ id c found j e found' ne.
      let (d, old, same) = kept id c found in
      let (f, old', same') = kept j e found' in
      subst (λ r. Apart r e.routes) (sym same)
        (subst (λ r. Apart d.routes r) (sym same') (apart id d old j f old' ne)),
)

pub erase-Inherits : (id : String) (m : Map ControlConnection) → Unique m → Inherits m (erase id m)
erase-Inherits id m u j c found = (c, ground (arith, lookup-erase id j m u, found), refl)

pub insert-Inherits :
    (id : String) (c d : ControlConnection) (m : Map ControlConnection)
    → lookup id m ≡ some d
    → c.routes ≡ d.routes
    → Inherits m (insert id c m)
insert-Inherits id c d m old same j e found = elim (Bool-cases (id == j)) [
  | inl h ↦
      let here : some c ≡ some e = ground (arith, lookup-insert id j c m, found, h) in
      (
        d,
        ground (arith, eq_iff id j, h, old),
        subst (λ (x : ControlConnection). x.routes ≡ d.routes) (some_injective here) same,
      )
  | inr h ↦ (e, ground (arith, lookup-insert id j c m, found, h), refl)
]

Apart-sym : (routes others : List RouteConfig) → Apart routes others → Apart others routes
Apart-sym routes others apart key c = elim (Bool-cases (claims key routes)) [
  | inl e ↦ absurd (ground (arith, apart key e, c))
  | inr e ↦ e
]

-- An entry of a map after an insertion: the new one, or an old one.
Inserted : String → ControlConnection → Map ControlConnection → String → ControlConnection → Type 0
Inserted id c m j d = ((id ≡ j) × (c ≡ d)) ⊎ ((j ≢ id) × (lookup j m ≡ some d))

inserted :
    (id : String) (c : ControlConnection) (m : Map ControlConnection) (j : String)
    (d : ControlConnection)
    → lookup j (insert id c m) ≡ some d
    → Inserted id c m j d
unfolding Inserted
inserted id c m j d found = elim (Bool-cases (id == j)) [
  | inl h ↦
      inl ((eq_iff id j).0 h, some_injective (ground (arith, lookup-insert id j c m, found, h)))
  | inr h ↦
      inr (λ e. ne_of_eq-false id j h (sym e), ground (arith, lookup-insert id j c m, found, h))
]

Inserted-Apart :
    (id : String) (c : ControlConnection) (m : Map ControlConnection)
    → ApartFrom id c.routes m
    → IsExclusive m
    → (j k : String) (d f : ControlConnection) → Inserted id c m j d
    → Inserted id c m k f
    → k ≢ j
    → Apart d.routes f.routes
unfolding Inserted IsExclusive
Inserted-Apart id c m free old j k d f (inl (e, same)) (inl (e', same')) ne =
    absurd (ne (sym e' ∙ e))
Inserted-Apart id c m free old j k d f (inl (e, same)) (inr (ne', found)) ne =
    subst (λ (x : ControlConnection). Apart x.routes f.routes) same (free k f found ne')
Inserted-Apart id c m free old j k d f (inr (ne', found)) (inl (e, same)) ne =
    subst (λ (x : ControlConnection). Apart d.routes x.routes) same
      (Apart-sym c.routes d.routes (free j d found ne'))
Inserted-Apart id c m free old j k d f (inr (n, found)) (inr (n', found')) ne =
    old.1 j d found k f found' ne

Inserted-Distinct :
    (id : String) (c : ControlConnection) (m : Map ControlConnection)
    → Distinct c.routes
    → IsExclusive m
    → (j : String) (d : ControlConnection) → Inserted id c m j d
    → Distinct d.routes
unfolding Inserted IsExclusive
Inserted-Distinct id c m fresh old j d (inl (e, same)) =
    subst (λ (x : ControlConnection). Distinct x.routes) same fresh
Inserted-Distinct id c m fresh old j d (inr (ne, found)) = old.0 j d found

-- A connection whose routes are distinct and apart from those of all others takes its place.
pub insert-IsExclusive :
    (id : String) (c : ControlConnection) (m : Map ControlConnection)
    → Distinct c.routes
    → ApartFrom id c.routes m
    → IsExclusive m
    → IsExclusive (insert id c m)
unfolding IsExclusive
insert-IsExclusive id c m fresh free old = (
  λ j d found. Inserted-Distinct id c m fresh old j d (inserted id c m j d found),
  λ j d found k f found' ne.
      Inserted-Apart id c m free old j k d f (inserted id c m j d found)
        (inserted id c m k f found') ne,
)

pub same-IsExclusive :
    {before after : Map ControlConnection} → after ≡ before → IsExclusive before → IsExclusive after
same-IsExclusive same old = subst IsExclusive (sym same) old
