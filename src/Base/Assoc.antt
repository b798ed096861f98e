-- ===== src/Base/Assoc.antt =====
-- JavaScript's `Map` and `Set` over strings: entries in the order of insertion.
use Prim.Native.Nat.{suc}
use Prim.Native.String.{String}
use mathlib.Core.Path.{◌≡◌, refl}
use mathlib.Core.Bool.{Bool, true}
use mathlib.Core.List.{List, [], ◌∷◌}
use mathlib.Core.Option.{Option, none, some}
use native.Mathlib.Omega.{arith}
use text.Mathlib.Text.{◌==◌}
use text.Mathlib.TextEquality.{eq_iff}
use rtc_session_gateway.Base.Tests.{if◌then◌else◌, is_some}
use rtc_session_gateway.Base.Lists.{length}

abbrev pub Map {ℓ} : Type ℓ → Type ℓ
Map V = List (String × V)

-- a `Set` of strings
abbrev pub StringSet : Type 0
StringSet = Map (Unit {0})

module _ {ℓ} {V : Type ℓ} where
  -- m.get(k)
  unfoldable pub lookup : String → Map V → Option V
  lookup asked [] = none
  lookup asked ((held, found) ∷ rest) = if held == asked then some found else lookup asked rest

  -- m.has(k)
  abbrev pub has : String → Map V → Bool
  has k m = is_some (lookup k m)

  -- m.set(k, v): an old key keeps its place
  unfoldable pub insert : String → V → Map V → Map V
  insert new v [] = (new, v) ∷ []
  insert new v ((held, old) ∷ rest) =
      if held == new then (held, v) ∷ rest else (held, old) ∷ insert new v rest

  -- m.delete(k)
  unfoldable pub erase : String → Map V → Map V
  erase k [] = []
  erase k ((j, v) ∷ m) = if j == k then m else (j, v) ∷ erase k m

  -- [...m.keys()]
  unfoldable pub keys : Map V → List String
  keys [] = []
  keys ((k, v) ∷ m) = k ∷ keys m

  -- [...m.values()]
  unfoldable pub values : Map V → List V
  values [] = []
  values ((k, v) ∷ m) = v ∷ values m

  -- No key stands twice.
  abbrev pub Unique : Map V → Type ℓ
  Unique [] = Unit
  Unique ((k, v) ∷ m) = (lookup k m ≡ none) × Unique m

  pub lookup-insert :
      (new asked : String) (v : V) (m : Map V)
      → lookup asked (insert new v m) ≡ (if new == asked then some v else lookup asked m)
  unfolding insert lookup
  lookup-insert new asked v [] = refl
  lookup-insert new asked v ((held, old) ∷ rest) =
      ground (
        arith,
        lookup-insert new asked v rest,
        eq_iff held new,
        eq_iff held asked,
        eq_iff new asked,
      )

  pub lookup-erase :
      (k j : String) (m : Map V)
      → Unique m
      → lookup j (erase k m) ≡ (if k == j then none else lookup j m)
  unfolding lookup erase
  lookup-erase k j [] u = ground arith
  lookup-erase k j ((i, w) ∷ m) u =
      ground (arith, eq_iff k j, eq_iff i k, eq_iff i j, lookup-erase k j m u.1)

  pub insert-Unique : (k : String) (v : V) (m : Map V) → Unique m → Unique (insert k v m)
  unfolding lookup insert
  insert-Unique k v [] u = (refl, tt)
  insert-Unique k v ((j, w) ∷ m) u =
      ground (arith, eq_iff j k, eq_iff k j, insert-Unique k v m u.1, lookup-insert k j v m)

  pub erase-Unique : (k : String) (m : Map V) → Unique m → Unique (erase k m)
  unfolding lookup erase
  erase-Unique k [] u = tt
  erase-Unique k ((j, w) ∷ m) u =
      ground (arith, eq_iff j k, eq_iff k j, erase-Unique k m u.1, lookup-erase k j m u.1)

  pub lookup-insert_self : (k : String) (v : V) (m : Map V) → lookup k (insert k v m) ≡ some v
  lookup-insert_self k v m = ground (arith, lookup-insert k k v m, eq_iff k k)

  pub length-insert_fresh :
      (k : String) (v : V) (m : Map V) → lookup k m ≡ none → length (insert k v m) ≡ suc (length m)
  unfolding lookup insert
  length-insert_fresh k v [] h = refl
  length-insert_fresh k v ((j, w) ∷ m) h = ground (arith, length-insert_fresh k v m)

  pub length-insert_old :
      (k : String) (v w : V) (m : Map V) → lookup k m ≡ some w → length (insert k v m) ≡ length m
  unfolding lookup insert
  length-insert_old k v x [] h = cc
  length-insert_old k v x ((j, w) ∷ m) h = ground (arith, length-insert_old k v x m)

  pub length-erase_hit :
      (k : String) (v : V) (m : Map V) → lookup k m ≡ some v → suc (length (erase k m)) ≡ length m
  unfolding lookup erase
  length-erase_hit k v [] h = cc
  length-erase_hit k v ((j, w) ∷ m) h = ground (arith, length-erase_hit k v m)

  pub erase_miss : (k : String) (m : Map V) → lookup k m ≡ none → erase k m ≡ m
  unfolding lookup erase
  erase_miss k [] h = refl
  erase_miss k ((j, w) ∷ m) h = ground (arith, erase_miss k m)

  pub has-insert : (k j : String) (v : V) (m : Map V) → has j m ≡ true → has j (insert k v m) ≡ true
  has-insert k j v m h = ground (arith, lookup-insert k j v m)
