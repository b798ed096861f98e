-- ===== src/Json.antt =====
-- JavaScript values as the sources receive them: parsed JSON, with `undefined` for what is missing.
-- A number is an integer, or a value of which only `Number.isInteger` and `Number.isFinite` matter.
-- An object lists its own properties, each key once.
use rtc_session_gateway.Base.{
  ℕ, String, Bool, true, false, Option, none, some, List, [], ◌∷◌, ◌==◌, if◌then◌else◌,
}
use rtc_session_gateway.Base.Text.{is_blank}

pub data Number : Type 0 where
  nat : ℕ → Number  -- n
  neg : ℕ → Number  -- -(n + 1)
  fraction : String → Number  -- finite and no integer, as printed
  infinity : Number

mutual
  pub data Json : Type 0 where
    undefined : Json
    null : Json
    bool : Bool → Json
    num : Number → Json
    str : String → Json
    arr : Items → Json
    obj : Fields → Json

  pub data Items : Type 0 where
    nil : Items
    cons : Json → Items → Items

  pub data Fields : Type 0 where
    end : Fields
    prop : String → Json → Fields → Fields

abbrev pub items : Items → List Json
items nil = []
items (cons v vs) = v ∷ items vs

-- Object.entries(o)
abbrev pub entries : Fields → List (String × Json)
entries end = []
entries (prop k v ps) = (k, v) ∷ entries ps

-- o.k, which is undefined where `o` has no such property
unfoldable pub field : String → Fields → Json
field k end = undefined
field k (prop j v ps) = if j == k then v else field k ps

-- 'k' in o
unfoldable pub has_field : String → Fields → Bool
has_field k end = false
has_field k (prop j v ps) = if j == k then true else has_field k ps

-- `!v || typeof v !== 'object' || Array.isArray(v)` is the test that answers none
abbrev pub as_object : Json → Option Fields
as_object (obj fs) = some fs
as_object _ = none

-- `typeof v === 'string'`
abbrev pub as_string : Json → Option String
as_string (str s) = some s
as_string _ = none

-- `typeof v !== 'string' || !v.trim()` is the test that answers none
abbrev pub as_text : Json → Option String
as_text (str s) = if is_blank s then none else some s
as_text _ = none

-- `v === undefined || v === null`
abbrev pub is_nullish : Json → Bool
is_nullish undefined = true
is_nullish null = true
is_nullish _ = false

-- a value as an optional property: `undefined` for none
abbrev pub str? : Option String → Json
str? none = undefined
str? (some s) = str s

abbrev pub nat? : Option ℕ → Json
nat? none = undefined
nat? (some n) = num (nat n)
