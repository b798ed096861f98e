-- ===== src/ControlLog/Values.antt =====
-- The objects and lists that src/control-log.ts writes.
use rtc_session_gateway.ControlLog.Redaction.{byte_length}
use rtc_session_gateway.Json.{
  null, undefined, cons, str, nil, nat, prop, obj, num, end, bool, arr, Items, Json, Fields,
}
use rtc_session_gateway.Base.{
  map, ltb, ◌==◌, eqb, if◌then◌else◌, String, Bool, true, false, List, [], ◌∷◌,
}
use Prim.Native.Char.{code}

abbrev pub fields_of : List (String × Json) → Fields
fields_of [] = end
fields_of ((key, value) ∷ props) = prop key value (fields_of props)

abbrev pub items_of : List Json → Items
items_of [] = nil
items_of (value ∷ values) = cons value (items_of values)

abbrev pub texts_of : List String → Json
texts_of texts = arr (items_of (map str texts))

-- o[key] = value: a key that is there keeps its place
unfoldable pub put : String → Json → Fields → Fields
put key value end = prop key value end
put key value (prop k v fs) = if k == key then prop k value fs else prop k v (put key value fs)

unfoldable pub put_all : Fields → List (String × Json) → Fields
unfolding put
put_all fs [] = fs
put_all fs ((key, value) ∷ props) = put_all (put key value fs) props

-- Object.fromEntries(props)
unfoldable pub from_entries : List (String × Json) → Fields
unfolding put_all
from_entries props = put_all end props

unfoldable pub contains : String → List String → Bool
contains s [] = false
contains s (t ∷ ts) = if t == s then true else contains s ts

-- [...new Set(texts)], the set filled from `seen` on
unfoldable pub unique_from : List String → List String → List String
unique_from seen [] = []
unique_from seen (t ∷ ts) =
    let later = unique_from (t ∷ seen) ts in
    let same = unique_from seen ts in if contains t seen then same else t ∷ later

unfoldable pub unique : List String → List String
unfolding unique_from contains
unique texts = unique_from [] texts

-- whether a text of ASCII comes before another, or is it
unfoldable pub text_leb : String → String → Bool
text_leb String.[] t = true
text_leb (String.◌∷◌ c s) String.[] = false
text_leb (String.◌∷◌ c s) (String.◌∷◌ d t) =
    let rest = text_leb s t in if eqb (code c) (code d) then rest else ltb (code c) (code d)

unfoldable pub insert : String → List String → List String
unfolding text_leb
insert s [] = s ∷ []
insert s (t ∷ ts) = let rest = insert s ts in if text_leb s t then s ∷ t ∷ ts else t ∷ rest

-- texts.sort()
unfoldable pub sort : List String → List String
unfolding insert
sort [] = []
sort (s ∷ ss) = insert s (sort ss)

abbrev pub record_of : List (String × Json) → Json
record_of props = obj (fields_of props)

-- the name that `typeof` gives, but for null and arrays
unfoldable pub type_name : Json → String
type_name undefined = "undefined"
type_name null = "null"
type_name (bool b) = "boolean"
type_name (num n) = "number"
type_name (str s) = "string"
type_name (arr xs) = "array"
type_name (obj fs) = "object"

unfoldable pub type_marker : Json → Json
unfolding type_name
type_marker value = record_of (("redacted", bool true) ∷ ("type", str (type_name value)) ∷ [])

abbrev pub bytes_of : String → Json
bytes_of value = num (nat (byte_length value))
