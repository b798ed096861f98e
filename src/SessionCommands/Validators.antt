-- ===== src/SessionCommands/Validators.antt =====
-- src/session-commands.ts: the checks of single parameters.
use rtc_session_gateway.Base.{zero, String, Bool, Option, none, some, List, [], ◌∷◌}
use rtc_session_gateway.Base.Text.{◌<>◌}
use rtc_session_gateway.Base.Assoc.{Map, lookup}
use rtc_session_gateway.Json.{
  Json, undefined, null, bool, num, arr, Number, nat, neg, infinity, Fields, end, items, as_object,
  as_text,
}
use rtc_session_gateway.Errors.{Error, Result, ok, err, ◌>>=◌, or_throw, command_validation}
use rtc_session_gateway.MediaController.{Direction, sendrecv, recvonly, sendonly, inactive}

unfoldable pub require_object : Json → Result Fields
require_object params = or_throw (as_object params) (command_validation "params must be an object")

unfoldable pub optional_object : Json → Result Fields
unfolding require_object
optional_object undefined = ok end
optional_object null = ok end
optional_object params = require_object params

unfoldable pub required_string : Json → String → Result String
required_string value name = or_throw (as_text value) (command_validation (name <> " is required"))

unfoldable pub optional_string : Json → String → Result (Option String)
optional_string undefined name = ok none
optional_string null name = ok none
optional_string value name = do
  text ← or_throw (as_text value) (command_validation (name <> " must be a non-empty string"))
  ok (some text)

unfoldable pub optional_boolean : Json → String → Result (Option Bool)
optional_boolean undefined name = ok none
optional_boolean null name = ok none
optional_boolean (bool b) name = ok (some b)
optional_boolean value name = err (command_validation (name <> " must be a boolean"))

-- `Number.isInteger(value)`
unfoldable pub as_integer : Json → Option Number
as_integer (num (nat n)) = some (nat n)
as_integer (num (neg n)) = some (neg n)
as_integer value = none

unfoldable pub optional_integer : Json → String → Result (Option Number)
unfolding as_integer
optional_integer undefined name = ok none
optional_integer null name = ok none
optional_integer value name = do
  integer ← or_throw (as_integer value) (command_validation (name <> " must be an integer"))
  ok (some integer)

-- `Number.isFinite(value)`
unfoldable pub as_finite : Json → Option Number
as_finite (num infinity) = none
as_finite (num n) = some n
as_finite value = none

unfoldable pub optional_number : Json → String → Result (Option Number)
unfolding as_finite
optional_number undefined name = ok none
optional_number null name = ok none
optional_number value name = do
  number ← or_throw (as_finite value) (command_validation (name <> " must be a number"))
  ok (some number)

unfoldable pub non_negative : Option Number → Error → Result (Option Number)
non_negative (some (neg n)) thrown = err thrown
non_negative parsed thrown = ok parsed

unfoldable pub optional_non_negative_integer : Json → String → Result (Option Number)
unfolding non_negative
optional_non_negative_integer value name = do
  parsed ← optional_integer value name
  non_negative parsed (command_validation (name <> " must be a non-negative integer"))

unfoldable pub positive : Option Number → Error → Result (Option Number)
positive (some (neg n)) thrown = err thrown
positive (some (nat zero)) thrown = err thrown
positive parsed thrown = ok parsed

unfoldable pub optional_positive_integer : Json → String → Result (Option Number)
unfolding positive
optional_positive_integer value name = do
  parsed ← optional_integer value name
  positive parsed (command_validation (name <> " must be a positive integer"))

-- none is `undefined`, some none is `null`
unfoldable pub optional_nullable_integer : Json → String → Result (Option (Option Number))
unfolding as_integer
optional_nullable_integer undefined name = ok none
optional_nullable_integer null name = ok (some none)
optional_nullable_integer value name = do
  integer ← or_throw (as_integer value) (command_validation (name <> " must be an integer or null"))
  ok (some (some integer))

abbrev pub directions : Map Direction
directions =
    ("sendrecv", sendrecv)
    ∷ ("recvonly", recvonly)
    ∷ ("sendonly", sendonly)
    ∷ ("inactive", inactive)
    ∷ []

unfoldable pub required_direction : Json → Result Direction
required_direction value = do
  direction ← required_string value "direction"
  or_throw (lookup direction directions)
      (command_validation "direction must be one of sendrecv, recvonly, sendonly, inactive")

unfoldable pub optional_direction : Json → Result (Option Direction)
optional_direction undefined = ok none
optional_direction null = ok none
optional_direction value = do direction ← required_direction value; ok (some direction)

-- `a ?? b`
abbrev pub or_nullish : Json → Json → Json
or_nullish undefined other = other
or_nullish null other = other
or_nullish value other = value

-- the elements, where each is a text that is not blank
unfoldable pub cons_text : Option String → Option (List String) → Option (List String)
cons_text (some text) (some rest) = some (text ∷ rest)
cons_text _ _ = none

unfoldable pub texts : List Json → Option (List String)
unfolding cons_text
texts [] = some []
texts (value ∷ values) = cons_text (as_text value) (texts values)

unfoldable pub optional_texts : Json → Error → Result (Option (List String))
unfolding texts
optional_texts undefined thrown = ok none
optional_texts (arr values) thrown = do
  read ← or_throw (texts (items values)) thrown
  ok (some read)
optional_texts value thrown = err thrown
