-- ===== src/Base/Text.antt =====
-- What the sources use of JavaScript's strings. A text is a list of code points; where the sources
-- measure a text, `length` counts UTF-16 units.
use Prim.Native.Nat.{ℕ, ◌+◌}
use Prim.Native.Char.{Char, code}
use Prim.Native.String
use Prim.Native.String.{String}
use mathlib.Core.Path.{◌≡◌, refl, ap₂}
use mathlib.Core.Logic.{inl, inr}
use mathlib.Core.Bool.{Bool, true, false, ◌&&◌, ◌||◌}
use mathlib.Core.List.{List, [], ◌∷◌}
use mathlib.Core.Bool.{and-eq-true_iff}
use native.Mathlib.Omega.{arith}
use text.Mathlib.Text.{◌==◌}
use text.Mathlib.TextEquality.{Char-path}
use text.Mathlib.TextLemmas.{nil-append, cons-append}
use rtc_session_gateway.Base.Tests.{if◌then◌else◌, eqb, leb, ltb, Bool-cases, eqb_iff}

-- `s + t`, and `${s}${t}`
infixr 65 ◌<>◌
abbrev pub ◌<>◌ : String → String → String
s <> t = String.◌++◌ s t

-- `\s` of a regular expression, and what `trim` removes
abbrev pub is_space : Char → Bool
is_space c =
    let n = code c in
    (leb 9 n && leb n 13)
    || eqb n 32
    || eqb n 160
    || eqb n 0x1680
    || (leb 0x2000 n && leb n 0x200a)
    || eqb n 0x2028
    || eqb n 0x2029
    || eqb n 0x202f
    || eqb n 0x205f
    || eqb n 0x3000
    || eqb n 0xfeff

-- the characters that `.` of a regular expression does not match
abbrev pub is_line_break : Char → Bool
is_line_break c = let n = code c in eqb n 10 || eqb n 13 || eqb n 0x2028 || eqb n 0x2029

abbrev pub is_digit : Char → Bool
is_digit c = leb b'0' (code c) && leb (code c) b'9'

abbrev pub is_upper : Char → Bool
is_upper c = leb b'A' (code c) && leb (code c) b'Z'

abbrev pub is_lower : Char → Bool
is_lower c = leb b'a' (code c) && leb (code c) b'z'

abbrev pub is_alnum : Char → Bool
is_alnum c = is_digit c || is_upper c || is_lower c

abbrev pub is_char : ℕ → Char → Bool
is_char n c = eqb (code c) n

unfoldable pub trim_start : String → String
trim_start String.[] = ""
trim_start (String.◌∷◌ c s) = if is_space c then trim_start s else String.◌∷◌ c s

unfoldable pub trim_end : String → String
trim_end String.[] = ""
trim_end (String.◌∷◌ c s) =
    let rest = trim_end s in if is_space c && rest == "" then "" else String.◌∷◌ c rest

-- s.trim()
unfoldable pub trim : String → String
unfolding trim_start trim_end
trim s = trim_end (trim_start s)

-- `!s.trim()`
unfoldable pub is_blank : String → Bool
unfolding trim
is_blank s = trim s == ""

-- s.startsWith(p)
unfoldable pub starts_with : String → String → Bool
starts_with s String.[] = true
starts_with String.[] (String.◌∷◌ d p) = false
starts_with (String.◌∷◌ c s) (String.◌∷◌ d p) = eqb (code c) (code d) && starts_with s p

-- s.endsWith(p)
unfoldable pub ends_with : String → String → Bool
ends_with String.[] p = "" == p
ends_with (String.◌∷◌ c s) p = String.◌∷◌ c s == p || ends_with s p

-- s.includes(p)
unfoldable pub includes : String → String → Bool
unfolding starts_with
includes String.[] p = starts_with String.[] p
includes (String.◌∷◌ c s) p = starts_with (String.◌∷◌ c s) p || includes s p

-- s.slice(s.indexOf(c)) by a test: the text from the first character that passes
unfoldable pub drop_until : (Char → Bool) → String → String
drop_until p String.[] = ""
drop_until p (String.◌∷◌ c s) = if p c then String.◌∷◌ c s else drop_until p s

-- the text before the first character that passes
unfoldable pub take_until : (Char → Bool) → String → String
take_until p String.[] = ""
take_until p (String.◌∷◌ c s) = if p c then "" else String.◌∷◌ c (take_until p s)

-- some character passes
unfoldable pub any_char : (Char → Bool) → String → Bool
any_char p String.[] = false
any_char p (String.◌∷◌ c s) = p c || any_char p s

-- every character passes
unfoldable pub all_char : (Char → Bool) → String → Bool
all_char p String.[] = true
all_char p (String.◌∷◌ c s) = p c && all_char p s

-- s.length
unfoldable pub length : String → ℕ
length String.[] = 0
length (String.◌∷◌ c s) = (if ltb (code c) 0x10000 then 1 else 2) + length s

translate : String → String → Char → Char
translate (String.◌∷◌ x from) (String.◌∷◌ y to) c =
    if eqb (code x) (code c) then y else translate from to c
translate _ _ c = c

unfoldable pub to_lower_char : Char → Char
unfolding translate
to_lower_char c = translate "ABCDEFGHIJKLMNOPQRSTUVWXYZ" "abcdefghijklmnopqrstuvwxyz" c

unfoldable pub to_upper_char : Char → Char
unfolding translate
to_upper_char c = translate "abcdefghijklmnopqrstuvwxyz" "ABCDEFGHIJKLMNOPQRSTUVWXYZ" c

-- s.toLowerCase() of an ASCII text
unfoldable pub to_lower : String → String
unfolding to_lower_char
to_lower String.[] = ""
to_lower (String.◌∷◌ c s) = String.◌∷◌ (to_lower_char c) (to_lower s)

-- s.toUpperCase() of an ASCII text
unfoldable pub to_upper : String → String
unfolding to_upper_char
to_upper String.[] = ""
to_upper (String.◌∷◌ c s) = String.◌∷◌ (to_upper_char c) (to_upper s)

split_from : (Char → Bool) → String → String → List String
split_from p cur String.[] = cur ∷ []
split_from p cur (String.◌∷◌ c s) =
    let closed = split_from p "" s in
    let longer = split_from p (cur <> String.◌∷◌ c String.[]) s in
    if p c then cur ∷ closed else longer

-- s.split(c), the separator given by a test on characters
unfoldable pub split : (Char → Bool) → String → List String
unfolding split_from
split p s = split_from p "" s

pub starts_with-append : (p s : String) → starts_with (p <> s) p ≡ true
unfolding starts_with
starts_with-append String.[] s = refl
starts_with-append (String.◌∷◌ c p) s = rw cons-append (ground (arith, starts_with-append p s))

-- A text begins with `p` only if it is `p` and a rest.
pub starts_with_rest : (p s : String) → starts_with s p ≡ true → (rest : String) × (s ≡ p <> rest)
unfolding starts_with
starts_with_rest String.[] s h = (s, rw nil-append)
starts_with_rest (String.◌∷◌ d p) String.[] h = cc
starts_with_rest (String.◌∷◌ d p) (String.◌∷◌ c s) h =
    let (same, later) = (and-eq-true_iff _ _).0 h in
    let (rest, e) = starts_with_rest p s later in
    let e' : c ≡ d = Char-path c d ((eqb_iff _ _).0 same) in
    (rest, rw cons-append (ap₂ String.◌∷◌ e' e))

module _ (p : Char → Bool) where
  pub any_char-take_until : (s : String) → any_char p (take_until p s) ≡ false
  unfolding any_char take_until
  any_char-take_until String.[] = refl
  any_char-take_until (String.◌∷◌ c s) = elim (Bool-cases (p c)) [
    | inl stop ↦ rw stop
    | inr go ↦ rw go (rw go (any_char-take_until s))
  ]

trim_test : trim " \t a b \n" ≡ "a b"
unfolding trim
trim_test = refl

split_test : split (is_char b'.') "a..b" ≡ "a" ∷ "" ∷ "b" ∷ []
unfolding split
split_test = refl
