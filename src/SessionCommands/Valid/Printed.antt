-- ===== src/SessionCommands/Valid/Printed.antt =====
-- The parameters of `media.gather` written out as JSON, and read back by `execute` of
-- src/session-commands.ts.
use rtc_session_gateway.SessionCommands.Validators.{require_object}
use rtc_session_gateway.Base.Assoc.{lookup}
use rtc_session_gateway.SessionCommands.Valid.{IsGather, HasMedia}
use rtc_session_gateway.SessionCommands.Gathering.{gather}
use rtc_session_gateway.Base.{true, is_some, suc, refl, none, some, ◌≡◌}
use rtc_session_gateway.SessionCommands.Meets.{IsPositive, IsText, IsOptionalText}
use rtc_session_gateway.Json.{field, end, prop, nat, num, bool, str, obj, null, Json}
use rtc_session_gateway.SessionCommands.Validators.{
  as_integer, positive, optional_integer, required_string, optional_string,
  optional_positive_integer, optional_boolean,
}
use rtc_session_gateway.SessionCommands.Execute.{run_method, execute_found, execute}
use rtc_session_gateway.SessionCommands.{
  media_unavailable, or_throw, MediaSessionSnapshot, Map, require_media, gathers, CommandContext,
  ok, Number, GatherParams, Bool, String, Option, SessionCommandHandler,
}

abbrev pub print_number : Option Number → Json
print_number none = null
print_number (some n) = num n

abbrev pub print_text : Option String → Json
print_text none = null
print_text (some s) = str s

abbrev pub print_flag : Option Bool → Json
print_flag none = null
print_flag (some b) = bool b

abbrev pub print_gather : String → GatherParams → Json
print_gather session_id p = obj (
    prop "sessionId" (str session_id) (
      prop "endpointId" (str p.endpoint_id) (
        prop "numDigits" (print_number p.num_digits) (
          prop "timeoutMs" (print_number p.timeout_ms) (
            prop "interDigitTimeoutMs" (print_number p.inter_digit_timeout_ms) (
              prop "terminator" (print_text p.terminator)
                (prop "sensitive" (print_flag p.sensitive) end)))))))

read_text : (s name : String) → IsText s → required_string (str s) name ≡ ok s
unfolding required_string
read_text s name p = rw p

read_positive :
    (value : Option Number) (name : String)
    → IsPositive value
    → optional_positive_integer (print_number value) name ≡ ok value
unfolding optional_positive_integer optional_integer positive as_integer
read_positive none name p = refl
read_positive (some (nat (suc n))) name p = refl
read_positive (some _) name p = absurd p

read_optional :
    (value : Option String) (name : String)
    → IsOptionalText value
    → optional_string (print_text value) name ≡ ok value
unfolding optional_string
read_optional none name p = refl
read_optional (some s) name p = rw p

read_flag :
    (value : Option Bool) (name : String) → optional_boolean (print_flag value) name ≡ ok value
unfolding optional_boolean
read_flag none name = refl
read_flag (some b) name = refl

media_there :
    (h : SessionCommandHandler)
    → HasMedia h
    → (media : Map MediaSessionSnapshot) × (require_media h ≡ ok media)
unfolding require_media
media_there h m = found h.media m
  where
    found :
        (o : Option (Map MediaSessionSnapshot))
        → is_some o ≡ true
        → (media : Map MediaSessionSnapshot) × (or_throw o
              (media_unavailable "Media commands require RTPBRIDGE_HOST")
            ≡ ok media)
    found none e = absurd (cc)
    found (some media) e = (media, refl)

-- A gathering that is valid, written out as the parameters of `media.gather`, is what `execute` hands
-- to the media sessions, when there are any.
pub execute-print_gather :
    (h : SessionCommandHandler) (session_id : String) (p : GatherParams) (context : CommandContext)
    → HasMedia h
    → IsText session_id
    → IsGather p
    → execute h "media.gather" (print_gather session_id p) context ≡ ok (gathers session_id p)
unfolding execute execute_found run_method gather require_object field lookup
execute-print_gather h session_id p context m s v = rw (
  (media_there h m).1,
  read_text session_id "sessionId" s,
  read_text p.endpoint_id "endpointId" v.endpoint_text,
  read_positive p.num_digits "numDigits" v.num_digits_positive,
  read_positive p.timeout_ms "timeoutMs" v.timeout_positive,
  read_positive p.inter_digit_timeout_ms "interDigitTimeoutMs" v.inter_digit_positive,
  read_optional p.terminator "terminator" v.terminator_text,
  read_flag p.sensitive "sensitive",
)
