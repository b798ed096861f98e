-- ===== src/ControlProtocol/RoundTrip.antt =====
-- What is written is read back, and nothing malformed is read.
use rtc_session_gateway.Base.{
  ◌↔◌, subst, ℕ, suc, String, Bool, true, false, Option, none, some, ◌≡◌, refl, ◌==◌, arith,
  Bool-cases, inl, inr,
}
use rtc_session_gateway.Base.Text.{is_blank}
use rtc_session_gateway.Json.{Json, undefined, bool, num, str, obj, Fields, field, as_text}
use rtc_session_gateway.Errors.{
  ok_injective, >>=-eq-ok, ◌>>=◌, or_throw, Error, ControlErrorBody, Result, ok, err,
}
use rtc_session_gateway.ControlProtocol.{
  nat, session_id_of, sequence_of, by_type, text_or, response_of, or_throw, ControlRequest,
  ControlResponse, ControlEvent, ControlMessage, request, response, event, parse_control_error,
  parse_control_request, parse_control_response, parse_control_event, parse_control_message,
}
use rtc_session_gateway.ControlProtocol.Messages.{
  IsMessage, IsOutcome, NonBlank, Positive, message-Arrives,
}
use rtc_session_gateway.ControlProtocol.Encode.{message_json}
use rtc_session_gateway.ControlProtocol.Wire.{delivered, delivered_error, wire, wire_undefined}

-- Inversion of a read of a text, and of a read that wraps what it has read.
text_bind :
    {B : Type 0} (v : Json) (e : Error) (f : String → Result B) {b : B}
    → (or_throw (as_text v) e >>= f) ≡ ok b
    → (s : String) × NonBlank s × (f s ≡ ok b)
text_bind (str s) e f h = elim (Bool-cases (is_blank s)) [
  | inl blank ↦ absurd (ground arith)
  | inr full ↦ (s, full, ground arith)
]
text_bind _ e f h = absurd (cc)

wrap_bind :
    {A : Type 0} (r : Result A) (c : A → ControlMessage) {m : ControlMessage}
    → ((a : A) → r ≡ ok a → IsMessage (c a))
    → (r >>= λ a. ok (c a)) ≡ ok m
    → IsMessage m
wrap_bind (ok a) c shape h = let e : c a ≡ _ = ground arith in subst IsMessage e (shape a refl)
wrap_bind (err e) c shape h = absurd (cc)

request_shape :
    (fs : Fields) (r : ControlRequest) → parse_control_request fs ≡ ok r → IsMessage (request r)
unfolding parse_control_request
request_shape fs r h =
    let (id, i, h1) = text_bind (field "id" fs) _ _ h in
    let (method, m, h2) = text_bind (field "method" fs) _ _ h1 in (ground arith, ground arith)

text_or-NonBlank :
    (v : Json) (fallback : String) → NonBlank fallback → NonBlank (text_or v fallback)
unfolding text_or
text_or-NonBlank (str s) fallback h = ground arith
text_or-NonBlank _ fallback h = h

error_shape :
    (v : Json) → NonBlank (parse_control_error v).code × NonBlank (parse_control_error v).message
unfolding parse_control_error is_blank
error_shape (obj fs) = (
  text_or-NonBlank (field "code" fs) "ERROR" refl,
  text_or-NonBlank (field "message" fs) "Request failed" refl,
)
error_shape _ = (refl, refl)

error_code : (v : Json) → NonBlank (parse_control_error v).code
error_code v = (error_shape v).0

error_message : (v : Json) → NonBlank (parse_control_error v).message
error_message v = (error_shape v).1

response_of_shape :
    (id : String) (v : Json) (fs : Fields) (r : ControlResponse)
    → NonBlank id
    → response_of id v fs ≡ ok r
    → IsMessage (response r)
unfolding response_of
response_of_shape id (bool true) fs r i h =
    subst (λ t. IsMessage (response t)) (ok_injective h) (i, refl)
response_of_shape id (bool false) fs r i h =
    subst (λ t. IsMessage (response t)) (ok_injective h)
      (i, (refl, error_code (field "error" fs), error_message (field "error" fs)))
response_of_shape id _ fs r i h = absurd (cc)

response_shape :
    (fs : Fields) (r : ControlResponse) → parse_control_response fs ≡ ok r → IsMessage (response r)
unfolding parse_control_response
response_shape fs r h =
    let (id, i, h1) = text_bind (field "id" fs) _ _ h in
    response_of_shape id (field "ok" fs) fs r i h1

sequence_shape : (v : Json) (n : Option ℕ) → sequence_of v ≡ ok n → Positive n
unfolding sequence_of
sequence_shape undefined none h = tt
sequence_shape (num (nat (suc k))) (some n) h = ground arith
sequence_shape v n h = absurd (cc)

event_shape : (fs : Fields) (e : ControlEvent) → parse_control_event fs ≡ ok e → IsMessage (event e)
unfolding parse_control_event
event_shape fs e h =
    let (name, n, h1) = text_bind (field "event" fs) _ _ h in
    let (event_id, i, h2) = text_bind (field "eventId" fs) _ _ h1 in
    let (occurred_at, o, h3) = text_bind (field "occurredAt" fs) _ _ h2 in
    let (session_id, _, h4) = >>=-eq-ok (session_id_of (field "sessionId" fs)) _ h3 in
    let (sequence, q, h5) = >>=-eq-ok (sequence_of (field "sequence" fs)) _ h4 in
    subst (λ t. IsMessage (event t)) (ok_injective h5)
      (n, i, o, sequence_shape (field "sequence" fs) sequence q)

by_type_shape :
    (type : Json) (fs : Fields) (m : ControlMessage) → by_type type fs ≡ ok m → IsMessage m
unfolding by_type
by_type_shape (str type) fs m h = elim (Bool-cases (type == "request")) [
  | inl e ↦ wrap_bind (parse_control_request fs) request (request_shape fs) (rw e at h)
  | inr n ↦ elim (Bool-cases (type == "response")) [
    | inl e ↦ wrap_bind (parse_control_response fs) response (response_shape fs) (rw (n, e) at h)
    | inr n' ↦ elim (Bool-cases (type == "event")) [
      | inl e ↦ wrap_bind (parse_control_event fs) event (event_shape fs) (rw (n, n', e) at h)
      | inr n'' ↦ absurd (ground arith)
    ]
  ]
]
by_type_shape _ fs m h = absurd (cc)

-- Only well-formed messages are read: a request has an id and a method, a response an id and either
-- no error or an error with a code and a message, an event its name, its id and its time, and a
-- sequence number, if any, is positive. None of these texts is blank.
pub parse_control_message-IsMessage :
    (v : Json) (m : ControlMessage) → parse_control_message v ≡ ok m → IsMessage m
unfolding parse_control_message
parse_control_message-IsMessage (obj fs) m h = by_type_shape (field "type" fs) fs m h
parse_control_message-IsMessage _ m h = absurd (cc)

delivered-IsOutcome :
    (is_ok : Bool) (result : Json) (error : Option ControlErrorBody)
    → IsOutcome is_ok (wire result) (delivered_error error)
    → IsOutcome is_ok result error
delivered-IsOutcome true result none h = refl
delivered-IsOutcome true result (some e) h = absurd (cc)
delivered-IsOutcome false result none h = h
delivered-IsOutcome false result (some e) (r, c, m) = (wire_undefined result r, c, m)

delivered-IsMessage : (m : ControlMessage) → IsMessage (delivered m) → IsMessage m
delivered-IsMessage (request r) h = h
delivered-IsMessage (response r) (i, o) = (i, delivered-IsOutcome r.is_ok r.result r.error o)
delivered-IsMessage (event e) h = h

-- A message that is written and sent as JSON is read back on the other side, with its parameters, its
-- result, its details or its data as JSON delivers them, exactly if it is one of these: a request whose id
-- and method are not blank; a response whose id is not blank and that is a success without an error, or a
-- failure without a result whose error has a code and a message that are not blank; an event whose name,
-- id and time are not blank and whose sequence number, if any, is positive. (So the response with an
-- empty id that answers an unreadable message is not read back.) What JSON delivers: properties that
-- are undefined are gone, and undefined items and infinite numbers are null.
pub parse-message_json :
    (m : ControlMessage)
    → IsMessage m ↔ (parse_control_message (wire (message_json m)) ≡ ok (delivered m))
parse-message_json m = (
  message-Arrives m,
  λ h.
      delivered-IsMessage m
        (parse_control_message-IsMessage (wire (message_json m)) (delivered m) h),
)
