-- ===== src/ControlProtocol/Messages.antt =====
-- The messages of src/control-protocol.ts that are well-formed, and what is read from what arrives of one.
use rtc_session_gateway.Base.{
  ℕ, zero, suc, ◌≤◌, String, Bool, true, false, Option, none, some, ◌≡◌, refl, arith,
}
use rtc_session_gateway.Base.Text.{is_blank}
use rtc_session_gateway.Json.{end, prop, Json, undefined, num, str, obj, Fields, field}
use rtc_session_gateway.Errors.{ControlErrorBody, ok}
use rtc_session_gateway.ControlProtocol.{
  nat, ControlMessage, request, response, event, parse_control_error, parse_control_request,
  parse_control_response, parse_control_event, parse_control_message,
}
use rtc_session_gateway.ControlProtocol.Encode.{message_json}
use rtc_session_gateway.ControlProtocol.Wire.{
  field-wire_other, delivered, field-wire_last, wire, wire_fields,
}

abbrev pub NonBlank : String → Type 0
NonBlank s = is_blank s ≡ false

abbrev pub Positive : Option ℕ → Type 0
Positive none = Unit
Positive (some n) = 1 ≤ n

-- A success carries no error; a failure carries no result and an error with a code and a message.
abbrev pub IsOutcome : Bool → Json → Option ControlErrorBody → Type 0
IsOutcome true result error = error ≡ none
IsOutcome false result none = ⊥
IsOutcome false result (some e) = (result ≡ undefined) × NonBlank e.code × NonBlank e.message

-- The messages of the protocol.
abbrev pub IsMessage : ControlMessage → Type 0
IsMessage (request r) = NonBlank r.id × NonBlank r.method
IsMessage (response r) = NonBlank r.id × IsOutcome r.is_ok r.result r.error
IsMessage (event e) =
    NonBlank e.event × NonBlank e.event_id × NonBlank e.occurred_at × Positive e.sequence

-- The message is read from what arrives of it.
abbrev pub Arrives : ControlMessage → Type 0
Arrives m = parse_control_message (wire (message_json m)) ≡ ok (delivered m)

request_round :
    (id method : String) (params : Json)
    → NonBlank id
    → NonBlank method
    → Arrives (request (record { id = id; method = method; params = params }))
unfolding parse_control_message parse_control_request message_json field wire wire_fields
request_round id method params i m = rw (i, m, field-wire_last "params" params)

response_round :
    (id : String) (is_ok : Bool) (result : Json) (error : Option ControlErrorBody)
    → NonBlank id
    → IsOutcome is_ok result error
    → Arrives (response (record { id = id; is_ok = is_ok; result = result; error = error }))
unfolding parse_control_message parse_control_response parse_control_error message_json field wire
    wire_fields
response_round id true result none i o = rw (i, field-wire_last "result" result)
response_round id true result (some e) i o = absurd (cc)
response_round id false result none i o = absurd o
response_round id false result (some e) i o =
    rw (i, o.0, o.1, o.2, field-wire_last "details" e.details) refl

no_session : (v : Json) → field "sessionId" (wire_fields (prop "data" v end)) ≡ undefined
no_session v = field-wire_other "sessionId" "data" v refl

no_sequence : (v : Json) → field "sequence" (wire_fields (prop "data" v end)) ≡ undefined
no_sequence v = field-wire_other "sequence" "data" v refl

module _ (name event_id occurred_at : String) (payload : Json) where
  abbrev event_with : Option String → Option ℕ → ControlMessage
  event_with session_id sequence = event (record {
    event = name;
    event_id = event_id;
    session_id = session_id;
    sequence = sequence;
    occurred_at = occurred_at;
    payload = payload;
  })

  -- the optional properties that are written, before the others
  abbrev session_first : Option String → Fields → Fields
  session_first none fields = fields
  session_first (some id) fields = prop "sessionId" (str id) fields

  abbrev sequence_first : Option ℕ → Fields → Fields
  sequence_first none fields = fields
  sequence_first (some n) fields = prop "sequence" (num (nat n)) fields

  -- the object of an event, for any text of its name, id and time, that ends with the data
  abbrev event_object : Option String → Option ℕ → Fields → Json
  event_object session_id sequence last = obj (
      prop "type" (str "event") (
        prop "event" (str name) (
          prop "eventId" (str event_id) (
            session_first session_id
              (sequence_first sequence (prop "occurredAt" (str occurred_at) last))))))

  event_read :
      (session_id : Option String) (sequence : Option ℕ) (last : Fields)
      → IsMessage (event_with session_id sequence)
      → field "sessionId" last ≡ undefined
      → field "sequence" last ≡ undefined
      → field "data" last ≡ wire payload
      → parse_control_message (event_object session_id sequence last)
        ≡ ok (delivered (event_with session_id sequence))
  unfolding parse_control_message parse_control_event field
  event_read none none last (n, i, o, s) e f g = rw (n, i, o, e, f, g)
  event_read none (some zero) last (n, i, o, s) e f g = absurd (omega arith)
  event_read none (some (suc k)) last (n, i, o, s) e f g = rw (n, i, o, e, g)
  event_read (some id) none last (n, i, o, s) e f g = rw (n, i, o, f, g)
  event_read (some id) (some zero) last (n, i, o, s) e f g = absurd (omega arith)
  event_read (some id) (some (suc k)) last (n, i, o, s) e f g = rw (n, i, o, g)

  event_sent :
      (session_id : Option String) (sequence : Option ℕ)
      → wire (message_json (event_with session_id sequence))
        ≡ event_object session_id sequence (wire_fields (prop "data" payload end))
  unfolding message_json wire wire_fields
  event_sent none none = refl
  event_sent none (some n) = refl
  event_sent (some id) none = refl
  event_sent (some id) (some n) = refl

  event_round :
      (session_id : Option String) (sequence : Option ℕ)
      → IsMessage (event_with session_id sequence)
      → Arrives (event_with session_id sequence)
  event_round session_id sequence h = rw (event_sent session_id sequence) (
      event_read session_id sequence (wire_fields (prop "data" payload end)) h (no_session payload)
        (no_sequence payload) (field-wire_last "data" payload))

pub message-Arrives : (m : ControlMessage) → IsMessage m → Arrives m
message-Arrives (request r) (i, m) = request_round r.id r.method r.params i m
message-Arrives (response r) (i, o) = response_round r.id r.is_ok r.result r.error i o
message-Arrives (event e) h =
    event_round e.event e.event_id e.occurred_at e.payload e.session_id e.sequence h
