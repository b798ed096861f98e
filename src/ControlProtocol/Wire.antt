-- ===== src/ControlProtocol/Wire.antt =====
-- What arrives of a message that is sent as JSON, for the `JSON.stringify` of src/control-hub.ts and the
-- `JSON.parse` of src/control-protocol.ts.
use rtc_session_gateway.Base.{false, ◌==◌, String, Option, none, some, ◌≡◌, refl, eq_iff}
use rtc_session_gateway.Errors.{ControlErrorBody}
use rtc_session_gateway.Json.{
  Json, Items, Fields, undefined, null, bool, num, str, arr, obj, nil, cons, end, prop, infinity,
  field,
}
use rtc_session_gateway.ControlProtocol.{ControlMessage, request, response, event}

-- JSON.parse(JSON.stringify(value)), of a value made of these constructors: a property that is
-- undefined is left out, an item that is undefined becomes null, and so does a number that is not
-- finite. A value that is itself undefined is nothing that is sent.
unfoldable mutual
  pub wire : Json → Json
  wire (num infinity) = null
  wire (arr values) = arr (wire_items values)
  wire (obj fields) = obj (wire_fields fields)
  wire value = value

  pub wire_items : Items → Items
  wire_items nil = nil
  wire_items (cons undefined values) = cons null (wire_items values)
  wire_items (cons value values) = cons (wire value) (wire_items values)

  pub wire_fields : Fields → Fields
  wire_fields end = end
  wire_fields (prop key undefined fields) = wire_fields fields
  wire_fields (prop key value fields) = prop key (wire value) (wire_fields fields)

abbrev pub delivered_error : Option ControlErrorBody → Option ControlErrorBody
delivered_error none = none
delivered_error (some e) = some (record e { details = wire e.details })

-- The message with its values as they arrive.
abbrev pub delivered : ControlMessage → ControlMessage
delivered (request r) = request (record r { params = wire r.params })
delivered (response r) =
    response (record r { result = wire r.result; error = delivered_error r.error })
delivered (event e) = event (record e { payload = wire e.payload })

-- the last property of an object, whether it is defined or not
pub field-wire_last : (key : String) (v : Json) → field key (wire_fields (prop key v end)) ≡ wire v
unfolding wire wire_fields field
field-wire_last key undefined = refl
field-wire_last key null = rw ((eq_iff key key).1 refl)
field-wire_last key (bool b) = rw ((eq_iff key key).1 refl)
field-wire_last key (num n) = rw ((eq_iff key key).1 refl)
field-wire_last key (str s) = rw ((eq_iff key key).1 refl)
field-wire_last key (arr xs) = rw ((eq_iff key key).1 refl)
field-wire_last key (obj fs) = rw ((eq_iff key key).1 refl)

pub field-wire_other :
    (k key : String) (v : Json)
    → key == k ≡ false
    → field k (wire_fields (prop key v end)) ≡ undefined
unfolding wire wire_fields field
field-wire_other k key undefined h = refl
field-wire_other k key v h = rw h

pub wire_undefined : (v : Json) → wire v ≡ undefined → v ≡ undefined
unfolding wire
wire_undefined undefined h = refl
wire_undefined (num infinity) h = absurd (cc)
wire_undefined v h = absurd (cc)
