-- ===== src/ControlLog/Throwing.antt =====
-- When src/control-log.ts makes a body for the log of a control request, and when it throws.
use rtc_session_gateway.ControlLog.Clean.Summaries.{identifier_clean}
use rtc_session_gateway.ControlLog.Clean.Objects.{IsLogged, scrub_known_object-IsLogged}
use rtc_session_gateway.ControlLog.Redaction.{safe_protocol_name}
use rtc_session_gateway.ControlLog.Summaries.{scrub_identifier}
use rtc_session_gateway.ControlLog.{is_sensitive_control_request}
use rtc_session_gateway.ControlLog.Values.{type_marker}
use rtc_session_gateway.ControlLog.Clean.{is_clean}
use rtc_session_gateway.Errors.{plain, err, ok}
use rtc_session_gateway.Json.{str, obj, Fields, Json}
use rtc_session_gateway.ControlLog.Scrub.{
  request_body, StructuredControlLogBody, ControlLogContext, scrub_fields, scrub_known_object,
}
use rtc_session_gateway.ControlLog.Bodies.{scrub_control_request}
use rtc_session_gateway.ControlLog.Uri.{Platform}
use rtc_session_gateway.Base.{ℕ, inr, List, ◌&&◌, arith, Option, ◌==◌, eq_iff, is_some, not}
use rtc_session_gateway.ControlLog.Tables.{
  listed, fields_in, request_fields, own_or_inherited, request_table, object_prototype,
}
use rtc_session_gateway.Base.Assoc.{lookup, Map}
use rtc_session_gateway.Base.{
  eq_iff, subst, inl, ◌==◌, refl, Bool-cases, ◌≡◌, is_some, String, Bool, [], ◌∷◌, some, none, true,
  false,
}

-- no key of the first map is in the second
unfoldable pub are_apart : {V W : Type 0} → Map V → Map W → Bool
are_apart [] m = true
are_apart ((k, v) ∷ ks) m = not (is_some (lookup k m)) && are_apart ks m

missing : {W : Type 0} (o : Option W) → is_some o ≡ false → o ≡ none
missing none h = refl
missing (some w) h = absurd (cc)

lookup_apart :
    {V W : Type 0} (k : String) (ks : Map V) (m : Map W) (v : V)
    → are_apart ks m ≡ true
    → lookup k ks ≡ some v
    → lookup k m ≡ none
unfolding are_apart lookup
lookup_apart k [] m v h e = absurd (cc)
lookup_apart k ((j, w) ∷ ks) m v h e = elim (Bool-cases (j == k)) [
  | inl same ↦
      subst (λ i. lookup i m ≡ none) ((eq_iff j k).0 same) (missing (lookup j m) (ground arith))
  | inr other ↦ lookup_apart k ks m v (ground arith) (ground arith)
]

request_table_apart : are_apart object_prototype request_table ≡ true
unfolding are_apart lookup
request_table_apart = refl

listed_logs :
    (platform : Platform) (value : Json) (allowed : List String) (context : ControlLogContext)
    → (logged : Json) × (scrub_known_object platform value (listed allowed) context ≡ ok logged)
unfolding scrub_known_object scrub_fields
listed_logs platform (obj fields) allowed context = (_, refl)
listed_logs platform v allowed context = (type_marker v, refl)

own_listed :
    (own : Option (List String)) (size : Option ℕ)
    → size ≡ none
    → (allowed : List String) × (own_or_inherited own size ≡ listed allowed)
unfolding own_or_inherited
own_listed (some allowed) size e = (allowed, refl)
own_listed none none e = ([], refl)
own_listed none (some size) e = absurd (cc)

-- Whatever the parameters, a request whose method is not the name of a property of Object.prototype is
-- logged. No text of the logged id, and none in the values of the logged parameters, has six digits in a
-- row, but for the texts at a nested property `names` or `queryKeys` (the names of headers, the keys of
-- queries). The names of the parameters are the caller's, and may have such digits: each is logged as 1
-- to 64 letters, digits, `_`, `.` and `-`, or as "[REDACTED_FIELD]".
pub scrub_control_request-logs :
    (platform : Platform) (id method : String) (params : Json)
    → lookup method object_prototype ≡ none
    → (body : StructuredControlLogBody) × (scrub_control_request platform id method params
        ≡ ok body)
      × (is_clean body.id ≡ true)
      × IsLogged body.value
unfolding scrub_control_request request_fields fields_in
scrub_control_request-logs platform id method params e =
    let (allowed, f) =
      own_listed (lookup method request_table) (lookup method object_prototype) e in
    let context : ControlLogContext = record {
      method = some method;
      sensitive = some (is_sensitive_control_request method params);
    } in
    let (logged, g) = listed_logs platform params allowed context in
    let body : StructuredControlLogBody = record {
      kind = request_body;
      id = scrub_identifier (str id);
      method = some (safe_protocol_name method);
      event = none;
      success = none;
      value = logged;
    } in
    (
      body,
      rw (f, g),
      identifier_clean (str id),
      scrub_known_object-IsLogged platform params (listed allowed) context g,
    )

-- A request whose method is the name of a property of Object.prototype, and whose parameters are an
-- object, is not logged: the table answers the inherited property, and the call throws.
pub scrub_control_request-throws :
    (platform : Platform) (id method : String) (fields : Fields) (size : ℕ)
    → lookup method object_prototype ≡ some size
    → scrub_control_request platform id method (obj fields)
      ≡ err (plain "allowedFields.map is not a function")
unfolding scrub_control_request request_fields fields_in own_or_inherited scrub_known_object
    scrub_fields
scrub_control_request-throws platform id method fields size e =
    let own = lookup_apart method object_prototype request_table size request_table_apart e in
    rw (own, e)
