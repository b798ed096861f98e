-- ===== src/HttpContract/Sound.antt =====
-- src/http-contract.ts: what holds of every action that is read.
use rtc_session_gateway.HttpContract.{
  parse_optional_headers, SipHeaders, reject_action, parse_sip_action_response,
  parse_optional_status, parse_optional_receiver_url, answer_action, action_in, action_by, reject,
  answer, parse_required_status, SipAction,
}
use rtc_session_gateway.Base.{
  ℕ, String, Bool, true, false, ◌≤◌, ◌≡◌, ◌⊎◌, inl, inr, ap, sym, ◌∙◌, subst, arith, Option, none,
  some, ◌==◌, Bool-cases,
}
use rtc_session_gateway.Base.Text.{is_blank}
use rtc_session_gateway.Json.{
  Json, undefined, null, bool, num, str, arr, obj, nat, Fields, end, field, as_text,
}
use rtc_session_gateway.Errors.{or_throw, >>=-eq-ok, ok, or_throw_inv, guard_inv, ok_injective}

-- A receiver URL is there only where it is allowed, and is a URL.
abbrev pub IsReceiver : (String → Bool) → Bool → Option String → Type 0
IsReceiver is_url allowed none = Unit
IsReceiver is_url allowed (some url) =
    (allowed ≡ true) × (is_blank url ≡ false) × (is_url url ≡ true)

abbrev pub IsAction : (String → Bool) → Bool → SipAction → Type 0
IsAction is_url allowed (answer a) =
    (is_blank a.sdp ≡ false)
    × ((a.status ≡ none) ⊎ (a.status ≡ some 200))
    × IsReceiver is_url allowed a.receiver_url
IsAction is_url allowed (reject r) =
    (300 ≤ r.status) × (r.status ≤ 699) × IsReceiver is_url allowed r.receiver_url

required_status_inv :
    (v : Json) (low high n : ℕ) (name : String)
    → parse_required_status v low high name ≡ ok n
    → (low ≤ n) × (n ≤ high)
unfolding parse_required_status
required_status_inv (num (nat status)) low high n name h = ground arith
required_status_inv _ low high n name h = absurd (cc)

one_status :
    (v : Json) (name : String) (status : Option ℕ)
    → parse_optional_status v 200 200 name ≡ ok status
    → (status ≡ none) ⊎ (status ≡ some 200)
unfolding parse_optional_status
one_status undefined name status h = inl (sym (ok_injective h))
one_status null name status h = inl (sym (ok_injective h))
one_status (num k) name status h =
    let (n, read, h1) = >>=-eq-ok (parse_required_status (num k) 200 200 name) _ h in
    let (low, high) = required_status_inv (num k) 200 200 n name read in
    let same : n ≡ 200 = omega (arith, low, high) in inr (sym (ok_injective h1) ∙ ap some same)
one_status _ name status h = absurd (cc)

text_inv : (v : Json) (s : String) → as_text v ≡ some s → is_blank s ≡ false
text_inv (str t) s h = ground arith
text_inv _ s h = absurd (cc)

module _ (is_url : String → Bool) where
  IsReceiver-read :
      (v : Json) (allowed : Bool) (url : Option String)
      → parse_optional_receiver_url is_url v allowed ≡ ok url
      → IsReceiver is_url allowed url
  unfolding parse_optional_receiver_url
  IsReceiver-read undefined allowed url h = subst (IsReceiver is_url allowed) (ok_injective h) tt
  IsReceiver-read null allowed url h = subst (IsReceiver is_url allowed) (ok_injective h) tt
  IsReceiver-read (str t) allowed url h =
      let (allows, h1) = guard_inv allowed _ _ h in
      let (u, text, h2) = >>=-eq-ok (or_throw (as_text (str t)) _) _ h1 in
      let (valid, h3) = guard_inv (is_url u) _ _ h2 in
      subst (IsReceiver is_url allowed) (ok_injective h3)
        (allows, text_inv (str t) u (or_throw_inv _ _ text), valid)
  IsReceiver-read (bool b) true url h = absurd (cc)
  IsReceiver-read (bool b) false url h = absurd (cc)
  IsReceiver-read (num n) true url h = absurd (cc)
  IsReceiver-read (num n) false url h = absurd (cc)
  IsReceiver-read (arr vs) true url h = absurd (cc)
  IsReceiver-read (arr vs) false url h = absurd (cc)
  IsReceiver-read (obj fs) true url h = absurd (cc)
  IsReceiver-read (obj fs) false url h = absurd (cc)

  answer_inv :
      (payload : Fields) (headers : Option SipHeaders) (url : Option String) (allowed : Bool)
      (a : SipAction)
      → IsReceiver is_url allowed url
      → answer_action is_url payload headers url ≡ ok a
      → IsAction is_url allowed a
  unfolding answer_action
  answer_inv payload headers url allowed a receiver h =
      let (sdp, text, h1) = >>=-eq-ok (or_throw (as_text (field "sdp" payload)) _) _ h in
      let (status, read, h2) =
        >>=-eq-ok (parse_optional_status (field "status" payload) 200 200 _) _ h1 in
      subst (IsAction is_url allowed) (ok_injective h2) (
        text_inv (field "sdp" payload) sdp (or_throw_inv _ _ text),
        one_status (field "status" payload) _ status read,
        receiver,
      )

  reject_inv :
      (payload : Fields) (headers : Option SipHeaders) (url : Option String) (allowed : Bool)
      (a : SipAction)
      → IsReceiver is_url allowed url
      → reject_action is_url payload headers url ≡ ok a
      → IsAction is_url allowed a
  unfolding reject_action
  reject_inv payload headers url allowed a receiver h =
      let (status, read, h1) =
        >>=-eq-ok (parse_required_status (field "status" payload) 300 699 _) _ h in
      let (low, high) = required_status_inv (field "status" payload) 300 699 status _ read in
      subst (IsAction is_url allowed) (ok_injective h1) (low, high, receiver)

  by_inv :
      (v : Json) (payload : Fields) (headers : Option SipHeaders) (url : Option String)
      (allowed : Bool) (a : SipAction)
      → IsReceiver is_url allowed url
      → action_by is_url v payload headers url ≡ ok a
      → IsAction is_url allowed a
  unfolding action_by
  by_inv (str action) payload headers url allowed a receiver h =
      elim (Bool-cases (action == "answer")) [
        | inl e ↦ answer_inv payload headers url allowed a receiver (ground (arith, h, e))
        | inr n ↦ elim (Bool-cases (action == "reject")) [
          | inl e ↦ reject_inv payload headers url allowed a receiver (ground (arith, h, n, e))
          | inr m ↦ absurd (ground (arith, h, n, m))
        ]
      ]
  by_inv _ payload headers url allowed a receiver h = absurd (cc)

  in_inv :
      (payload : Fields) (allowed : Bool) (a : SipAction)
      → action_in is_url payload allowed ≡ ok a
      → IsAction is_url allowed a
  unfolding action_in
  in_inv payload allowed a h =
      let (headers, read, h1) = >>=-eq-ok (parse_optional_headers (field "headers" payload)) _ h in
      let (url, received, h2) =
        >>=-eq-ok (parse_optional_receiver_url is_url (field "receiverUrl" payload) allowed) _ h1 in
      by_inv (field "action" payload) payload headers url allowed a
        (IsReceiver-read (field "receiverUrl" payload) allowed url received) h2

  -- Whatever a receiver answers, an action that is read is well-formed: an answer has an SDP that is not
  -- blank and no status or status 200, a rejection has a status from 300 to 699, and a receiver URL is
  -- there only if it is allowed and is then a URL that is not blank.
  pub parse_sip_action_response-IsAction :
      (v : Json) (allowed : Bool) (a : SipAction)
      → parse_sip_action_response is_url v allowed ≡ ok a
      → IsAction is_url allowed a
  unfolding parse_sip_action_response
  parse_sip_action_response-IsAction (obj payload) allowed a h = in_inv payload allowed a h
  parse_sip_action_response-IsAction (arr elements) allowed a h = in_inv end allowed a h
  parse_sip_action_response-IsAction _ allowed a h = absurd (cc)
