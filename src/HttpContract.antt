-- ===== src/HttpContract.antt =====
-- src/http-contract.ts: what a receiver of a call answers, and how it is read. Whether a text is a URL,
-- as `new URL` decides, is a parameter. Headers are the entries of an object of texts.
pub mod Sound
mod Tests
use rtc_session_gateway.Base.{
  ℕ, String, Bool, true, false, not, ◌&&◌, Option, none, some, List, [], ◌∷◌, ◌==◌, if◌then◌else◌,
  leb,
}
use rtc_session_gateway.Base.Text.{◌<>◌, is_blank}
use rtc_session_gateway.Base.Decimal.{decimal}
use rtc_session_gateway.Json.{
  Json, undefined, null, bool, num, str, arr, obj, nat, Fields, end, field, entries, as_text,
  as_string,
}
use rtc_session_gateway.Errors.{
  Error, Result, ok, err, ◌>>=◌, ◌>>◌, guard, or_throw, plain, invalid_http_action,
}

abbrev pub SipHeaders : Type 0
SipHeaders = List (String × String)

pub record AnswerAction : Type 0 where
  pub sdp : String
  pub status : Option ℕ
  pub headers : Option SipHeaders
  pub receiver_url : Option String

pub record RejectAction : Type 0 where
  pub status : ℕ
  pub reason : Option String
  pub headers : Option SipHeaders
  pub receiver_url : Option String

pub data SipAction : Type 0 where
  answer : AnswerAction → SipAction
  reject : RejectAction → SipAction

-- headers[key] = value: a text assigned to `__proto__` is ignored
abbrev pub with_header : String → String → SipHeaders → SipHeaders
with_header key value headers = if key == "__proto__" then headers else (key, value) ∷ headers

unfoldable pub read_headers : List (String × Json) → Result SipHeaders
read_headers [] = ok []
read_headers ((key, str value) ∷ more) = do
  headers ← read_headers more
  ok (with_header key value headers)
read_headers ((key, value) ∷ more) =
    err (invalid_http_action ("header " <> key <> " must be a string"))

unfoldable pub parse_optional_headers : Json → Result (Option SipHeaders)
unfolding read_headers
parse_optional_headers undefined = ok none
parse_optional_headers null = ok none
parse_optional_headers (obj input) = do headers ← read_headers (entries input); ok (some headers)
parse_optional_headers _ = err (invalid_http_action "headers must be an object")

unfoldable pub parse_required_status : Json → ℕ → ℕ → String → Result ℕ
parse_required_status (num (nat status)) low high name =
    if leb low status && leb status high
    then ok status
    else err (
        invalid_http_action
          (name <> " must be an integer between " <> decimal low <> " and " <> decimal high))
parse_required_status _ low high name = err (
    invalid_http_action
      (name <> " must be an integer between " <> decimal low <> " and " <> decimal high))

unfoldable pub parse_optional_status : Json → ℕ → ℕ → String → Result (Option ℕ)
unfolding parse_required_status
parse_optional_status undefined low high name = ok none
parse_optional_status null low high name = ok none
parse_optional_status input low high name = do
  status ← parse_required_status input low high name
  ok (some status)

module _ (is_url : String → Bool) where
  unfoldable pub parse_optional_receiver_url : Json → Bool → Result (Option String)
  parse_optional_receiver_url undefined allow_receiver_url = ok none
  parse_optional_receiver_url null allow_receiver_url = ok none
  parse_optional_receiver_url input allow_receiver_url = do
    guard allow_receiver_url (invalid_http_action "receiverUrl is not accepted for this response")
    url ← or_throw (as_text input) (invalid_http_action "receiverUrl must be a URL")
    guard (is_url url) (plain "Invalid URL")
    ok (some url)

  unfoldable pub answer_action : Fields → Option SipHeaders → Option String → Result SipAction
  unfolding parse_optional_status
  answer_action payload headers receiver_url = do
    sdp ←
        or_throw (as_text (field "sdp" payload))
          (invalid_http_action "answer action requires non-empty sdp")
    status ← parse_optional_status (field "status" payload) 200 200 "answer status"
    ok (
        answer
          (record { sdp = sdp; status = status; headers = headers; receiver_url = receiver_url }))

  unfoldable pub reject_action : Fields → Option SipHeaders → Option String → Result SipAction
  unfolding parse_required_status
  reject_action payload headers receiver_url = do
    status ← parse_required_status (field "status" payload) 300 699 "reject status"
    ok (
        reject (record {
          status = status;
          reason = as_string (field "reason" payload);
          headers = headers;
          receiver_url = receiver_url;
        }))

  unfoldable pub action_by : Json → Fields → Option SipHeaders → Option String → Result SipAction
  unfolding answer_action reject_action
  action_by (str action) payload headers receiver_url =
      if action == "answer"
      then answer_action payload headers receiver_url
      else if action == "reject"
      then reject_action payload headers receiver_url
      else err (invalid_http_action "action must be \"answer\" or \"reject\"")
  action_by _ payload headers receiver_url =
      err (invalid_http_action "action must be \"answer\" or \"reject\"")

  unfoldable pub action_in : Fields → Bool → Result SipAction
  unfolding parse_optional_headers parse_optional_receiver_url action_by
  action_in payload allow_receiver_url = do
    headers ← parse_optional_headers (field "headers" payload)
    receiver_url ← parse_optional_receiver_url (field "receiverUrl" payload) allow_receiver_url
    action_by (field "action" payload) payload headers receiver_url

  -- an array is an object without the properties that are read
  unfoldable pub parse_sip_action_response : Json → Bool → Result SipAction
  unfolding action_in
  parse_sip_action_response (obj payload) allow_receiver_url = action_in payload allow_receiver_url
  parse_sip_action_response (arr elements) allow_receiver_url = action_in end allow_receiver_url
  parse_sip_action_response _ allow_receiver_url =
      err (invalid_http_action "HTTP response must be an object")
