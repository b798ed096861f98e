-- ===== src/HttpContract/Tests.antt =====
-- src/http-contract.ts at work on a rejection.
use rtc_session_gateway.HttpContract.Sound.{parse_sip_action_response-IsAction, IsAction}
use rtc_session_gateway.HttpContract.{reject, parse_sip_action_response, SipAction}
use rtc_session_gateway.Base.{true, false, none, some, [], ◌∷◌, ◌≡◌, refl}
use rtc_session_gateway.Json.{Json, str, obj, num, nat, prop, end, field}
use rtc_session_gateway.Errors.{ok}

abbrev busy_json : Json
busy_json = obj (
    prop "action" (str "reject")
      (prop "status" (num (nat 486)) (prop "headers" (obj (prop "X-A" (str "1") end)) end)))

abbrev busy : SipAction
busy = reject (record {
  status = 486;
  reason = none;
  headers = some (("X-A", "1") ∷ []);
  receiver_url = none;
})

busy_test : parse_sip_action_response (λ url. true) busy_json false ≡ ok busy
unfolding parse_sip_action_response field
busy_test = refl

parse_sip_action_response-IsAction_example : IsAction (λ url. true) false busy
unfolding parse_sip_action_response field
parse_sip_action_response-IsAction_example =
    parse_sip_action_response-IsAction (λ url. true) busy_json false busy refl
