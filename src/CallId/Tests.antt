-- ===== src/CallId/Tests.antt =====
-- src/call-id.ts at work on Call-IDs.
use rtc_session_gateway.CallId.Tidy.{normalize_call_id-IsTidy, IsTidy}
use rtc_session_gateway.CallId.{stripped_call_id, normalize_call_id}
use rtc_session_gateway.Base.{◌≡◌, ◌≢◌, ◌⊎◌, some, refl, or_else}
use rtc_session_gateway.Base.Text.{◌<>◌}

normalize_test : normalize_call_id "u" (some " <sip:ab//c d@h--x>") ≡ "ab-c-d@h-x"
unfolding normalize_call_id
normalize_test = refl

normalize_call_id-IsTidy_example :
    let id = normalize_call_id "8a1f" (some "sip:a b@host") in
    (IsTidy id × (id ≢ ""))
    ⊎ ((id ≡ "call-" <> "8a1f") × (stripped_call_id (or_else (some "sip:a b@host") "") ≡ ""))
normalize_call_id-IsTidy_example = normalize_call_id-IsTidy "8a1f" (some "sip:a b@host")
