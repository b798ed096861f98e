-- ===== src/CallRegistry/Tests.antt =====
-- src/call-registry.ts at work on a registry that holds a reservation.
use rtc_session_gateway.Base.Assoc.{lookup, insert}
use rtc_session_gateway.Base.Decimal.{decimal}
use rtc_session_gateway.CallRegistry.Reserve.{reserve_call_id-Reserved, Reserved}
use rtc_session_gateway.CallRegistry.{
  remove, activate, release_reservation, normalize_call_id, empty, reserve_call_id, CallRegistry,
  ActiveCall,
}
use rtc_session_gateway.CallRegistry.Invariant.{
  setup_holds_one, run-empty-IsConsistent, removes, reserves, resources, IsConsistent, run,
  activates,
}
use rtc_session_gateway.Base.{◌≡◌, ◌∷◌, [], suc, none, some, refl}

abbrev one_reserved : CallRegistry
one_reserved = record { calls = []; reservations = ("abc", tt) ∷ [] }

abbrev two_reserved : CallRegistry
two_reserved = record { calls = []; reservations = ("abc", tt) ∷ ("abc-2", tt) ∷ [] }

abbrev answered : ActiveCall
answered = record {
  snapshot = record {
    call_id = "abc-2";
    sip_call_id = "abc";
    route_url = "control://c";
    receiver_url = "http://receiver";
    control_connection_id = none;
    destination_uri = "sip:x@example.com";
    destination_user = none;
    source_uri = some "sip:y@example.com";
    local_sdp = none;
    remote_sdp = none;
    created_at = "t";
    updated_at = "t";
  };
  dialog = 1;
}

reserve_test : reserve_call_id one_reserved "u" "abc" ≡ some ("abc-2", two_reserved)
unfolding reserve_call_id lookup rtc_session_gateway.CallId.normalize_call_id decimal insert
reserve_test = refl

reserve_call_id-Reserved_example :
    Reserved one_reserved
      (normalize_call_id "u" (some "abc"))
      (reserve_call_id one_reserved "u" "abc")
reserve_call_id-Reserved_example = reserve_call_id-Reserved one_reserved "u" "abc"

run-empty-IsConsistent_example :
    IsConsistent (
      run empty (reserves "u" "abc" ∷ reserves "v" "abc" ∷ activates answered ∷ removes "abc" ∷ []))
run-empty-IsConsistent_example =
    run-empty-IsConsistent
      (reserves "u" "abc" ∷ reserves "v" "abc" ∷ activates answered ∷ removes "abc" ∷ [])

setup_holds_one_example :
    (resources two_reserved ≡ suc (resources one_reserved))
    × (resources (release_reservation two_reserved "abc-2") ≡ resources one_reserved)
    × (resources (activate two_reserved answered) ≡ suc (resources one_reserved))
    × (resources (remove (activate two_reserved answered) "abc-2").1 ≡ resources one_reserved)
unfolding reserve_call_id lookup rtc_session_gateway.CallId.normalize_call_id decimal insert
setup_holds_one_example =
    setup_holds_one one_reserved two_reserved "u" "abc" "abc-2" answered refl refl
