-- ===== src/Routing/Tests.antt =====
-- src/routing.ts at work on INVITE destinations.
use rtc_session_gateway.Routing.Matching.{match_route_iff, Takes, FirstTaken}
use rtc_session_gateway.Base.{◌≡◌, ◌↔◌, [], ◌∷◌, none, some, refl, All}
use rtc_session_gateway.Base.Text.{starts_with}
use rtc_session_gateway.Routing.{
  normalize_user, normalize_route_value, match_route, get_sip_user, get_sip_host, InviteDestination,
  RouteConfig, exact, user_prefix,
}

abbrev office : RouteConfig
office = record { match = exact; value = "sip:office@example.com"; url = "control://a" }

abbrev support : RouteConfig
support = record { match = user_prefix; value = "sup"; url = "control://b" }

abbrev call_support : InviteDestination
call_support = record {
  destination_uri = "<sip:support@example.com;transport=tcp>";
  destination_user = some "support";
}

host_test : get_sip_host "<sip:bob@Example.COM.:5060;lr>" ≡ some "example.com"
unfolding get_sip_host
host_test = refl

user_test : get_sip_user "SIPS:bob@example.com?x=1" ≡ some "bob"
unfolding get_sip_user
user_test = refl

match_test : match_route (office ∷ support ∷ []) call_support ≡ some support
unfolding match_route starts_with
match_test = refl

match_route_iff_example :
    let uri = normalize_route_value call_support.destination_uri in
    let user = normalize_user call_support.destination_user in
    ((r : RouteConfig)
      → (match_route (office ∷ support ∷ []) call_support ≡ some r)
        ↔ FirstTaken uri user (office ∷ support ∷ []) r)
    × ((match_route (office ∷ support ∷ []) call_support ≡ none)
        ↔ All (λ s. ¬ Takes uri user s) (office ∷ support ∷ []))
match_route_iff_example = match_route_iff (office ∷ support ∷ []) call_support
