-- ===== src/MediaServerManager/Tests.antt =====
-- src/media-server-manager.ts at work on three backends, one of which takes no new sessions.
use rtc_session_gateway.MediaServerManager.{select_backend, pin_call}
use rtc_session_gateway.Base.Assoc.{insert}
use rtc_session_gateway.MediaServerManager.Affinity.{pick_backend-IsPicked, IsPicked}
use rtc_session_gateway.MediaServerManager.Selection.{select_times-TakesTurns, TakesTurns}
use rtc_session_gateway.MediaServerManager.{ok, pick_backend, Pin, MediaServerManager, MediaBackend}
use rtc_session_gateway.Base.{
  Bool, true, false, Option, none, some, List, [], ◌∷◌, String, ◌≡◌, refl, arith, eq_iff,
}
use rtc_session_gateway.MediaServerManager.Pins.{step-IsHeld, step, IsHeld, sweeps}
use rtc_session_gateway.Base.Assoc.{lookup}

abbrev backend : String → Option Bool → MediaBackend
backend id accept_new = record {
  id = id;
  url = "wss://media";
  http_url = "https://media";
  accept_new = accept_new;
  server_name = none;
  recording_server_name = none;
  turn_urls = none;
}

abbrev backends : List MediaBackend
backends = backend "a" none ∷ backend "b" (some false) ∷ backend "c" (some true) ∷ []

abbrev held : Pin
held = record { backend_id = "c"; created_at = 5; refs = 1 }

abbrev one_call : MediaServerManager
one_call = record { call_to_backend = ("x", held) ∷ []; next_backend_index = 0 }

select_times-TakesTurns_example : TakesTurns 5 one_call backends
select_times-TakesTurns_example = select_times-TakesTurns 5 one_call backends (omega arith)

abbrev picked : MediaServerManager
picked = record {
  call_to_backend = ("x", record held { created_at = 9 }) ∷ [];
  next_backend_index = 0;
}

pick_test : pick_backend one_call backends none (some "x") 9 ≡ ok (backend "c" (some true), picked)
unfolding pick_backend lookup select_backend pin_call insert
pick_test = refl

pick_backend-IsPicked_example : IsPicked one_call picked backends none "x" (backend "c" (some true))
unfolding pick_backend lookup select_backend pin_call insert
pick_backend-IsPicked_example =
    pick_backend-IsPicked one_call picked backends none "x" 9 (backend "c" (some true))
      (ground (arith, eq_iff "x" "")) refl

step-IsHeld_example : IsHeld "x" held (step one_call (sweeps 20000000 (λ id. false)))
unfolding lookup
step-IsHeld_example =
    step-IsHeld one_call (sweeps 20000000 (λ id. false)) "x" held (refl, tt) refl (omega arith)
      (ground (arith, eq_iff "c" "")) refl
