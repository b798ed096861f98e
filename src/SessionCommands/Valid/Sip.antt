-- ===== src/SessionCommands/Valid/Sip.antt =====
-- The commands of src/session-commands.ts on calls and sessions: each ends in a valid action or in a
-- refusal.
use rtc_session_gateway.Base.{refl, true, false}
use rtc_session_gateway.HttpContract.{parse_optional_headers}
use rtc_session_gateway.Errors.{◌>>=◌, ok, command_validation}
use rtc_session_gateway.SessionCommands.Valid.{
  IsAccepting, HasMedia, HasMedia-Meets, truthy, IsValid, AreCredentials,
}
use rtc_session_gateway.Base.{if◌then◌else◌, arith, ◌≡◌}
use rtc_session_gateway.CallRegistry.{get, ActiveCall}
use rtc_session_gateway.SessionCommands.Meets.{
  weaken, unknown_session, refuses, missing, guard-Meets, accepting-Meets, returns, bind, invalid,
  IsText, Meets,
}
use rtc_session_gateway.SessionCommands.Meets.Parameters.{
  IsText-Meets, required_string-Meets, parse_optional_headers-Meets, optional_string-Meets,
  require_object-Meets, optional_object-Meets,
}
use rtc_session_gateway.Base.{◌||◌, none, true, ◌≡◌, is_some}
use rtc_session_gateway.SessionCommands.Sip.{
  is_new_call, shown, reinvite, parse_optional_sip_auth, media_session, get_session, delete_session,
  create_outbound, create_media_session, cancel_outbound, bye,
}
use rtc_session_gateway.Json.{null, undefined, as_text, Json}
use rtc_session_gateway.SessionCommands.{
  says_bye, destroys_session, accepting, or_throw, MediaSessionSnapshot, some, Option,
  CommandContext, String, Bool, SessionCommandHandler,
}

named-Meets :
    (v : Json) (message : String) → Meets IsText (or_throw (as_text v) (command_validation message))
named-Meets v message = IsText-Meets v _ (invalid _)

shown-Meets :
    (h : SessionCommandHandler) (id : String) (call : Option ActiveCall)
    (media : Option MediaSessionSnapshot)
    → Meets (IsValid h) (shown id call media)
unfolding shown
shown-Meets h id (some call) media = returns _ tt
shown-Meets h id none (some session) = returns _ tt
shown-Meets h id none none = refuses _ (unknown_session _)

pub get_session-Meets :
    (h : SessionCommandHandler) (params : Json) → Meets (IsValid h) (get_session h params)
unfolding get_session
get_session-Meets h params = bind (require_object-Meets params) λ body b.
    bind (named-Meets _ _) λ id p. shown-Meets h id (get h.registry id) (media_session h id)

-- a session that is found is among those of the media sessions
media_session-HasMedia :
    (h : SessionCommandHandler) (id : String) → is_some (media_session h id) ≡ true → HasMedia h
unfolding media_session
media_session-HasMedia h id e = ground arith

deletes-Meets :
    (h : SessionCommandHandler) (id : String) (is_media : Bool) (reason : Option String)
    (headers : Json)
    → IsText id
    → (is_media ≡ true → HasMedia h)
    → Meets (IsValid h) (
        (if is_media then ok none else parse_optional_headers headers) >>= λ read.
        ok (if is_media then destroys_session id else says_bye id reason read))
deletes-Meets h id true reason headers p m = returns _ (p, m refl)
deletes-Meets h id false reason headers p m =
    bind (parse_optional_headers-Meets headers) (λ read q. returns _ p)

pub delete_session-Meets :
    (h : SessionCommandHandler) (params : Json) → Meets (IsValid h) (delete_session h params)
unfolding delete_session
delete_session-Meets h params = bind (require_object-Meets params) λ body b.
    bind (named-Meets _ _)
      λ id p. deletes-Meets h id (is_some (media_session h id)) _ _ p (media_session-HasMedia h id)

accepts_new-Meets :
    (h : SessionCommandHandler) (is_new : Bool)
    → Meets (λ u. is_new ≡ true → IsAccepting h) (if is_new then accepting h.lifecycle else ok tt)
accepts_new-Meets h true = weaken (λ u a e. a) (accepting-Meets h.lifecycle)
accepts_new-Meets h false = returns tt (λ e. cc)

pub create_media_session-Meets :
    (h : SessionCommandHandler) (params : Json) (context : CommandContext)
    → Meets (IsValid h) (create_media_session h params context)
unfolding create_media_session
create_media_session-Meets h params context = bind (optional_object-Meets params) λ body b.
    bind (optional_string-Meets _ _) λ call_id p.
      bind (accepts_new-Meets h (is_new_call h.registry call_id))
        λ u a. bind (HasMedia-Meets h) λ media m. returns _ (p, m, a)

parse_optional_sip_auth-Meets : (v : Json) → Meets AreCredentials (parse_optional_sip_auth v)
unfolding parse_optional_sip_auth
parse_optional_sip_auth-Meets undefined = returns none tt
parse_optional_sip_auth-Meets null = returns none tt
parse_optional_sip_auth-Meets v = bind (require_object-Meets v) λ auth b.
    bind (required_string-Meets _ _)
      λ username u. bind (required_string-Meets _ _) λ password p. returns _ (u, p)

pub create_outbound-Meets :
    (h : SessionCommandHandler) (params : Json) (context : CommandContext)
    → Meets (IsValid h) (create_outbound h params context)
unfolding create_outbound
create_outbound-Meets h params context = bind (accepting-Meets h.lifecycle) λ u accepts.
    bind (require_object-Meets params) λ body b. bind (optional_string-Meets _ _) λ receiver_url r.
      bind
        (guard-Meets (is_some (truthy context.control_connection_id) || is_some receiver_url) _
          (invalid _))
        λ u reachable. bind (parse_optional_sip_auth-Meets _) λ auth a.
          bind (optional_string-Meets _ _) λ attempt t.
            bind (required_string-Meets _ _) λ request_uri i.
              bind (required_string-Meets _ _) λ sdp s.
                bind (parse_optional_headers-Meets _) λ headers q.
                  bind (optional_string-Meets _ _) λ number n.
                    bind (optional_string-Meets _ _) λ name m.
                      bind (optional_string-Meets _ _) λ proxy p. returns _ (
                        record {
                          request_uri_text = i;
                          sdp_text = s;
                          receiver_url_text = r;
                          reachable = reachable;
                          calling_number_text = n;
                          calling_name_text = m;
                          proxy_text = p;
                          attempt_text = t;
                          credentials = a;
                        },
                        accepts,
                      )

pub cancel_outbound-Meets :
    (h : SessionCommandHandler) (params : Json) (context : CommandContext)
    → Meets (IsValid h) (cancel_outbound h params context)
unfolding cancel_outbound
cancel_outbound-Meets h params context =
    bind (guard-Meets h.cancels_outbound _ (missing _)) λ u can.
      bind (require_object-Meets params)
        λ body b. bind (required_string-Meets _ _) λ attempt t. returns _ (t, can)

pub reinvite-Meets :
    (h : SessionCommandHandler) (params : Json) → Meets (IsValid h) (reinvite params)
unfolding reinvite
reinvite-Meets h params = bind (require_object-Meets params) λ body b.
    bind (named-Meets _ _) λ id p.
      bind (named-Meets _ _)
        λ sdp s. bind (parse_optional_headers-Meets _) λ headers q. returns _ (p, s)

pub bye-Meets : (h : SessionCommandHandler) (params : Json) → Meets (IsValid h) (bye params)
unfolding bye
bye-Meets h params = bind (require_object-Meets params) λ body b.
    bind (named-Meets _ _) λ id p. bind (parse_optional_headers-Meets _) λ headers q. returns _ p
