-- ===== src/ControlLog/Hidden.antt =====
-- What src/control-log.ts is to hide, said without its tables: the names of secrets and of digits, and
-- the secrets inside credentials and inside the configuration of ICE.
use rtc_session_gateway.Base.Assoc.{lookup}
use rtc_session_gateway.Base.Text.{ends_with, to_lower}
use rtc_session_gateway.Base.{
  ap₂, All, Bool, Bool-cases, List, String, [], ap, arith, eq_iff, false, inl, inr, refl, some,
  subst, true, ◌==◌, ◌≡◌, ◌∷◌,
}
use rtc_session_gateway.Json.{str, Fields, Items, Json, cons, field, nil, obj, undefined, arr}
use rtc_session_gateway.ControlLog.Redaction.{redacted_text, normalize_field}
use rtc_session_gateway.ControlLog.Scrub.{
  FieldKind, auth_field, digits_field, field_kind, ice_field, secret,
}
use rtc_session_gateway.ControlLog.Summaries.{
  summarize_servers, present, if_defined, map_items, summarize_auth, summarize_ice_configuration,
  summarize_server,
}
use rtc_session_gateway.ControlLog.Values.{contains}

-- A key is one of these spellings, or one of these words once its case and its `_` are dropped.
pub data Names (spellings words : List String) (key : String) : Type 0 where
  spelled : contains key spellings ≡ true → Names spellings words key
  folded : contains (normalize_field key) words ≡ true → Names spellings words key

contains_all :
    (P : String → Type 0) (s : String) (ts : List String) → All P ts → contains s ts ≡ true → P s
unfolding contains
contains_all P s [] p h = absurd (cc)
contains_all P s (t ∷ ts) p h = elim (Bool-cases (t == s)) [
  | inl same ↦ subst P ((eq_iff t s).0 same) p.0
  | inr other ↦ contains_all P s ts p.1 (ground arith)
]

named_kind :
    {spellings words : List String} (kind : FieldKind) (key : String)
    → All (λ s. field_kind (normalize_field s) ≡ some kind) spellings
    → All (λ s. field_kind s ≡ some kind) words
    → Names spellings words key
    → field_kind (normalize_field key) ≡ some kind
named_kind {spellings} kind key p q (spelled h) =
    contains_all (λ s. field_kind (normalize_field s) ≡ some kind) key spellings p h
named_kind {words = words} kind key p q (folded h) =
    contains_all (λ s. field_kind s ≡ some kind) (normalize_field key) words q h

-- passwords, tokens and the header of an authorization
abbrev pub IsSecret : String → Type 0
IsSecret =
    Names
      ("password" ∷ "credential" ∷ "connectToken" ∷ "connect_token" ∷ "token" ∷ "authorization"
        ∷ [])
      ("password" ∷ "credential" ∷ "connecttoken" ∷ "token" ∷ "authorization" ∷ [])

-- the digits that a caller presses
abbrev pub IsDigits : String → Type 0
IsDigits = Names ("digit" ∷ "digits" ∷ []) ("digit" ∷ "digits" ∷ [])

-- the credentials of a SIP account
abbrev pub IsAuth : String → Type 0
IsAuth = Names ("auth" ∷ []) ("auth" ∷ [])

-- the configuration of ICE
abbrev pub IsIce : String → Type 0
IsIce = Names ("iceConfiguration" ∷ "ice_configuration" ∷ []) ("iceconfiguration" ∷ [])

pub IsSecret-kind : (key : String) → IsSecret key → field_kind (normalize_field key) ≡ some secret
unfolding field_kind normalize_field lookup to_lower
IsSecret-kind key =
    named_kind secret key (refl, (refl, (refl, (refl, (refl, (refl, tt))))))
      (refl, (refl, (refl, (refl, (refl, tt)))))

pub IsDigits-kind :
    (key : String) → IsDigits key → field_kind (normalize_field key) ≡ some digits_field
unfolding field_kind normalize_field lookup to_lower
IsDigits-kind key = named_kind digits_field key (refl, (refl, tt)) (refl, (refl, tt))

pub IsAuth-kind : (key : String) → IsAuth key → field_kind (normalize_field key) ≡ some auth_field
unfolding field_kind normalize_field lookup to_lower
IsAuth-kind key = named_kind auth_field key (refl, tt) (refl, tt)

pub IsIce-kind : (key : String) → IsIce key → field_kind (normalize_field key) ≡ some ice_field
unfolding field_kind normalize_field lookup to_lower ends_with
IsIce-kind key = named_kind ice_field key (refl, (refl, tt)) (refl, tt)

abbrev pub is_given : Json → Bool
is_given undefined = false
is_given value = true

-- ICE servers that may differ in their user names and credentials, but in whether they are given, and
-- in what else is in them than their URLs.
pub data ServersAlike : Items → Items → Type 0 where
  no_servers : ServersAlike nil nil
  same_server :
      (server : Json) {xs ys : Items}
      → ServersAlike xs ys
      → ServersAlike (cons server xs) (cons server ys)
  hides_credential :
      (s t : Fields) {xs ys : Items}
      → field "urls" s ≡ field "urls" t
      → is_given (field "username" s) ≡ is_given (field "username" t)
      → is_given (field "credential" s) ≡ is_given (field "credential" t)
      → ServersAlike xs ys
      → ServersAlike (cons (obj s) xs) (cons (obj t) ys)

-- Configurations of ICE for the same backend, with servers that are alike.
pub record IceAlike (a b : Fields) : Type 0 where
  pub servers : Items
  pub other_servers : Items
  pub backend : field "backendId" a ≡ field "backendId" b
  pub media_ip : is_given (field "mediaIp" a) ≡ is_given (field "mediaIp" b)
  pub expires_at : is_given (field "expiresAt" a) ≡ is_given (field "expiresAt" b)
  pub reads : field "servers" a ≡ arr servers
  pub reads_other : field "servers" b ≡ arr other_servers
  pub alike : ServersAlike servers other_servers

given-eq : (v w shown : Json) → is_given v ≡ is_given w → if_defined v shown ≡ if_defined w shown
unfolding if_defined
given-eq undefined undefined shown h = refl
given-eq undefined w shown h = absurd (cc)
given-eq v undefined shown h = absurd (cc)
given-eq v w shown h = refl

pub summarize_auth-eq :
    (a b : Fields)
    → field "username" a ≡ field "username" b
    → summarize_auth (obj a) ≡ summarize_auth (obj b)
unfolding summarize_auth
summarize_auth-eq a b h = rw h

server-eq :
    (s t : Fields)
    → field "urls" s ≡ field "urls" t
    → is_given (field "username" s) ≡ is_given (field "username" t)
    → is_given (field "credential" s) ≡ is_given (field "credential" t)
    → summarize_server (obj s) ≡ summarize_server (obj t)
unfolding summarize_server
server-eq s t u n c = rw (
  u,
  given-eq (field "username" s) (field "username" t) present n,
  given-eq (field "credential" s) (field "credential" t) (str redacted_text) c,
)

servers-eq :
    {xs ys : Items}
    → ServersAlike xs ys
    → map_items summarize_server xs ≡ map_items summarize_server ys
unfolding map_items
servers-eq no_servers = refl
servers-eq (same_server server later) = ap (cons (summarize_server server)) (servers-eq later)
servers-eq (hides_credential s t u n c later) = ap₂ cons (server-eq s t u n c) (servers-eq later)

servers_list-eq :
    (v w : Json) {xs ys : Items}
    → v ≡ arr xs
    → w ≡ arr ys
    → ServersAlike xs ys
    → summarize_servers v ≡ summarize_servers w
unfolding summarize_servers
servers_list-eq v w e f alike = rw (e, f) (ap arr (servers-eq alike))

pub summarize_ice-eq :
    (a b : Fields)
    → IceAlike a b
    → summarize_ice_configuration (obj a) ≡ summarize_ice_configuration (obj b)
unfolding summarize_ice_configuration
summarize_ice-eq a b h = rw (
  h.backend,
  given-eq (field "mediaIp" a) (field "mediaIp" b) present h.media_ip,
  given-eq (field "expiresAt" a) (field "expiresAt" b) present h.expires_at,
  servers_list-eq (field "servers" a) (field "servers" b) h.reads h.reads_other h.alike,
)
