-- ===== src/AuthProxy/Tests.antt =====
-- The gateway's requests to the auth server at concrete requests.
use nestjs_graphql_fastify_a.Common.{
  String, true, Option, none, some, [], ◌∷◌, ◌==◌, string_eq, if◌then◌else◌, or_default, ◌≡◌, refl,
  arith, Bool-cases, inl, inr, lookup, contains,
}
use mathlib.Core.Path.{subst}
use nestjs_graphql_fastify_a.Common.Text.{truthy, trim, HasNoBlanks, starts_with, trim_start}
use nestjs_graphql_fastify_a.Common.Headers.{one, to_lower_case, first_comma_separated, non_blank}
use nestjs_graphql_fastify_a.AccessChannel.{
  Url, resolve_access_channel_origin, raw_header_value, header_value, find_entry,
  first_comma_separated_header, normalize_protocol, infer_protocol_from_host, normalize_origin,
  origin_from_host, origin_from_forwarded, origin_from_header,
}
use nestjs_graphql_fastify_a.AuthProxy.{
  FastifyRequest, RequestStore, header_of, received, proxied_login, login_call, proxied_password,
  password_credential, bearer_token, either, trimmed, first_address, bearer_of, word, after_word,
}
use nestjs_graphql_fastify_a.AuthProxy.Arrived.{sent}
use nestjs_graphql_fastify_a.AuthProxy.Lowered.{HasLowerNames}
use nestjs_graphql_fastify_a.AccessChannel.Origins.{HasOrigins}
use nestjs_graphql_fastify_a.AuthProxy.Credentials.{login_arrives, password_arrives}
use nestjs_graphql_fastify_a.AuthProxy.ClientIp.{login_client_ip}

abbrev shop : Url
shop = record {
  protocol = "https:";
  hostname = "shop.example.com";
  origin = "https://shop.example.com";
}

-- `new URL` where it is called with one origin only
abbrev parse_shop : String → Option Url
parse_shop text = if text == "https://shop.example.com" then some shop else none

only_shop : (v : String) (u : Url) → parse_shop v ≡ some u → shop ≡ u
only_shop v u e = elim (Bool-cases (v == "https://shop.example.com")) [
  | inl h ↦ ground (arith, h, e)
  | inr h ↦ absurd (ground (arith, h, e))
]

shop-HasNoBlanks : HasNoBlanks shop.origin
shop-HasNoBlanks = ground arith

parse_shop-HasOrigins : HasOrigins parse_shop
parse_shop-HasOrigins = record {
  visible = λ v u e h. subst (λ u. HasNoBlanks u.origin) (only_shop v u e) shop-HasNoBlanks;
  not_empty = λ v u e h. subst (λ u. truthy u.origin ≡ true) (only_shop v u e) refl;
  stable = λ v u e h. subst (λ u. parse_shop u.origin ≡ some u) (only_shop v u e) refl;
}

abbrev forwarded : FastifyRequest
forwarded = record {
  headers =
      ("x-forwarded-host", one "shop.example.com, proxy.local")
      ∷ ("x-forwarded-proto", one "https")
      ∷ ("x-forwarded-for", one " 203.0.113.10, 10.0.0.2")
      ∷ ("x-user-type", one "PRIVATE_BO")
      ∷ ("x-2fa-token", one "2fa-token")
      ∷ ("authorization", one "Bearer  access-token")
      ∷ ("x-access-channel", one "https://legacy.example.com")
      ∷ [];
  ip = some "10.0.0.2";
}

abbrev context : RequestStore
context = record {
  auth_token = some "Bearer  access-token";
  correlation_id = some "c-1";
  accept_language = some "ko";
}

forwarded_channel :
    resolve_access_channel_origin parse_shop forwarded.headers ≡ some "https://shop.example.com"
unfolding resolve_access_channel_origin origin_from_forwarded origin_from_header origin_from_host
    normalize_origin first_comma_separated_header header_value raw_header_value find_entry lookup
    non_blank trim first_comma_separated normalize_protocol infer_protocol_from_host to_lower_case
    starts_with contains
forwarded_channel = refl

forwarded_names : HasLowerNames forwarded.headers
unfolding to_lower_case
forwarded_names = (refl, (refl, (refl, (refl, (refl, (refl, (refl, tt)))))))

same_token : context.auth_token ≡ header_of forwarded "authorization"
unfolding header_of lookup
same_token = refl

login_arrives_example :
    let request = proxied_login parse_shop "kim" "secret" forwarded context in
    let call =
      login_call parse_shop request.login_id request.password
        (received "10.0.0.9" request.headers) in
    (call.login_id ≡ "kim")
    × (call.password ≡ "secret")
    × (call.user_type ≡ or_default (header_of forwarded "x-user-type") "")
    × (call.meta.access_channel ≡ resolve_access_channel_origin parse_shop forwarded.headers)
login_arrives_example =
    login_arrives parse_shop "kim" "secret" "10.0.0.9" forwarded context parse_shop-HasOrigins
      forwarded_names

password_arrives_example :
    let credential =
      password_credential (received "10.0.0.9" (proxied_password forwarded context)) in
    (credential.access_token ≡ bearer_token forwarded)
    × (credential.password_change_token ≡ sent (header_of forwarded "x-password-change-token"))
password_arrives_example = password_arrives "10.0.0.9" forwarded context same_token

access_token_read : bearer_token forwarded ≡ some "access-token"
unfolding bearer_token header_of lookup bearer_of word after_word trim trim_start to_lower_case
access_token_read = refl

login_client_ip_example :
    let request = proxied_login parse_shop "kim" "secret" forwarded context in
    let call = login_call parse_shop "kim" "secret" (received "10.0.0.9" request.headers) in
    call.meta.client_ip
    ≡ or_default
        (either
          (first_address (either (header_of forwarded "x-forwarded-for") forwarded.ip))
          (either (trimmed (header_of forwarded "x-real-ip")) (either (some "10.0.0.9") none)))
        "unknown"
login_client_ip_example = login_client_ip parse_shop "kim" "secret" "10.0.0.9" forwarded context

-- A proxy that sets X-Real-IP alone
abbrev real_ip_only : FastifyRequest
real_ip_only = record { headers = ("x-real-ip", one "203.0.113.10") ∷ []; ip = some "10.0.0.2" }

no_forwarded_for : header_of real_ip_only "x-forwarded-for" ≡ none
unfolding header_of lookup
no_forwarded_for = refl

peer_is_text : truthy (trim (first_comma_separated "10.0.0.2")) ≡ true
unfolding trim first_comma_separated
peer_is_text = refl
