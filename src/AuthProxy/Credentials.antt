-- ===== src/AuthProxy/Credentials.antt =====
-- What the mutations of the gateway are called with reaches the auth server.
use nestjs_graphql_fastify_a.Common.{
  String, true, false, Option, none, some, ◌++◌, insert, ◌==◌, string_eq, if◌then◌else◌, or_default,
  or_else, ◌≡◌, refl, ap, arith, ◌∙◌, eq_iff, Bool-cases, inl, inr,
}
use nestjs_graphql_fastify_a.Common.Text.{truthy?, trim}
use nestjs_graphql_fastify_a.Common.Headers.{to_lower_case}
use nestjs_graphql_fastify_a.AccessChannel.{Url, resolve_access_channel_origin}
use nestjs_graphql_fastify_a.AuthProxy.{
  FastifyRequest, header_of, RequestHeaders, RequestStore, entry, assign, with_context, received,
  proxied_login, login_call, login_request_meta, proxied_two_factor, two_factor_token_of,
  proxied_password, password_credential, bearer_of, bearer_token, auth_password_headers, word,
}
use nestjs_graphql_fastify_a.AuthProxy.Arrived.{
  value_at, sent, meta_headers, IsOther, value_at-with_context, own_value, value_at-meta,
  or_else-none, value_at-assign, value_at-append, value_at-entry,
}
use nestjs_graphql_fastify_a.AuthProxy.Lowered.{HasLowerNames}
use nestjs_graphql_fastify_a.AccessChannel.Origins.{HasOrigins}
use nestjs_graphql_fastify_a.AuthProxy.Channel.{same_channel}

-- The auth server's login gets what the gateway's login was given: the login id, the password, the
-- user type of the request to the gateway, and the access channel that the gateway finds for it,
-- where Node.js gives the header names of that request in lower case and `new URL` does as documented.
pub login_arrives :
    (parse_url : String → Option Url) (login_id password gateway_ip : String) (req : FastifyRequest)
    (store : RequestStore)
    → HasOrigins parse_url
    → HasLowerNames req.headers
    → let request = proxied_login parse_url login_id password req store in
      let call =
        login_call parse_url request.login_id request.password
          (received gateway_ip request.headers) in
      (call.login_id ≡ login_id)
      × (call.password ≡ password)
      × (call.user_type ≡ or_default (header_of req "x-user-type") "")
      × (call.meta.access_channel ≡ resolve_access_channel_origin parse_url req.headers)
unfolding proxied_login login_call login_request_meta to_lower_case header_of
login_arrives parse_url login_id password gateway_ip req store laws names =
    let user_type = or_default (header_of req "x-user-type") "" in
    let other : IsOther "X-User-Type" =
      (refl, (refl, (refl, (refl, (refl, (refl, (refl, tt))))))) in
    (
      refl,
      refl,
      ap (λ v. or_default v "")
          (value_at-with_context "x-user-type" store
              (meta_headers parse_url req "X-User-Type" user_type) refl refl refl
            ∙ own_value parse_url req "X-User-Type" user_type "x-user-type"
                (value_at-meta parse_url req "X-User-Type" user_type "x-user-type") refl),
      same_channel parse_url laws req names store "X-User-Type" user_type other refl,
    )

-- The token of the second factor reaches the auth server.
pub two_factor_token_arrives :
    (parse_url : String → Option Url) (gateway_ip : String) (req : FastifyRequest)
    (store : RequestStore)
    → two_factor_token_of (received gateway_ip (proxied_two_factor parse_url req store))
      ≡ or_default (header_of req "x-2fa-token") ""
unfolding proxied_two_factor two_factor_token_of to_lower_case header_of
two_factor_token_arrives parse_url gateway_ip req store =
    let token = or_default (header_of req "x-2fa-token") "" in
    ap (λ v. or_default v "")
      (value_at-with_context "x-2fa-token" store (meta_headers parse_url req "X-2FA-Token" token)
          refl refl refl
        ∙ own_value parse_url req "X-2FA-Token" token "x-2fa-token"
            (value_at-meta parse_url req "X-2FA-Token" token "x-2fa-token") refl)

-- And so does the access channel.
pub two_factor_channel :
    (parse_url : String → Option Url) (gateway_ip : String) (req : FastifyRequest)
    (store : RequestStore)
    → HasOrigins parse_url
    → HasLowerNames req.headers
    → (login_request_meta parse_url
        (received gateway_ip (proxied_two_factor parse_url req store))).access_channel
      ≡ resolve_access_channel_origin parse_url req.headers
unfolding proxied_two_factor login_request_meta to_lower_case header_of
two_factor_channel parse_url gateway_ip req store laws names =
    same_channel parse_url laws req names store "X-2FA-Token"
      (or_default (header_of req "x-2fa-token") "")
      (refl, (refl, (refl, (refl, (refl, (refl, (refl, tt))))))) refl

assign_again :
    (o : Option String) (rest : RequestHeaders)
    → truthy? o ≡ true
    → assign "Authorization" o (entry "Authorization" o ++ rest) ≡ entry "Authorization" o ++ rest
unfolding insert
assign_again none rest h = absurd (ground (arith, h))
assign_again (some v) rest h = rw h refl

assign_nothing :
    (o : Option String) (rest : RequestHeaders)
    → truthy? o ≡ false
    → assign "Authorization" o (entry "Authorization" o ++ rest) ≡ entry "Authorization" o ++ rest
assign_nothing none rest h = refl
assign_nothing (some v) rest h = rw h refl

bearer_of-sent : (o : Option String) → bearer_of (sent o) ≡ bearer_of o
unfolding bearer_of
bearer_of-sent none = refl
bearer_of-sent (some s) = elim (Bool-cases (s == "")) [
  | inl h ↦ rw ((eq_iff s "").0 h) (unfold trim word to_lower_case in refl)
  | inr h ↦ rw h refl
]

module _ (req : FastifyRequest) (store : RequestStore)
    (same : store.auth_token ≡ header_of req "authorization") where
  abbrev password_headers : RequestHeaders
  password_headers =
      entry "Authorization" (header_of req "authorization")
      ++ entry "X-Password-Change-Token" (header_of req "x-password-change-token")

  authorized : assign "Authorization" store.auth_token password_headers ≡ password_headers
  authorized = rw same (elim (Bool-cases (truthy? (header_of req "authorization"))) [
    | inl h ↦ assign_again (header_of req "authorization") _ h
    | inr h ↦ assign_nothing (header_of req "authorization") _ h
  ])

  value_at-password_headers :
      (name : String)
      → (to_lower_case "x-correlation-id" == name) ≡ false
      → (to_lower_case "accept-language" == name) ≡ false
      → value_at name (proxied_password req store)
        ≡ or_else
            (if to_lower_case "Authorization" == name
              then sent (header_of req "authorization")
              else none)
            (if to_lower_case "X-Password-Change-Token" == name
              then sent (header_of req "x-password-change-token")
              else none)
  unfolding proxied_password with_context auth_password_headers to_lower_case header_of
  value_at-password_headers name h k =
      let authorization = header_of req "authorization" in
      let token = header_of req "x-password-change-token" in
      value_at-assign name "accept-language" store.accept_language _ k
      ∙ value_at-assign name "x-correlation-id" store.correlation_id _ h
      ∙ ap (value_at name) authorized
      ∙ value_at-append name (entry "Authorization" authorization)
          (entry "X-Password-Change-Token" token)
      ∙ (λ i.
          or_else (value_at-entry name "Authorization" authorization i)
            (value_at-entry name "X-Password-Change-Token" token i))

-- The auth server resolves a change of the password by the bearer token and the change token of the
-- request to the gateway (an empty change token arrives as a missing one), where the request context
-- holds the Authorization header of that same request.
pub password_arrives :
    (gateway_ip : String) (req : FastifyRequest) (store : RequestStore)
    → store.auth_token ≡ header_of req "authorization"
    → let credential = password_credential (received gateway_ip (proxied_password req store)) in
      (credential.access_token ≡ bearer_token req)
      × (credential.password_change_token ≡ sent (header_of req "x-password-change-token"))
unfolding password_credential bearer_token to_lower_case header_of
password_arrives gateway_ip req store same = (
  ap bearer_of (value_at-password_headers req store same "authorization" refl refl ∙ or_else-none _)
      ∙ bearer_of-sent (header_of req "authorization"),
  value_at-password_headers req store same "x-password-change-token" refl refl,
)
