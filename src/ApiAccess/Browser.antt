-- ===== src/ApiAccess/Browser.antt =====
-- Which requests of the browser pass the API key guard, and that its token reaches the auth server.
use nestjs_graphql_fastify_a.Common.{
  String, true, false, Option, some, [], ◌∷◌, ◌++◌, contains, contains-set_from, insert, lookup,
  string_eq, or_default, if◌then◌else◌, ◌≡◌, refl, ap, ◌∙◌, arith,
}
use nestjs_graphql_fastify_a.Common.Text.{truthy}
use nestjs_graphql_fastify_a.Common.Headers.{to_lower_case, one, first_value}
use nestjs_graphql_fastify_a.AccessChannel.{Url}
use nestjs_graphql_fastify_a.AuthProxy.{
  FastifyRequest, RequestHeaders, RequestStore, entry, header_of, received, received_headers,
  proxied_two_factor, two_factor_token_of,
}
use nestjs_graphql_fastify_a.AuthProxy.Credentials.{two_factor_token_arrives}
use nestjs_graphql_fastify_a.ApiAccess.{
  link_headers, auth_headers, spread, bearer, can_activate, granted, invalid_api_key,
  valid_api_keys, split_commas,
}

can_activate-one :
    (api_keys api_key : String)
    → truthy api_key ≡ true
    → can_activate api_keys false (some (one api_key))
      ≡ (if contains api_key (split_commas api_keys) then granted else invalid_api_key)
unfolding can_activate valid_api_keys contains
can_activate-one api_keys api_key t =
    let there = contains-set_from api_key [] (split_commas api_keys) in rw (t, there) (ground arith)

-- The key of a request whose context brings no headers
query_key :
    (api_key user_type : String) (token stored : Option String)
    → lookup "x-api-key" (received_headers (link_headers api_key user_type token stored []))
      ≡ some (one api_key)
unfolding link_headers auth_headers spread insert lookup received_headers to_lower_case
query_key api_key user_type token stored = refl

module _ (api_key user_type : String) (token stored : Option String) (page_token : String)
    (t : truthy page_token ≡ true) where
  abbrev sent_headers : RequestHeaders
  sent_headers = link_headers api_key user_type token stored (("X-2FA-Token", page_token) ∷ [])

  sent_user_type : lookup "x-user-type" (received_headers sent_headers) ≡ some (one user_type)
  unfolding link_headers auth_headers spread insert lookup received_headers to_lower_case
  sent_user_type = refl

  sent_token : first_value (lookup "x-2fa-token" (received_headers sent_headers)) ≡ some page_token
  unfolding link_headers auth_headers spread insert lookup received_headers to_lower_case
  sent_token = token_of (bearer token) stored
    where
      token_of :
          (bearer_value stored : Option String)
          → first_value (
              lookup "x-2fa-token" (
                received_headers (
                  insert "X-2FA-Token" page_token
                    (entry "Authorization" bearer_value ++ entry "X-2FA-Token" stored))))
            ≡ some page_token
      token_of b s = ground arith

-- A query of the browser, which the gateway asks an API key for, passes its guard exactly if the
-- browser's key, which is not empty, is one of the gateway's. The verification of a one-time code,
-- which is public, needs no key: from it the auth server gets the token of the second factor that the
-- login page was given, whatever tokens localStorage holds, and the gateway the browser's user type.
pub browser_reaches :
    (parse_url : String → Option Url) (api_keys api_key user_type page_token gateway_ip : String)
    (token stored peer : Option String) (store : RequestStore)
    → truthy api_key ≡ true
    → truthy page_token ≡ true
    → let query = received_headers (link_headers api_key user_type token stored []) in
      let existing : RequestHeaders = entry "X-2FA-Token" (some page_token) in
      let headers = link_headers api_key user_type token stored existing in
      let req : FastifyRequest = record { headers = received_headers headers; ip = peer } in
      (can_activate api_keys false (lookup "x-api-key" query)
        ≡ (if contains api_key (split_commas api_keys) then granted else invalid_api_key))
      × (can_activate api_keys true (lookup "x-api-key" req.headers) ≡ granted)
      × (header_of req "x-user-type" ≡ some user_type)
      × (two_factor_token_of (received gateway_ip (proxied_two_factor parse_url req store))
          ≡ page_token)
unfolding header_of can_activate
browser_reaches parse_url api_keys api_key user_type page_token gateway_ip token stored peer store k
      t =
    let headers = link_headers api_key user_type token stored (("X-2FA-Token", page_token) ∷ []) in
    let req : FastifyRequest = record { headers = received_headers headers; ip = peer } in
    rw t (
      ap (can_activate api_keys false) (query_key api_key user_type token stored)
          ∙ can_activate-one api_keys api_key k,
      refl,
      ap first_value (sent_user_type api_key user_type token stored page_token t),
      two_factor_token_arrives parse_url gateway_ip req store
          ∙ ap (λ o. or_default o "") (sent_token api_key user_type token stored page_token t),
    )
