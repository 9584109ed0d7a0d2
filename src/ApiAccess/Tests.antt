-- ===== src/ApiAccess/Tests.antt =====
-- Requests of the browser with concrete keys.
use nestjs_graphql_fastify_a.Common.{
  String, true, false, Option, none, some, [], ◌∷◌, contains, set_from, add, lookup, if◌then◌else◌,
  ◌≡◌, refl,
}
use nestjs_graphql_fastify_a.Common.Text.{to_text}
use nestjs_graphql_fastify_a.Common.Headers.{one}
use nestjs_graphql_fastify_a.AccessChannel.{Url}
use nestjs_graphql_fastify_a.AuthProxy.{
  FastifyRequest, RequestHeaders, RequestStore, entry, header_of, received, received_headers,
  proxied_two_factor, two_factor_token_of,
}
use nestjs_graphql_fastify_a.ApiAccess.{
  link_headers, split_commas, valid_api_keys, can_activate, granted, invalid_api_key,
  api_key_missing, Throttler, Hits, handle_request, limit_headers,
}
use nestjs_graphql_fastify_a.ApiAccess.Browser.{browser_reaches}

split : split_commas "k1,k2,,k3" ≡ "k1" ∷ "k2" ∷ "" ∷ "k3" ∷ []
unfolding split_commas
split = refl

-- The empty text between two commas is no key.
empty_key : can_activate "k1,,k2" false (some (one "")) ≡ api_key_missing
unfolding can_activate
empty_key = refl

both_keys : can_activate "k1,k2" false (some (one "k1,k2")) ≡ invalid_api_key
unfolding can_activate valid_api_keys split_commas set_from add contains
both_keys = refl

abbrev no_url : String → Option Url
no_url text = none

abbrev no_context : RequestStore
no_context = record { auth_token = none; correlation_id = none; accept_language = none }

one_of_two : contains "k2" (split_commas "k1,k2") ≡ true
unfolding split_commas contains
one_of_two = refl

browser_reaches_example :
    let existing : RequestHeaders = entry "X-2FA-Token" (some "t1") in
    let headers = link_headers "k2" "ADMIN_BO" none (some "t0") existing in
    let req : FastifyRequest = record {
      headers = received_headers headers;
      ip = some "203.0.113.10";
    } in
    let query = received_headers (link_headers "k2" "ADMIN_BO" none (some "t0") []) in
    (can_activate "k1,k2" false (lookup "x-api-key" query)
      ≡ (if contains "k2" (split_commas "k1,k2") then granted else invalid_api_key))
    × (can_activate "k1,k2" true (lookup "x-api-key" req.headers) ≡ granted)
    × (header_of req "x-user-type" ≡ some "ADMIN_BO")
    × (two_factor_token_of (received "10.0.0.9" (proxied_two_factor no_url req no_context)) ≡ "t1")
browser_reaches_example =
    browser_reaches no_url "k1,k2" "k2" "ADMIN_BO" "t1" "10.0.0.9" none (some "t0")
      (some "203.0.113.10") no_context refl refl

abbrev ten_a_minute : Throttler
ten_a_minute = record {
  name = none;
  limit = 10;
  ignore_user_agents = none;
  common_ignore_user_agents = none;
  set_headers = none;
  common_set_headers = none;
  header_prefix = "X-RateLimit";
}

abbrev third : Hits
third = record { total_hits = 3; time_to_expire = 42; is_blocked = false; time_to_block_expire = 0 }

third_hit :
    (handle_request ten_a_minute none third).headers
    ≡ ("X-RateLimit-Limit", "10")
      ∷ ("X-RateLimit-Remaining", "7")
      ∷ ("X-RateLimit-Reset", "42")
      ∷ []
unfolding handle_request limit_headers to_text
third_hit = refl
