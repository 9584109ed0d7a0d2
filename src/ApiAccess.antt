-- ===== src/ApiAccess.antt =====
-- The headers that the browser sends (apps/ui/src/lib/apollo.ts, authLink), the API key that the
-- gateway asks for (apps/gateway/src/auth/api-key.guard.ts), and the limit on its requests
-- (apps/gateway/src/auth/gql-throttler.guard.ts). The metadata of a handler, the storage of the
-- throttler and its patterns are parameters.
mod Browser
mod Tests
use Prim.Native.Char.{code}
use Prim.Native.String as Str
use nestjs_graphql_fastify_a.Common.{
  ℕ, ◌-◌, String, Bool, true, false, not, ◌&&◌, Option, none, some, List, [], ◌∷◌, ◌++◌, any,
  contains, set_from, insert, ◌==◌, nat_eq, string_eq, if◌then◌else◌, or_default, or_else,
}
use nestjs_graphql_fastify_a.Common.Text.{template, to_text, truthy, truthy?}
use nestjs_graphql_fastify_a.Common.Headers.{HeaderValue, one, many}
use nestjs_graphql_fastify_a.AuthProxy.{RequestHeaders, entry}

-- `{ ...headers, ...more }`
unfoldable pub spread : (headers more : RequestHeaders) → RequestHeaders
spread headers [] = headers
spread headers ((name, value) ∷ more) = spread (insert name value headers) more

abbrev pub bearer : Option String → Option String
bearer none = none
bearer (some token) = if truthy token then some (template ("Bearer " ∷ token ∷ [])) else none

-- `authHeaders`; a token that is empty gives no header.
unfoldable pub auth_headers :
    (api_key user_type : String) → (token two_factor_token : Option String) → RequestHeaders
auth_headers api_key user_type token two_factor_token =
    ("X-API-Key", api_key)
    ∷ ("X-User-Type", user_type)
    ∷ (entry "Authorization" (bearer token) ++ entry "X-2FA-Token" two_factor_token)

-- `authLink`, with the headers that the context has already
unfoldable pub link_headers :
    (api_key user_type : String)
    → (token two_factor_token : Option String) → (existing : RequestHeaders) → RequestHeaders
link_headers api_key user_type token two_factor_token existing =
    spread (auth_headers api_key user_type token two_factor_token) existing

-- `text.split(',')`
unfoldable pub split_commas : String → List String
split_commas Str.[] = "" ∷ []
split_commas (Str.◌∷◌ c text) =
    let rest = split_commas text in
    if code c == b','
    then "" ∷ rest
    else elim rest [ [] ↦ Str.◌∷◌ c "" ∷ [] | first ∷ more ↦ Str.◌∷◌ c first ∷ more ]

pub data Decision : Type 0 where
  granted : Decision
  api_key_missing : Decision
  invalid_api_key : Decision

-- `new Set(API_KEYS.split(','))`
unfoldable pub valid_api_keys : String → List String
valid_api_keys api_keys = set_from [] (split_commas api_keys)

-- `ApiKeyGuard.canActivate`; the set has no value that is an array.
unfoldable pub can_activate :
    (api_keys : String) → (is_public : Bool) → Option HeaderValue → Decision
can_activate api_keys true header = granted
can_activate api_keys false none = api_key_missing
can_activate api_keys false (some (one api_key)) =
    if not (truthy api_key)
    then api_key_missing
    else if not (contains api_key (valid_api_keys api_keys))
    then invalid_api_key
    else granted
can_activate api_keys false (some (many values)) = invalid_api_key

-- What is configured of a throttler, with the options of all of them
pub record Throttler : Type 0 where
  pub name : Option String
  pub limit : ℕ
  pub ignore_user_agents : Option (List (String → Bool))
  pub common_ignore_user_agents : Option (List (String → Bool))
  pub set_headers : Option Bool
  pub common_set_headers : Option Bool
  pub header_prefix : String

-- What `storageService.increment` answers
pub record Hits : Type 0 where
  pub total_hits : ℕ
  pub time_to_expire : ℕ
  pub is_blocked : Bool
  pub time_to_block_expire : ℕ

-- How `handleRequest` ends: it lets the request pass or throws, with the headers of the reply; and
-- whether it counted the request.
pub record Handled : Type 0 where
  pub passes : Bool
  pub headers : RequestHeaders
  pub is_counted : Bool

abbrev pub suffix : String → String
suffix name = if name == "default" then "" else template ("-" ∷ name ∷ [])

abbrev pub test_all : String → List (String → Bool) → Bool
test_all user_agent patterns = any (λ (pattern : String → Bool). pattern user_agent) patterns

-- The headers of a request that passes
unfoldable pub limit_headers : Throttler → Hits → RequestHeaders
limit_headers t hits =
    let s = suffix (or_default t.name "default") in
    (template (t.header_prefix ∷ "-Limit" ∷ s ∷ []), to_text t.limit)
    ∷ (template (t.header_prefix ∷ "-Remaining" ∷ s ∷ []), to_text (t.limit - hits.total_hits))
    ∷ (template (t.header_prefix ∷ "-Reset" ∷ s ∷ []), to_text hits.time_to_expire)
    ∷ []

-- `GqlThrottlerGuard.handleRequest`, for a reply that takes headers
unfoldable pub handle_request : Throttler → (user_agent : Option String) → Hits → Handled
handle_request t user_agent hits =
    let patterns = or_default (or_else t.ignore_user_agents t.common_ignore_user_agents) [] in
    let set = or_default (or_else t.set_headers t.common_set_headers) true in
    if test_all (or_default user_agent "") patterns
    then record { passes = true; headers = []; is_counted = false }
    else if hits.is_blocked
    then record {
      passes = false;
      headers =
          if set
          then (
            template ("Retry-After" ∷ suffix (or_default t.name "default") ∷ []),
            to_text hits.time_to_block_expire,
          )
            ∷ []
          else [];
      is_counted = true;
    }
    else record {
      passes = true;
      headers = if set then limit_headers t hits else [];
      is_counted = true;
    }

-- `getTracker`
unfoldable pub get_tracker : (ip : Option String) → (ips : Option (List String)) → String
get_tracker (some ip) ips = ip
get_tracker none none = "unknown"
get_tracker none (some []) = "unknown"
get_tracker none (some (ip ∷ ips)) = ip
