-- ===== src/AuthProxy.antt =====
-- What the gateway sends to the auth server for its mutations
-- (apps/gateway/src/auth-proxy/auth-proxy.resolver.ts and auth-proxy.service.ts), with the headers of
-- the HTTP client (http/global-http.module.ts) and of the request context
-- (libs/shared/src/common), and what the auth server reads of it
-- (apps/auth/src/auth/auth.controller.ts). A header arrives under its name in lower case. The client
-- adds headers of its own for the content and the connection; the controller reads none of them.
mod Arrived
mod Lowered
mod Channel
mod ClientIp
pub mod Credentials
mod Tests
use nestjs_graphql_fastify_a.Common.{
  String, Bool, not, ◌&&◌, Option, none, some, List, [], ◌∷◌, ◌++◌, map, insert, lookup, ◌==◌,
  string_eq, if◌then◌else◌, or_default,
}
use nestjs_graphql_fastify_a.Common.Text.{template, trim, trim_start, truthy, truthy?, is_blank}
use nestjs_graphql_fastify_a.Common.Headers.{
  to_lower_case, HeaderValue, one, IncomingHttpHeaders, first_value, first_comma_separated,
}
use nestjs_graphql_fastify_a.AccessChannel.{Url, resolve_access_channel_origin}
use nestjs_graphql_fastify_a.Auth.History.{LoginRequestMeta}
use nestjs_graphql_fastify_a.Auth.Sessions.{ChangePasswordCredential}
use Prim.Native.Char.{code}
use Prim.Native.String as Str

-- The parts of a `FastifyRequest` that are read.
pub record FastifyRequest : Type 0 where
  pub headers : IncomingHttpHeaders
  pub ip : Option String

-- `private headerValue`, which the resolver and the controller both have
unfoldable pub header_of : FastifyRequest → String → Option String
header_of req name = first_value (lookup name req.headers)

abbrev pub RequestHeaders : Type 0
RequestHeaders = List (String × String)

-- `if (value) { headers[name] = value; }`, for a name that is not there yet
abbrev pub entry : String → Option String → RequestHeaders
entry name none = []
entry name (some value) = if truthy value then (name, value) ∷ [] else []

-- `authMetaHeaders`
unfoldable pub auth_meta_headers : (String → Option Url) → FastifyRequest → RequestHeaders
unfolding header_of
auth_meta_headers parse_url req =
    let forwarded_for = header_of req "x-forwarded-for" in
    let address = if truthy? forwarded_for then forwarded_for else req.ip in
    entry "X-Forwarded-For" address
    ++ (entry "X-Forwarded-Host" (header_of req "x-forwarded-host")
        ++ (entry "X-Forwarded-Proto" (header_of req "x-forwarded-proto")
            ++ (entry "X-Real-IP" (header_of req "x-real-ip")
                ++ entry "X-Access-Channel" (resolve_access_channel_origin parse_url req.headers))))

-- `authPasswordHeaders`
unfoldable pub auth_password_headers : FastifyRequest → RequestHeaders
unfolding header_of
auth_password_headers req =
    entry "Authorization" (header_of req "authorization")
    ++ entry "X-Password-Change-Token" (header_of req "x-password-change-token")

-- `RequestStore`
pub record RequestStore : Type 0 where
  pub auth_token : Option String
  pub correlation_id : Option String
  pub accept_language : Option String

-- `if (value) { config.headers[name] = value; }`
abbrev pub assign : String → Option String → RequestHeaders → RequestHeaders
assign name none headers = headers
assign name (some value) headers = if truthy value then insert name value headers else headers

-- The request interceptor of the HTTP client
unfoldable pub with_context : RequestStore → RequestHeaders → RequestHeaders
with_context store headers = assign "accept-language" store.accept_language (
    assign "x-correlation-id" store.correlation_id
      (assign "Authorization" store.auth_token headers))

-- The request that the resolver's and the service's `login` send: the body's fields and the headers.
pub record LoginRequest : Type 0 where
  pub login_id : String
  pub password : String
  pub headers : RequestHeaders

unfoldable pub proxied_login :
    (String → Option Url)
    → (login_id password : String) → FastifyRequest
    → RequestStore
    → LoginRequest
unfolding header_of auth_meta_headers with_context
proxied_login parse_url login_id password req store =
    let user_type = or_default (header_of req "x-user-type") "" in
    record {
      login_id = login_id;
      password = password;
      headers =
          with_context store (auth_meta_headers parse_url req ++ ("X-User-Type", user_type) ∷ []);
    }

-- `verifyTwoFactor`
unfoldable pub proxied_two_factor :
    (String → Option Url) → FastifyRequest → RequestStore → RequestHeaders
unfolding header_of auth_meta_headers with_context
proxied_two_factor parse_url req store =
    let two_factor_token = or_default (header_of req "x-2fa-token") "" in
    with_context store (auth_meta_headers parse_url req ++ ("X-2FA-Token", two_factor_token) ∷ [])

-- `changePassword`
unfoldable pub proxied_password : FastifyRequest → RequestStore → RequestHeaders
unfolding auth_password_headers with_context
proxied_password req store = with_context store (auth_password_headers req)

-- The request as it arrives, from the address of the gateway.
unfoldable pub received_headers : RequestHeaders → IncomingHttpHeaders
received_headers [] = []
received_headers ((name, value) ∷ headers) =
    (to_lower_case name, one value) ∷ received_headers headers

abbrev pub received : String → RequestHeaders → FastifyRequest
received gateway_ip headers = record { headers = received_headers headers; ip = some gateway_ip }

-- `a || b`
abbrev pub either : Option String → Option String → Option String
either a b = if truthy? a then a else b

abbrev pub trimmed : Option String → Option String
trimmed none = none
trimmed (some s) = some (trim s)

-- `value?.split(',')[0]?.trim()`
abbrev pub first_address : Option String → Option String
first_address none = none
first_address (some s) = some (trim (first_comma_separated s))

-- `clientIp`
unfoldable pub client_ip : FastifyRequest → String
unfolding header_of
client_ip req =
    or_default
      (either (first_address (header_of req "x-forwarded-for"))
        (either (trimmed (header_of req "x-real-ip")) (either req.ip none)))
      "unknown"

-- `loginRequestMeta`
unfoldable pub login_request_meta : (String → Option Url) → FastifyRequest → LoginRequestMeta
unfolding client_ip
login_request_meta parse_url req = record {
  client_ip = client_ip req;
  access_channel = resolve_access_channel_origin parse_url req.headers;
}

-- The text up to the first blank, and from there on
unfoldable pub word : String → String
word Str.[] = ""
word (Str.◌∷◌ c s) = let rest = word s in if is_blank (code c) then "" else Str.◌∷◌ c rest

unfoldable pub after_word : String → String
after_word Str.[] = ""
after_word (Str.◌∷◌ c s) = if is_blank (code c) then Str.◌∷◌ c s else after_word s

-- `const [scheme, token] = authorization?.trim().split(/\s+/, 2) ?? []` and the test of the two
unfoldable pub bearer_of : Option String → Option String
unfolding word after_word
bearer_of none = none
bearer_of (some authorization) =
    let text = trim authorization in
    let token = word (trim_start (after_word text)) in
    if to_lower_case (word text) == "bearer" && truthy token then some token else none

-- `bearerToken`
unfoldable pub bearer_token : FastifyRequest → Option String
unfolding header_of bearer_of
bearer_token req = bearer_of (header_of req "authorization")

-- What the controller's handlers pass on to the service.
pub record LoginCall : Type 0 where
  pub login_id : String
  pub password : String
  pub user_type : String
  pub meta : LoginRequestMeta

unfoldable pub login_call :
    (String → Option Url) → (login_id password : String) → FastifyRequest → LoginCall
unfolding header_of login_request_meta
login_call parse_url login_id password req = record {
  login_id = login_id;
  password = password;
  user_type = or_default (header_of req "x-user-type") "";
  meta = login_request_meta parse_url req;
}

unfoldable pub two_factor_token_of : FastifyRequest → String
unfolding header_of
two_factor_token_of req = or_default (header_of req "x-2fa-token") ""

unfoldable pub password_credential : FastifyRequest → ChangePasswordCredential
unfolding header_of bearer_token
password_credential req = record {
  access_token = bearer_token req;
  password_change_token = header_of req "x-password-change-token";
}
