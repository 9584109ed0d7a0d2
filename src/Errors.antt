-- ===== src/Errors.antt =====
-- apps/gateway/src/common/filter/http-exception.filter.ts: the errors of calls to other services as
-- GraphQL errors; apps/gateway/src/circuit-breaker/circuit-breaker.service.ts: which of them the
-- breaker does not count as failures.
pub mod Reported
mod Tests
use nestjs_graphql_fastify_a.Common.{
  ℕ, String, Bool, true, false, not, ◌&&◌, ◌||◌, Option, none, some, List, [], ◌∷◌, if◌then◌else◌,
  ◌==◌, nat_eq, string_eq, or_default, or_else, is_some,
}
use nestjs_graphql_fastify_a.Common.Text.{to_text, template, truthy, truthy?, includes}

-- The fields of an object that the services read, each if it is a text.
pub record Fields : Type 0 where
  pub error_code : Option String
  pub code : Option String
  pub message : Option String
  pub timestamp : Option String
  pub password_change_token : Option String

-- The data of a response: a text with what `JSON.parse` makes of it, or that it refuses; an
-- object; anything else.
pub data Data : Type 0 where
  unparsed : String → Data
  parsed : String → Data → Data
  object : Fields → Data
  other_data : Data

pub record Response : Type 0 where
  pub status : ℕ
  pub url : Option String
  pub body : Data

-- The fields of an `AxiosError`
pub record AxiosError : Type 0 where
  pub code : Option String
  pub status : Option ℕ
  pub url : Option String
  pub response : Option Response

-- What was thrown: an `AxiosError` with its cause, or anything else.
pub data Thrown : Type 0 where
  axios : AxiosError → Thrown → Thrown
  no_axios : Thrown

-- `findAxiosErrorWithResponse`, from the error so far; both files have this loop.
unfoldable pub find_axios_error_with_response : AxiosError → Thrown → AxiosError
find_axios_error_with_response fallback no_axios = fallback
find_axios_error_with_response fallback (axios e cause) =
    let deeper = find_axios_error_with_response e cause in if is_some e.response then e else deeper

-- `ParsedDownstreamError`
pub record ParsedDownstreamError : Type 0 where
  pub message : Option String
  pub error_code : Option String
  pub raw_message : Option String
  pub timestamp : Option String
  pub password_change_token : Option String

abbrev pub nothing_parsed : ParsedDownstreamError
nothing_parsed = record {
  message = none;
  error_code = none;
  raw_message = none;
  timestamp = none;
  password_change_token = none;
}

-- `parseDownstreamErrorData`
unfoldable pub parse_downstream_error_data : Data → ParsedDownstreamError
parse_downstream_error_data (unparsed text) = record {
  message = none;
  error_code = none;
  raw_message = some text;
  timestamp = none;
  password_change_token = none;
}
parse_downstream_error_data (parsed text d) = parse_downstream_error_data d
parse_downstream_error_data other_data = nothing_parsed
parse_downstream_error_data (object f) = record {
  message = f.message;
  error_code = or_else f.error_code f.code;
  raw_message = none;
  timestamp = f.timestamp;
  password_change_token = f.password_change_token;
}

-- `parseErrorData` of the circuit breaker: the code and the message.
unfoldable pub parse_error_data : Data → Option String × Option String
parse_error_data (unparsed text) = (none, none)
parse_error_data (parsed text d) = parse_error_data d
parse_error_data other_data = (none, none)
parse_error_data (object f) = (or_else f.error_code f.code, f.message)

-- `error.response?.data`; a missing one is no object.
abbrev pub data_of : AxiosError → Data
data_of e = elim e.response [ none ↦ other_data | some r ↦ r.body ]

-- `isStructuredDownstreamError`
unfoldable pub is_structured_downstream_error : Thrown → Bool
is_structured_downstream_error no_axios = false
is_structured_downstream_error (axios e cause) =
    let found = parse_error_data (data_of (find_axios_error_with_response e (axios e cause))) in
    truthy? found.0 && truthy? found.1

-- `HTTP_STATUS_TO_ERROR_CODE[status]`
unfoldable pub http_status_to_error_code : ℕ → Option String
http_status_to_error_code status =
    if status == 400
    then some "BAD_REQUEST"
    else if status == 401
    then some "UNAUTHENTICATED"
    else if status == 403
    then some "FORBIDDEN"
    else if status == 404
    then some "NOT_FOUND"
    else if status == 408
    then some "GATEWAY_TIMEOUT"
    else if status == 429
    then some "TOO_MANY_REQUESTS"
    else if status == 502
    then some "BAD_GATEWAY"
    else if status == 503
    then some "BAD_GATEWAY"
    else if status == 504
    then some "GATEWAY_TIMEOUT"
    else none

-- The `GraphQLError`: its message and its extensions.
pub record GraphQlError : Type 0 where
  pub message : String
  pub code : String
  pub status_code : ℕ
  pub error_code : Option String
  pub timestamp : Option String
  pub password_change_token : Option String
  pub downstream_service : Option String

-- `...(value && { key: value })`: an empty text is left out.
abbrev pub if_truthy : Option String → Option String
if_truthy value = if truthy? value then value else none

-- `responseError.response?.status ?? responseError.status`
abbrev pub status_of : AxiosError → Option ℕ
status_of e = elim e.response [ none ↦ e.status | some r ↦ some r.status ]

abbrev pub url_of : AxiosError → Option String
url_of e = elim e.response [ none ↦ e.url | some r ↦ or_else r.url e.url ]

abbrev pub is_timeout : Option String → Bool
is_timeout none = false
is_timeout (some code) = code == "ECONNABORTED" || code == "ETIMEDOUT"

-- An error that no response stands behind.
abbrev pub no_answer : String → String → ℕ → Option String → GraphQlError
no_answer message code status service = record {
  message = message;
  code = code;
  status_code = status;
  error_code = none;
  timestamp = none;
  password_change_token = none;
  downstream_service = service;
}

abbrev pub is_auth : Option String → Bool
is_auth none = false
is_auth (some service) = service == "auth"

-- `inferDownstreamService`
unfoldable pub infer_downstream_service : String → Option String
infer_downstream_service url =
    if includes "/auth/" url
    then some "auth"
    else if includes "/api/logs" url || includes "/api/containers" url || includes "/api/stats" url
    then some "log-streamer"
    else none

-- The answer that a response with a status gives.
unfoldable pub from_status : ℕ → AxiosError → Option String → GraphQlError
from_status status e service =
    let found = parse_downstream_error_data (data_of e) in
    record {
      message =
          or_default (or_else found.message found.raw_message)
            (template ("Backend service error (" ∷ to_text status ∷ ")" ∷ []));
      code = or_default (http_status_to_error_code status) "BAD_GATEWAY";
      status_code = status;
      error_code = if_truthy found.error_code;
      timestamp = if_truthy found.timestamp;
      password_change_token = if_truthy found.password_change_token;
      downstream_service = service;
    }

unfoldable pub by_status : Option ℕ → AxiosError → Option String → GraphQlError
by_status status e service =
    if or_default status 0 == 0
    then no_answer (if is_auth service then "인증 서버에 연결할 수 없습니다." else "Backend service unavailable")
        "BAD_GATEWAY" 502 service
    else from_status (or_default status 0) e service

-- `toAxiosGraphQLError`
unfoldable pub to_axios_graphql_error : AxiosError → Thrown → GraphQlError
to_axios_graphql_error exception cause =
    let e = find_axios_error_with_response exception (axios exception cause) in
    let url = or_default (or_else (url_of e) exception.url) "unknown" in
    let service = infer_downstream_service url in
    if is_timeout (or_else exception.code e.code)
    then no_answer (if is_auth service then "인증 서버 응답이 지연되고 있습니다." else "Backend service timeout")
        "GATEWAY_TIMEOUT" 504 service
    else by_status (status_of e) e service

-- An `HttpException`: its status, its response if that is a text, or the message of it if it is an
-- object, and its own message.
pub record HttpException : Type 0 where
  pub status : ℕ
  pub response_text : Option String
  pub response_message : Option String
  pub message : String

-- What the filter is given.
pub data Exception : Type 0 where
  axios_exception : AxiosError → Thrown → Exception
  graphql_error : GraphQlError → Exception
  http_exception : HttpException → Exception
  other_exception : Exception

-- `HttpExceptionFilter.catch`
unfoldable pub catch_exception : Exception → GraphQlError
catch_exception (axios_exception e cause) = to_axios_graphql_error e cause
catch_exception (graphql_error g) = g
catch_exception other_exception = no_answer "Internal server error" "INTERNAL_SERVER_ERROR" 500 none
catch_exception (http_exception e) =
    no_answer (or_default (or_else e.response_text e.response_message) e.message)
      (or_default (http_status_to_error_code e.status) "INTERNAL_SERVER_ERROR") e.status none
