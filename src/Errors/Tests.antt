-- ===== src/Errors/Tests.antt =====
-- The theorems on errors at a timeout-free chain of two Axios errors.
use nestjs_graphql_fastify_a.Common.{String, none, some, or_default, ◌≡◌, refl}
use nestjs_graphql_fastify_a.Errors.{
  AxiosError, axios, no_axios, Response, parsed, object, find_axios_error_with_response,
  parse_error_data, data_of, status_of, is_structured_downstream_error, to_axios_graphql_error,
}
use nestjs_graphql_fastify_a.Errors.Reported.{structured_reported}

abbrev answer : Response
answer = record {
  status = 403;
  url = some "http://auth/auth/login";
  body = parsed "{...}" (
      object (record {
        error_code = none;
        code = some "11005";
        message = some "locked";
        timestamp = none;
        password_change_token = none;
      }));
}

abbrev inner : AxiosError
inner = record { code = some "ERR_BAD_REQUEST"; status = none; url = none; response = some answer }

abbrev outer : AxiosError
outer = record { code = none; status = none; url = none; response = none }

structured_reported_example :
    let g = to_axios_graphql_error outer (axios inner no_axios) in
    let reported = find_axios_error_with_response outer (axios outer (axios inner no_axios)) in
    (code : String) × (message : String) × (parse_error_data (data_of reported)
      ≡ (some code, some message))
    × (g.error_code ≡ some code)
    × (g.message ≡ message)
    × (g.status_code ≡ or_default (status_of reported) 0)
unfolding is_structured_downstream_error find_axios_error_with_response parse_error_data
structured_reported_example = structured_reported outer (axios inner no_axios) refl refl refl
