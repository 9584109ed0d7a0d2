-- ===== src/AccessChannel.antt =====
-- The origin under which a client came in (libs/shared/src/common/http/access-channel.ts). `new URL`
-- is a parameter: `none` where it throws.
pub mod Origins
use nestjs_graphql_fastify_a.Common.{
  String, Bool, ◌&&◌, ◌||◌, Option, none, some, List, [], ◌∷◌, contains, lookup, ◌==◌, string_eq,
  if◌then◌else◌, or_default, or_else,
}
use nestjs_graphql_fastify_a.Common.Text.{template, trim, truthy, starts_with}
use nestjs_graphql_fastify_a.Common.Headers.{
  to_lower_case, HeaderValue, IncomingHttpHeaders, first_value, first_comma_separated, non_blank,
}

-- The parts of a `URL` that are read.
pub record Url : Type 0 where
  pub protocol : String
  pub hostname : String
  pub origin : String

abbrev pub http_protocols : List String
http_protocols = "http:" ∷ "https:" ∷ []

-- `Object.entries(headers).find(([key]) => key.toLowerCase() === normalizedName)`
unfoldable pub find_entry : String → IncomingHttpHeaders → Option HeaderValue
find_entry normalized_name [] = none
find_entry normalized_name ((key, value) ∷ headers) =
    if to_lower_case key == normalized_name then some value else find_entry normalized_name headers

unfoldable pub raw_header_value : IncomingHttpHeaders → String → Option HeaderValue
raw_header_value headers name =
    or_else (or_else (lookup name headers) (lookup (to_lower_case name) headers))
      (find_entry (to_lower_case name) headers)

unfoldable pub header_value : IncomingHttpHeaders → String → Option String
header_value headers name = non_blank (first_value (raw_header_value headers name))

unfoldable pub first_comma_separated_header : IncomingHttpHeaders → String → Option String
first_comma_separated_header headers name = elim (header_value headers name) [
  | none ↦ none
  | some value ↦ non_blank (some (first_comma_separated value))
]

unfoldable pub normalize_protocol : Option String → Option String
normalize_protocol none = none
normalize_protocol (some value) =
    let normalized = to_lower_case (trim value) in
    if normalized == "http" || normalized == "http:"
    then some "http"
    else if normalized == "https" || normalized == "https:"
    then some "https"
    else none

unfoldable pub infer_protocol_from_host : String → String
infer_protocol_from_host host =
    let normalized = to_lower_case host in
    if starts_with "localhost" normalized
      || starts_with "127.0.0.1" normalized
      || starts_with "[::1]" normalized
      || normalized == "::1"
    then "http"
    else "https"

module _ (parse_url : String → Option Url) where
  abbrev pub is_http_url : Url → Bool
  is_http_url url = contains url.protocol http_protocols && truthy url.hostname

  unfoldable pub normalize_origin : String → Option String
  normalize_origin value = elim (parse_url (trim value)) [
    | none ↦ none
    | some url ↦ if is_http_url url then some url.origin else none
  ]

  -- `/^https?:\/\//i.test(host)` decides whether the host is a URL already.
  unfoldable pub origin_from_host : (host protocol : String) → Option String
  origin_from_host host protocol =
      let lower = to_lower_case host in
      if starts_with "http://" lower || starts_with "https://" lower
      then normalize_origin host
      else normalize_origin (template (protocol ∷ "://" ∷ host ∷ []))

  unfoldable pub origin_from_forwarded : IncomingHttpHeaders → Option String
  origin_from_forwarded headers = elim (first_comma_separated_header headers "x-forwarded-host") [
    | none ↦ none
    | some host ↦ origin_from_host host (
        or_default (normalize_protocol (first_comma_separated_header headers "x-forwarded-proto"))
          (infer_protocol_from_host host))
  ]

  unfoldable pub origin_from_header : IncomingHttpHeaders → String → Option String
  origin_from_header headers name = elim (header_value headers name) [
    | none ↦ none
    | some value ↦ normalize_origin value
  ]

  unfoldable pub resolve_access_channel_origin : IncomingHttpHeaders → Option String
  resolve_access_channel_origin headers =
      or_else
        (or_else (or_else (origin_from_forwarded headers) (origin_from_header headers "origin"))
          (origin_from_header headers "referer"))
        (origin_from_header headers "x-access-channel")
