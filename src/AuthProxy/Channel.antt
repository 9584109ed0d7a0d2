-- ===== src/AuthProxy/Channel.antt =====
-- The access channel that the auth server finds is the one that the gateway found.
use nestjs_graphql_fastify_a.Common.{
  String, false, Option, none, some, [], ◌∷◌, ◌==◌, string_eq, or_default, or_else, ◌≡◌, refl, ap,
  arith, ◌∙◌, sym,
}
use nestjs_graphql_fastify_a.Common.Text.{trim-HasNoBlanks}
use nestjs_graphql_fastify_a.Common.Headers.{to_lower_case, IncomingHttpHeaders, non_blank}
use nestjs_graphql_fastify_a.AccessChannel.{
  Url, header_value, first_comma_separated_header, normalize_protocol, infer_protocol_from_host,
  origin_from_host, origin_from_forwarded, origin_from_header, resolve_access_channel_origin,
}
use nestjs_graphql_fastify_a.AccessChannel.Origins.{
  HasOrigins, resolve-IsStable, from_value, IsStable,
}
use nestjs_graphql_fastify_a.AuthProxy.{
  FastifyRequest, auth_meta_headers, header_of, RequestHeaders, RequestStore, with_context,
  received_headers,
}
use nestjs_graphql_fastify_a.AuthProxy.Arrived.{
  value_at, sent, meta_headers, IsOther, IsArrived, meta_headers-IsArrived, value_at-with_context,
}
use nestjs_graphql_fastify_a.AuthProxy.Lowered.{
  HasLowerNames, header_value-first, IsLowered, received_headers-HasLowerNames,
  with_context-AllLowered, append-AllLowered, auth_meta_headers-AllLowered, non_blank-sent,
}

module _ (parse_url : String → Option Url) (laws : HasOrigins parse_url) where
  from_value-sent :
      (o : Option String) → IsStable parse_url laws o → from_value parse_url laws (sent o) ≡ o
  unfolding non_blank
  from_value-sent none h = refl
  from_value-sent (some s) (n, v, t) = ground (arith, trim-HasNoBlanks s v, n, t)

  first_comma_separated_same :
      (hs ks : IncomingHttpHeaders) (name : String)
      → header_value hs name ≡ header_value ks name
      → first_comma_separated_header hs name ≡ first_comma_separated_header ks name
  unfolding first_comma_separated_header
  first_comma_separated_same hs ks name e = rw (e, first_comma_separated_header) refl

  same_forwarded :
      (hs ks : IncomingHttpHeaders)
      → header_value hs "x-forwarded-host" ≡ header_value ks "x-forwarded-host"
      → header_value hs "x-forwarded-proto" ≡ header_value ks "x-forwarded-proto"
      → origin_from_forwarded parse_url hs ≡ origin_from_forwarded parse_url ks
  unfolding origin_from_forwarded
  same_forwarded hs ks e f =
      let host = first_comma_separated_same hs ks "x-forwarded-host" e in
      let proto = first_comma_separated_same hs ks "x-forwarded-proto" f in
      λ i. elim (host i) [
        | none ↦ none
        | some h ↦
            origin_from_host parse_url h
              (or_default (normalize_protocol (proto i)) (infer_protocol_from_host h))
      ]

  origin_from_header_lem :
      (hs : IncomingHttpHeaders) (name : String) (o : Option String)
      → header_value hs name ≡ non_blank o
      → origin_from_header parse_url hs name ≡ from_value parse_url laws o
  unfolding origin_from_header
  origin_from_header_lem hs name o e = rw (e, origin_from_header) refl

  first_found :
      (f o r x : Option String)
      → or_else (or_else (or_else f none) none) (or_else (or_else (or_else f o) r) x)
        ≡ or_else (or_else (or_else f o) r) x
  first_found none o r x = refl
  first_found (some s) o r x = refl

  -- The headers of `authMetaHeaders` with one more, as they arrive.
  module _ (req : FastifyRequest) (names : HasLowerNames req.headers) (store : RequestStore)
      (key value : String) (other : IsOther key) (lowered : IsLowered key) where
    abbrev sent_headers : RequestHeaders
    sent_headers = with_context store (meta_headers parse_url req key value)

    abbrev arrived_headers : IncomingHttpHeaders
    arrived_headers = received_headers sent_headers

    arrived_names : HasLowerNames arrived_headers
    arrived_names = received_headers-HasLowerNames sent_headers (
        with_context-AllLowered store (meta_headers parse_url req key value) (
          append-AllLowered (auth_meta_headers parse_url req) ((key, value) ∷ [])
            (auth_meta_headers-AllLowered parse_url req) (lowered, tt)))

    arrived : IsArrived parse_url req key value
    arrived = meta_headers-IsArrived parse_url req key value other

    arrived_value :
        (name : String)
        → to_lower_case name ≡ name
        → (to_lower_case "authorization" == name) ≡ false
        → (to_lower_case "x-correlation-id" == name) ≡ false
        → (to_lower_case "accept-language" == name) ≡ false
        → header_value arrived_headers name
          ≡ non_blank (value_at name (meta_headers parse_url req key value))
    arrived_value name low a b c =
        header_value-first arrived_headers name arrived_names low
        ∙ ap non_blank
            (value_at-with_context name store (meta_headers parse_url req key value) a b c)

    arrived_host :
        header_value arrived_headers "x-forwarded-host"
        ≡ header_value req.headers "x-forwarded-host"
    unfolding to_lower_case header_of
    arrived_host =
        arrived_value "x-forwarded-host" refl refl refl refl
        ∙ ap non_blank arrived.forwarded_host
        ∙ non_blank-sent (header_of req "x-forwarded-host")
        ∙ sym (header_value-first req.headers "x-forwarded-host" names refl)

    arrived_proto :
        header_value arrived_headers "x-forwarded-proto"
        ≡ header_value req.headers "x-forwarded-proto"
    unfolding to_lower_case header_of
    arrived_proto =
        arrived_value "x-forwarded-proto" refl refl refl refl
        ∙ ap non_blank arrived.forwarded_proto
        ∙ non_blank-sent (header_of req "x-forwarded-proto")
        ∙ sym (header_value-first req.headers "x-forwarded-proto" names refl)

    arrived_forwarded :
        origin_from_forwarded parse_url arrived_headers
        ≡ origin_from_forwarded parse_url req.headers
    arrived_forwarded = same_forwarded arrived_headers req.headers arrived_host arrived_proto

    arrived_channel :
        origin_from_header parse_url arrived_headers "x-access-channel"
        ≡ resolve_access_channel_origin parse_url req.headers
    unfolding to_lower_case
    arrived_channel =
        let channel = resolve_access_channel_origin parse_url req.headers in
        origin_from_header_lem arrived_headers "x-access-channel" (sent channel) (
          arrived_value "x-access-channel" refl refl refl refl
          ∙ ap non_blank arrived.access_channel)
        ∙ from_value-sent channel (resolve-IsStable parse_url laws req.headers)

    -- The channel of the request to the auth server is that of the request to the gateway.
    pub same_channel :
        resolve_access_channel_origin parse_url arrived_headers
        ≡ resolve_access_channel_origin parse_url req.headers
    unfolding resolve_access_channel_origin to_lower_case non_blank
    same_channel =
        let no_origin : origin_from_header parse_url arrived_headers "origin" ≡ none =
          origin_from_header_lem arrived_headers "origin" none
            (arrived_value "origin" refl refl refl refl ∙ ap non_blank arrived.origin) in
        let no_referer : origin_from_header parse_url arrived_headers "referer" ≡ none =
          origin_from_header_lem arrived_headers "referer" none
            (arrived_value "referer" refl refl refl refl ∙ ap non_blank arrived.referer) in
        rw (arrived_forwarded, no_origin, no_referer, arrived_channel)
          (first_found (origin_from_forwarded parse_url req.headers)
            (origin_from_header parse_url req.headers "origin")
            (origin_from_header parse_url req.headers "referer")
            (origin_from_header parse_url req.headers "x-access-channel"))
