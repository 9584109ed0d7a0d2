-- ===== src/AuthProxy/Arrived.antt =====
-- Which header values arrive at the auth server.
use nestjs_graphql_fastify_a.Common.{
  String, true, false, Option, none, some, List, [], ◌∷◌, ◌++◌, All, insert, lookup, ◌==◌,
  string_eq, if◌then◌else◌, or_else, ◌≡◌, refl, ap, arith, eq_iff, ◌∙◌,
}
use nestjs_graphql_fastify_a.Common.Text.{truthy?}
use nestjs_graphql_fastify_a.Common.Headers.{to_lower_case, first_value}
use nestjs_graphql_fastify_a.AccessChannel.{Url, resolve_access_channel_origin}
use nestjs_graphql_fastify_a.AuthProxy.{
  FastifyRequest, header_of, RequestHeaders, RequestStore, entry, assign, auth_meta_headers,
  with_context, received_headers,
}

abbrev pub value_at : String → RequestHeaders → Option String
value_at name headers = first_value (lookup name (received_headers headers))

-- A value that is sent at all
abbrev pub sent : Option String → Option String
sent value = if truthy? value then value else none

pub or_else-none : (o : Option String) → or_else o none ≡ o
or_else-none none = refl
or_else-none (some s) = refl

pub value_at-append :
    (name : String) (xs ys : RequestHeaders)
    → value_at name (xs ++ ys) ≡ or_else (value_at name xs) (value_at name ys)
unfolding received_headers lookup
value_at-append name [] ys = refl
value_at-append name ((k, v) ∷ xs) ys = ground (arith, value_at-append name xs ys)

pub value_at-entry :
    (name key : String) (value : Option String)
    → value_at name (entry key value) ≡ (if to_lower_case key == name then sent value else none)
unfolding received_headers lookup
value_at-entry name key none = ground arith
value_at-entry name key (some value) = ground arith

value_at-insert :
    (name key value : String) (headers : RequestHeaders)
    → (to_lower_case key == name) ≡ false
    → value_at name (insert key value headers) ≡ value_at name headers
unfolding received_headers lookup insert
value_at-insert name key value [] h = rw h refl
value_at-insert name key value ((k, v) ∷ headers) h =
    ground (arith, h, eq_iff k key, value_at-insert name key value headers)

pub value_at-assign :
    (name key : String) (value : Option String) (headers : RequestHeaders)
    → (to_lower_case key == name) ≡ false
    → value_at name (assign key value headers) ≡ value_at name headers
value_at-assign name key none headers h = refl
value_at-assign name key (some value) headers h =
    ground (arith, value_at-insert name key value headers h)

-- The client's own headers take none of the others' places.
pub value_at-with_context :
    (name : String) (store : RequestStore) (headers : RequestHeaders)
    → (to_lower_case "authorization" == name) ≡ false
    → (to_lower_case "x-correlation-id" == name) ≡ false
    → (to_lower_case "accept-language" == name) ≡ false
    → value_at name (with_context store headers) ≡ value_at name headers
unfolding with_context to_lower_case
value_at-with_context name store headers h k l =
    value_at-assign name "accept-language" store.accept_language _ l
    ∙ value_at-assign name "x-correlation-id" store.correlation_id _ k
    ∙ value_at-assign name "Authorization" store.auth_token headers h

abbrev meta_names : List String
meta_names =
    "x-forwarded-for" ∷ "x-forwarded-host" ∷ "x-forwarded-proto" ∷ "x-real-ip" ∷ "x-access-channel"
    ∷ "origin" ∷ "referer" ∷ []

-- A header that is none of those that tell of the client.
abbrev pub IsOther : String → Type 0
IsOther key = All (λ name. (to_lower_case key == name) ≡ false) meta_names

-- The five headers of `authMetaHeaders` and one more, under the names that they arrive with.
module _ (parse_url : String → Option Url) (req : FastifyRequest) (key value : String) where
  abbrev pub meta_headers : RequestHeaders
  meta_headers = auth_meta_headers parse_url req ++ (key, value) ∷ []

  abbrev pub forwarded_address : Option String
  forwarded_address =
      if truthy? (header_of req "x-forwarded-for") then header_of req "x-forwarded-for" else req.ip

  abbrev place : (key name : String) → Option String → Option String → Option String
  place k name value rest = if k == name then or_else (sent value) rest else rest

  value_at-place :
      (name k lower : String) (o : Option String) (rest : RequestHeaders)
      → to_lower_case k ≡ lower
      → value_at name (entry k o ++ rest) ≡ place lower name o (value_at name rest)
  value_at-place name k lower o rest h =
      ground (arith, value_at-append name (entry k o) rest, value_at-entry name k o, h)

  pub value_at-meta :
      (name : String)
      → value_at name (auth_meta_headers parse_url req)
        ≡ place "x-forwarded-for" name forwarded_address (
            place "x-forwarded-host" name (header_of req "x-forwarded-host") (
              place "x-forwarded-proto" name (header_of req "x-forwarded-proto") (
                place "x-real-ip" name (header_of req "x-real-ip") (
                  place "x-access-channel" name
                    (resolve_access_channel_origin parse_url req.headers)
                    none))))
  unfolding auth_meta_headers header_of to_lower_case
  value_at-meta name =
      let host = header_of req "x-forwarded-host" in
      let proto = header_of req "x-forwarded-proto" in
      let ip = header_of req "x-real-ip" in
      let channel = resolve_access_channel_origin parse_url req.headers in
      let last : RequestHeaders = entry "X-Access-Channel" channel in
      let after_proto : RequestHeaders = entry "X-Real-IP" ip ++ last in
      let after_host : RequestHeaders = entry "X-Forwarded-Proto" proto ++ after_proto in
      let after_for : RequestHeaders = entry "X-Forwarded-Host" host ++ after_host in
      value_at-place name "X-Forwarded-For" "x-forwarded-for" forwarded_address after_for refl
      ∙ ap (place "x-forwarded-for" name forwarded_address) (
          value_at-place name "X-Forwarded-Host" "x-forwarded-host" host after_host refl
          ∙ ap (place "x-forwarded-host" name host) (
              value_at-place name "X-Forwarded-Proto" "x-forwarded-proto" proto after_proto refl
              ∙ ap (place "x-forwarded-proto" name proto) (
                  value_at-place name "X-Real-IP" "x-real-ip" ip last refl
                  ∙ ap (place "x-real-ip" name ip) (last_place name channel))))
    where
      last_place :
          (name : String) (o : Option String)
          → value_at name (entry "X-Access-Channel" o) ≡ place "x-access-channel" name o none
      last_place name o = ground (arith, value_at-entry name "X-Access-Channel" o)

  value_at-other :
      (name : String)
      → (to_lower_case key == name) ≡ false
      → value_at name meta_headers ≡ value_at name (auth_meta_headers parse_url req)
  unfolding received_headers lookup
  value_at-other name h =
      value_at-append name (auth_meta_headers parse_url req) ((key, value) ∷ []) ∙ ground (arith, h)

  -- The header that is sent with the five arrives.
  pub own_value :
      (name : String)
      → value_at name (auth_meta_headers parse_url req) ≡ none
      → (to_lower_case key == name) ≡ true
      → value_at name meta_headers ≡ some value
  unfolding received_headers lookup
  own_value name h e =
      value_at-append name (auth_meta_headers parse_url req) ((key, value) ∷ [])
      ∙ ground (arith, h, e)

  pub record IsArrived : Type 0 where
    pub forwarded_for : value_at "x-forwarded-for" meta_headers ≡ sent forwarded_address
    pub forwarded_host :
        value_at "x-forwarded-host" meta_headers ≡ sent (header_of req "x-forwarded-host")
    pub forwarded_proto :
        value_at "x-forwarded-proto" meta_headers ≡ sent (header_of req "x-forwarded-proto")
    pub real_ip : value_at "x-real-ip" meta_headers ≡ sent (header_of req "x-real-ip")
    pub access_channel :
        value_at "x-access-channel" meta_headers
        ≡ sent (resolve_access_channel_origin parse_url req.headers)
    pub origin : value_at "origin" meta_headers ≡ none
    pub referer : value_at "referer" meta_headers ≡ none

  pub meta_headers-IsArrived : IsOther key → IsArrived
  meta_headers-IsArrived (a, (b, (c, (d, (e, (f, (g, _))))))) = record {
    forwarded_for = value_at-other _ a ∙ value_at-meta _ ∙ or_else-none _;
    forwarded_host = value_at-other _ b ∙ value_at-meta _ ∙ or_else-none _;
    forwarded_proto = value_at-other _ c ∙ value_at-meta _ ∙ or_else-none _;
    real_ip = value_at-other _ d ∙ value_at-meta _ ∙ or_else-none _;
    access_channel = value_at-other _ e ∙ value_at-meta _ ∙ or_else-none _;
    origin = value_at-other _ f ∙ value_at-meta _;
    referer = value_at-other _ g ∙ value_at-meta _;
  }
