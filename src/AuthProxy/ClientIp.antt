-- ===== src/AuthProxy/ClientIp.antt =====
-- The address under which the auth server records a login.
use nestjs_graphql_fastify_a.Common.{
  String, true, Option, none, some, ◌==◌, string_eq, or_default, ◌≡◌, refl, ap, arith, ◌∙◌,
  Bool-cases, inl, inr, eq_iff,
}
use nestjs_graphql_fastify_a.Common.Text.{truthy, trim}
use nestjs_graphql_fastify_a.Common.Headers.{to_lower_case, first_comma_separated}
use nestjs_graphql_fastify_a.AccessChannel.{Url}
use nestjs_graphql_fastify_a.AuthProxy.{
  FastifyRequest, header_of, RequestStore, with_context, received, proxied_login, login_call,
  client_ip, login_request_meta, either, trimmed, first_address,
}
use nestjs_graphql_fastify_a.AuthProxy.Arrived.{
  sent, meta_headers, forwarded_address, IsOther, IsArrived, meta_headers-IsArrived,
  value_at-with_context,
}

-- Where `o` is not sent, it would have given no address either.
either-trimmed-sent : (o p : Option String) → either (trimmed (sent o)) p ≡ either (trimmed o) p
either-trimmed-sent none p = refl
either-trimmed-sent (some s) p = elim (Bool-cases (s == "")) [
  | inl h ↦ rw ((eq_iff s "").0 h) (unfold trim in refl)
  | inr h ↦ rw h refl
]

either-address-sent :
    (o p : Option String) → either (first_address (sent o)) p ≡ either (first_address o) p
either-address-sent none p = refl
either-address-sent (some s) p = elim (Bool-cases (s == "")) [
  | inl h ↦ rw ((eq_iff s "").0 h) (unfold trim first_comma_separated in refl)
  | inr h ↦ rw h refl
]

module _ (parse_url : String → Option Url) (req : FastifyRequest) (store : RequestStore)
    (key value gateway_ip : String) (other : IsOther key) where
  abbrev arrived : FastifyRequest
  arrived = received gateway_ip (with_context store (meta_headers parse_url req key value))

  arrives : IsArrived parse_url req key value
  arrives = meta_headers-IsArrived parse_url req key value other

  address_arrives :
      header_of arrived "x-forwarded-for" ≡ sent (forwarded_address parse_url req key value)
  unfolding header_of to_lower_case
  address_arrives =
      value_at-with_context "x-forwarded-for" store (meta_headers parse_url req key value) refl refl
        refl
      ∙ arrives.forwarded_for

  real_ip_arrives : header_of arrived "x-real-ip" ≡ sent (header_of req "x-real-ip")
  unfolding header_of to_lower_case
  real_ip_arrives =
      value_at-with_context "x-real-ip" store (meta_headers parse_url req key value) refl refl refl
      ∙ arrives.real_ip

  pub client_ip_lem :
      client_ip arrived
      ≡ or_default
          (either
            (first_address (either (header_of req "x-forwarded-for") req.ip))
            (either (trimmed (header_of req "x-real-ip")) (either (some gateway_ip) none)))
          "unknown"
  unfolding client_ip
  client_ip_lem =
      let own : Option String = either (some gateway_ip) none in
      ap (λ o. or_default o "unknown")
        ((λ i.
            either (first_address (address_arrives i)) (either (trimmed (real_ip_arrives i)) own))
          ∙ either-address-sent (forwarded_address parse_url req key value) _
          ∙ ap (either (first_address (forwarded_address parse_url req key value)))
              (either-trimmed-sent (header_of req "x-real-ip") own))

-- The client address that the auth server gives to a login through the gateway is the first of these
-- that is not empty: the first address, trimmed, of the X-Forwarded-For of the request to the gateway,
-- or of that request's peer where it has none; its X-Real-IP, trimmed; the address of the gateway;
-- "unknown".
pub login_client_ip :
    (parse_url : String → Option Url) (login_id password gateway_ip : String) (req : FastifyRequest)
    (store : RequestStore)
    → let request = proxied_login parse_url login_id password req store in
      let call = login_call parse_url login_id password (received gateway_ip request.headers) in
      call.meta.client_ip
      ≡ or_default
          (either
            (first_address (either (header_of req "x-forwarded-for") req.ip))
            (either (trimmed (header_of req "x-real-ip")) (either (some gateway_ip) none)))
          "unknown"
unfolding proxied_login login_call login_request_meta to_lower_case
login_client_ip parse_url login_id password gateway_ip req store =
    client_ip_lem parse_url req store "X-User-Type" (or_default (header_of req "x-user-type") "")
      gateway_ip (refl, (refl, (refl, (refl, (refl, (refl, (refl, tt)))))))

-- A request to the gateway that has no X-Forwarded-For is recorded under the gateway's peer, if that
-- has an address, whatever its X-Real-IP says.
pub real_ip_ignored :
    (parse_url : String → Option Url) (login_id password gateway_ip peer : String)
    (req : FastifyRequest) (store : RequestStore)
    → header_of req "x-forwarded-for" ≡ none
    → req.ip ≡ some peer
    → truthy (trim (first_comma_separated peer)) ≡ true
    → let request = proxied_login parse_url login_id password req store in
      let call = login_call parse_url login_id password (received gateway_ip request.headers) in
      call.meta.client_ip ≡ trim (first_comma_separated peer)
real_ip_ignored parse_url login_id password gateway_ip peer req store e h t =
    login_client_ip parse_url login_id password gateway_ip req store ∙ ground (arith, e, h, t)
