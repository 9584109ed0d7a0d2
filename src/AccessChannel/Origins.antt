-- ===== src/AccessChannel/Origins.antt =====
-- An origin that is found is found again where it is sent in a header.
use nestjs_graphql_fastify_a.Common.{
  String, true, ◌||◌, Option, none, some, [], ◌∷◌, string_eq, if_elim, or_else, ◌≡◌, arith,
  Option-cases, inl, inr,
}
use nestjs_graphql_fastify_a.Common.Text.{
  template, starts_with, trim, truthy, HasNoBlanks, trim-HasNoBlanks,
}
use nestjs_graphql_fastify_a.Common.Headers.{to_lower_case, IncomingHttpHeaders, non_blank}
use nestjs_graphql_fastify_a.AccessChannel.{
  Url, header_value, first_comma_separated_header, is_http_url, normalize_origin, origin_from_host,
  origin_from_forwarded, origin_from_header, resolve_access_channel_origin,
}

-- What is documented of `new URL` for the protocols http and https: the origin is no empty text and has
-- no blanks, and as a URL it has the same protocol, host and origin.
pub record HasOrigins (parse_url : String → Option Url) : Type 0 where
  pub visible :
      (v : String) (u : Url)
      → parse_url v ≡ some u
      → is_http_url parse_url u ≡ true
      → HasNoBlanks u.origin
  pub not_empty :
      (v : String) (u : Url)
      → parse_url v ≡ some u
      → is_http_url parse_url u ≡ true
      → truthy u.origin ≡ true
  pub stable :
      (v : String) (u : Url)
      → parse_url v ≡ some u
      → is_http_url parse_url u ≡ true
      → parse_url u.origin ≡ some u

module _ (parse_url : String → Option Url) (laws : HasOrigins parse_url) where
  -- An origin, if there is one, is found again where it is sent.
  abbrev pub IsStable : Option String → Type 0
  IsStable none = Unit {0}
  IsStable (some origin) =
      (normalize_origin parse_url origin ≡ some origin)
      × HasNoBlanks origin
      × (truthy origin ≡ true)

  origin_again :
      (u : Url)
      → HasNoBlanks u.origin
      → parse_url u.origin ≡ some u
      → is_http_url parse_url u ≡ true
      → normalize_origin parse_url u.origin ≡ some u.origin
  unfolding normalize_origin
  origin_again u visible e h =
      rw (trim-HasNoBlanks u.origin visible, normalize_origin)
        (rw (e, normalize_origin) (ground (arith, h)))

  normalize_origin-IsStable : (v : String) → IsStable (normalize_origin parse_url v)
  unfolding normalize_origin
  normalize_origin-IsStable v = elim (Option-cases (parse_url (trim v))) [
    | inl e ↦ rw (e, IsStable) tt
    | inr (u, e) ↦
        rw (e, IsStable)
          (if_elim IsStable (is_http_url parse_url u)
            (λ h.
              let visible = laws.visible (trim v) u e h in
              (
                origin_again u visible (laws.stable (trim v) u e h) h,
                visible,
                laws.not_empty (trim v) u e h,
              ))
            (λ _. tt))
  ]

  origin_from_host-IsStable :
      (host protocol : String) → IsStable (origin_from_host parse_url host protocol)
  unfolding origin_from_host
  origin_from_host-IsStable host protocol =
      if_elim IsStable
        (starts_with "http://" (to_lower_case host) || starts_with "https://" (to_lower_case host))
        (λ _. normalize_origin-IsStable host)
        (λ _. normalize_origin-IsStable (template (protocol ∷ "://" ∷ host ∷ [])))

  origin_from_forwarded-IsStable :
      (headers : IncomingHttpHeaders) → IsStable (origin_from_forwarded parse_url headers)
  unfolding origin_from_forwarded
  origin_from_forwarded-IsStable headers =
      elim (Option-cases (first_comma_separated_header headers "x-forwarded-host")) [
        | inl e ↦ rw (e, IsStable) tt
        | inr (host, e) ↦ rw (e, IsStable) (origin_from_host-IsStable host _)
      ]

  origin_from_header-IsStable :
      (headers : IncomingHttpHeaders) (name : String)
      → IsStable (origin_from_header parse_url headers name)
  unfolding origin_from_header
  origin_from_header-IsStable headers name = elim (Option-cases (header_value headers name)) [
    | inl e ↦ rw (e, IsStable) tt
    | inr (v, e) ↦ rw (e, IsStable) (normalize_origin-IsStable v)
  ]

  or_else-IsStable : (o p : Option String) → IsStable o → IsStable p → IsStable (or_else o p)
  or_else-IsStable none p h k = k
  or_else-IsStable (some s) p h k = h

  pub resolve-IsStable :
      (headers : IncomingHttpHeaders) → IsStable (resolve_access_channel_origin parse_url headers)
  unfolding resolve_access_channel_origin
  resolve-IsStable headers =
      or_else-IsStable _ _
        (or_else-IsStable _ _
          (or_else-IsStable _ _ (origin_from_forwarded-IsStable headers)
            (origin_from_header-IsStable headers "origin"))
          (origin_from_header-IsStable headers "referer"))
        (origin_from_header-IsStable headers "x-access-channel")

  -- What a header with a stable origin gives.
  abbrev pub from_value : Option String → Option String
  from_value value = elim (non_blank value) [ none ↦ none | some v ↦ normalize_origin parse_url v ]
