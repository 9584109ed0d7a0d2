-- ===== src/AuthProxy/Lowered.antt =====
-- Header names in lower case: a header is found where it stands.
use nestjs_graphql_fastify_a.Common.{
  String, Option, none, some, [], ◌∷◌, ◌++◌, All, All-append, insert, lookup, ◌==◌, string_eq,
  if◌then◌else◌, if_elim, or_else, ◌≡◌, refl, ap, arith, eq_iff, Bool-cases, inl, inr,
}
use nestjs_graphql_fastify_a.Common.Text.{trim, truthy, truthy?}
use nestjs_graphql_fastify_a.Common.Headers.{
  to_lower_case, HeaderValue, IncomingHttpHeaders, first_value, non_blank,
}
use nestjs_graphql_fastify_a.AccessChannel.{
  Url, find_entry, raw_header_value, header_value, resolve_access_channel_origin,
}
use nestjs_graphql_fastify_a.AuthProxy.{
  FastifyRequest, header_of, RequestHeaders, RequestStore, entry, assign, auth_meta_headers,
  with_context, received_headers,
}
use nestjs_graphql_fastify_a.AuthProxy.Arrived.{sent}

-- Node.js gives the names of the headers in lower case.
abbrev pub HasLowerNames : IncomingHttpHeaders → Type 0
HasLowerNames = All (λ header. to_lower_case header.0 ≡ header.0)

find_entry-lookup :
    (name : String) (headers : IncomingHttpHeaders)
    → HasLowerNames headers
    → find_entry name headers ≡ lookup name headers
unfolding find_entry lookup
find_entry-lookup name [] h = refl
find_entry-lookup name ((key, value) ∷ headers) (h, hs) =
    ground (arith, h, find_entry-lookup name headers hs)

raw_header_value-lookup :
    (headers : IncomingHttpHeaders) (name : String)
    → HasLowerNames headers
    → to_lower_case name ≡ name
    → raw_header_value headers name ≡ lookup name headers
unfolding raw_header_value
raw_header_value-lookup headers name h e =
    rw (e, find_entry-lookup name headers h) (same (lookup name headers))
  where
    same : (o : Option HeaderValue) → or_else (or_else o o) o ≡ o
    same none = refl
    same (some v) = refl

pub header_value-first :
    (headers : IncomingHttpHeaders) (name : String)
    → HasLowerNames headers
    → to_lower_case name ≡ name
    → header_value headers name ≡ non_blank (first_value (lookup name headers))
unfolding header_value
header_value-first headers name h e =
    ap (λ v. non_blank (first_value v)) (raw_header_value-lookup headers name h e)

-- Lowering a second time changes no name.
abbrev pub IsLowered : String → Type 0
IsLowered name = to_lower_case (to_lower_case name) ≡ to_lower_case name

abbrev pub AllLowered : RequestHeaders → Type 0
AllLowered = All (λ header. IsLowered header.0)

pub received_headers-HasLowerNames :
    (headers : RequestHeaders) → AllLowered headers → HasLowerNames (received_headers headers)
unfolding received_headers
received_headers-HasLowerNames [] h = tt
received_headers-HasLowerNames ((k, v) ∷ headers) (h, hs) =
    (h, received_headers-HasLowerNames headers hs)

entry-AllLowered : (k : String) (o : Option String) → IsLowered k → AllLowered (entry k o)
entry-AllLowered k none h = tt
entry-AllLowered k (some v) h = if_elim AllLowered (truthy v) (λ _. (h, tt)) (λ _. tt)

insert-AllLowered :
    (k v : String) (headers : RequestHeaders)
    → IsLowered k
    → AllLowered headers
    → AllLowered (insert k v headers)
unfolding insert
insert-AllLowered k v [] h _ = (h, tt)
insert-AllLowered k v ((j, w) ∷ headers) h (p, hs) =
    if_elim AllLowered (j == k) (λ _. (h, hs)) (λ _. (p, insert-AllLowered k v headers h hs))

assign-AllLowered :
    (k : String) (o : Option String) (headers : RequestHeaders)
    → IsLowered k
    → AllLowered headers
    → AllLowered (assign k o headers)
assign-AllLowered k none headers h hs = hs
assign-AllLowered k (some v) headers h hs =
    if_elim AllLowered (truthy v) (λ _. insert-AllLowered k v headers h hs) (λ _. hs)

pub with_context-AllLowered :
    (store : RequestStore) (headers : RequestHeaders)
    → AllLowered headers
    → AllLowered (with_context store headers)
unfolding with_context to_lower_case
with_context-AllLowered store headers h =
    assign-AllLowered "accept-language" store.accept_language _ refl (
      assign-AllLowered "x-correlation-id" store.correlation_id _ refl
        (assign-AllLowered "Authorization" store.auth_token headers refl h))

pub append-AllLowered :
    (xs ys : RequestHeaders) → AllLowered xs → AllLowered ys → AllLowered (xs ++ ys)
append-AllLowered = All-append {A = String × String} (λ header. IsLowered header.0)

entry_first :
    (k : String) (o : Option String) (rest : RequestHeaders)
    → IsLowered k
    → AllLowered rest
    → AllLowered (entry k o ++ rest)
entry_first k o rest h hs = append-AllLowered (entry k o) rest (entry-AllLowered k o h) hs

pub auth_meta_headers-AllLowered :
    (parse_url : String → Option Url) (req : FastifyRequest)
    → AllLowered (auth_meta_headers parse_url req)
unfolding auth_meta_headers header_of to_lower_case
auth_meta_headers-AllLowered parse_url req =
    let forwarded_for = header_of req "x-forwarded-for" in
    let address = if truthy? forwarded_for then forwarded_for else req.ip in
    let host = header_of req "x-forwarded-host" in
    let proto = header_of req "x-forwarded-proto" in
    let ip = header_of req "x-real-ip" in
    let channel = resolve_access_channel_origin parse_url req.headers in
    let last : RequestHeaders = entry "X-Access-Channel" channel in
    let after_proto : RequestHeaders = entry "X-Real-IP" ip ++ last in
    let after_host : RequestHeaders = entry "X-Forwarded-Proto" proto ++ after_proto in
    let after_for : RequestHeaders = entry "X-Forwarded-Host" host ++ after_host in
    entry_first "X-Forwarded-For" address after_for refl (
      entry_first "X-Forwarded-Host" host after_host refl (
        entry_first "X-Forwarded-Proto" proto after_proto refl (
          entry_first "X-Real-IP" ip last refl (entry-AllLowered "X-Access-Channel" channel refl))))

pub non_blank-sent : (o : Option String) → non_blank (sent o) ≡ non_blank o
unfolding non_blank
non_blank-sent none = refl
non_blank-sent (some s) = elim (Bool-cases (s == "")) [
  | inl h ↦ rw ((eq_iff s "").0 h) (unfold trim in refl)
  | inr h ↦ ground (arith, h)
]
