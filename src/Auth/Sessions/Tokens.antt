-- ===== src/Auth/Sessions/Tokens.antt =====
-- Which tokens the methods of `AuthService` accept.
use nestjs_graphql_fastify_a.Common.{
  ℕ, suc, ◌+◌, ◌<◌, String, Bool, true, false, ◌||◌, not, Option, none, some, nat_eq, string_eq,
  ◌≡◌, refl, sym, ap, ◌∙◌, arith, Option-cases, inl, inr, if_elim, lt→ltb,
}
use nestjs_graphql_fastify_a.Common.Text.{
  to_text, trim, truthy, number-to_text, trim-HasNoBlanks, to_text-HasNoBlanks, truthy-to_text,
}
use nestjs_graphql_fastify_a.Auth.Accounts.{Account, find_by_id}
use nestjs_graphql_fastify_a.Auth.Errors.{Result, ok, thrown}
use nestjs_graphql_fastify_a.Auth.History.{Store}
use nestjs_graphql_fastify_a.Auth.Tokens.{
  IsVerified, Claims, refresh_claims, two_factor_claims, AccessTokenPayload, seconds, jwt_issuer,
  two_factor_token_expiry_seconds, refresh_token_expiry_seconds, sign_access_token,
  sign_refresh_token, sign_two_factor_token, verify_token,
}
use nestjs_graphql_fastify_a.Auth.Claims.{build_access_token_payload, require_non_blank, with_claim}
use nestjs_graphql_fastify_a.Auth.Service.{Env, AuthTokens, issue_tokens, issue_for}
use nestjs_graphql_fastify_a.Auth.Sessions.{account_of, refresh_tokens}

-- The same libraries at a later time
abbrev pub later : ℕ → Env → Env
later now env = record env { now = now }

signed :
    (env : Env) (now : ℕ) (c : Claims)
    → IsVerified env.jwt c
    → c.iss ≡ jwt_issuer
    → seconds now < c.exp
    → env.jwt.verify (seconds now) jwt_issuer (env.jwt.sign c) ≡ some c
signed env now c jwt issued alive =
    jwt.verifies (seconds now) jwt_issuer ∙ rw (issued, lt→ltb (seconds now) c.exp alive) refl

account_of-to_text : (id : ℕ) (s : Store) → account_of (to_text id) s ≡ find_by_id id s.accounts
unfolding account_of
account_of-to_text id s = rw (number-to_text id, account_of) refl

-- A verified token whose subject is an account's id is a refresh token for the account.
refresh_signed :
    (env : Env) (token : String) (c : Claims) (id : ℕ) (s : Store) (a : Account)
    → verify_token env.jwt env.now token ≡ some c
    → c.sub ≡ to_text id
    → find_by_id id s.accounts ≡ some a
    → refresh_tokens env token s ≡ issue_tokens env a s
unfolding refresh_tokens
refresh_signed env token c id s a verified subject row =
    let found : account_of c.sub s ≡ some a = rw subject (account_of-to_text id s ∙ row) in
    rw (verified, refresh_tokens) (rw found refl)

require_id : (n : ℕ) → require_non_blank (some (to_text n)) ≡ some (to_text n)
unfolding require_non_blank
require_id n = rw (trim-HasNoBlanks (to_text n) (to_text-HasNoBlanks n), truthy-to_text n) refl

-- The payload, if there is one, has this subject.
HasSub : String → Option AccessTokenPayload → Type 0
HasSub sub none = Unit {0}
HasSub sub (some p) = p.sub ≡ sub

with_claim-HasSub :
    (sub : String) (o : Option String) (f : String → Option AccessTokenPayload)
    → ((x : String) → HasSub sub (f x))
    → HasSub sub (with_claim o f)
unfolding with_claim HasSub
with_claim-HasSub sub none f h = tt
with_claim-HasSub sub (some x) f h = h x

known-HasSub :
    (sub id : String) (f : String → Option AccessTokenPayload)
    → HasSub sub (f id)
    → HasSub sub (with_claim (some id) f)
unfolding with_claim
known-HasSub sub id f h = h

some-HasSub : (p : AccessTokenPayload) → HasSub p.sub (some p)
unfolding HasSub
some-HasSub p = refl

build-HasSub : (a : Account) → HasSub (to_text a.id) (build_access_token_payload a)
unfolding build_access_token_payload
build-HasSub a = rw (require_id a.id) (
    known-HasSub _ _ _ (
      with_claim-HasSub _ _ _ λ login_id.
        with_claim-HasSub _ _ _ λ name. with_claim-HasSub _ _ _ λ user_type. some-HasSub _))

payload_sub :
    (a : Account) (p : AccessTokenPayload)
    → build_access_token_payload a ≡ some p
    → p.sub ≡ to_text a.id
unfolding HasSub
payload_sub a p h = rw h at (build-HasSub a)

refresh_token_of : Result AuthTokens → String
refresh_token_of (ok tokens) = tokens.refresh_token
refresh_token_of (thrown e) = ""

is_ok : Result AuthTokens → Bool
is_ok (ok tokens) = true
is_ok (thrown e) = false

issue_for_refresh :
    (env : Env) (p : AccessTokenPayload) (s t : Store) (tokens : AuthTokens)
    → issue_for env p s ≡ (ok tokens, t)
    → tokens.refresh_token
      ≡ (sign_refresh_token env.jwt env.now (suc s.uuid_draws) p.sub p.user_type).0
unfolding issue_for is_ok refresh_token_of
issue_for_refresh env p s t tokens =
    let access = sign_access_token env.jwt env.now s.uuid_draws p in
    let refresh = sign_refresh_token env.jwt env.now (suc s.uuid_draws) p.sub p.user_type in
    if_elim
      (λ (r : Result AuthTokens × Store). r ≡ (ok tokens, t) → tokens.refresh_token ≡ refresh.0)
      (not (truthy (trim access.1)) || not (truthy (trim refresh.1)))
      (λ _ h. absurd (ground (arith, ap (λ z. is_ok z.0) h)))
      (λ _ h. sym (ap (λ z. refresh_token_of z.0) h))

-- The refresh token that is issued for an account, where it verifies until it expires, is taken for
-- its four hours, also after changes of the store: it is answered as tokens issued for the row that
-- the account has then.
pub refresh_issued :
    (env : Env) (now : ℕ) (a b : Account) (s t u : Store) (tokens : AuthTokens)
    → ((user_type : String)
        → IsVerified env.jwt (
            refresh_claims env.jwt env.now
              (to_text a.id)
              user_type
              (env.jwt.random_uuid (suc s.uuid_draws))))
    → issue_tokens env a s ≡ (ok tokens, t)
    → find_by_id a.id u.accounts ≡ some b
    → seconds now < seconds env.now + refresh_token_expiry_seconds
    → refresh_tokens (later now env) tokens.refresh_token u ≡ issue_tokens (later now env) b u
unfolding issue_tokens verify_token sign_refresh_token
refresh_issued env now a b s t u tokens jwt issued row alive =
    elim (Option-cases (build_access_token_payload a)) [
      | inl e ↦ absurd (ground (arith, rw (e, issue_tokens) at issued))
      | inr (p, e) ↦
          let jti = env.jwt.random_uuid (suc s.uuid_draws) in
          let c = refresh_claims env.jwt env.now (to_text a.id) p.user_type jti in
          let own = payload_sub a p e in
          let token = issue_for_refresh env p s t tokens (rw (e, issue_tokens) at issued) in
          rw (token, own)
            (refresh_signed (later now env) (env.jwt.sign c) c a.id u b
              (signed env now c (jwt p.user_type) refl alive) refl row)
    ]

-- A token for the second factor, where it verifies until it expires, is taken as a refresh token for
-- its five minutes: it is answered as tokens issued for its account, and no code is asked for.
pub refresh_two_factor :
    (env : Env) (now : ℕ) (a b : Account) (user_type : String) (s : Store)
    → IsVerified env.jwt (two_factor_claims env.jwt env.now (to_text a.id) user_type)
    → find_by_id a.id s.accounts ≡ some b
    → seconds now < seconds env.now + two_factor_token_expiry_seconds
    → refresh_tokens
        (later now env)
        (sign_two_factor_token env.jwt env.now (to_text a.id) user_type)
        s
      ≡ issue_tokens (later now env) b s
unfolding sign_two_factor_token verify_token
refresh_two_factor env now a b user_type s jwt row alive =
    let c = two_factor_claims env.jwt env.now (to_text a.id) user_type in
    refresh_signed (later now env) (env.jwt.sign c) c a.id s b (signed env now c jwt refl alive)
      refl row
