-- ===== src/Auth/Sessions/SecondFactor.antt =====
-- What `verifyTwoFactor` demands, and that the kinds of tokens are kept apart where it is checked.
use nestjs_graphql_fastify_a.Common.{
  ℕ, String, Bool, true, false, ◌&&◌, ◌||◌, not, some, [], ◌∷◌, ◌++◌, string_eq, or_default,
  is_some, ◌≡◌, refl, sym, ap, ◌∙◌, arith, Bool-cases, Option-cases, inl, inr, eq_iff,
}
use nestjs_graphql_fastify_a.Common.Text.{truthy?}
use nestjs_graphql_fastify_a.Auth.Accounts.{Account}
use nestjs_graphql_fastify_a.Auth.Errors.{Result, ok, thrown}
use nestjs_graphql_fastify_a.Auth.History.{LoginRequestMeta, Store, success_row, record_success}
use nestjs_graphql_fastify_a.Auth.Tokens.{
  Jwt, Claims, seconds, jwt_issuer, verify_token, verify_two_factor_token,
  verify_password_change_token, of_type,
}
use nestjs_graphql_fastify_a.Auth.Service.{Env, AuthTokens, issue_tokens, record_issued}
use nestjs_graphql_fastify_a.Auth.Service.Effects.{accounts-issue_tokens}
use nestjs_graphql_fastify_a.Auth.Sessions.{account_of, verify_two_factor, verify_code, untyped}

module _ (jwt : Jwt) (now : ℕ) (token : String) where
  -- No token is accepted for two of the three purposes: as second factor, to change an expired
  -- password, and as access token to change a password.
  pub token_purposes :
      let two_factor = is_some (verify_two_factor_token jwt now token) in
      let password_change = is_some (verify_password_change_token jwt now token) in
      let access = is_some (untyped (verify_token jwt now token)) in
      ((two_factor && password_change) ≡ false)
      × ((two_factor && access) ≡ false)
      × ((password_change && access) ≡ false)
  unfolding verify_two_factor_token verify_password_change_token verify_token of_type untyped
  token_purposes = elim (Option-cases (jwt.verify (seconds now) jwt_issuer token)) [
    | inl e ↦ rw e (refl, refl, refl)
    | inr (c, e) ↦ rw e (elim (Option-cases c.type) [
      | inl f ↦ rw f (refl, refl, refl)
      | inr (type, f) ↦ rw f (
          ground (
            arith,
            eq_iff type "2fa",
            eq_iff type "password_change",
            eq_iff type "",
            eq_iff "2fa" "password_change",
            eq_iff "2fa" "",
            eq_iff "password_change" "",
          ))
    ])
  ]

-- What the code and the store must be for a second factor to be accepted.
pub record IsSecondFactor (env : Env) (token code : String) (s : Store) (c : Claims) (a : Account)
    : Type 0 where
  pub verified : verify_two_factor_token env.jwt env.now token ≡ some c
  pub subject : account_of c.sub s ≡ some a
  pub secret : truthy? a.otp_secret_key ≡ true
  pub code_right :
      (not env.is_production || env.verify_totp code (or_default a.otp_secret_key "")) ≡ true

is_ok : Result AuthTokens × Store → Bool
is_ok (ok tokens, s) = true
is_ok (thrown e, s) = false

record_issued_history :
    (env : Env) (a : Account) (meta : LoginRequestMeta) (x : Result AuthTokens × Store)
    (tokens : AuthTokens) (t : Store)
    → record_issued env a meta x ≡ (ok tokens, t)
    → t.login_history ≡ x.1.login_history ++ success_row env.now a meta ∷ []
unfolding record_issued record_success is_ok
record_issued_history env a meta (thrown e, s) tokens t h = absurd (ground (arith, ap is_ok h))
record_issued_history env a meta (ok given, s) tokens t h = ap (λ z. z.1.login_history) (sym h)

-- A second factor that succeeds had a verified token of its own type for an account with a secret,
-- and in production a code that the secret verifies; one success is recorded, for this account.
pub verify_two_factor_ok :
    (env : Env) (token code : String) (meta : LoginRequestMeta) (s t : Store) (tokens : AuthTokens)
    → verify_two_factor env token code meta s ≡ (ok tokens, t)
    → (c : Claims) × (a : Account) × IsSecondFactor env token code s c a
      × (t.login_history ≡ s.login_history ++ success_row env.now a meta ∷ [])
unfolding verify_two_factor verify_code is_ok
verify_two_factor_ok env token code meta s t tokens h =
    elim (Option-cases (verify_two_factor_token env.jwt env.now token)) [
      | inl e ↦ absurd (ground (arith, ap is_ok (rw (e, verify_two_factor) at h)))
      | inr (c, e) ↦ elim (Option-cases (account_of c.sub s)) [
        | inl f ↦ absurd (ground (arith, ap is_ok (rw f at (rw (e, verify_two_factor) at h))))
        | inr (a, f) ↦
            let g = rw f at (rw (e, verify_two_factor) at h) in
            elim (Bool-cases (truthy? a.otp_secret_key)) [
              | inr missing ↦ absurd (ground (arith, ap is_ok (rw missing at g)))
              | inl has ↦
                  let g' = rw has at g in
                  let refused =
                    env.is_production
                    && not (env.verify_totp code (or_default a.otp_secret_key "")) in
                  elim (Bool-cases refused) [
                    | inl bad ↦ absurd (ground (arith, ap is_ok (rw bad at g')))
                    | inr good ↦ (
                      c,
                      a,
                      record {
                        verified = e;
                        subject = f;
                        secret = has;
                        code_right = ground (arith, good);
                      },
                      record_issued_history env a meta (issue_tokens env a s) tokens t
                            (rw good at g')
                          ∙ rw (accounts-issue_tokens env a s).1 refl,
                    )
                  ]
            ]
      ]
    ]
