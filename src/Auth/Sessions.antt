-- ===== src/Auth/Sessions.antt =====
-- apps/auth/src/auth/auth.service.ts: the methods that take a token: the second factor, the refresh
-- of tokens and the change of a password.
pub mod Passwords
pub mod SecondFactor
pub mod Tokens
use nestjs_graphql_fastify_a.Common.{
  ℕ, String, Bool, true, false, not, ◌&&◌, Option, none, some, if◌then◌else◌, or_default,
}
use nestjs_graphql_fastify_a.Common.Text.{number, truthy?}
use nestjs_graphql_fastify_a.Auth.Accounts.{Account, find_by_id, update_password}
use nestjs_graphql_fastify_a.Auth.Errors.{
  Result, ok, thrown, throw_auth_error, invalid_credentials, invalid_otp, token_expired,
}
use nestjs_graphql_fastify_a.Auth.History.{LoginRequestMeta, Store}
use nestjs_graphql_fastify_a.Auth.Tokens.{
  Claims, verify_token, verify_two_factor_token, verify_password_change_token,
}
use nestjs_graphql_fastify_a.Auth.Claims.{verify_password, hash_password}
use nestjs_graphql_fastify_a.Auth.Service.{Env, AuthTokens, issue_tokens, record_issued}

-- `findById(Number(sub))`: no row has the id NaN.
unfoldable pub account_of : String → Store → Option Account
account_of sub s = elim (number sub) [ none ↦ none | some id ↦ find_by_id id s.accounts ]

-- `verifyTwoFactor` for the account found
unfoldable pub verify_code :
    Env → Account → (code : String) → LoginRequestMeta → Store → Result AuthTokens × Store
verify_code env account code meta s =
    if not (truthy? account.otp_secret_key)
    then (throw_auth_error invalid_credentials, s)
    else if env.is_production && not (env.verify_totp code (or_default account.otp_secret_key ""))
    then (throw_auth_error invalid_otp, s)
    else record_issued env account meta (issue_tokens env account s)

unfoldable pub verify_two_factor :
    Env
    → (two_factor_token totp_code : String) → LoginRequestMeta
    → Store
    → Result AuthTokens × Store
verify_two_factor env token code meta s = elim (verify_two_factor_token env.jwt env.now token) [
  | none ↦ (throw_auth_error token_expired, s)
  | some claims ↦ elim (account_of claims.sub s) [
    | none ↦ (throw_auth_error invalid_credentials, s)
    | some account ↦ verify_code env account code meta s
  ]
]

unfoldable pub refresh_tokens : Env → (refresh_token : String) → Store → Result AuthTokens × Store
refresh_tokens env token s = elim (verify_token env.jwt env.now token) [
  | none ↦ (throw_auth_error token_expired, s)
  | some claims ↦ elim (account_of claims.sub s) [
    | none ↦ (throw_auth_error invalid_credentials, s)
    | some account ↦ issue_tokens env account s
  ]
]

-- `ChangePasswordCredential`
pub record ChangePasswordCredential : Type 0 where
  pub access_token : Option String
  pub password_change_token : Option String

-- A token with a type is no access token.
unfoldable pub untyped : Option Claims → Option Claims
untyped none = none
untyped (some claims) = if truthy? claims.type then none else some claims

-- `resolveChangePasswordAccountId(credential)`, as the claims whose subject is the account; `none`
-- throws TOKEN_EXPIRED.
unfoldable pub resolve_change_password_account_id : Env → ChangePasswordCredential → Option Claims
unfolding untyped
resolve_change_password_account_id env credential =
    if truthy? credential.password_change_token
    then verify_password_change_token env.jwt env.now
        (or_default credential.password_change_token "")
    else if truthy? credential.access_token
    then untyped (verify_token env.jwt env.now (or_default credential.access_token ""))
    else none

-- `changePassword` for the account found
unfoldable pub change_password_of :
    Env → Account → (current_password new_password : String) → Store → Result Bool × Store
change_password_of env account current new s =
    if verify_password env.compare current account.password
    then (
      ok true,
      record s {
        accounts = update_password env.now account.id (hash_password env.hash_sync new) s.accounts;
      },
    )
    else (throw_auth_error invalid_credentials, s)

-- The value is the answer's `success`.
unfoldable pub change_password :
    Env
    → ChangePasswordCredential
    → (current_password new_password : String) → Store
    → Result Bool × Store
change_password env credential current new s =
    elim (resolve_change_password_account_id env credential) [
      | none ↦ (throw_auth_error token_expired, s)
      | some claims ↦ elim (account_of claims.sub s) [
        | none ↦ (throw_auth_error invalid_credentials, s)
        | some account ↦ change_password_of env account current new s
      ]
    ]
