-- ===== src/Auth/Service.antt =====
-- apps/auth/src/auth/auth.service.ts: `login`, and how tokens are issued and logins recorded. A
-- method takes the environment of its request and the store, and gives its result, or what it
-- throws, and the store that it leaves.
pub mod Effects
pub mod Soundness
pub mod Isolation
pub mod Branches
pub mod Lockout
use nestjs_graphql_fastify_a.Common.{
  ℕ, suc, ◌+◌, ◌-◌, ◌/◌, String, Bool, true, false, not, ◌&&◌, ◌||◌, Option, none, some, List,
  if◌then◌else◌, ◌==◌, nat_eq, string_eq, or_default, is_some, leb,
}
use nestjs_graphql_fastify_a.Common.Text.{to_text, number, trim, truthy, truthy?}
use nestjs_graphql_fastify_a.Auth.AccountStatus
use nestjs_graphql_fastify_a.Auth.Accounts.{
  Account, two_factor_required, find_by_login_id_and_user_type, find_by_id, increment_fail_count,
  lock_account, reset_fail_count, update_otp_secret_key, update_password,
}
use nestjs_graphql_fastify_a.Auth.Errors.{
  AuthError, AuthErrorException, Result, ok, thrown, throw_auth_error, account_pending,
  account_inactive, account_deleted, password_expired, account_locked, invalid_credentials,
  invalid_otp, token_expired, invalid_token_claims,
}
use nestjs_graphql_fastify_a.Auth.History.{LoginRequestMeta, Store, record_success, record_failure}
use nestjs_graphql_fastify_a.Auth.Tokens.{
  Jwt, Claims, AccessTokenPayload, access_token_expiry_seconds, sign_access_token,
  sign_refresh_token, sign_two_factor_token, sign_password_change_token, verify_token,
  verify_two_factor_token, verify_password_change_token,
}
use nestjs_graphql_fastify_a.Auth.Claims.{
  verify_password, hash_password, normalize_totp_account_name, build_access_token_payload,
}

-- The libraries that a request calls, its time in milliseconds, the mode of the process, and the
-- collation by which the database compares user types.
pub record Env : Type 0 where
  pub jwt : Jwt
  pub now : ℕ
  pub is_production : Bool
  pub compare : String → String → Bool
  pub hash_sync : String → String
  pub generate_secret : String
  pub keyuri : (account issuer secret : String) → String
  pub verify_totp : (code secret : String) → Bool
  pub collation : String → String → Bool

pub record AuthTokens : Type 0 where
  pub access_token : String
  pub refresh_token : String
  pub expires_in : ℕ

-- `AuthResponse`: the tokens, or the token for the second factor and the url to register it.
pub data AuthResponse : Type 0 where
  logged_in : AuthTokens → AuthResponse
  requires_two_factor : (two_factor_token : String) (t_otp_url : Option String) → AuthResponse

-- `AUTH_CONSTANTS`
abbrev pub max_fail_count : ℕ
max_fail_count = 5

abbrev pub password_expiry_days : ℕ
password_expiry_days = 90

abbrev pub milliseconds_per_day : ℕ
milliseconds_per_day = 86400000

-- `status === text`
abbrev pub has_status : Account → String → Bool
has_status account text = elim account.status [ none ↦ false | some s ↦ s == text ]

-- `account.failCount ?? 0`
abbrev pub fails_of : Account → ℕ
fails_of account = or_default account.fail_count 0

unfoldable pub is_locked : Account → Bool
is_locked account = has_status account AccountStatus.locked || leb max_fail_count (fails_of account)

-- `validateAccountStatus(status)`: the error that it throws, if any. The rows hold no status that is
-- named like a member of `Object.prototype`, which the look-up in the source would find too.
unfoldable pub status_error : Option String → Option AuthError
status_error none = none
status_error (some status) =
    if status == AccountStatus.pending
    then some account_pending
    else if status == AccountStatus.in_active
    then some account_inactive
    else if status == AccountStatus.deleted
    then some account_deleted
    else if status == AccountStatus.locked
    then some account_locked
    else none

-- A change in the future gives a negative number of days in the source and 0 here.
unfoldable pub is_password_expired : ℕ → Option ℕ → Bool
is_password_expired now none = false
is_password_expired now (some changed_at) =
    leb password_expiry_days ((now - changed_at) / milliseconds_per_day)

-- `handleFailedLogin` and `handleLockedLogin`
unfoldable pub handle_failed_login : Env → Account → LoginRequestMeta → ℕ → Store → Store
handle_failed_login env account meta new_fail_count s =
    let locks = leb max_fail_count new_fail_count in
    let counted = increment_fail_count account.id s.accounts in
    record_failure env.now account meta new_fail_count
      (if locks then some AccountStatus.locked else account.status)
      (record s { accounts = if locks then lock_account account.id counted else counted })

unfoldable pub handle_locked_login : Env → Account → LoginRequestMeta → Store → Store
handle_locked_login env account meta s =
    record_failure env.now account meta (or_default account.fail_count max_fail_count)
      (some AccountStatus.locked)
      (record s {
        accounts =
            if has_status account AccountStatus.locked
            then s.accounts
            else lock_account account.id s.accounts;
      })

-- `issueTokens(account)`
unfoldable pub issue_for : Env → AccessTokenPayload → Store → Result AuthTokens × Store
issue_for env p s =
    let access = sign_access_token env.jwt env.now s.uuid_draws p in
    let refresh = sign_refresh_token env.jwt env.now (suc s.uuid_draws) p.sub p.user_type in
    let t : Store = record s { uuid_draws = suc (suc s.uuid_draws) } in
    if not (truthy (trim access.1)) || not (truthy (trim refresh.1))
    then (throw_auth_error invalid_token_claims, t)
    else (
      ok (record {
        access_token = access.0;
        refresh_token = refresh.0;
        expires_in = access_token_expiry_seconds;
      }),
      t,
    )

unfoldable pub issue_tokens : Env → Account → Store → Result AuthTokens × Store
issue_tokens env account s = elim (build_access_token_payload account) [
  | none ↦ (throw_auth_error invalid_token_claims, s)
  | some payload ↦ issue_for env payload s
]

-- A login is recorded once its tokens are issued.
unfoldable pub record_issued :
    Env → Account → LoginRequestMeta → Result AuthTokens × Store → Result AuthTokens × Store
record_issued env account meta (thrown e, s) = (thrown e, s)
record_issued env account meta (ok tokens, s) = (ok tokens, record_success env.now account meta s)

-- `createTotpRegistrationUrlIfRequired(account)`
unfoldable pub create_totp_registration_url_if_required :
    Env → Account → Store → Result (Option String) × Store
create_totp_registration_url_if_required env account s =
    if is_some account.otp_secret_key && is_some account.last_login_at
    then (ok none, s)
    else let secret = env.generate_secret in
      let t : Store = record s { accounts = update_otp_secret_key account.id secret s.accounts } in
      elim (normalize_totp_account_name account) [
        | none ↦ (throw_auth_error invalid_token_claims, t)
        | some name ↦ (ok (some (env.keyuri name "MX_ADMIN" secret)), t)
      ]

unfoldable pub with_url : String → Result (Option String) × Store → Result AuthResponse × Store
with_url token (thrown e, s) = (thrown e, s)
with_url token (ok url, s) = (ok (requires_two_factor token url), s)

unfoldable pub start_two_factor : Env → Account → String → Store → Result AuthResponse × Store
start_two_factor env account user_type s =
    let t : Store = record s { accounts = reset_fail_count account.id s.accounts } in
    with_url (sign_two_factor_token env.jwt env.now (to_text account.id) user_type)
      (create_totp_registration_url_if_required env account t)

unfoldable pub with_tokens : Result AuthTokens × Store → Result AuthResponse × Store
with_tokens (thrown e, s) = (thrown e, s)
with_tokens (ok tokens, s) = (ok (logged_in tokens), s)

-- `login` behind the check of the password
unfoldable pub login_verified :
    Env → Account → String → LoginRequestMeta → Store → Result AuthResponse × Store
login_verified env account user_type meta s =
    if is_password_expired env.now account.last_password_changed_at
    then (
      thrown (record {
        error = password_expired;
        password_change_token =
            some
              (sign_password_change_token env.jwt env.now (to_text account.id) account.user_type);
      }),
      s,
    )
    else if two_factor_required user_type
    then start_two_factor env account user_type s
    else with_tokens (record_issued env account meta (issue_tokens env account s))

-- `login` for the account found
unfoldable pub login_account :
    Env
    → Account
    → (password user_type : String) → LoginRequestMeta
    → Store
    → Result AuthResponse × Store
login_account env account password user_type meta s =
    if is_locked account
    then (throw_auth_error account_locked, handle_locked_login env account meta s)
    else elim (status_error account.status) [
      | some key ↦ (throw_auth_error key, s)
      | none ↦
          if verify_password env.compare password account.password
          then login_verified env account user_type meta s
          else (
            throw_auth_error invalid_credentials,
            handle_failed_login env account meta (fails_of account + 1) s,
          )
    ]

unfoldable pub login :
    Env
    → (login_id password user_type : String) → LoginRequestMeta
    → Store
    → Result AuthResponse × Store
login env login_id password user_type meta s =
    elim (find_by_login_id_and_user_type env.collation login_id user_type s.accounts) [
      | none ↦ (throw_auth_error invalid_credentials, s)
      | some account ↦ login_account env account password user_type meta s
    ]
