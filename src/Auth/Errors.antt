-- ===== src/Auth/Errors.antt =====
-- apps/auth/src/auth/constants/auth-error.ts and apps/auth/src/auth/filters/auth-error.filter.ts:
-- what a service throws and what a client is answered.
use nestjs_graphql_fastify_a.Common.{ℕ, String, Option, none}

-- `AuthErrorKey`
pub data AuthError : Type 0 where
  account_pending account_inactive account_deleted password_expired account_locked : AuthError
  invalid_credentials invalid_otp token_expired invalid_token_claims : AuthError

-- `AUTH_ERROR[key].code`
unfoldable pub code_of : AuthError → String
code_of account_pending = "11001"
code_of account_inactive = "11002"
code_of account_deleted = "11003"
code_of password_expired = "11004"
code_of account_locked = "11005"
code_of invalid_credentials = "11010"
code_of invalid_otp = "11011"
code_of token_expired = "11012"
code_of invalid_token_claims = "11013"

-- `AUTH_ERROR[key].status`
unfoldable pub http_status_of : AuthError → ℕ
http_status_of account_pending = 400
http_status_of account_inactive = 400
http_status_of account_deleted = 401
http_status_of password_expired = 400
http_status_of account_locked = 403
http_status_of invalid_credentials = 401
http_status_of invalid_otp = 401
http_status_of token_expired = 401
http_status_of invalid_token_claims = 500

-- `AuthErrorException`: the error, and the token to change the password with, which only an
-- expired password has.
pub record AuthErrorException : Type 0 where
  pub error : AuthError
  pub password_change_token : Option String

-- The result of a service's method: a value, or what it throws.
pub data Result {ℓ} (A : Type ℓ) : Type ℓ where
  ok : A → Result A
  thrown : AuthErrorException → Result A

-- `throwAuthError(key)`
abbrev pub throw_auth_error {ℓ} : {A : Type ℓ} → AuthError → Result A
throw_auth_error key = thrown (record { error = key; password_change_token = none })
