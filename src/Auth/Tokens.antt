-- ===== src/Auth/Tokens.antt =====
-- apps/auth/src/auth/jwt.service.ts: the four kinds of tokens and their verification.
use nestjs_graphql_fastify_a.Common.{
  ℕ, ◌+◌, ◌/◌, ◌≡◌, String, ◌&&◌, Option, none, some, ltb, if◌then◌else◌, ◌==◌, string_eq,
}

-- The claims of a token; a time is in seconds since the epoch.
pub record Claims : Type 0 where
  pub sub : String
  pub type : Option String
  pub login_id : Option String
  pub name : Option String
  pub user_type : Option String
  pub role_type : Option String
  pub customer_no : Option String
  pub jti : Option String
  pub iss : String
  pub iat : ℕ
  pub exp : ℕ

-- `AccessTokenPayload`
pub record AccessTokenPayload : Type 0 where
  pub sub : String
  pub login_id : String
  pub name : String
  pub user_type : String
  pub role_type : Option String
  pub customer_no : String

-- The library's signature with the private key, and its verification with the public key, at a
-- time and for an issuer; the generator of unique ids, by the number of draws before.
pub record Jwt : Type 0 where
  pub sign : Claims → String
  pub verify : (now : ℕ) (issuer token : String) → Option Claims
  pub random_uuid : ℕ → String

-- What RFC 7519 and `jose` document of one token: signed with the private key, it verifies as its
-- claims for its issuer and until it expires.
pub record IsVerified (jwt : Jwt) (c : Claims) : Type 0 where
  pub verifies :
      (now : ℕ) (issuer : String)
      → jwt.verify now issuer (jwt.sign c)
        ≡ (if c.iss == issuer && ltb now c.exp then some c else none)

-- `AUTH_CONSTANTS`, the times in seconds
abbrev pub access_token_expiry_seconds : ℕ
access_token_expiry_seconds = 3600

abbrev pub refresh_token_expiry_seconds : ℕ
refresh_token_expiry_seconds = 14400

abbrev pub two_factor_token_expiry_seconds : ℕ
two_factor_token_expiry_seconds = 300

abbrev pub jwt_issuer : String
jwt_issuer = "auth-server"

-- The clock `now` is in milliseconds.
abbrev pub seconds : ℕ → ℕ
seconds now = now / 1000

module _ (jwt : Jwt) (now : ℕ) where
  abbrev pub access_claims : AccessTokenPayload → (jti : String) → Claims
  access_claims p jti = record {
    sub = p.sub;
    type = none;
    login_id = some p.login_id;
    name = some p.name;
    user_type = some p.user_type;
    role_type = p.role_type;
    customer_no = some p.customer_no;
    jti = some jti;
    iss = jwt_issuer;
    iat = seconds now;
    exp = seconds now + access_token_expiry_seconds;
  }

  -- The claims that the other tokens have in common.
  abbrev pub short_claims :
      (sub : String) (type jti : Option String) (user_type : String) (expiry : ℕ) → Claims
  short_claims sub type jti user_type expiry = record {
    sub = sub;
    type = type;
    login_id = none;
    name = none;
    user_type = some user_type;
    role_type = none;
    customer_no = none;
    jti = jti;
    iss = jwt_issuer;
    iat = seconds now;
    exp = seconds now + expiry;
  }

  abbrev pub refresh_claims : (sub user_type jti : String) → Claims
  refresh_claims sub user_type jti =
      short_claims sub none (some jti) user_type refresh_token_expiry_seconds

  abbrev pub two_factor_claims : (sub user_type : String) → Claims
  two_factor_claims sub user_type =
      short_claims sub (some "2fa") none user_type two_factor_token_expiry_seconds

  -- A token with its id.
  unfoldable pub sign_access_token : (draws : ℕ) → AccessTokenPayload → String × String
  sign_access_token draws p =
      let jti = jwt.random_uuid draws in (jwt.sign (access_claims p jti), jti)

  unfoldable pub sign_refresh_token : (draws : ℕ) (sub user_type : String) → String × String
  sign_refresh_token draws sub user_type =
      let jti = jwt.random_uuid draws in (jwt.sign (refresh_claims sub user_type jti), jti)

  unfoldable pub sign_two_factor_token : (sub user_type : String) → String
  sign_two_factor_token sub user_type = jwt.sign (two_factor_claims sub user_type)

  unfoldable pub sign_password_change_token : (sub user_type : String) → String
  sign_password_change_token sub user_type =
      jwt.sign
        (short_claims sub (some "password_change") none user_type two_factor_token_expiry_seconds)

  -- `none` is the error that the verification throws.
  unfoldable pub verify_token : String → Option Claims
  verify_token token = jwt.verify (seconds now) jwt_issuer token

  -- `type !== '...'` throws.
  unfoldable pub of_type : String → Option Claims → Option Claims
  of_type type none = none
  of_type type (some c) = elim c.type [ none ↦ none | some t ↦ if t == type then some c else none ]

  unfoldable pub verify_two_factor_token : String → Option Claims
  unfolding of_type
  verify_two_factor_token token = of_type "2fa" (jwt.verify (seconds now) jwt_issuer token)

  unfoldable pub verify_password_change_token : String → Option Claims
  unfolding of_type
  verify_password_change_token token =
      of_type "password_change" (jwt.verify (seconds now) jwt_issuer token)
