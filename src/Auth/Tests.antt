-- ===== src/Auth/Tests.antt =====
-- The theorems on the accounts and their tokens at concrete accounts.
use nestjs_graphql_fastify_a.Common.{
  ℕ, ◌+◌, min, String, true, false, ◌&&◌, none, some, [], ◌∷◌, ◌++◌, length, if◌then◌else◌, ◌==◌,
  nat_eq, string_eq, is_some, leb, ltb, ◌≡◌, refl, arith, eq_refl,
}
use nestjs_graphql_fastify_a.Common.Text.{to_text, trim, number}
use nestjs_graphql_fastify_a.Auth.AccountStatus
use nestjs_graphql_fastify_a.Auth.Accounts.{
  Account, find_by_login_id_and_user_type, find_by_id, with_password, two_factor_required,
  update_password, update_where,
}
use nestjs_graphql_fastify_a.Auth.Accounts.Frame.{DistinctIds}
use nestjs_graphql_fastify_a.Auth.Errors.{ok, token_expired}
use nestjs_graphql_fastify_a.Auth.History.{LoginRequestMeta, Store, record_success, success_row}
use nestjs_graphql_fastify_a.Auth.Tokens.{
  Jwt, Claims, refresh_claims, two_factor_claims, sign_two_factor_token, verify_two_factor_token,
  verify_password_change_token, verify_token, sign_access_token, sign_refresh_token, of_type,
}
use nestjs_graphql_fastify_a.Auth.Claims.{
  verify_password, hash_password, behind, prepend, build_access_token_payload, with_claim,
  require_non_blank,
}
use nestjs_graphql_fastify_a.Auth.Service.{
  Env, AuthTokens, logged_in, max_fail_count, is_locked, status_error, is_password_expired,
  issue_tokens, issue_for, record_issued, with_tokens, login, login_account, login_verified,
}
use nestjs_graphql_fastify_a.Auth.Service.Isolation.{login_keeps_lock}
use nestjs_graphql_fastify_a.Auth.Service.Lockout.{Attempt, attempts, IsCounting, IsWrong, lockout}
use nestjs_graphql_fastify_a.Auth.Service.Soundness.{IsAdmitted, is_two_factor, recorded, login_ok}
use nestjs_graphql_fastify_a.Auth.Sessions.{
  ChangePasswordCredential, account_of, change_password, change_password_of,
  resolve_change_password_account_id, refresh_tokens, verify_two_factor, verify_code, untyped,
}
use nestjs_graphql_fastify_a.Auth.Sessions.Passwords.{
  IsHash, IsChanged, change_password_ok, change_password_thrown,
}
use nestjs_graphql_fastify_a.Auth.Sessions.SecondFactor.{
  IsSecondFactor, token_purposes, verify_two_factor_ok,
}
use nestjs_graphql_fastify_a.Auth.Sessions.Tokens.{later, refresh_issued, refresh_two_factor}

-- A signature whose text is the type of user, and a verification that knows one kind of token.
abbrev jwt_of : (String → Claims) → Jwt
jwt_of claims = record {
  sign = λ c. elim c.user_type [ none ↦ "" | some u ↦ u ];
  verify = λ now issuer token.
      let c = claims token in if c.iss == issuer && ltb now c.exp then some c else none;
  random_uuid = λ n. "uuid";
}

-- The claims do not depend on the libraries.
abbrev any_jwt : Jwt
any_jwt = record { sign = λ c. ""; verify = λ now issuer token. none; random_uuid = λ n. "uuid" }

abbrev refresh_of : String → Claims
refresh_of u = refresh_claims any_jwt 1000 "7" u "uuid"

abbrev two_factor_of : String → Claims
two_factor_of u = two_factor_claims any_jwt 1000 "7" u

abbrev env_of : (String → Claims) → Env
env_of claims = record {
  jwt = jwt_of claims;
  now = 1000;
  is_production = true;
  compare = λ plain hash. plain == hash;
  hash_sync = λ plain. plain;
  generate_secret = "secret";
  keyuri = λ account issuer secret. account;
  verify_totp = λ code secret. code == "123456";
  collation = λ a b. a == b;
}

abbrev meta : LoginRequestMeta
meta = record { client_ip = " 1.2.3.4 "; access_channel = none }

abbrev account : ℕ → Account
account id = record {
  id = id;
  fail_count = some 4;
  last_login_at = none;
  login_id = "ann";
  name = some "Ann";
  user_type = "DASHBOARD";
  password = some "{bcrypt}right";
  status = some AccountStatus.active;
  otp_secret_key = some "S";
  customer_no = none;
  last_password_changed_at = some 500;
  role_type = some " ADMIN ";
}

abbrev other_account : Account
other_account = record (account 8) { login_id = "bob"; status = some AccountStatus.locked }

abbrev store : Store
store = record { accounts = account 7 ∷ other_account ∷ []; login_history = []; uuid_draws = 0 }

abbrev env : Env
env = env_of refresh_of

abbrev wrong : Attempt
wrong = record { env = env; password = "wrong"; meta = meta }

account-IsCounting : IsCounting (some "{bcrypt}right") 4 (account 7)
unfolding status_error
account-IsCounting = record {
  counted = refl;
  below = omega arith;
  locked = refl;
  plain = λ h. refl;
  same_password = refl;
}

wrong-IsWrong : IsWrong "ann" "DASHBOARD" (some "{bcrypt}right") store (account 7) wrong
unfolding find_by_login_id_and_user_type verify_password behind
wrong-IsWrong = record { found = refl; wrong = refl }

lockout_example :
    (b : Account) × (find_by_id 7 (attempts "ann" "DASHBOARD" (wrong ∷ []) store).accounts ≡ some b)
    × (b.fail_count ≡ some (min (4 + length (wrong ∷ [])) max_fail_count))
    × (is_locked b ≡ leb max_fail_count (4 + length (wrong ∷ [])))
unfolding find_by_id
lockout_example =
    lockout "ann" "DASHBOARD" (some "{bcrypt}right") (wrong ∷ []) store 4 7 (account 7)
      account-IsCounting refl (wrong-IsWrong, tt)

login_keeps_lock_example :
    (b : Account) × (find_by_id 8 (login env "bob" "right" "DASHBOARD" meta store).1.accounts
      ≡ some b)
    × (is_locked b ≡ true)
unfolding find_by_id DistinctIds is_locked
login_keeps_lock_example =
    login_keeps_lock env "bob" "right" "DASHBOARD" meta store other_account 8 (refl, (refl, tt))
      refl refl

abbrev tokens : AuthTokens
tokens = record { access_token = "DASHBOARD"; refresh_token = "DASHBOARD"; expires_in = 3600 }

abbrev drawn : Store
drawn = record store { uuid_draws = 2 }

account_issued : issue_tokens env (account 7) store ≡ (ok tokens, drawn)
unfolding issue_tokens issue_for build_access_token_payload with_claim require_non_blank trim
    to_text sign_access_token sign_refresh_token
account_issued = refl

abbrev recorded_store : Store
recorded_store = record_success 1000 (account 7) meta drawn

login_ok_example :
    (a : Account) × (find_by_login_id_and_user_type env.collation "ann" "DASHBOARD" store.accounts
      ≡ some a)
    × IsAdmitted env "right" a
    × (is_two_factor (logged_in tokens) ≡ two_factor_required "DASHBOARD")
    × (recorded_store.login_history ≡ store.login_history ++ recorded env a "DASHBOARD" meta)
unfolding login login_account login_verified is_locked status_error verify_password behind
    is_password_expired find_by_login_id_and_user_type with_tokens record_issued issue_tokens
    issue_for build_access_token_payload with_claim require_non_blank trim to_text sign_access_token
    sign_refresh_token
login_ok_example =
    login_ok env "ann" "right" "DASHBOARD" meta store (logged_in tokens) recorded_store refl

-- The tokens that the account is given.
refresh_issued_example :
    refresh_tokens (later 2000 env) "DASHBOARD" drawn
    ≡ issue_tokens (later 2000 env) (account 7) drawn
unfolding find_by_id to_text
refresh_issued_example =
    refresh_issued env 2000 (account 7) (account 7) store drawn drawn tokens
      (λ user_type. record { verifies = λ now issuer. refl }) account_issued refl (omega arith)

abbrev two_factor_env : Env
two_factor_env = env_of two_factor_of

refresh_two_factor_example :
    refresh_tokens
      (later 2000 two_factor_env)
      (sign_two_factor_token two_factor_env.jwt two_factor_env.now (to_text 7) "ADMIN_BO")
      store
    ≡ issue_tokens (later 2000 two_factor_env) (account 7) store
unfolding find_by_id to_text
refresh_two_factor_example =
    refresh_two_factor two_factor_env 2000 (account 7) (account 7) "ADMIN_BO" store
      (record { verifies = λ now issuer. refl }) refl (omega arith)

token_purposes_example :
    let two_factor = is_some (verify_two_factor_token two_factor_env.jwt 1000 "ADMIN_BO") in
    let password_change =
      is_some (verify_password_change_token two_factor_env.jwt 1000 "ADMIN_BO") in
    let access = is_some (untyped (verify_token two_factor_env.jwt 1000 "ADMIN_BO")) in
    ((two_factor && password_change) ≡ false)
    × ((two_factor && access) ≡ false)
    × ((password_change && access) ≡ false)
token_purposes_example = token_purposes two_factor_env.jwt 1000 "ADMIN_BO"

abbrev second : Store
second = record_success 1000 (account 7) meta drawn

verify_two_factor_ok_example :
    (c : Claims) × (a : Account) × IsSecondFactor two_factor_env "DASHBOARD" "123456" store c a
    × (second.login_history ≡ store.login_history ++ success_row two_factor_env.now a meta ∷ [])
unfolding verify_two_factor verify_code verify_two_factor_token of_type account_of number find_by_id
    record_issued issue_tokens issue_for build_access_token_payload with_claim require_non_blank
    trim to_text sign_access_token sign_refresh_token
verify_two_factor_ok_example =
    verify_two_factor_ok two_factor_env "DASHBOARD" "123456" meta store second tokens refl

abbrev credential : ChangePasswordCredential
credential = record { access_token = some "DASHBOARD"; password_change_token = none }

abbrev changed_store : Store
changed_store = record store {
  accounts = with_password 1000 "{bcrypt}new" (account 7) ∷ other_account ∷ [];
}

change_password_ok_example :
    (c : Claims) × (a : Account) × (resolve_change_password_account_id env credential ≡ some c)
    × (account_of c.sub store ≡ some a)
    × (verify_password env.compare "right" a.password ≡ true)
    × IsChanged env "new" store a changed_store 7
    × (verify_password env.compare "new" (some (hash_password env.hash_sync "new")) ≡ true)
    × (is_password_expired env.now (some env.now) ≡ false)
unfolding IsHash change_password change_password_of resolve_change_password_account_id verify_token
    account_of number find_by_id verify_password behind hash_password prepend to_text
    update_password update_where
change_password_ok_example =
    change_password_ok env credential "right" "new" store true changed_store 7 (λ p. eq_refl p) refl

abbrev no_credential : ChangePasswordCredential
no_credential = record { access_token = none; password_change_token = some "" }

change_password_thrown_example : store ≡ store
unfolding change_password resolve_change_password_account_id
change_password_thrown_example =
    change_password_thrown env no_credential "right" "new" store
      (record { error = token_expired; password_change_token = none }) store refl
