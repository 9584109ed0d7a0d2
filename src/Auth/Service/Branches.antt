-- ===== src/Auth/Service/Branches.antt =====
-- The branches of `login`, each with the conditions that lead to it.
use nestjs_graphql_fastify_a.Common.{◌+◌, String, true, false, none, some, ◌≡◌, refl}
use nestjs_graphql_fastify_a.Auth.Accounts.{Account, find_by_login_id_and_user_type}
use nestjs_graphql_fastify_a.Auth.Errors.{
  AuthError, throw_auth_error, account_locked, invalid_credentials,
}
use nestjs_graphql_fastify_a.Auth.History.{LoginRequestMeta, Store}
use nestjs_graphql_fastify_a.Auth.Claims.{verify_password}
use nestjs_graphql_fastify_a.Auth.Service.{
  Env, fails_of, is_locked, status_error, handle_failed_login, handle_locked_login, login,
  login_account, login_verified,
}

pub login_of_found :
    (env : Env) (login_id password user_type : String) (meta : LoginRequestMeta) (s : Store)
    (a : Account)
    → find_by_login_id_and_user_type env.collation login_id user_type s.accounts ≡ some a
    → login env login_id password user_type meta s ≡ login_account env a password user_type meta s
unfolding login
login_of_found env login_id password user_type meta s a found = rw (found, login) refl

-- A locked account is refused before its password is looked at.
pub login_account_locked :
    (env : Env) (password user_type : String) (meta : LoginRequestMeta) (s : Store) (a : Account)
    → is_locked a ≡ true
    → login_account env a password user_type meta s
      ≡ (throw_auth_error account_locked, handle_locked_login env a meta s)
unfolding login_account
login_account_locked env password user_type meta s a locked = rw (locked, login_account) refl

pub login_account_wrong :
    (env : Env) (password user_type : String) (meta : LoginRequestMeta) (s : Store) (a : Account)
    → is_locked a ≡ false
    → status_error a.status ≡ none
    → verify_password env.compare password a.password ≡ false
    → login_account env a password user_type meta s
      ≡ (throw_auth_error invalid_credentials, handle_failed_login env a meta (fails_of a + 1) s)
unfolding login_account
login_account_wrong env password user_type meta s a unlocked plain wrong =
    rw (unlocked, login_account) (rw plain (rw wrong refl))

-- An account in another state is refused, and nothing is stored.
pub login_account_status :
    (env : Env) (password user_type : String) (meta : LoginRequestMeta) (s : Store) (a : Account)
    (key : AuthError)
    → is_locked a ≡ false
    → status_error a.status ≡ some key
    → login_account env a password user_type meta s ≡ (throw_auth_error key, s)
unfolding login_account
login_account_status env password user_type meta s a key unlocked state =
    rw (unlocked, login_account) (rw state refl)

pub login_account_right :
    (env : Env) (password user_type : String) (meta : LoginRequestMeta) (s : Store) (a : Account)
    → is_locked a ≡ false
    → status_error a.status ≡ none
    → verify_password env.compare password a.password ≡ true
    → login_account env a password user_type meta s ≡ login_verified env a user_type meta s
unfolding login_account
login_account_right env password user_type meta s a unlocked plain right =
    rw (unlocked, login_account) (rw plain (rw right refl))
