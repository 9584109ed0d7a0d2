-- ===== src/Auth/Service/Isolation.antt =====
-- A login changes the row of its account only, and a locked account stays locked.
use nestjs_graphql_fastify_a.Common.{
  ℕ, ◌+◌, String, true, false, ◌&&◌, Option, some, List, ◌==◌, nat_eq, string_eq, leb, is_some, ◌≡◌,
  refl, sym, ap, ◌∙◌, arith, Bool-cases, Option-cases, inl, inr, if_elim,
}
use nestjs_graphql_fastify_a.Common.Text.{to_text}
use nestjs_graphql_fastify_a.Auth.AccountStatus
use nestjs_graphql_fastify_a.Auth.Accounts.{
  Account, find_by_login_id_and_user_type, find_by_id, with_lock, with_fail_count,
  with_otp_secret_key, with_login_at, reset_fail_count, two_factor_required,
}
use nestjs_graphql_fastify_a.Auth.Accounts.Frame.{
  changed, at_id, by_id-IsStable, DistinctIds, find_by_id-id, find_by_id_of_find,
}
use nestjs_graphql_fastify_a.Auth.Errors.{Result, ok, thrown}
use nestjs_graphql_fastify_a.Auth.History.{LoginRequestMeta, Store}
use nestjs_graphql_fastify_a.Auth.Claims.{verify_password, normalize_totp_account_name}
use nestjs_graphql_fastify_a.Auth.Tokens.{sign_two_factor_token}
use nestjs_graphql_fastify_a.Auth.Service.{
  Env, AuthTokens, AuthResponse, max_fail_count, fails_of, has_status, is_locked,
  is_password_expired, status_error, handle_locked_login, issue_tokens, record_issued, with_url,
  with_tokens, create_totp_registration_url_if_required, start_two_factor, login, login_account,
  login_verified,
}
use nestjs_graphql_fastify_a.Auth.Service.Branches.{
  login_of_found, login_account_locked, login_account_wrong, login_account_status,
  login_account_right,
}
use nestjs_graphql_fastify_a.Auth.Service.Effects.{
  failed, find-handle_failed_login, find-handle_locked_login, find-record_success,
  find-reset_fail_count, find-update_otp_secret_key, accounts-issue_tokens,
}

-- Changing one row leaves every other one.
changed_other :
    (id j : ℕ) (f : Account → Account) (accounts : List Account)
    → (id == j) ≡ false
    → changed (at_id id f) (find_by_id j accounts) ≡ find_by_id j accounts
changed_other id j f accounts other = elim (Option-cases (find_by_id j accounts)) [
  | inl e ↦ rw e refl
  | inr (a, e) ↦ let own = find_by_id-id j accounts a e in rw e (ground (arith, own, other))
]

record_issued_frame :
    (env : Env) (account : Account) (meta : LoginRequestMeta) (r : Result AuthTokens × Store)
    (j : ℕ)
    → (account.id == j) ≡ false
    → find_by_id j (record_issued env account meta r).1.accounts ≡ find_by_id j r.1.accounts
unfolding record_issued find_by_id
record_issued_frame env account meta (thrown e, s) j other = refl
record_issued_frame env account meta (ok tokens, s) j other =
    find-record_success _ (by_id-IsStable j) env.now account meta s
    ∙ changed_other account.id j (with_login_at env.now) s.accounts other

with_tokens-store : (r : Result AuthTokens × Store) → (with_tokens r).1 ≡ r.1
unfolding with_tokens
with_tokens-store (thrown e, s) = refl
with_tokens-store (ok tokens, s) = refl

with_url-store : (token : String) (r : Result (Option String) × Store) → (with_url token r).1 ≡ r.1
unfolding with_url
with_url-store token (thrown e, s) = refl
with_url-store token (ok url, s) = refl

create_totp_frame :
    (env : Env) (account : Account) (s : Store) (j : ℕ)
    → (account.id == j) ≡ false
    → find_by_id j (create_totp_registration_url_if_required env account s).1.accounts
      ≡ find_by_id j s.accounts
unfolding create_totp_registration_url_if_required find_by_id
create_totp_frame env account s j other =
    let written =
      find-update_otp_secret_key _ (by_id-IsStable j) account.id env.generate_secret s.accounts
      ∙ changed_other account.id j (with_otp_secret_key env.generate_secret) s.accounts other in
    if_elim
      (λ (r : Result (Option String) × Store). find_by_id j r.1.accounts ≡ find_by_id j s.accounts)
      (is_some account.otp_secret_key && is_some account.last_login_at) (λ _. refl)
      (λ _. elim (Option-cases (normalize_totp_account_name account)) [
        | inl e ↦ rw e written
        | inr (name, e) ↦ rw e written
      ])

start_two_factor_frame :
    (env : Env) (account : Account) (user_type : String) (s : Store) (j : ℕ)
    → (account.id == j) ≡ false
    → find_by_id j (start_two_factor env account user_type s).1.accounts ≡ find_by_id j s.accounts
unfolding start_two_factor find_by_id
start_two_factor_frame env account user_type s j other =
    rw (with_url-store (sign_two_factor_token env.jwt env.now (to_text account.id) user_type)) (
      create_totp_frame env account (record s { accounts = reset_fail_count account.id s.accounts })
        j other
      ∙ find-reset_fail_count _ (by_id-IsStable j) account.id s.accounts
      ∙ changed_other account.id j (with_fail_count (some 0)) s.accounts other)

login_verified_frame :
    (env : Env) (account : Account) (user_type : String) (meta : LoginRequestMeta) (s : Store)
    (j : ℕ)
    → (account.id == j) ≡ false
    → find_by_id j (login_verified env account user_type meta s).1.accounts
      ≡ find_by_id j s.accounts
unfolding login_verified
login_verified_frame env account user_type meta s j other =
    let P =
      λ (r : Result AuthResponse × Store). find_by_id j r.1.accounts ≡ find_by_id j s.accounts in
    if_elim P (is_password_expired env.now account.last_password_changed_at) (λ _. refl)
      (λ _.
        if_elim P (two_factor_required user_type)
          (λ _. start_two_factor_frame env account user_type s j other)
          (λ _.
            rw (with_tokens-store (record_issued env account meta (issue_tokens env account s))) (
              record_issued_frame env account meta (issue_tokens env account s) j other
              ∙ ap (find_by_id j) (accounts-issue_tokens env account s).0)))

login_account_frame :
    (env : Env) (password user_type : String) (meta : LoginRequestMeta) (s : Store) (a : Account)
    (j : ℕ)
    → (a.id == j) ≡ false
    → find_by_id j (login_account env a password user_type meta s).1.accounts
      ≡ find_by_id j s.accounts
unfolding find_by_id
login_account_frame env password user_type meta s a j other = elim (Bool-cases (is_locked a)) [
  | inl locked ↦ rw (login_account_locked env password user_type meta s a locked) (
      find-handle_locked_login _ (by_id-IsStable j) env a meta s
      ∙ if_elim (λ r. r ≡ find_by_id j s.accounts) (has_status a AccountStatus.locked) (λ _. refl)
          (λ _. changed_other a.id j with_lock s.accounts other))
  | inr unlocked ↦ elim (Option-cases (status_error a.status)) [
    | inr (key, e) ↦ rw (login_account_status env password user_type meta s a key unlocked e) refl
    | inl plain ↦ elim (Bool-cases (verify_password env.compare password a.password)) [
      | inl right ↦
          rw (login_account_right env password user_type meta s a unlocked plain right)
            (login_verified_frame env a user_type meta s j other)
      | inr wrong ↦ rw (login_account_wrong env password user_type meta s a unlocked plain wrong) (
          find-handle_failed_login _ (by_id-IsStable j) env a meta (fails_of a + 1) s
          ∙ changed_other a.id j (failed (leb max_fail_count (fails_of a + 1))) s.accounts other)
    ]
  ]
]

-- A login for one account leaves the row of every other account as it was, whatever its outcome.
pub login_frame :
    (env : Env) (login_id password user_type : String) (meta : LoginRequestMeta) (s : Store)
    (a : Account) (j : ℕ)
    → find_by_login_id_and_user_type env.collation login_id user_type s.accounts ≡ some a
    → (a.id == j) ≡ false
    → find_by_id j (login env login_id password user_type meta s).1.accounts
      ≡ find_by_id j s.accounts
login_frame env login_id password user_type meta s a j found other =
    rw (login_of_found env login_id password user_type meta s a found)
      (login_account_frame env password user_type meta s a j other)

still_locked :
    (env : Env) (meta : LoginRequestMeta) (s : Store) (a : Account) (j : ℕ)
    → find_by_id j s.accounts ≡ some a
    → is_locked a ≡ true
    → (b : Account) × (find_by_id j (handle_locked_login env a meta s).accounts ≡ some b)
      × (is_locked b ≡ true)
unfolding find_by_id is_locked
still_locked env meta s a j here locked =
    let e = find-handle_locked_login _ (by_id-IsStable j) env a meta s in
    elim (Bool-cases (has_status a AccountStatus.locked)) [
      | inl is ↦ (a, e ∙ rw (is, here) refl, locked)
      | inr isnt ↦ (with_lock a, e ∙ rw (isnt, here) (ground arith), refl)
    ]

-- Where the rows have distinct ids, a locked account stays locked whatever login is tried, also with
-- the right password and also for another account.
pub login_keeps_lock :
    (env : Env) (login_id password user_type : String) (meta : LoginRequestMeta) (s : Store)
    (a : Account) (j : ℕ)
    → DistinctIds s.accounts
    → find_by_id j s.accounts ≡ some a
    → is_locked a ≡ true
    → (b : Account) × (find_by_id j (login env login_id password user_type meta s).1.accounts
        ≡ some b)
      × (is_locked b ≡ true)
unfolding login find_by_login_id_and_user_type
login_keeps_lock env login_id password user_type meta s a j d here locked =
    elim (Option-cases
      (find_by_login_id_and_user_type env.collation login_id user_type s.accounts)) [
        | inl e ↦ rw (e, login) (a, here, locked)
        | inr (c, e) ↦
            rw (login_of_found env login_id password user_type meta s c e)
              (elim (Bool-cases (c.id == j)) [
                | inr other ↦
                    (a, login_account_frame env password user_type meta s c j other ∙ here, locked)
                | inl own ↦
                    let same_id : c.id ≡ j = ground (arith, own) in
                    let row = find_by_id_of_find _ s.accounts c d e in
                    let row' : find_by_id j s.accounts ≡ some c = rw (← same_id) row in
                    let same : c ≡ a = ground (arith, sym row' ∙ here) in
                    let locked' : is_locked c ≡ true = rw same locked in
                    rw (login_account_locked env password user_type meta s c locked')
                      (still_locked env meta s c j row' locked')
              ])
      ]
