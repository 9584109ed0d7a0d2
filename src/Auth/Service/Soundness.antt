-- ===== src/Auth/Service/Soundness.antt =====
-- Who is let in by `login`, and what is recorded.
use nestjs_graphql_fastify_a.Common.{
  String, Bool, true, false, ◌&&◌, Option, none, some, List, [], ◌∷◌, ◌++◌, if◌then◌else◌, is_some,
  ◌≡◌, refl, sym, ap, ◌∙◌, arith, Bool-cases, Option-cases, inl, inr, if_elim, append-nil,
}
use nestjs_graphql_fastify_a.Common.Text.{to_text}
use nestjs_graphql_fastify_a.Auth.Accounts.{
  Account, find_by_login_id_and_user_type, two_factor_required, reset_fail_count,
}
use nestjs_graphql_fastify_a.Auth.Errors.{Result, ok, thrown}
use nestjs_graphql_fastify_a.Auth.History.{
  LoginHistory, LoginRequestMeta, Store, record_success, success_row,
}
use nestjs_graphql_fastify_a.Auth.Claims.{verify_password, normalize_totp_account_name}
use nestjs_graphql_fastify_a.Auth.Tokens.{sign_two_factor_token}
use nestjs_graphql_fastify_a.Auth.Service.{
  Env, AuthTokens, AuthResponse, logged_in, requires_two_factor, is_locked, is_password_expired,
  status_error, issue_tokens, record_issued, with_url, with_tokens,
  create_totp_registration_url_if_required, start_two_factor, login, login_verified,
}
use nestjs_graphql_fastify_a.Auth.Service.Branches.{
  login_of_found, login_account_locked, login_account_wrong, login_account_status,
  login_account_right,
}
use nestjs_graphql_fastify_a.Auth.Service.Effects.{accounts-issue_tokens}

abbrev pub is_two_factor : AuthResponse → Bool
is_two_factor (logged_in tokens) = false
is_two_factor (requires_two_factor token url) = true

abbrev is_ok {ℓ} : {A : Type ℓ} → Result A → Bool
is_ok (ok a) = true
is_ok (thrown e) = false

-- What a successful login appends to the history.
abbrev pub recorded : Env → Account → String → LoginRequestMeta → List LoginHistory
recorded env a user_type meta =
    if two_factor_required user_type then [] else success_row env.now a meta ∷ []

-- The conditions under which an account is let in.
pub record IsAdmitted (env : Env) (password : String) (a : Account) : Type 0 where
  pub unlocked : is_locked a ≡ false
  pub plain : status_error a.status ≡ none
  pub verified : verify_password env.compare password a.password ≡ true
  pub current : is_password_expired env.now a.last_password_changed_at ≡ false

not_ok {ℓ} :
    {A : Type ℓ} {B : Type 0} (x y : Result A × Store)
    → x ≡ y
    → is_ok x.0 ≡ false
    → is_ok y.0 ≡ true
    → B
not_ok x y e f g = absurd (ground (arith, ap (λ z. is_ok z.0) e, f, g))

with_url_ok :
    (token : String) (x : Result (Option String) × Store) (r : AuthResponse) (t : Store)
    → with_url token x ≡ (ok r, t)
    → (is_two_factor r ≡ true) × (x.1 ≡ t)
unfolding with_url
with_url_ok token (thrown e, s) r t h = ground (arith, h)
with_url_ok token (ok url, s) r t h = ground (arith, h)

record_issued_ok :
    (env : Env) (a : Account) (meta : LoginRequestMeta) (x : Result AuthTokens × Store)
    (r : AuthResponse) (t : Store)
    → with_tokens (record_issued env a meta x) ≡ (ok r, t)
    → (is_two_factor r ≡ false)
      × (t.login_history ≡ x.1.login_history ++ success_row env.now a meta ∷ [])
unfolding with_tokens record_issued record_success
record_issued_ok env a meta (thrown e, s) r t h = ground (arith, h)
record_issued_ok env a meta (ok tokens, s) r t h =
    (ground (arith, ap (λ z. z.0) h), ap (λ z. z.1.login_history) (sym h))

create_totp_history :
    (env : Env) (a : Account) (s : Store)
    → (create_totp_registration_url_if_required env a s).1.login_history ≡ s.login_history
unfolding create_totp_registration_url_if_required
create_totp_history env a s =
    if_elim (λ (r : Result (Option String) × Store). r.1.login_history ≡ s.login_history)
      (is_some a.otp_secret_key && is_some a.last_login_at) (λ _. refl)
      (λ _. elim (Option-cases (normalize_totp_account_name a)) [
        | inl e ↦ rw e refl
        | inr (name, e) ↦ rw e refl
      ])

login_verified_ok :
    (env : Env) (a : Account) (user_type : String) (meta : LoginRequestMeta) (s : Store)
    (r : AuthResponse) (t : Store)
    → login_verified env a user_type meta s ≡ (ok r, t)
    → (is_password_expired env.now a.last_password_changed_at ≡ false)
      × (is_two_factor r ≡ two_factor_required user_type)
      × (t.login_history ≡ s.login_history ++ recorded env a user_type meta)
unfolding login_verified start_two_factor
login_verified_ok env a user_type meta s r t =
    if_elim
      (λ (x : Result AuthResponse × Store).
        x ≡ (ok r, t)
        → (is_password_expired env.now a.last_password_changed_at ≡ false)
          × (is_two_factor r ≡ two_factor_required user_type)
          × (t.login_history ≡ s.login_history ++ recorded env a user_type meta))
      (is_password_expired env.now a.last_password_changed_at) (λ _ h. not_ok _ _ h refl refl)
      (λ current. elim (Bool-cases (two_factor_required user_type)) [
        | inl two ↦ rw two (λ h.
            let s' : Store = record s { accounts = reset_fail_count a.id s.accounts } in
            let x = create_totp_registration_url_if_required env a s' in
            let o =
              with_url_ok (sign_two_factor_token env.jwt env.now (to_text a.id) user_type) x r t
                h in
            (
              current,
              o.0,
              rw (← o.1) (create_totp_history env a s' ∙ sym (append-nil s.login_history)),
            ))
        | inr one ↦ rw one (λ h.
            let o = record_issued_ok env a meta (issue_tokens env a s) r t h in
            (current, o.0, rw (o.1, (accounts-issue_tokens env a s).1) refl))
      ])

-- A login that succeeds found an account that was not locked, in no state that keeps it out, with
-- the password given and not expired; it is answered with tokens exactly if the type of user given
-- needs no second factor, and only then is a success recorded, as the one new row of the history.
pub login_ok :
    (env : Env) (login_id password user_type : String) (meta : LoginRequestMeta) (s : Store)
    (r : AuthResponse) (t : Store)
    → login env login_id password user_type meta s ≡ (ok r, t)
    → (a : Account) × (find_by_login_id_and_user_type env.collation login_id user_type s.accounts
        ≡ some a)
      × IsAdmitted env password a
      × (is_two_factor r ≡ two_factor_required user_type)
      × (t.login_history ≡ s.login_history ++ recorded env a user_type meta)
unfolding login
login_ok env login_id password user_type meta s r t h =
    elim (Option-cases
      (find_by_login_id_and_user_type env.collation login_id user_type s.accounts)) [
        | inl e ↦ not_ok _ _ (rw (e, login) at h) refl refl
        | inr (a, found) ↦
            let h' = sym (login_of_found env login_id password user_type meta s a found) ∙ h in
            elim (Bool-cases (is_locked a)) [
              | inl locked ↦
                  not_ok _ _
                    (sym (login_account_locked env password user_type meta s a locked) ∙ h') refl
                    refl
              | inr unlocked ↦ elim (Option-cases (status_error a.status)) [
                | inr (key, e) ↦
                    not_ok _ _
                      (sym (login_account_status env password user_type meta s a key unlocked e)
                        ∙ h')
                      refl refl
                | inl plain ↦ elim (Bool-cases (verify_password env.compare password a.password)) [
                  | inl right ↦
                      let o = login_verified_ok env a user_type meta s r t (
                        sym
                          (login_account_right env password user_type meta s a unlocked plain right)
                        ∙ h') in
                      (
                        a,
                        found,
                        record {
                          unlocked = unlocked;
                          plain = plain;
                          verified = right;
                          current = o.0;
                        },
                        o.1,
                        o.2,
                      )
                  | inr wrong ↦
                      not_ok _ _
                        (sym (
                            login_account_wrong env password user_type meta s a unlocked plain
                              wrong)
                          ∙ h')
                        refl refl
                ]
              ]
            ]
      ]
