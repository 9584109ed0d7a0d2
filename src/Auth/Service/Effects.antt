-- ===== src/Auth/Service/Effects.antt =====
-- The rows that each step of `login` leaves, seen through a search for a row.
use nestjs_graphql_fastify_a.Common.{
  ℕ, String, Bool, true, false, Option, none, some, List, find, if◌then◌else◌, nat_eq, leb, ◌≡◌,
  refl, ap, ◌∙◌, arith, Bool-cases, inl, inr, if_elim, Option-cases,
}
use nestjs_graphql_fastify_a.Auth.AccountStatus
use nestjs_graphql_fastify_a.Auth.Accounts.{
  Account, with_increment, with_lock, with_fail_count, with_login_at, with_otp_secret_key,
  increment_fail_count, lock_account, reset_fail_count, reset_fail_count_and_update_login_at,
  update_otp_secret_key, update_where,
}
use nestjs_graphql_fastify_a.Auth.Accounts.Frame.{
  changed, at_id, IsStable, find-update_where, with_increment-IsKeeping, with_lock-IsKeeping,
  with_fail_count-IsKeeping, with_login_at-IsKeeping, with_otp_secret_key-IsKeeping,
}
use nestjs_graphql_fastify_a.Auth.Errors.{Result}
use nestjs_graphql_fastify_a.Auth.History.{LoginRequestMeta, Store, record_success, record_failure}
use nestjs_graphql_fastify_a.Auth.Claims.{build_access_token_payload}
use nestjs_graphql_fastify_a.Auth.Service.{
  Env, AuthTokens, has_status, max_fail_count, handle_failed_login, handle_locked_login, issue_for,
  issue_tokens,
}

-- The change that a wrong password makes of its row: whether it is locked, and the new count.
abbrev pub failed : Bool → Account → Account
failed true = λ a. with_lock (with_increment a)
failed false = with_increment

changed_twice :
    (id : ℕ) (f g : Account → Account) (same : (a : Account) → (f a).id ≡ a.id) (r : Option Account)
    → changed (at_id id g) (changed (at_id id f) r) ≡ changed (at_id id (λ a. g (f a))) r
changed_twice id f g same none = refl
changed_twice id f g same (some a) = ground (arith, same a)

module _ (p : Account → Bool) (stable : IsStable p) where
  pub find-handle_failed_login :
      (env : Env) (account : Account) (meta : LoginRequestMeta) (n : ℕ) (s : Store)
      → find p (handle_failed_login env account meta n s).accounts
        ≡ changed (at_id account.id (failed (leb max_fail_count n))) (find p s.accounts)
  unfolding handle_failed_login increment_fail_count lock_account record_failure
  find-handle_failed_login env account meta n s =
      let counted = update_where account.id with_increment s.accounts in
      let one =
        find-update_where p stable with_increment account.id s.accounts with_increment-IsKeeping in
      elim (Bool-cases (leb max_fail_count n)) [
        | inl locks ↦ rw locks (
            find-update_where p stable with_lock account.id counted with_lock-IsKeeping
            ∙ ap (changed (at_id account.id with_lock)) one
            ∙ changed_twice account.id with_increment with_lock (λ a. refl) (find p s.accounts))
        | inr keeps ↦ rw keeps one
      ]

  pub find-handle_locked_login :
      (env : Env) (account : Account) (meta : LoginRequestMeta) (s : Store)
      → find p (handle_locked_login env account meta s).accounts ≡ (
          if has_status account AccountStatus.locked
          then find p s.accounts
          else changed (at_id account.id with_lock) (find p s.accounts))
  unfolding handle_locked_login lock_account record_failure
  find-handle_locked_login env account meta s =
      elim (Bool-cases (has_status account AccountStatus.locked)) [
        | inl locked ↦ rw locked refl
        | inr unlocked ↦
            rw unlocked
              (find-update_where p stable with_lock account.id s.accounts with_lock-IsKeeping)
      ]

  pub find-record_success :
      (now : ℕ) (account : Account) (meta : LoginRequestMeta) (s : Store)
      → find p (record_success now account meta s).accounts
        ≡ changed (at_id account.id (with_login_at now)) (find p s.accounts)
  unfolding record_success reset_fail_count_and_update_login_at
  find-record_success now account meta s =
      find-update_where p stable (with_login_at now) account.id s.accounts
        (with_login_at-IsKeeping now)

  pub find-reset_fail_count :
      (id : ℕ) (accounts : List Account)
      → find p (reset_fail_count id accounts)
        ≡ changed (at_id id (with_fail_count (some 0))) (find p accounts)
  unfolding reset_fail_count
  find-reset_fail_count id accounts =
      find-update_where p stable (with_fail_count (some 0)) id accounts
        (with_fail_count-IsKeeping (some 0))

  pub find-update_otp_secret_key :
      (id : ℕ) (key : String) (accounts : List Account)
      → find p (update_otp_secret_key id key accounts)
        ≡ changed (at_id id (with_otp_secret_key key)) (find p accounts)
  unfolding update_otp_secret_key
  find-update_otp_secret_key id key accounts =
      find-update_where p stable (with_otp_secret_key key) id accounts
        (with_otp_secret_key-IsKeeping key)

-- Issuing tokens writes no row and no history.
pub accounts-issue_tokens :
    (env : Env) (account : Account) (s : Store)
    → let t = (issue_tokens env account s).1 in
      (t.accounts ≡ s.accounts) × (t.login_history ≡ s.login_history)
unfolding issue_tokens issue_for
accounts-issue_tokens env account s = elim (Option-cases (build_access_token_payload account)) [
  | inl e ↦ rw (e, issue_tokens) (refl, refl)
  | inr (payload, e) ↦
      rw (e, issue_tokens)
        (if_elim
          (λ (r : Result AuthTokens × Store).
            (r.1.accounts ≡ s.accounts) × (r.1.login_history ≡ s.login_history))
          _ (λ _. (refl, refl)) (λ _. (refl, refl)))
]
