-- ===== src/Auth/Service/Lockout.antt =====
-- Wrong passwords lock an account, and no login opens it again.
use nestjs_graphql_fastify_a.Common.{
  ℕ, ◌+◌, ◌≤◌, min, String, Bool, true, false, Option, none, some, List, [], ◌∷◌, find, length, All,
  if◌then◌else◌, ◌==◌, nat_eq, string_eq, leb, ◌≡◌, refl, sym, ap, ◌∙◌, arith, Bool-cases, inl, inr,
}
use nestjs_graphql_fastify_a.Auth.AccountStatus
use nestjs_graphql_fastify_a.Auth.Accounts.{Account, find_by_login_id_and_user_type, find_by_id}
use nestjs_graphql_fastify_a.Auth.Accounts.Frame.{IsStable, by_id-IsStable, by_login-IsStable}
use nestjs_graphql_fastify_a.Auth.History.{LoginRequestMeta, Store}
use nestjs_graphql_fastify_a.Auth.Claims.{verify_password}
use nestjs_graphql_fastify_a.Auth.Service.{
  Env, max_fail_count, fails_of, has_status, is_locked, status_error, login,
}
use nestjs_graphql_fastify_a.Auth.Service.Branches.{
  login_of_found, login_account_locked, login_account_wrong,
}
use nestjs_graphql_fastify_a.Auth.Service.Effects.{
  failed, find-handle_failed_login, find-handle_locked_login,
}

-- One attempt: what the client sends.
pub record Attempt : Type 0 where
  pub env : Env
  pub password : String
  pub meta : LoginRequestMeta

module _ (login_id user_type : String) where
  -- The store after some attempts to log in, one after another.
  unfoldable pub attempts : List Attempt → Store → Store
  attempts [] s = s
  attempts (a ∷ rest) s = attempts rest (login a.env login_id a.password user_type a.meta s).1

-- An account whose count is `n`, that is locked exactly from the maximum on, and that no other
-- state keeps from logging in.
pub record IsCounting (password : Option String) (n : ℕ) (a : Account) : Type 0 where
  pub counted : a.fail_count ≡ some n
  pub below : n ≤ max_fail_count
  pub locked : has_status a AccountStatus.locked ≡ leb max_fail_count n
  pub plain : leb max_fail_count n ≡ false → status_error a.status ≡ none
  pub same_password : a.password ≡ password

counting_is_locked :
    (password : Option String) (n : ℕ) (a : Account)
    → IsCounting password n a
    → is_locked a ≡ leb max_fail_count n
unfolding is_locked
counting_is_locked password n a c = ground (arith, c.counted, c.locked)

-- The row after one wrong password.
after_wrong : ℕ → Account → Account
after_wrong n a = if leb max_fail_count n then a else failed (leb max_fail_count (n + 1)) a

after_wrong-IsCounting :
    (password : Option String) (n : ℕ) (a : Account)
    → IsCounting password n a
    → IsCounting password (min (n + 1) max_fail_count) (after_wrong n a)
unfolding after_wrong
after_wrong-IsCounting password n a c = elim (Bool-cases (leb max_fail_count n)) [
  | inl locks ↦
      let full : min (n + 1) max_fail_count ≡ n = ground (arith, c.below) in rw (locks, full) c
  | inr unlocked ↦
      let next : min (n + 1) max_fail_count ≡ n + 1 = ground arith in
      rw (unlocked, next)
        (elim (Bool-cases (leb max_fail_count (n + 1))) [
          | inl locks ↦ rw locks (record {
            counted = rw c.counted refl;
            below = ground arith;
            locked = rw locks refl;
            plain = λ h. ground (arith, h);
            same_password = c.same_password;
          })
          | inr not_yet ↦ rw not_yet (record {
            counted = rw c.counted refl;
            below = ground arith;
            locked = rw not_yet (c.locked ∙ unlocked);
            plain = λ h. c.plain unlocked;
            same_password = c.same_password;
          })
        ])
]

-- What a wrong password makes of each search that finds the account.
login_wrong :
    (p : Account → Bool) (stable : IsStable p) (env : Env) (login_id password user_type : String)
    (meta : LoginRequestMeta) (s : Store) (stored : Option String) (n : ℕ) (a : Account)
    → IsCounting stored n a
    → find_by_login_id_and_user_type env.collation login_id user_type s.accounts ≡ some a
    → verify_password env.compare password stored ≡ false
    → find p s.accounts ≡ some a
    → find p (login env login_id password user_type meta s).1.accounts ≡ some (after_wrong n a)
unfolding after_wrong
login_wrong p stable env login_id password user_type meta s stored n a c found wrong here =
    let locked = counting_is_locked stored n a c in
    rw (login_of_found env login_id password user_type meta s a found)
      (elim (Bool-cases (leb max_fail_count n)) [
        | inl locks ↦
            rw (login_account_locked env password user_type meta s a (locked ∙ locks), locks)
              (find-handle_locked_login p stable env a meta s ∙ rw (c.locked, locks) here)
        | inr unlocked ↦
            rw
              (
                login_account_wrong env password user_type meta s a (locked ∙ unlocked)
                    (c.plain unlocked) (rw c.same_password wrong),
                unlocked,
              )
              (find-handle_failed_login p stable env a meta (fails_of a + 1) s
                ∙ rw (here, c.counted, eq_self a.id) refl)
      ])
  where
    eq_self : (i : ℕ) → (i == i) ≡ true
    eq_self i = ground arith

module _ (login_id user_type : String) (stored : Option String) where
  -- An attempt that finds the account and has a wrong password for it.
  pub record IsWrong (s : Store) (a : Account) (t : Attempt) : Type 0 where
    pub found :
        find_by_login_id_and_user_type t.env.collation login_id user_type s.accounts ≡ some a
    pub wrong : verify_password t.env.compare t.password stored ≡ false

  login-IsWrong :
      (t : Attempt) (s : Store) (n : ℕ) (a : Account) (rest : List Attempt)
      → IsCounting stored n a
      → IsWrong s a t
      → All (IsWrong s a) rest
      → All (IsWrong (login t.env login_id t.password user_type t.meta s).1 (after_wrong n a)) rest
  unfolding find_by_login_id_and_user_type
  login-IsWrong t s n a [] c w all = tt
  login-IsWrong t s n a (u ∷ rest) c w (v, all) = (
    record {
      found =
          login_wrong _ (by_login-IsStable u.env.collation login_id user_type) t.env login_id
            t.password user_type t.meta s stored n a c w.found w.wrong v.found;
      wrong = v.wrong;
    },
    login-IsWrong t s n a rest c w all,
  )

  -- After any number of wrong passwords the count of an account, which was at most five and had the
  -- account locked exactly at five, and which no other state kept out, is that number more than it
  -- was, up to five, and the account is locked exactly if five is reached.
  pub lockout :
      (ts : List Attempt) (s : Store) (n j : ℕ) (a : Account)
      → IsCounting stored n a
      → find_by_id j s.accounts ≡ some a
      → All (IsWrong s a) ts
      → (b : Account) × (find_by_id j (attempts login_id user_type ts s).accounts ≡ some b)
        × (b.fail_count ≡ some (min (n + length ts) max_fail_count))
        × (is_locked b ≡ leb max_fail_count (n + length ts))
  unfolding attempts find_by_id
  lockout [] s n j a c here all =
      let same : min (n + 0) max_fail_count ≡ n = omega (arith, c.below) in
      (
        a,
        here,
        c.counted ∙ ap some (sym same),
        counting_is_locked stored n a c ∙ ap (leb max_fail_count) (omega arith),
      )
  lockout (t ∷ ts) s n j a c here (w, all) =
      let t' = login t.env login_id t.password user_type t.meta s in
      let (b, found, count, locked) =
        lockout ts t'.1 (min (n + 1) max_fail_count) j (after_wrong n a)
          (after_wrong-IsCounting stored n a c)
          (login_wrong _ (by_id-IsStable j) t.env login_id t.password user_type t.meta s stored n a
            c w.found w.wrong here)
          (login-IsWrong t s n a ts c w all) in
      (b, found, count ∙ ap some (omega arith), locked ∙ ground arith)
