-- ===== src/Auth/Sessions/Passwords.antt =====
-- What `changePassword` does: the new password is the one that verifies afterwards.
use nestjs_graphql_fastify_a.Common.{
  ℕ, ◌-◌, ◌/◌, String, Bool, true, false, some, if◌then◌else◌, ◌==◌, nat_eq, ◌≡◌, refl, sym, ap,
  ◌∙◌, arith, Bool-cases, Option-cases, inl, inr,
}
use nestjs_graphql_fastify_a.Common.Text.{truthy, truthy-cons, number}
use nestjs_graphql_fastify_a.Auth.Accounts.{Account, find_by_id, with_password, update_password}
use nestjs_graphql_fastify_a.Auth.Accounts.Frame.{
  by_id-IsStable, find-update_where, with_password-IsKeeping, find_by_id-id,
}
use nestjs_graphql_fastify_a.Auth.Errors.{ok, thrown, AuthErrorException}
use nestjs_graphql_fastify_a.Auth.History.{Store}
use nestjs_graphql_fastify_a.Auth.Tokens.{Claims}
use nestjs_graphql_fastify_a.Auth.Claims.{
  verify_password, hash_password, behind, bcrypt_prefix, prepend,
}
use nestjs_graphql_fastify_a.Auth.Service.{Env, is_password_expired}
use nestjs_graphql_fastify_a.Auth.Sessions.{
  ChangePasswordCredential, account_of, resolve_change_password_account_id, change_password,
  change_password_of,
}

-- What `bcryptjs` documents: a password matches its own hash.
unfoldable pub IsHash : Env → Type 0
IsHash env = (plain : String) → env.compare plain (env.hash_sync plain) ≡ true

bcrypt_truthy : (h : String) → truthy (prepend bcrypt_prefix h) ≡ true
unfolding prepend
bcrypt_truthy h = truthy-cons _ _

verify_hash :
    (env : Env) (plain new : String)
    → verify_password env.compare plain (some (hash_password env.hash_sync new))
      ≡ env.compare plain (env.hash_sync new)
unfolding verify_password hash_password behind prepend
verify_hash env plain new = rw (bcrypt_truthy (env.hash_sync new)) refl

fresh_password : (now : ℕ) → is_password_expired now (some now) ≡ false
unfolding is_password_expired
fresh_password now = let zero_days : (now - now) / 86400000 ≡ 0 = omega arith in rw zero_days refl

account_of-row :
    (sub : String) (s : Store) (a : Account)
    → account_of sub s ≡ some a
    → find_by_id a.id s.accounts ≡ some a
unfolding account_of
account_of-row sub s a h = elim (Option-cases (number sub)) [
  | inl e ↦ absurd (ground (arith, rw (e, account_of) at h))
  | inr (id, e) ↦
      let row : find_by_id id s.accounts ≡ some a = rw (e, account_of) at h in
      ap (λ k. find_by_id k s.accounts) (find_by_id-id id s.accounts a row) ∙ row
]

update_password_rows :
    (now id j : ℕ) (hash : String) (s : Store) (a : Account)
    → find_by_id id s.accounts ≡ some a
    → find_by_id j (update_password now id hash s.accounts)
      ≡ (if id == j then some (with_password now hash a) else find_by_id j s.accounts)
unfolding update_password find_by_id
update_password_rows now id j hash s a row =
    find-update_where _ (by_id-IsStable j) (with_password now hash) id s.accounts
      (with_password-IsKeeping now hash)
    ∙ elim (Bool-cases (id == j)) [
      | inl same ↦
          let e : id ≡ j = ground (arith, same) in
          let here : find_by_id j s.accounts ≡ some a = rw e at row in
          rw (same, here) (ground (arith, find_by_id-id j s.accounts a here, e))
      | inr other ↦ rw other (elim (Option-cases (find_by_id j s.accounts)) [
        | inl e ↦ rw e refl
        | inr (b, e) ↦ rw e (ground (arith, find_by_id-id j s.accounts b e, other))
      ])
    ]

-- What a change of the password of an account means for every row.
unfoldable pub IsChanged : Env → String → Store → Account → Store → ℕ → Type 0
IsChanged env new s a t j =
    let hash = hash_password env.hash_sync new in
    (find_by_id j t.accounts
      ≡ (if a.id == j then some (with_password env.now hash a) else find_by_id j s.accounts))
    × (t.login_history ≡ s.login_history)

-- A change of password that succeeds had a credential whose subject is an account with the current
-- password given. It changes this row and no other, and after it the new password verifies, where a
-- hash matches its password, and has not expired.
pub change_password_ok :
    (env : Env) (credential : ChangePasswordCredential) (current new : String) (s : Store)
    (r : Bool) (t : Store) (j : ℕ)
    → IsHash env
    → change_password env credential current new s ≡ (ok r, t)
    → (c : Claims) × (a : Account) × (resolve_change_password_account_id env credential ≡ some c)
      × (account_of c.sub s ≡ some a)
      × (verify_password env.compare current a.password ≡ true)
      × IsChanged env new s a t j
      × (verify_password env.compare new (some (hash_password env.hash_sync new)) ≡ true)
      × (is_password_expired env.now (some env.now) ≡ false)
unfolding change_password change_password_of IsChanged IsHash
change_password_ok env credential current new s r t j hashes h =
    elim (Option-cases (resolve_change_password_account_id env credential)) [
      | inl e ↦ absurd (ground (arith, rw (e, change_password) at h))
      | inr (c, e) ↦ elim (Option-cases (account_of c.sub s)) [
        | inl f ↦ absurd (ground (arith, rw f at (rw (e, change_password) at h)))
        | inr (a, f) ↦
            let g = rw f at (rw (e, change_password) at h) in
            elim (Bool-cases (verify_password env.compare current a.password)) [
              | inr wrong ↦ absurd (ground (arith, rw wrong at g))
              | inl right ↦
                  let stored : Store = record s {
                    accounts =
                        update_password env.now a.id (hash_password env.hash_sync new) s.accounts;
                  } in
                  let e_t : stored ≡ t = ap (λ z. z.1) (rw right at g) in
                  (
                    c,
                    a,
                    e,
                    f,
                    right,
                    rw (← e_t) (
                      update_password_rows env.now a.id j (hash_password env.hash_sync new) s a
                          (account_of-row c.sub s a f),
                      refl,
                    ),
                    verify_hash env new new ∙ hashes new,
                    fresh_password env.now,
                  )
            ]
      ]
    ]

-- A change of password that throws, whatever its credential, stores nothing.
pub change_password_thrown :
    (env : Env) (credential : ChangePasswordCredential) (current new : String) (s : Store)
    (e : AuthErrorException) (t : Store)
    → change_password env credential current new s ≡ (thrown e, t)
    → t ≡ s
unfolding change_password change_password_of
change_password_thrown env credential current new s e t h =
    elim (Option-cases (resolve_change_password_account_id env credential)) [
      | inl f ↦ sym (ap (λ z. z.1) (rw (f, change_password) at h))
      | inr (c, f) ↦ elim (Option-cases (account_of c.sub s)) [
        | inl f' ↦ sym (ap (λ z. z.1) (rw f' at (rw (f, change_password) at h)))
        | inr (a, f') ↦
            let g = rw f' at (rw (f, change_password) at h) in
            elim (Bool-cases (verify_password env.compare current a.password)) [
              | inr wrong ↦ sym (ap (λ z. z.1) (rw wrong at g))
              | inl right ↦ absurd (ground (arith, rw right at g))
            ]
      ]
    ]
