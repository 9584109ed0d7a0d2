-- ===== src/Auth/Accounts/Frame.antt =====
-- What an update of one row leaves of the table, seen through a search for a row.
use nestjs_graphql_fastify_a.Common.{
  ℕ, String, Bool, ◌&&◌, Option, none, some, List, [], ◌∷◌, find, if◌then◌else◌, ◌==◌, nat_eq,
  string_eq, ◌≡◌, refl, arith, Bool-cases, inl, inr,
}
use nestjs_graphql_fastify_a.Auth.Accounts.{
  Account, find_by_id, update_where, with_fail_count, with_increment, with_lock, with_login_at,
  with_otp_secret_key, with_password,
}

-- The row, if there is one, with the change.
abbrev pub changed : (Account → Account) → Option Account → Option Account
changed f none = none
changed f (some a) = some (f a)

-- The change of the row with the id
abbrev pub at_id : ℕ → (Account → Account) → Account → Account
at_id id f a = if a.id == id then f a else a

-- A change that leaves the keys of a row.
pub record IsKeeping (f : Account → Account) : Type 0 where
  pub same_id : (a : Account) → (f a).id ≡ a.id
  pub same_login_id : (a : Account) → (f a).login_id ≡ a.login_id
  pub same_user_type : (a : Account) → (f a).user_type ≡ a.user_type

-- A test that reads the keys of a row only.
pub record IsStable (p : Account → Bool) : Type 0 where
  pub stable : (f : Account → Account) → IsKeeping f → (a : Account) → p (f a) ≡ p a

module _ (p : Account → Bool) (stable : IsStable p) where
  pub find-update_where :
      (f : Account → Account) (id : ℕ) (accounts : List Account)
      → IsKeeping f
      → find p (update_where id f accounts) ≡ changed (at_id id f) (find p accounts)
  unfolding update_where
  find-update_where f id [] k = refl
  find-update_where f id (a ∷ rest) k =
      ground (arith, stable.stable f k a, find-update_where f id rest k)

pub by_id-IsStable : (j : ℕ) → IsStable (λ a. a.id == j)
by_id-IsStable j = record { stable = λ f k a. rw (k.same_id a) }

pub by_login-IsStable :
    (collation : String → String → Bool) (login_id user_type : String)
    → IsStable (λ a. a.login_id == login_id && collation a.user_type user_type)
by_login-IsStable collation login_id user_type = record {
  stable = λ f k a. rw (k.same_login_id a, k.same_user_type a);
}

abbrev keeps :
    {f : Account → Account}
    → ((a : Account) → (f a).id ≡ a.id)
    → ((a : Account) → (f a).login_id ≡ a.login_id)
    → ((a : Account) → (f a).user_type ≡ a.user_type)
    → IsKeeping f
keeps p q r = record { same_id = p; same_login_id = q; same_user_type = r }

pub with_increment-IsKeeping : IsKeeping with_increment
with_increment-IsKeeping = keeps (λ a. refl) (λ a. refl) (λ a. refl)

pub with_lock-IsKeeping : IsKeeping with_lock
with_lock-IsKeeping = keeps (λ a. refl) (λ a. refl) (λ a. refl)

pub with_fail_count-IsKeeping : (n : Option ℕ) → IsKeeping (with_fail_count n)
with_fail_count-IsKeeping n = keeps (λ a. refl) (λ a. refl) (λ a. refl)

pub with_login_at-IsKeeping : (now : ℕ) → IsKeeping (with_login_at now)
with_login_at-IsKeeping now = keeps (λ a. refl) (λ a. refl) (λ a. refl)

pub with_otp_secret_key-IsKeeping : (key : String) → IsKeeping (with_otp_secret_key key)
with_otp_secret_key-IsKeeping key = keeps (λ a. refl) (λ a. refl) (λ a. refl)

pub with_password-IsKeeping : (now : ℕ) (hash : String) → IsKeeping (with_password now hash)
with_password-IsKeeping now hash = keeps (λ a. refl) (λ a. refl) (λ a. refl)

-- No two rows have the same id, as the primary key demands.
unfoldable pub DistinctIds : List Account → Type 0
DistinctIds [] = Unit {0}
DistinctIds (a ∷ rest) = (find_by_id a.id rest ≡ none) × DistinctIds rest

pub find_by_id-id :
    (id : ℕ) (accounts : List Account) (a : Account) → find_by_id id accounts ≡ some a → a.id ≡ id
unfolding find_by_id
find_by_id-id id [] a h = absurd (ground (arith, h))
find_by_id-id id (b ∷ bs) a h = elim (Bool-cases (b.id == id)) [
  | inl same ↦ ground (arith, h)
  | inr other ↦ find_by_id-id id bs a (ground (arith, h))
]

-- A row that some search finds is the row with its id.
pub find_by_id_of_find :
    (p : Account → Bool) (accounts : List Account) (a : Account)
    → DistinctIds accounts
    → find p accounts ≡ some a
    → find_by_id a.id accounts ≡ some a
unfolding find_by_id DistinctIds
find_by_id_of_find p [] a d h = absurd (ground (arith, h))
find_by_id_of_find p (b ∷ bs) a (fresh, d) h = elim (Bool-cases (p b)) [
  | inl here ↦ ground (arith, h)
  | inr later ↦
      let there : find_by_id a.id bs ≡ some a = find_by_id_of_find p bs a d (ground (arith, h)) in
      elim (Bool-cases (b.id == a.id)) [
        | inl same ↦ absurd (ground (arith, fresh, there))
        | inr other ↦ ground (arith, there)
      ]
]
