-- ===== src/Auth/Accounts.antt =====
-- apps/auth/src/account/account.service.ts over the table `tb_account` of
-- apps/auth/src/database/schema.ts, and
-- apps/auth/src/auth/enums/user-type.enum.ts.
pub mod Frame
use nestjs_graphql_fastify_a.Common.{
  ℕ, ◌+◌, String, Bool, true, false, ◌&&◌, ◌||◌, Option, none, some, List, [], ◌∷◌, map, find,
  if◌then◌else◌, ◌==◌, nat_eq, string_eq,
}
use nestjs_graphql_fastify_a.Auth.AccountStatus

-- A row of `tb_account`, with the columns that the services read or write. A time is in
-- milliseconds since the epoch; the login id is its text, as `normalizeLoginId` makes it.
pub record Account : Type 0 where
  pub id : ℕ
  pub fail_count : Option ℕ
  pub last_login_at : Option ℕ
  pub login_id : String
  pub name : Option String
  pub user_type : String
  pub password : Option String
  pub status : Option String
  pub otp_secret_key : Option String
  pub customer_no : Option String
  pub last_password_changed_at : Option ℕ
  pub role_type : Option String

-- `TWO_FACTOR_REQUIRED_TYPES.has`
abbrev pub two_factor_required : String → Bool
two_factor_required user_type =
    user_type == "ADMIN_BO"
    || user_type == "CUSTOMER_BO"
    || user_type == "PARTNER_BO"
    || user_type == "LOTTE_CARD_BO"

-- The login id is binary and compared exactly; the database compares the user type, a text, by
-- its collation, which is a parameter.
unfoldable pub find_by_login_id_and_user_type :
    (String → String → Bool) → String → String → List Account → Option Account
find_by_login_id_and_user_type collation login_id user_type =
    find (λ a. a.login_id == login_id && collation a.user_type user_type)

unfoldable pub find_by_id : ℕ → List Account → Option Account
find_by_id id = find (λ a. a.id == id)

-- `update(tbAccount).set(...).where(eq(tbAccount.id, id))`
unfoldable pub update_where : ℕ → (Account → Account) → List Account → List Account
update_where id f = map (λ a. if a.id == id then f a else a)

-- `fail_count + 1` in the database, where NULL + 1 is NULL
abbrev pub plus_one : Option ℕ → Option ℕ
plus_one none = none
plus_one (some n) = some (n + 1)

abbrev pub with_fail_count : Option ℕ → Account → Account
with_fail_count count a = record a { fail_count = count }

abbrev pub with_increment : Account → Account
with_increment a = record a { fail_count = plus_one a.fail_count }

abbrev pub with_lock : Account → Account
with_lock a = record a { status = some AccountStatus.locked }

abbrev pub with_login_at : ℕ → Account → Account
with_login_at now a = record a { fail_count = some 0; last_login_at = some now }

abbrev pub with_otp_secret_key : String → Account → Account
with_otp_secret_key key a = record a { otp_secret_key = some key }

abbrev pub with_password : ℕ → String → Account → Account
with_password now hash a = record a { password = some hash; last_password_changed_at = some now }

unfoldable pub increment_fail_count : ℕ → List Account → List Account
increment_fail_count id = update_where id with_increment

unfoldable pub lock_account : ℕ → List Account → List Account
lock_account id = update_where id with_lock

unfoldable pub reset_fail_count : ℕ → List Account → List Account
reset_fail_count id = update_where id (with_fail_count (some 0))

unfoldable pub reset_fail_count_and_update_login_at : ℕ → ℕ → List Account → List Account
reset_fail_count_and_update_login_at now id = update_where id (with_login_at now)

unfoldable pub update_otp_secret_key : ℕ → String → List Account → List Account
update_otp_secret_key id key = update_where id (with_otp_secret_key key)

unfoldable pub update_password : ℕ → ℕ → String → List Account → List Account
update_password now id hash = update_where id (with_password now hash)
