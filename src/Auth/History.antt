-- ===== src/Auth/History.antt =====
-- apps/auth/src/login-history/login-history.service.ts: the rows of `tb_login_history`, and what
-- the services store.
use nestjs_graphql_fastify_a.Common.{
  ℕ, String, Option, none, some, List, [], ◌∷◌, ◌++◌, if◌then◌else◌,
}
use nestjs_graphql_fastify_a.Common.Text.{trim, truthy}
use nestjs_graphql_fastify_a.Auth.Accounts.{Account, reset_fail_count_and_update_login_at}

-- A row, without the id that the database counts.
pub record LoginHistory : Type 0 where
  pub login_id : String
  pub account_id : ℕ
  pub addr_ip : String
  pub fail_count : ℕ
  pub status : Option String
  pub access_channel : Option String
  pub login_at : Option ℕ
  pub failed_at : Option ℕ

-- `LoginRequestMeta`
pub record LoginRequestMeta : Type 0 where
  pub client_ip : String
  pub access_channel : Option String

-- What the services store, and the number of unique ids that they drew.
pub record Store : Type 0 where
  pub accounts : List Account
  pub login_history : List LoginHistory
  pub uuid_draws : ℕ

-- `clientIp?.trim() || 'unknown'`
unfoldable pub normalize_client_ip : String → String
normalize_client_ip client_ip = let t = trim client_ip in if truthy t then t else "unknown"

abbrev pub success_row : ℕ → Account → LoginRequestMeta → LoginHistory
unfolding normalize_client_ip
success_row now account meta = record {
  login_id = account.login_id;
  account_id = account.id;
  addr_ip = normalize_client_ip meta.client_ip;
  fail_count = 0;
  status = account.status;
  access_channel = meta.access_channel;
  login_at = some now;
  failed_at = none;
}

abbrev pub failure_row : ℕ → Account → LoginRequestMeta → ℕ → Option String → LoginHistory
unfolding normalize_client_ip
failure_row now account meta fail_count status = record {
  login_id = account.login_id;
  account_id = account.id;
  addr_ip = normalize_client_ip meta.client_ip;
  fail_count = fail_count;
  status = status;
  access_channel = meta.access_channel;
  login_at = none;
  failed_at = some now;
}

-- Both writes are one transaction.
unfoldable pub record_success : ℕ → Account → LoginRequestMeta → Store → Store
record_success now account meta s = record s {
  accounts = reset_fail_count_and_update_login_at now account.id s.accounts;
  login_history = s.login_history ++ success_row now account meta ∷ [];
}

unfoldable pub record_failure : ℕ → Account → LoginRequestMeta → ℕ → Option String → Store → Store
record_failure now account meta fail_count status s = record s {
  login_history = s.login_history ++ failure_row now account meta fail_count status ∷ [];
}
