-- ===== src/Auth.antt =====
-- apps/auth: the accounts, their login and the tokens that they are given.
pub mod AccountStatus
pub mod Accounts
pub mod Errors
pub mod History
pub mod Tokens
pub mod Claims
pub mod Service
pub mod Sessions
mod Tests
