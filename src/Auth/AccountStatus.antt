-- ===== src/Auth/AccountStatus.antt =====
-- apps/auth/src/auth/enums/account-status.enum.ts: the states of an account.
use nestjs_graphql_fastify_a.Common.{String}

abbrev pub active : String
active = "ACTIVE"

abbrev pub locked : String
locked = "LOCKED"

abbrev pub pending : String
pending = "PENDING"

abbrev pub in_active : String
in_active = "IN_ACTIVE"

abbrev pub deleted : String
deleted = "DELETE"
