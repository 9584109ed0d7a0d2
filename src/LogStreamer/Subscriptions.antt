-- ===== src/LogStreamer/Subscriptions.antt =====
-- apps/gateway/src/log-streamer-proxy/log-streamer-proxy.service.ts: the reference counts of the
-- upstream subscriptions, `retainSubscription` and `releaseSubscription`.
pub mod Balance
use nestjs_graphql_fastify_a.Common.{
  ℕ, suc, ◌+◌, ◌-◌, ◌≤◌, ◌<◌, String, Bool, true, false, Option, none, some, List, ◌==◌, nat_eq,
  or_default, if◌then◌else◌, lookup, insert, delete,
}

-- `Map<string, number>`
abbrev pub Subscriptions : Type 0
Subscriptions = List (String × ℕ)

unfoldable pub retain_subscription : Subscriptions → String → Subscriptions × Bool
retain_subscription subscriptions key =
    let next_count = or_default (lookup key subscriptions) 0 + 1 in
    (insert key next_count subscriptions, next_count == 1)

-- `if (!currentCount)` is taken by a missing key and by a count of 0.
unfoldable pub release_subscription : Subscriptions → String → Subscriptions × Bool
release_subscription subscriptions key = elim (lookup key subscriptions) [
  | none ↦ (subscriptions, false)
  | some current_count ↦
      if current_count == 0
      then (subscriptions, false)
      else if current_count == 1
      then (delete key subscriptions, true)
      else (insert key (current_count - 1) subscriptions, false)
]
