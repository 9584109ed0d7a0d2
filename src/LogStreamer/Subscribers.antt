-- ===== src/LogStreamer/Subscribers.antt =====
-- apps/gateway/src/log-streamer-proxy/log-streamer-proxy.service.ts: `subscribeToLogs`,
-- `subscribeToServiceLogs`, and the wrapped iterator that each returns.
pub mod Frames
pub mod Streaming
use nestjs_graphql_fastify_a.Common.{
  ℕ, String, Bool, Option, none, some, List, ◌∷◌, ◌==◌, nat_eq, if◌then◌else◌, not, filter,
}
use nestjs_graphql_fastify_a.LogStreamer.State.{
  Service, Frame, subscribe, unsubscribe, subscribe_service, unsubscribe_service,
}
use nestjs_graphql_fastify_a.LogStreamer.Subscriptions.{retain_subscription, release_subscription}
use nestjs_graphql_fastify_a.LogStreamer.Connections.{broadcast_to_all}

-- The wrapped iterator: the key that it was made for and its first Redis subscription.
pub record Subscriber : Type 0 where
  pub key : String
  pub pre_sub_id : ℕ

-- `if (should…Upstream) { … }` with the broadcast in it
unfoldable pub ask_upstream : Bool → (Service → Service) → Service → Service
ask_upstream should ask s = if should then ask s else s

unfoldable pub unsubscribe_from_logs : String → Service → Service
unsubscribe_from_logs container_id = broadcast_to_all (unsubscribe container_id)

unfoldable pub unsubscribe_from_service_logs : String → Service → Service
unsubscribe_from_service_logs service_name = broadcast_to_all (unsubscribe_service service_name)

-- The first `await` answers with the id of the Redis subscription, or rejects, `none`.
unfoldable pub subscribe_to_logs : String → Option ℕ → Service → Service × Option Subscriber
subscribe_to_logs container_id none s = (s, none)
subscribe_to_logs container_id (some pre_sub_id) s =
    let r = retain_subscription s.active_subscriptions container_id in
    let t = record s {
      pre_subscriptions = pre_sub_id ∷ s.pre_subscriptions;
      active_subscriptions = r.0;
    } in
    (
      ask_upstream r.1 (broadcast_to_all (subscribe container_id)) t,
      some (record { key = container_id; pre_sub_id = pre_sub_id }),
    )

unfoldable pub subscribe_to_service_logs : String → Option ℕ → Service → Service × Option Subscriber
subscribe_to_service_logs service_name none s = (s, none)
subscribe_to_service_logs service_name (some pre_sub_id) s =
    let r = retain_subscription s.active_service_subscriptions service_name in
    let t = record s {
      pre_subscriptions = pre_sub_id ∷ s.pre_subscriptions;
      active_service_subscriptions = r.0;
    } in
    (
      ask_upstream r.1 (broadcast_to_all (subscribe_service service_name)) t,
      some (record { key = service_name; pre_sub_id = pre_sub_id }),
    )

-- `pubSub.unsubscribe(preSubId)`, which stands in a `finally` clause
abbrev drop_pre_subscription : ℕ → Service → Service
drop_pre_subscription id s = record s {
  pre_subscriptions = filter (λ i. not (i == id)) s.pre_subscriptions;
}

-- `return` of the wrapper of `subscribeToLogs`; that the inner `return` rejects changes nothing.
unfoldable pub return_logs : Subscriber → Service → Service
unfolding unsubscribe_from_logs
return_logs sub s =
    let r = release_subscription s.active_subscriptions sub.key in
    let t = record s { active_subscriptions = r.0 } in
    drop_pre_subscription sub.pre_sub_id (ask_upstream r.1 (unsubscribe_from_logs sub.key) t)

unfoldable pub return_service_logs : Subscriber → Service → Service
unfolding unsubscribe_from_service_logs
return_service_logs sub s =
    let r = release_subscription s.active_service_subscriptions sub.key in
    let t = record s { active_service_subscriptions = r.0 } in
    drop_pre_subscription sub.pre_sub_id
      (ask_upstream r.1 (unsubscribe_from_service_logs sub.key) t)
