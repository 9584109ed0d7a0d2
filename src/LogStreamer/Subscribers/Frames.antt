-- ===== src/LogStreamer/Subscribers/Frames.antt =====
-- What a subscriber's start and end do to the service.
use nestjs_graphql_fastify_a.Common.{
  ℕ, ◌+◌, ◌-◌, String, Bool, true, false, not, none, some, List, [], ◌∷◌, ◌++◌, ◌==◌, nat_eq,
  string_eq, ◌≡◌, refl, if◌then◌else◌, filter, append-nil,
}
use nestjs_graphql_fastify_a.LogStreamer.State.{
  Service, Frame, subscribe, unsubscribe, subscribe_service, unsubscribe_service,
}
use nestjs_graphql_fastify_a.LogStreamer.Subscriptions.{retain_subscription, release_subscription}
use nestjs_graphql_fastify_a.LogStreamer.Subscriptions.Balance.{
  count_of, IsCounted, count_of-retain, count_of-release, retain_flag, release_flag,
}
use nestjs_graphql_fastify_a.LogStreamer.Connections.{broadcast_to_all}
use nestjs_graphql_fastify_a.LogStreamer.Connections.Sending.{
  broadcast_to_all_lem, with_sent, each_sent, open_now,
}
use nestjs_graphql_fastify_a.LogStreamer.Subscribers.{
  Subscriber, ask_upstream, subscribe_to_logs, subscribe_to_service_logs, return_logs,
  return_service_logs,
}

-- The frames of a broadcast that is made if `should`.
abbrev pub asked : Bool → Frame → Service → List (ℕ × Frame)
asked should frame s = if should then each_sent frame (open_now s) else []

pub ask_upstream_lem :
    (should : Bool) (frame : Frame) (s : Service)
    → ask_upstream should (broadcast_to_all frame) s ≡ with_sent s (asked should frame s)
unfolding ask_upstream
ask_upstream_lem true frame s = broadcast_to_all_lem frame s
ask_upstream_lem false frame s = rw append-nil

-- A new subscriber of a container's log holds its Redis subscription, is counted once, and every
-- open log streamer is sent one frame to subscribe exactly if nobody was counted before; a
-- rejected Redis subscription changes nothing.
pub subscribe_to_logs_lem :
    (id : String) (pre : ℕ) (s : Service) (j : String)
    → let t = (subscribe_to_logs id (some pre) s).0 in
      (t.sent ≡ s.sent ++ asked (count_of id s.active_subscriptions == 0) (subscribe id) s)
      × (count_of j t.active_subscriptions ≡ (
          if id == j
          then count_of j s.active_subscriptions + 1
          else count_of j s.active_subscriptions))
      × (t.pre_subscriptions ≡ pre ∷ s.pre_subscriptions)
      × (t.active_service_subscriptions ≡ s.active_service_subscriptions)
      × (subscribe_to_logs id none s ≡ (s, none))
unfolding subscribe_to_logs
subscribe_to_logs_lem id pre s j =
    let r = retain_subscription s.active_subscriptions id in
    rw (ask_upstream_lem r.1 (subscribe id) _) (
      rw (retain_flag s.active_subscriptions id),
      count_of-retain s.active_subscriptions id j,
      refl,
      refl,
      refl,
    )

-- A new subscriber of a service's log holds its Redis subscription, is counted once, and every open
-- log streamer is sent one frame to subscribe exactly if nobody was counted before; a rejected
-- Redis subscription changes nothing.
pub subscribe_to_service_logs_lem :
    (name : String) (pre : ℕ) (s : Service) (j : String)
    → let t = (subscribe_to_service_logs name (some pre) s).0 in
      (t.sent
        ≡ s.sent
          ++ asked (count_of name s.active_service_subscriptions == 0) (subscribe_service name) s)
      × (count_of j t.active_service_subscriptions ≡ (
          if name == j
          then count_of j s.active_service_subscriptions + 1
          else count_of j s.active_service_subscriptions))
      × (t.pre_subscriptions ≡ pre ∷ s.pre_subscriptions)
      × (t.active_subscriptions ≡ s.active_subscriptions)
      × (subscribe_to_service_logs name none s ≡ (s, none))
unfolding subscribe_to_service_logs
subscribe_to_service_logs_lem name pre s j =
    let r = retain_subscription s.active_service_subscriptions name in
    rw (ask_upstream_lem r.1 (subscribe_service name) _) (
      rw (retain_flag s.active_service_subscriptions name),
      count_of-retain s.active_service_subscriptions name j,
      refl,
      refl,
      refl,
    )

-- The end of a subscriber of a container's log lets its Redis subscription go and its count fall
-- by one, and every open log streamer is sent one frame to unsubscribe exactly if it was the last
-- one counted; no key is counted 0 before.
pub return_logs_lem :
    (sub : Subscriber) (s : Service) (j : String)
    → IsCounted s.active_subscriptions
    → let t = return_logs sub s in
      (t.sent
        ≡ s.sent ++ asked (count_of sub.key s.active_subscriptions == 1) (unsubscribe sub.key) s)
      × (count_of j t.active_subscriptions ≡ (
          if sub.key == j
          then count_of j s.active_subscriptions - 1
          else count_of j s.active_subscriptions))
      × (t.pre_subscriptions ≡ filter (λ i. not (i == sub.pre_sub_id)) s.pre_subscriptions)
      × (t.active_service_subscriptions ≡ s.active_service_subscriptions)
unfolding return_logs
return_logs_lem sub s j c =
    let r = release_subscription s.active_subscriptions sub.key in
    rw (ask_upstream_lem r.1 (unsubscribe sub.key) _) (
      rw (release_flag s.active_subscriptions sub.key),
      count_of-release s.active_subscriptions sub.key j c,
      refl,
      refl,
    )

-- The end of a subscriber of a service's log lets its Redis subscription go and its count fall by
-- one, and every open log streamer is sent one frame to unsubscribe exactly if it was the last one
-- counted; no key is counted 0 before.
pub return_service_logs_lem :
    (sub : Subscriber) (s : Service) (j : String)
    → IsCounted s.active_service_subscriptions
    → let t = return_service_logs sub s in
      (t.sent
        ≡ s.sent
          ++ asked
              (count_of sub.key s.active_service_subscriptions == 1)
              (unsubscribe_service sub.key)
              s)
      × (count_of j t.active_service_subscriptions ≡ (
          if sub.key == j
          then count_of j s.active_service_subscriptions - 1
          else count_of j s.active_service_subscriptions))
      × (t.pre_subscriptions ≡ filter (λ i. not (i == sub.pre_sub_id)) s.pre_subscriptions)
      × (t.active_subscriptions ≡ s.active_subscriptions)
unfolding return_service_logs
return_service_logs_lem sub s j c =
    let r = release_subscription s.active_service_subscriptions sub.key in
    rw (ask_upstream_lem r.1 (unsubscribe_service sub.key) _) (
      rw (release_flag s.active_service_subscriptions sub.key),
      count_of-release s.active_service_subscriptions sub.key j c,
      refl,
      refl,
    )
