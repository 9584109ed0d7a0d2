-- ===== src/LogStreamer/Tests.antt =====
-- The theorems about the gateway's proxy at concrete inputs, and runs of it.
use nestjs_graphql_fastify_a.Common.{
  ℕ, String, Bool, true, false, Option, none, some, List, [], ◌∷◌, map, if◌then◌else◌, contains,
  keys, lookup, ◌==◌, string_eq, nat_eq, ◌≡◌, refl, arith, eq_iff, All,
}
use nestjs_graphql_fastify_a.Common.Settled.{Settled, fulfilled}
use nestjs_graphql_fastify_a.LogStreamer.State.{
  Service, Connection, Socket, open_, closed, subscribe, update,
}
use nestjs_graphql_fastify_a.LogStreamer.Subscriptions.Balance.{count_of, IsCounted}
use nestjs_graphql_fastify_a.LogStreamer.Connections.{reconcile, on_module_destroy, on_close}
use nestjs_graphql_fastify_a.LogStreamer.Connections.Links.{IsSound}
use nestjs_graphql_fastify_a.LogStreamer.Subscribers.Streaming.{
  streams, Visit, comes, ends, visit_all, alive_after, IsTold, streams-alive,
}
use nestjs_graphql_fastify_a.LogStreamer.Connections.Reconcile.{reconcile_hosts}
use nestjs_graphql_fastify_a.LogStreamer.Connections.Sending.{open_sockets}
use nestjs_graphql_fastify_a.LogStreamer.Subscribers.{Subscriber, subscribe_to_logs}
use nestjs_graphql_fastify_a.LogStreamer.Subscribers.Frames.{subscribe_to_logs_lem}
use nestjs_graphql_fastify_a.LogStreamer.Events.{here, next, step, closes, destroys}
use nestjs_graphql_fastify_a.LogStreamer.Events.Soundness.{Run-IsSound}
use nestjs_graphql_fastify_a.LogStreamer.Events.Quiet.{destroyed-IsQuiet}
use nestjs_graphql_fastify_a.LogStreamer.Messages.{WsLogMessage, on_message}
use nestjs_graphql_fastify_a.LogStreamer.Messages.Routing.{on_message_lem, topic_of, IsAddressed}
use nestjs_graphql_fastify_a.LogStreamer.Queries.{ContainerStats}

abbrev any_url : String → Bool
any_url _ = true

abbrev conn_of : String → Option ℕ → Connection
conn_of host ws = record {
  host = host;
  ws_url = "ws://h:1/ws/logs";
  ws = ws;
  reconnect_timeout = none;
  reconnect_attempts = 2;
}

-- Object 0 was dropped; host "a" is registered again with object 1, whose socket is open.
abbrev objects : ℕ → Option Connection
objects = update (update (λ _. none) 0 (conn_of "a" none)) 1 (conn_of "a" (some 1))

abbrev sockets : ℕ → Option Socket
sockets =
    update (update (λ _. none) 0 (record { ready_state = closed; owner = 0 })) 1
      (record { ready_state = open_; owner = 1 })

abbrev service : Service
service = record {
  log_streamer_port = 4003;
  connections = ("a", 1) ∷ [];
  objects = objects;
  next_object = 2;
  sockets = sockets;
  next_socket = 2;
  timers = [];
  next_timer = 0;
  dns_refresh_interval = true;
  is_shutting_down = false;
  active_subscriptions = ("c1", 2) ∷ [];
  active_service_subscriptions = ("s1", 1) ∷ [];
  pre_subscriptions = 7 ∷ [];
  sent = [];
  close_requests = [];
  pending_discoveries = 0;
}

counted : IsCounted service.active_subscriptions
unfolding lookup keys contains
counted = record { distinct = (refl, tt); positive = λ key. ground arith }

services-IsCounted : IsCounted service.active_service_subscriptions
unfolding lookup keys contains
services-IsCounted = record { distinct = (refl, tt); positive = λ key. ground arith }

sound : IsSound service
unfolding lookup keys contains
sound = record {
  links = record {
    distinct = (refl, tt);
    registered = λ host o e. ground (arith, eq_iff "a" host);
    held = λ o h. ground arith;
    made = λ w h. ground arith;
    owned = λ w k e. ground arith;
    holds_own = λ o conn w e h. ground arith;
    timed = tt;
  };
  counted = counted;
  counted_services = services-IsCounted;
}

abbrev visits : List Visit
visits =
    comes "c2" 8
    ∷ comes "c2" 9
    ∷ ends (record { key = "c2"; pre_sub_id = 8 })
    ∷ ends (record { key = "c1"; pre_sub_id = 7 })
    ∷ []

c2-IsTold : IsTold 1 "c2" service
unfolding open_sockets streams lookup
c2-IsTold = record { counted = counted; is_open = refl; told = refl }

streams-alive_example :
    (streams 1 "c2" false (visit_all visits service).sent ≡ true)
    × (count_of "c2" (visit_all visits service).active_subscriptions ≡ 1)
unfolding alive_after lookup
streams-alive_example = streams-alive 1 "c2" visits service c2-IsTold

reconcile_hosts_example :
    contains "b" (keys (reconcile any_url ("b" ∷ "b" ∷ []) service).connections) ≡ true
unfolding contains
reconcile_hosts_example = reconcile_hosts any_url ("b" ∷ "b" ∷ []) service "b" sound

subscribe_to_logs_lem_example :
    let t = (subscribe_to_logs "c2" (some 8) service).0 in
    (t.sent ≡ (1, subscribe "c2") ∷ [])
    × (count_of "c2" t.active_subscriptions ≡ 1)
    × (t.pre_subscriptions ≡ 8 ∷ 7 ∷ [])
    × (t.active_service_subscriptions ≡ service.active_service_subscriptions)
    × (subscribe_to_logs "c2" none service ≡ (service, none))
unfolding lookup open_sockets
subscribe_to_logs_lem_example = subscribe_to_logs_lem "c2" 8 service "c2"

abbrev subscriber : String → Subscriber
subscriber key = record { key = key; pre_sub_id = 7 }

Run-IsSound_example : IsSound (on_module_destroy (on_close 1 service))
unfolding step
Run-IsSound_example =
    Run-IsSound {v = any_url} sound (next (next here (closes 1) refl) destroys refl)

destroyed-IsQuiet_example :
    ((on_close 1 (on_module_destroy service)).is_shutting_down ≡ true)
    × ((on_close 1 (on_module_destroy service)).next_socket ≡ 2)
    × ((on_close 1 (on_module_destroy service)).next_timer ≡ 0)
unfolding step
destroyed-IsQuiet_example = destroyed-IsQuiet any_url service _ (next here (closes 1) refl)

abbrev line : WsLogMessage
line = record {
  type = some "log";
  container_id = some "c1";
  service_name = some "s1";
  timestamp = none;
  message = some "hello";
  stream = some "stdout";
  event = none;
}

on_message_lem_example :
    (map topic_of (on_message (some line)) ≡ "CONTAINER_LOG.c1" ∷ "SERVICE_LOG.s1" ∷ [])
    × All IsAddressed (on_message (some line))
    × (on_message none ≡ [])
on_message_lem_example = on_message_lem line

abbrev stats_of : String → ℕ → ContainerStats
stats_of id n = record { id = id; name = "n"; cpu_percent = n; mem_usage = n; mem_limit = 9 }

abbrev answers : String → Settled (List ContainerStats)
answers url =
    if url == "http://a:1/api/stats?ids=x,y"
    then fulfilled (stats_of "x" 1 ∷ [])
    else fulfilled (stats_of "x" 2 ∷ stats_of "y" 2 ∷ [])
