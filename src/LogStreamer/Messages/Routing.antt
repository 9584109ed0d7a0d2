-- ===== src/LogStreamer/Messages/Routing.antt =====
-- Where a message of a log streamer is published.
use nestjs_graphql_fastify_a.Common.{
  String, Bool, true, false, Option, none, some, [], ◌∷◌, ◌++◌, string_eq, if◌then◌else◌,
  or_default, ◌&&◌, ◌||◌, map, All, ◌≡◌, refl, arith, eq_iff,
}
use nestjs_graphql_fastify_a.Common.Text.{truthy?}
use nestjs_graphql_fastify_a.LogStreamer.Messages.{
  WsLogMessage, Publication, container_log, service_log, log_stream_topic, service_log_topic,
  is_text, on_message,
}

pub topic_of : Publication → String
topic_of (container_log topic _ _ _ _) = topic
topic_of (service_log topic _ _ _ _ _ _) = topic

-- A payload stands on the topic of the container or the service that it is about.
abbrev pub IsAddressed : Publication → Type 0
IsAddressed (container_log topic id _ _ _) = topic ≡ log_stream_topic id
IsAddressed (service_log topic _ name _ _ _ _) = topic ≡ service_log_topic name

-- What a message is, independently of the handler's branches.
abbrev pub is_container_line : WsLogMessage → Bool
is_container_line m = is_text m.type "log" && truthy? m.container_id

abbrev pub is_service_event : WsLogMessage → Bool
is_service_event m = is_text m.type "service_event" && truthy? m.service_name

abbrev pub is_service_line : WsLogMessage → Bool
is_service_line m = is_container_line m && truthy? m.service_name

-- A line of a container goes to the container's topic; a line of a service's container and an
-- event of a service go to the service's topic, once; nothing else is published, and nothing for
-- a text that does not parse. Every payload stands on the topic of its own container or service.
pub on_message_lem :
    (m : WsLogMessage)
    → (map topic_of (on_message (some m))
        ≡ (if is_container_line m then log_stream_topic (or_default m.container_id "") ∷ [] else [])
          ++ (if is_service_line m || is_service_event m
              then service_log_topic (or_default m.service_name "") ∷ []
              else []))
      × All IsAddressed (on_message (some m))
      × (on_message none ≡ [])
unfolding on_message topic_of
on_message_lem m = ground (arith, types_differ m.type)
  where
    types_differ : (t : Option String) → is_text t "log" ≡ true → is_text t "service_event" ≡ false
    types_differ none h = refl
    types_differ (some s) h =
        ground (arith, eq_iff s "log", eq_iff s "service_event", eq_iff "log" "service_event")
