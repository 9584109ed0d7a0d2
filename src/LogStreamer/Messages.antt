-- ===== src/LogStreamer/Messages.antt =====
-- apps/gateway/src/log-streamer-proxy/log-streamer-proxy.service.ts: the handler of the `message`
-- event, from the parsed message to what is published.
pub mod Routing
use nestjs_graphql_fastify_a.Common.{
  String, Bool, true, false, Option, none, some, List, [], ◌∷◌, ◌++◌, ◌==◌, string_eq,
  if◌then◌else◌, or_default, ◌&&◌,
}
use nestjs_graphql_fastify_a.Common.Text.{truthy?, template}

-- `WSLogMessage`, as it arrives: any field may be missing.
pub record WsLogMessage : Type 0 where
  pub type : Option String
  pub container_id : Option String
  pub service_name : Option String
  pub timestamp : Option String
  pub message : Option String
  pub stream : Option String
  pub event : Option String

-- `ContainerLogPayload` and `ServiceLogPayload`, each with the topic that it is published on.
pub data Publication : Type 0 where
  container_log :
      (topic container_id : String) (timestamp message stream : Option String) → Publication
  service_log :
      (topic container_id service_name : String) (timestamp message stream event : Option String)
      → Publication

abbrev pub log_stream_topic : String → String
log_stream_topic id = template ("CONTAINER_LOG" ∷ "." ∷ id ∷ [])

abbrev pub service_log_topic : String → String
service_log_topic name = template ("SERVICE_LOG" ∷ "." ∷ name ∷ [])

-- `value === text`
abbrev pub is_text : Option String → String → Bool
is_text none t = false
is_text (some s) t = s == t

publish_log : WsLogMessage → List Publication
publish_log m =
    let id = or_default m.container_id "" in
    let name = or_default m.service_name "" in
    container_log (log_stream_topic id) id m.timestamp m.message m.stream
    ∷ (if truthy? m.service_name
        then service_log (service_log_topic name) id name m.timestamp m.message m.stream none ∷ []
        else [])

publish_event : WsLogMessage → List Publication
publish_event m =
    let name = or_default m.service_name "" in
    service_log (service_log_topic name) (or_default m.container_id "") name m.timestamp m.message
      (some "event") m.event
    ∷ []

-- `none` is a message that `JSON.parse` refuses, or that is no object. An error is only logged.
pub on_message : Option WsLogMessage → List Publication
unfolding publish_log publish_event
on_message none = []
on_message (some m) =
    if is_text m.type "log" && truthy? m.container_id
    then publish_log m
    else if is_text m.type "service_event" && truthy? m.service_name
    then publish_event m
    else []
