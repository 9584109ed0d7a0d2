-- ===== src/LogStreamer.antt =====
-- apps/gateway/src/log-streamer-proxy/log-streamer-proxy.service.ts: the gateway's proxy of the
-- log streamers, a module for each of its concerns.
pub mod State
pub mod Subscriptions
pub mod Connections
pub mod Subscribers
pub mod Events
pub mod Messages
pub mod Queries
mod Tests
