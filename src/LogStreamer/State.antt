-- ===== src/LogStreamer/State.antt =====
-- apps/gateway/src/log-streamer-proxy/log-streamer-proxy.service.ts: the fields of
-- `LogStreamerProxyService` and `LogStreamerConnection`, with what its collaborators hold for it:
-- the sockets that it opened, its pending timers, the frames and payloads that it handed over.
use nestjs_graphql_fastify_a.Common.{
  ℕ, String, Bool, true, false, Option, none, some, List, [], ◌∷◌, ◌++◌, ◌==◌, nat_eq,
  if◌then◌else◌, filter, not,
}
use nestjs_graphql_fastify_a.LogStreamer.Subscriptions.{Subscriptions}

-- `JSON.stringify({ type, containerId | serviceName })`
pub data Frame : Type 0 where
  subscribe unsubscribe subscribe_service unsubscribe_service : String → Frame

-- `LogStreamerConnection`; a socket and a timer are named by a number. `httpUrl` is read nowhere.
pub record Connection : Type 0 where
  pub host : String
  pub ws_url : String
  pub ws : Option ℕ
  pub reconnect_timeout : Option ℕ
  pub reconnect_attempts : ℕ

pub data ReadyState : Type 0 where
  connecting open_ closing closed : ReadyState

-- `readyState === WebSocket.OPEN`
abbrev pub ready_is_open : ReadyState → Bool
ready_is_open open_ = true
ready_is_open _ = false

-- A socket of the `ws` library: its `readyState`, and the connection object that the handlers
-- which the service registered on it refer to.
pub record Socket : Type 0 where
  pub ready_state : ReadyState
  pub owner : ℕ

-- A pending `setTimeout` of `scheduleReconnect`: its id, the connection object, the delay.
pub record Timer : Type 0 where
  pub id : ℕ
  pub owner : ℕ
  pub delay : ℕ

-- Objects are shared: `connections` maps a host to an object, and a handler or a timer keeps its
-- object after the map has dropped it.
pub record Service : Type 0 where
  pub log_streamer_port : ℕ
  pub connections : List (String × ℕ)
  pub objects : ℕ → Option Connection
  pub next_object : ℕ
  pub sockets : ℕ → Option Socket
  pub next_socket : ℕ
  pub timers : List Timer
  pub next_timer : ℕ
  pub dns_refresh_interval : Bool
  pub is_shutting_down : Bool
  pub active_subscriptions : Subscriptions
  pub active_service_subscriptions : Subscriptions
  pub pre_subscriptions : List ℕ
  pub sent : List (ℕ × Frame)
  pub close_requests : List ℕ
  pub pending_discoveries : ℕ

-- One entry of a store of objects is written.
abbrev pub update {ℓ} : {A : Type ℓ} → (ℕ → Option A) → ℕ → A → ℕ → Option A
update f p v q = if p == q then some v else f q

abbrev pub set_object : ℕ → Connection → Service → Service
set_object o conn s = record s { objects = update s.objects o conn }

-- `clearTimeout`
abbrev pub clear_timeout : ℕ → List Timer → List Timer
clear_timeout t = filter (λ timer. not (timer.id == t))

-- `ws.send(frame)`
abbrev pub send : ℕ → Frame → Service → Service
send w frame s = record s { sent = s.sent ++ (w, frame) ∷ [] }

abbrev pub is_open : Option Socket → Bool
is_open none = false
is_open (some w) = ready_is_open w.ready_state
