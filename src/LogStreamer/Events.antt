-- ===== src/LogStreamer/Events.antt =====
-- apps/gateway/src/log-streamer-proxy/log-streamer-proxy.service.ts: everything that can happen to
-- the service, one event at a time, as the event loop runs it.
pub mod Soundness
pub mod Quiet
use nestjs_graphql_fastify_a.Common.{
  ℕ, suc, ◌-◌, String, Bool, Option, none, some, List, [], ◌∷◌, ◌==◌, nat_eq, if◌then◌else◌, find,
  ◌≡◌,
}
use nestjs_graphql_fastify_a.LogStreamer.State.{Service, Socket, ReadyState, update}
use nestjs_graphql_fastify_a.LogStreamer.Subscribers.{
  Subscriber, subscribe_to_logs, subscribe_to_service_logs, return_logs, return_service_logs,
}
use nestjs_graphql_fastify_a.LogStreamer.Connections.{
  begin_reconcile, reconcile, on_module_init, on_module_destroy, on_open, on_close, on_timeout,
}

pub data Event : Type 0 where
  refreshes initialises destroys : Event
  discovers : List String → Event
  ready : ℕ → ReadyState → Event
  opens closes fires : ℕ → Event
  subscribes subscribes_service : String → Option ℕ → Event
  returns returns_service : Subscriber → Event

-- The library moves a socket to another `readyState`.
set_ready : ℕ → ReadyState → Service → Service
set_ready w state s = elim (s.sockets w) [
  | none ↦ s
  | some socket ↦ record s { sockets = update s.sockets w (record socket { ready_state = state }) }
]

-- An answer of the discovery, for a reconciliation that waits for one.
discover : (String → Bool) → List String → Service → Service
discover is_valid_url hosts s =
    if s.pending_discoveries == 0
    then s
    else reconcile is_valid_url hosts (record s { pending_discoveries = s.pending_discoveries - 1 })

-- A timer that is still pending fires.
fire : (String → Bool) → ℕ → Service → Service
fire is_valid_url t s = elim (find (λ timer. timer.id == t) s.timers) [
  | none ↦ s
  | some timer ↦ on_timeout is_valid_url timer s
]

-- `none` is an exception that nobody catches.
unfoldable pub step : (String → Bool) → Service → Event → Option Service
unfolding set_ready discover fire
step v s refreshes = some (begin_reconcile s)
step v s initialises = some (on_module_init s)
step v s destroys = some (on_module_destroy s)
step v s (discovers hosts) = some (discover v hosts s)
step v s (ready w state) = some (set_ready w state s)
step v s (opens w) = on_open w s
step v s (closes w) = some (on_close w s)
step v s (fires t) = some (fire v t s)
step v s (subscribes id pre) = some (subscribe_to_logs id pre s).0
step v s (subscribes_service name pre) = some (subscribe_to_service_logs name pre s).0
step v s (returns sub) = some (return_logs sub s)
step v s (returns_service sub) = some (return_service_logs sub s)

-- A history of the service.
pub data Run (v : String → Bool) (s : Service) : Service → Type 0 where
  here : Run v s s
  next : {t u : Service} → Run v s t → (e : Event) → step v t e ≡ some u → Run v s u
