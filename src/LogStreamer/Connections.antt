-- ===== src/LogStreamer/Connections.antt =====
-- apps/gateway/src/log-streamer-proxy/log-streamer-proxy.service.ts: the connections to the log
-- streamers: reconciliation with the discovered hosts, web sockets and their handlers, back-off.
pub mod Links
pub mod Invariant
pub mod Sending
pub mod Backoff
pub mod Stale
pub mod Reconcile
pub mod Shutdown
use nestjs_graphql_fastify_a.Common.{
  map, ℕ, suc, ◌+◌, ◌-◌, ◌*◌, ◌^◌, min, String, Bool, true, false, not, Option, none, some, List,
  [], ◌∷◌, ◌++◌, ◌==◌, nat_eq, if◌then◌else◌, lookup, insert, delete, contains, keys, set_from,
}
use nestjs_graphql_fastify_a.Common.Text.{to_text, template}
use nestjs_graphql_fastify_a.LogStreamer.State.{
  Frame, Connection, Socket, Timer, Service, connecting, open_, closing, closed, is_open, update,
  set_object, clear_timeout, send, subscribe, subscribe_service, ReadyState,
}

abbrev pub base_reconnect_ms : ℕ
base_reconnect_ms = 1000

abbrev pub max_reconnect_ms : ℕ
max_reconnect_ms = 30000

-- The constructor of `LogStreamerConnection`
pub new_connection : String → ℕ → Connection
new_connection host port = record {
  host = host;
  ws_url = template ("ws://" ∷ host ∷ ":" ∷ to_text port ∷ "/ws/logs" ∷ []);
  ws = none;
  reconnect_timeout = none;
  reconnect_attempts = 0;
}

-- `BASE_RECONNECT_MS * 2 ** (attempts - 1)`, at most `MAX_RECONNECT_MS`
pub backoff : ℕ → ℕ
backoff attempts = min (base_reconnect_ms * 2 ^ (attempts - 1)) max_reconnect_ms

-- `scheduleReconnect(conn)` for the connection object `o`
schedule_reconnect_of : ℕ → Connection → Service → Service
unfolding backoff
schedule_reconnect_of o conn s =
    if s.is_shutting_down
    then s
    else if contains conn.host (keys s.connections)
    then record s {
      objects = update s.objects o (record conn {
        reconnect_timeout = some s.next_timer;
        reconnect_attempts = conn.reconnect_attempts + 1;
      });
      timers =
          s.timers
          ++ record { id = s.next_timer; owner = o; delay = backoff (conn.reconnect_attempts + 1) }
            ∷ [];
      next_timer = suc s.next_timer;
    }
    else s

unfoldable pub schedule_reconnect : ℕ → Service → Service
unfolding schedule_reconnect_of
schedule_reconnect o s = elim (s.objects o) [
  | none ↦ s
  | some conn ↦ schedule_reconnect_of o conn s
]

-- `this.connections.set(host, new LogStreamerConnection(host, port))`
abbrev register : String → Service → Service
register host s = record s {
  connections = insert host s.next_object s.connections;
  objects = update s.objects s.next_object (new_connection host s.log_streamer_port);
  next_object = suc s.next_object;
}

-- `new WebSocket(url)` throws on some urls: the library's test, a parameter.
module _ (is_valid_url : String → Bool) where
  -- `connectWebSocket(conn)`
  connect_web_socket_of : ℕ → Connection → Service → Service
  connect_web_socket_of o conn s =
      if s.is_shutting_down
      then s
      else if is_valid_url conn.ws_url
      then record s {
        objects = update s.objects o (record conn { ws = some s.next_socket });
        sockets = update s.sockets s.next_socket (record { ready_state = connecting; owner = o });
        next_socket = suc s.next_socket;
      }
      else schedule_reconnect o s

  pub connect_web_socket : ℕ → Service → Service
  unfolding connect_web_socket_of
  connect_web_socket o s = elim (s.objects o) [
    | none ↦ s
    | some conn ↦ connect_web_socket_of o conn s
  ]

  -- The loop of `reconcileConnections` over the newly discovered hosts
  pub add_if_new : List String → String → Service → Service
  add_if_new current_hosts host s =
      if contains host current_hosts then s else connect_web_socket s.next_object (register host s)

  add_connections : List String → List String → Service → Service
  add_connections current_hosts [] s = s
  add_connections current_hosts (host ∷ hosts) s =
      add_connections current_hosts hosts (add_if_new current_hosts host s)

-- `closeConnection(conn)`
close_connection_of : ℕ → Connection → Service → Service
close_connection_of o conn s = record s {
  timers = elim conn.reconnect_timeout [ none ↦ s.timers | some t ↦ clear_timeout t s.timers ];
  close_requests = elim conn.ws [ none ↦ s.close_requests | some w ↦ s.close_requests ++ w ∷ [] ];
  objects = update s.objects o (record conn { reconnect_timeout = none; ws = none });
}

pub close_connection : ℕ → Service → Service
unfolding close_connection_of
close_connection o s = elim (s.objects o) [ none ↦ s | some conn ↦ close_connection_of o conn s ]

-- `this.connections.get(host)`, closed
close_host : String → Service → Service
unfolding close_connection
close_host host s = elim (lookup host s.connections) [ none ↦ s | some o ↦ close_connection o s ]

-- The loop of `reconcileConnections` over the hosts that it knew
pub remove_if_stale : List String → String → Service → Service
remove_if_stale discovered_hosts host s =
    if contains host discovered_hosts
    then s
    else (let t = close_host host s in record t { connections = delete host t.connections })

pub remove_stale : List String → List String → Service → Service
remove_stale discovered_hosts [] s = s
remove_stale discovered_hosts (host ∷ hosts) s =
    remove_stale discovered_hosts hosts (remove_if_stale discovered_hosts host s)

-- `reconcileConnections` after the discovery has answered with `hosts`. The test of
-- `isShuttingDown` stands before the discovery, so this part runs whatever happened meanwhile.
pub reconcile : (String → Bool) → List String → Service → Service
reconcile is_valid_url hosts s =
    let current_hosts = set_from [] (keys s.connections) in
    let discovered_hosts = set_from [] hosts in
    add_connections is_valid_url current_hosts discovered_hosts
      (remove_stale discovered_hosts current_hosts s)

-- `reconcileConnections` up to its call of the discovery
pub begin_reconcile : Service → Service
begin_reconcile s =
    if s.is_shutting_down then s else record s { pending_discoveries = s.pending_discoveries + 1 }

-- `onModuleInit` after the first reconciliation: the refresh interval is set.
pub on_module_init : Service → Service
on_module_init s = record s { dns_refresh_interval = true }

-- `onModuleDestroy`
close_all : List (String × ℕ) → Service → Service
close_all [] s = s
close_all ((host, o) ∷ cs) s = close_all cs (close_connection o s)

pub on_module_destroy : Service → Service
on_module_destroy s =
    let t =
      close_all s.connections
        (record s { is_shutting_down = true; dns_refresh_interval = false }) in
    record t { connections = [] }

-- `broadcastToAll(message)`: a connection is sent the frame if its socket is open.
send_if_open : Option ℕ → Frame → Service → Service
send_if_open none frame s = s
send_if_open (some w) frame s = if is_open (s.sockets w) then send w frame s else s

send_to : ℕ → Frame → Service → Service
unfolding send_if_open
send_to o frame s = elim (s.objects o) [ none ↦ s | some conn ↦ send_if_open conn.ws frame s ]

broadcast_over : List (String × ℕ) → Frame → Service → Service
broadcast_over [] frame s = s
broadcast_over ((host, o) ∷ cs) frame s = broadcast_over cs frame (send_to o frame s)

pub broadcast_to_all : Frame → Service → Service
broadcast_to_all frame s = broadcast_over s.connections frame s

-- The frames that a newly opened socket is sent: the active containers, then the services.
frames_for : Service → List Frame
frames_for s =
    map subscribe (keys s.active_subscriptions)
    ++ map subscribe_service (keys s.active_service_subscriptions)

send_all : ℕ → List Frame → Service → Service
send_all w [] s = s
send_all w (frame ∷ frames) s = send_all w frames (send w frame s)

-- The handler of `open` resets the attempts, then sends the frames on `conn.ws!`, the object's
-- socket at that time: a frame to send and no socket is a TypeError that nobody catches, `none`.
resume : Option ℕ → List Frame → Service → Option Service
resume (some w) frames s = some (send_all w frames s)
resume none [] s = some s
resume none (_ ∷ _) s = none

on_open_of : ℕ → Connection → Service → Option Service
on_open_of o conn s =
    resume conn.ws (frames_for s) (set_object o (record conn { reconnect_attempts = 0 }) s)

pub on_open : ℕ → Service → Option Service
unfolding on_open_of
on_open w s = elim (s.sockets w) [
  | none ↦ some s
  | some socket ↦ elim (s.objects socket.owner) [
    | none ↦ some s
    | some conn ↦ on_open_of socket.owner conn s
  ]
]

-- The handler of `close`
pub on_close : ℕ → Service → Service
on_close w s = elim (s.sockets w) [ none ↦ s | some socket ↦ schedule_reconnect socket.owner s ]

-- A pending timer of `scheduleReconnect` fires.
pub on_timeout : (String → Bool) → Timer → Service → Service
on_timeout is_valid_url timer s =
    connect_web_socket is_valid_url timer.owner
      (record s { timers = clear_timeout timer.id s.timers })
