-- ===== src/LogStreamer/Connections/Stale.antt =====
-- A connection object that a reconciliation dropped, and whose host is registered again before the
-- close event of its socket comes.
use nestjs_graphql_fastify_a.Common.{ℕ, suc, String, Bool, some, [], ◌∷◌, nat_eq, string_eq}
use nestjs_graphql_fastify_a.LogStreamer.State.{Connection, Service, Socket, connecting, update}
use nestjs_graphql_fastify_a.LogStreamer.Connections.{
  new_connection, register, close_connection_of, reconcile,
}

-- A service with one registered connection
abbrev pub with_one : String → ℕ → Service → Service
with_one host o s = record s { connections = (host, o) ∷ [] }

-- The state after the connection object was closed and dropped
abbrev dropped : ℕ → Connection → Service → Service
dropped o conn s = record (close_connection_of o conn s) { connections = [] }

-- The state after the host was registered again
abbrev renewed : String → Service → Service
renewed host s = record (register host s) {
  objects =
      update (register host s).objects s.next_object
        (record (new_connection host s.log_streamer_port) { ws = some s.next_socket });
  sockets =
      update s.sockets s.next_socket (record { ready_state = connecting; owner = s.next_object });
  next_socket = suc s.next_socket;
}

-- One answer of the name lookup without the host and then one with it again
abbrev pub come_back : (String → Bool) → String → Service → Service
come_back v host s = reconcile v (host ∷ []) (reconcile v [] s)

module _ (v : String → Bool) (host : String) (o w : ℕ) (k : Socket) (conn : Connection)
    (s : Service) where
  abbrev renewed_now : Service
  renewed_now = renewed host (dropped o conn (with_one host o s))
