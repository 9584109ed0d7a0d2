-- ===== src/LogStreamer/Connections/Shutdown.antt =====
-- What the operations of the connections do once the service shuts down.
use nestjs_graphql_fastify_a.Common.{
  ℕ, String, Bool, true, false, Option, none, some, List, [], ◌∷◌, contains, keys, set_from, ◌≡◌,
  refl, lookup, Option-cases, if_elim, arith, inl, inr,
}
use nestjs_graphql_fastify_a.LogStreamer.State.{Timer, Service, Frame, clear_timeout}
use nestjs_graphql_fastify_a.LogStreamer.Connections.Invariant.Handlers.{Ensures}
use nestjs_graphql_fastify_a.LogStreamer.Connections.{
  register, begin_reconcile, on_module_init, schedule_reconnect_of, schedule_reconnect,
  connect_web_socket_of, connect_web_socket, add_if_new, remove_if_stale, add_connections,
  close_connection_of, close_connection, close_host, remove_stale, reconcile, close_all,
  on_module_destroy, send_if_open, send_to, broadcast_over, broadcast_to_all, send_all, on_open_of,
  on_open, resume, on_close, on_timeout, frames_for,
}

-- The service shuts down, and has made so many sockets and timers.
pub record IsQuiet (sockets timers : ℕ) (s : Service) : Type 0 where
  pub down : s.is_shutting_down ≡ true
  pub same_sockets : s.next_socket ≡ sockets
  pub same_timers : s.next_timer ≡ timers

module _ (m n : ℕ) where
  pub schedule_reconnect-IsQuiet :
      (o : ℕ) (s : Service) → IsQuiet m n s → IsQuiet m n (schedule_reconnect o s)
  unfolding schedule_reconnect schedule_reconnect_of
  schedule_reconnect-IsQuiet o s q = ground arith

  pub connect_web_socket-IsQuiet :
      (v : String → Bool) (o : ℕ) (s : Service)
      → IsQuiet m n s
      → IsQuiet m n (connect_web_socket v o s)
  unfolding connect_web_socket connect_web_socket_of
  connect_web_socket-IsQuiet v o s q = ground arith

  add_if_new-IsQuiet :
      (v : String → Bool) (current : List String) (host : String) (s : Service)
      → IsQuiet m n s
      → IsQuiet m n (add_if_new v current host s)
  unfolding add_if_new
  add_if_new-IsQuiet v current host s q =
      if_elim (IsQuiet m n) (contains host current) (λ _. q)
        λ _.
          connect_web_socket-IsQuiet v s.next_object (register host s)
            (record { down = q.down; same_sockets = q.same_sockets; same_timers = q.same_timers })

  add_connections-IsQuiet :
      (v : String → Bool) (current hosts : List String) (s : Service)
      → IsQuiet m n s
      → IsQuiet m n (add_connections v current hosts s)
  unfolding add_connections
  add_connections-IsQuiet v current [] s q = q
  add_connections-IsQuiet v current (host ∷ hosts) s q =
      add_connections-IsQuiet v current hosts _ (add_if_new-IsQuiet v current host s q)

  pub close_connection-IsQuiet :
      (o : ℕ) (s : Service) → IsQuiet m n s → IsQuiet m n (close_connection o s)
  unfolding close_connection close_connection_of
  close_connection-IsQuiet o s q = ground arith

  close_host-IsQuiet :
      (host : String) (s : Service) → IsQuiet m n s → IsQuiet m n (close_host host s)
  unfolding close_host
  close_host-IsQuiet host s q = elim (Option-cases (lookup host s.connections)) [
    | inl missing ↦ rw (missing, close_host) q
    | inr (o, e) ↦ rw (e, close_host) (close_connection-IsQuiet o s q)
  ]

  remove_if_stale-IsQuiet :
      (discovered : List String) (host : String) (s : Service)
      → IsQuiet m n s
      → IsQuiet m n (remove_if_stale discovered host s)
  unfolding remove_if_stale
  remove_if_stale-IsQuiet discovered host s q =
      let c = close_host-IsQuiet host s q in
      if_elim (IsQuiet m n) (contains host discovered) (λ _. q)
        λ _. record { down = c.down; same_sockets = c.same_sockets; same_timers = c.same_timers }

  remove_stale-IsQuiet :
      (discovered hosts : List String) (s : Service)
      → IsQuiet m n s
      → IsQuiet m n (remove_stale discovered hosts s)
  unfolding remove_stale
  remove_stale-IsQuiet discovered [] s q = q
  remove_stale-IsQuiet discovered (host ∷ hosts) s q =
      remove_stale-IsQuiet discovered hosts _ (remove_if_stale-IsQuiet discovered host s q)

  pub reconcile-IsQuiet :
      (v : String → Bool) (hosts : List String) (s : Service)
      → IsQuiet m n s
      → IsQuiet m n (reconcile v hosts s)
  unfolding reconcile
  reconcile-IsQuiet v hosts s q =
      let current = set_from [] (keys s.connections) in
      let discovered = set_from [] hosts in
      add_connections-IsQuiet v current discovered _ (remove_stale-IsQuiet discovered current s q)

  close_all-IsQuiet :
      (cs : List (String × ℕ)) (s : Service) → IsQuiet m n s → IsQuiet m n (close_all cs s)
  unfolding close_all
  close_all-IsQuiet [] s q = q
  close_all-IsQuiet ((host, o) ∷ cs) s q =
      close_all-IsQuiet cs (close_connection o s) (close_connection-IsQuiet o s q)

  send_to-IsQuiet :
      (o : ℕ) (frame : Frame) (s : Service) → IsQuiet m n s → IsQuiet m n (send_to o frame s)
  unfolding send_to send_if_open
  send_to-IsQuiet o frame s q = ground arith

  broadcast_over-IsQuiet :
      (cs : List (String × ℕ)) (frame : Frame) (s : Service)
      → IsQuiet m n s
      → IsQuiet m n (broadcast_over cs frame s)
  unfolding broadcast_over
  broadcast_over-IsQuiet [] frame s q = q
  broadcast_over-IsQuiet ((host, o) ∷ cs) frame s q =
      broadcast_over-IsQuiet cs frame (send_to o frame s) (send_to-IsQuiet o frame s q)

  pub broadcast_to_all-IsQuiet :
      (frame : Frame) (s : Service) → IsQuiet m n s → IsQuiet m n (broadcast_to_all frame s)
  unfolding broadcast_to_all
  broadcast_to_all-IsQuiet frame s q = broadcast_over-IsQuiet s.connections frame s q

  send_all-IsQuiet :
      (w : ℕ) (frames : List Frame) (s : Service)
      → IsQuiet m n s
      → IsQuiet m n (send_all w frames s)
  unfolding send_all
  send_all-IsQuiet w [] s q = q
  send_all-IsQuiet w (frame ∷ frames) s q =
      send_all-IsQuiet w frames _
        (record { down = q.down; same_sockets = q.same_sockets; same_timers = q.same_timers })

  resume-IsQuiet :
      (ws : Option ℕ) (frames : List Frame) (s : Service)
      → IsQuiet m n s
      → Ensures (IsQuiet m n) (resume ws frames s)
  unfolding resume
  resume-IsQuiet (some w) frames s q = send_all-IsQuiet w frames s q
  resume-IsQuiet none [] s q = q
  resume-IsQuiet none (_ ∷ _) s q = tt

  pub on_open-IsQuiet : (w : ℕ) (s : Service) → IsQuiet m n s → Ensures (IsQuiet m n) (on_open w s)
  unfolding on_open on_open_of
  on_open-IsQuiet w s q = elim (Option-cases (s.sockets w)) [
    | inl missing ↦ rw (missing, on_open) q
    | inr (k, made) ↦ elim (Option-cases (s.objects k.owner)) [
      | inl missing ↦ rw (made, on_open) (rw (missing, on_open) q)
      | inr (conn, e) ↦
          rw (made, on_open)
            (rw e (
              resume-IsQuiet conn.ws (frames_for s) _ (record {
                down = q.down;
                same_sockets = q.same_sockets;
                same_timers = q.same_timers;
              })))
    ]
  ]

  pub on_close-IsQuiet : (w : ℕ) (s : Service) → IsQuiet m n s → IsQuiet m n (on_close w s)
  unfolding on_close
  on_close-IsQuiet w s q = elim (Option-cases (s.sockets w)) [
    | inl missing ↦ rw (missing, on_close) q
    | inr (k, e) ↦ rw (e, on_close) (schedule_reconnect-IsQuiet k.owner s q)
  ]

  pub on_timeout-IsQuiet :
      (v : String → Bool) (timer : Timer) (s : Service)
      → IsQuiet m n s
      → IsQuiet m n (on_timeout v timer s)
  unfolding on_timeout
  on_timeout-IsQuiet v timer s q =
      connect_web_socket-IsQuiet v timer.owner
        (record s { timers = clear_timeout timer.id s.timers })
        (record { down = q.down; same_sockets = q.same_sockets; same_timers = q.same_timers })

  pub begin_reconcile-IsQuiet : (s : Service) → IsQuiet m n s → IsQuiet m n (begin_reconcile s)
  unfolding begin_reconcile
  begin_reconcile-IsQuiet s q = ground arith

  pub on_module_init-IsQuiet : (s : Service) → IsQuiet m n s → IsQuiet m n (on_module_init s)
  unfolding on_module_init
  on_module_init-IsQuiet s q = ground arith

-- `onModuleDestroy` makes no socket and no timer, forgets every connection, and shuts down.
pub on_module_destroy_lem :
    (s : Service)
    → IsQuiet s.next_socket s.next_timer (on_module_destroy s)
      × ((on_module_destroy s).connections ≡ [])
unfolding on_module_destroy
on_module_destroy_lem s =
    let q =
      close_all-IsQuiet s.next_socket s.next_timer s.connections
        (record s { is_shutting_down = true; dns_refresh_interval = false })
        (record { down = refl; same_sockets = refl; same_timers = refl }) in
    (record { down = q.down; same_sockets = q.same_sockets; same_timers = q.same_timers }, refl)
