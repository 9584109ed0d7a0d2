-- ===== src/LogStreamer/Connections/Invariant.antt =====
-- The operations of the connections keep them well linked; those that a handler starts are in Handlers.
pub mod Handlers
use nestjs_graphql_fastify_a.Common.{
  ℕ, String, Bool, true, false, Option, none, some, List, [], ◌∷◌, contains, keys, set_from, ◌≡◌,
  refl, lookup, inl, inr, Option-cases, arith, if_elim,
}
use nestjs_graphql_fastify_a.LogStreamer.State.{
  Connection, Timer, Service, Frame, clear_timeout, is_open,
}
use nestjs_graphql_fastify_a.LogStreamer.Connections.Links.{
  IsSound, Linked, set-Linked, open-Linked, timer-Linked, clear-Linked, register-Linked,
  unregister-Linked, forget-Linked,
}
use nestjs_graphql_fastify_a.LogStreamer.Connections.{
  begin_reconcile, on_module_init, schedule_reconnect_of, schedule_reconnect, connect_web_socket_of,
  connect_web_socket, register, add_if_new, remove_if_stale, add_connections, close_connection_of,
  close_connection, close_host, remove_stale, reconcile, close_all, on_module_destroy, send_if_open,
  send_to, broadcast_over, broadcast_to_all, send_all, on_open_of, on_open, resume, on_close,
  on_timeout, new_connection, frames_for,
}

schedule_reconnect_of-IsSound :
    (o : ℕ) (conn : Connection) (s : Service)
    → s.objects o ≡ some conn
    → IsSound s
    → IsSound (schedule_reconnect_of o conn s)
unfolding schedule_reconnect_of
schedule_reconnect_of-IsSound o conn s e l =
    if_elim IsSound s.is_shutting_down (λ _. l)
      λ _.
        if_elim IsSound (contains conn.host (keys s.connections))
          (λ _. record {
            links = timer-Linked _ (set-Linked o conn _ l.links e refl (inl refl)) (ground arith);
            counted = l.counted;
            counted_services = l.counted_services;
          })
          (λ _. l)

pub schedule_reconnect-IsSound :
    (o : ℕ) (s : Service) → IsSound s → IsSound (schedule_reconnect o s)
unfolding schedule_reconnect
schedule_reconnect-IsSound o s l = elim (Option-cases (s.objects o)) [
  | inl missing ↦ rw (missing, schedule_reconnect) l
  | inr (conn, e) ↦ rw (e, schedule_reconnect) (schedule_reconnect_of-IsSound o conn s e l)
]

module _ (v : String → Bool) where
  connect_web_socket_of-IsSound :
      (o : ℕ) (conn : Connection) (s : Service)
      → s.objects o ≡ some conn
      → IsSound s
      → IsSound (connect_web_socket_of v o conn s)
  unfolding connect_web_socket_of
  connect_web_socket_of-IsSound o conn s e l =
      if_elim IsSound s.is_shutting_down (λ _. l)
        λ _.
          if_elim IsSound (v conn.ws_url)
            (λ _. record {
              links = open-Linked o conn _ l.links e refl;
              counted = l.counted;
              counted_services = l.counted_services;
            })
            (λ _. schedule_reconnect-IsSound o s l)

  pub connect_web_socket-IsSound :
      (o : ℕ) (s : Service) → IsSound s → IsSound (connect_web_socket v o s)
  unfolding connect_web_socket
  connect_web_socket-IsSound o s l = elim (Option-cases (s.objects o)) [
    | inl missing ↦ rw (missing, connect_web_socket) l
    | inr (conn, e) ↦ rw (e, connect_web_socket) (connect_web_socket_of-IsSound o conn s e l)
  ]

  pub add_if_new-IsSound :
      (current : List String) (host : String) (s : Service)
      → IsSound s
      → IsSound (add_if_new v current host s)
  unfolding add_if_new new_connection
  add_if_new-IsSound current host s l =
      if_elim IsSound (contains host current) (λ _. l)
        λ _. connect_web_socket-IsSound s.next_object (register host s) (record {
          links = register-Linked host (new_connection host s.log_streamer_port) l.links refl refl;
          counted = l.counted;
          counted_services = l.counted_services;
        })

  add_connections-IsSound :
      (current hosts : List String) (s : Service)
      → IsSound s
      → IsSound (add_connections v current hosts s)
  unfolding add_connections
  add_connections-IsSound current [] s l = l
  add_connections-IsSound current (host ∷ hosts) s l =
      add_connections-IsSound current hosts _ (add_if_new-IsSound current host s l)

close_connection_of-IsSound :
    (o : ℕ) (conn : Connection) (s : Service)
    → s.objects o ≡ some conn
    → IsSound s
    → IsSound (close_connection_of o conn s)
unfolding close_connection_of
close_connection_of-IsSound o conn s e l = record {
  links = cleared conn.reconnect_timeout (set-Linked o conn _ l.links e refl (inr refl));
  counted = l.counted;
  counted_services = l.counted_services;
}
  where
    cleared :
        (timeout : Option ℕ) {os : ℕ → Option Connection}
        → Linked s.connections os s.next_object s.sockets s.next_socket s.timers
        → Linked s.connections os s.next_object s.sockets s.next_socket
            (elim timeout [ none ↦ s.timers | some t ↦ clear_timeout t s.timers ])
    cleared none h = h
    cleared (some t) h = clear-Linked t h

pub close_connection-IsSound : (o : ℕ) (s : Service) → IsSound s → IsSound (close_connection o s)
unfolding close_connection
close_connection-IsSound o s l = elim (Option-cases (s.objects o)) [
  | inl missing ↦ rw (missing, close_connection) l
  | inr (conn, e) ↦ rw (e, close_connection) (close_connection_of-IsSound o conn s e l)
]

close_host-IsSound : (host : String) (s : Service) → IsSound s → IsSound (close_host host s)
unfolding close_host
close_host-IsSound host s l = elim (Option-cases (lookup host s.connections)) [
  | inl missing ↦ rw (missing, close_host) l
  | inr (o, e) ↦ rw (e, close_host) (close_connection-IsSound o s l)
]

pub remove_if_stale-IsSound :
    (discovered : List String) (host : String) (s : Service)
    → IsSound s
    → IsSound (remove_if_stale discovered host s)
unfolding remove_if_stale
remove_if_stale-IsSound discovered host s l =
    let c = close_host-IsSound host s l in
    if_elim IsSound (contains host discovered) (λ _. l)
      λ _. record {
        links = unregister-Linked host c.links;
        counted = c.counted;
        counted_services = c.counted_services;
      }

pub remove_stale-IsSound :
    (discovered hosts : List String) (s : Service)
    → IsSound s
    → IsSound (remove_stale discovered hosts s)
unfolding remove_stale
remove_stale-IsSound discovered [] s l = l
remove_stale-IsSound discovered (host ∷ hosts) s l =
    remove_stale-IsSound discovered hosts _ (remove_if_stale-IsSound discovered host s l)

pub reconcile-IsSound :
    (v : String → Bool) (hosts : List String) (s : Service)
    → IsSound s
    → IsSound (reconcile v hosts s)
unfolding reconcile
reconcile-IsSound v hosts s l =
    let current = set_from [] (keys s.connections) in
    let discovered = set_from [] hosts in
    add_connections-IsSound v current discovered _ (remove_stale-IsSound discovered current s l)

close_all-IsSound : (cs : List (String × ℕ)) (s : Service) → IsSound s → IsSound (close_all cs s)
unfolding close_all
close_all-IsSound [] s l = l
close_all-IsSound ((host, o) ∷ cs) s l =
    close_all-IsSound cs (close_connection o s) (close_connection-IsSound o s l)

pub on_module_destroy-IsSound : (s : Service) → IsSound s → IsSound (on_module_destroy s)
unfolding on_module_destroy
on_module_destroy-IsSound s l = record {
  links = forget-Linked c.links;
  counted = c.counted;
  counted_services = c.counted_services;
}
  where
    down : Service
    down = record s { is_shutting_down = true; dns_refresh_interval = false }

    c : IsSound (close_all s.connections down)
    c =
        close_all-IsSound s.connections down
          (record { links = l.links; counted = l.counted; counted_services = l.counted_services })

pub begin_reconcile-IsSound : (s : Service) → IsSound s → IsSound (begin_reconcile s)
unfolding begin_reconcile
begin_reconcile-IsSound s l =
    if_elim IsSound s.is_shutting_down (λ _. l)
      λ _. record { links = l.links; counted = l.counted; counted_services = l.counted_services }

pub on_module_init-IsSound : (s : Service) → IsSound s → IsSound (on_module_init s)
unfolding on_module_init
on_module_init-IsSound s l = record {
  links = l.links;
  counted = l.counted;
  counted_services = l.counted_services;
}
