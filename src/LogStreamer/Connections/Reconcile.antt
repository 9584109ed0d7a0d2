-- ===== src/LogStreamer/Connections/Reconcile.antt =====
-- What `reconcileConnections` does to the map of the connections.
use nestjs_graphql_fastify_a.Common.{
  ℕ, String, Bool, true, false, not, ◌&&◌, ◌||◌, Option, some, List, [], ◌∷◌, contains, keys,
  set_from, ◌≡◌, refl, sym, ◌∙◌, ap, lookup, insert, delete, Option-cases, if_elim, if◌then◌else◌,
  arith, inl, inr, string_eq, nat_eq, eq_iff, contains-insert, contains-delete, contains-set_from,
  lookup-insert, lookup-delete, ◌≢◌, is_some-lookup, is_some,
}
use nestjs_graphql_fastify_a.LogStreamer.State.{Connection, Service}
use nestjs_graphql_fastify_a.LogStreamer.Connections.Links.{IsSound, HasHost}
use nestjs_graphql_fastify_a.LogStreamer.Connections.Invariant.{
  remove_stale-IsSound, remove_if_stale-IsSound, add_if_new-IsSound,
}
use nestjs_graphql_fastify_a.LogStreamer.Connections.{
  register, add_if_new, remove_if_stale, schedule_reconnect_of, schedule_reconnect,
  connect_web_socket_of, connect_web_socket, add_connections, close_connection_of, close_connection,
  close_host, remove_stale, reconcile,
}

connections-connect_web_socket :
    (v : String → Bool) (o : ℕ) (s : Service)
    → (connect_web_socket v o s).connections ≡ s.connections
unfolding connect_web_socket connect_web_socket_of schedule_reconnect schedule_reconnect_of
connections-connect_web_socket v o s = ground arith

connections-close_host :
    (host : String) (s : Service) → (close_host host s).connections ≡ s.connections
unfolding close_host close_connection close_connection_of
connections-close_host host s = ground arith

connections-remove_if_stale :
    (discovered : List String) (host : String) (s : Service)
    → (remove_if_stale discovered host s).connections
      ≡ (if contains host discovered then s.connections else delete host s.connections)
unfolding remove_if_stale
connections-remove_if_stale discovered host s = ground (arith, connections-close_host host s)

connections-add_if_new :
    (v : String → Bool) (current : List String) (host : String) (s : Service)
    → (add_if_new v current host s).connections
      ≡ (if contains host current then s.connections else insert host s.next_object s.connections)
unfolding add_if_new
connections-add_if_new v current host s =
    ground (arith, connections-connect_web_socket v s.next_object (register host s))

contains-remove_stale :
    (j : String) (discovered hosts : List String) (s : Service)
    → IsSound s
    → contains j (keys (remove_stale discovered hosts s).connections)
      ≡ (contains j (keys s.connections) && (not (contains j hosts) || contains j discovered))
unfolding remove_stale contains
contains-remove_stale j discovered [] s l = ground arith
contains-remove_stale j discovered (host ∷ hosts) s l = ground (
  arith,
  eq_iff host j,
  connections-remove_if_stale discovered host s,
  contains-remove_stale j discovered hosts (remove_if_stale discovered host s)
      (remove_if_stale-IsSound discovered host s l),
  contains-delete j host s.connections l.links.distinct,
)

contains-add_connections :
    (v : String → Bool) (j : String) (current hosts : List String) (s : Service)
    → contains j (keys (add_connections v current hosts s).connections)
      ≡ (contains j (keys s.connections) || (contains j hosts && not (contains j current)))
unfolding add_connections contains
contains-add_connections v j current [] s = ground arith
contains-add_connections v j current (host ∷ hosts) s = ground (
  arith,
  eq_iff host j,
  connections-add_if_new v current host s,
  contains-add_connections v j current hosts (add_if_new v current host s),
  contains-insert j host s.next_object s.connections,
)

-- After a reconciliation of a sound service the registered hosts are exactly the discovered ones.
pub reconcile_hosts :
    (v : String → Bool) (hosts : List String) (s : Service) (host : String)
    → IsSound s
    → contains host (keys (reconcile v hosts s).connections) ≡ contains host hosts
unfolding reconcile contains
reconcile_hosts v hosts s host l =
    let current = set_from [] (keys s.connections) in
    let discovered = set_from [] hosts in
    ground (
      arith,
      contains-set_from host [] (keys s.connections),
      contains-set_from host [] hosts,
      contains-remove_stale host discovered current s l,
      contains-add_connections v host current discovered (remove_stale discovered current s),
    )

objects-connect_web_socket :
    (v : String → Bool) (o q : ℕ) (s : Service)
    → o ≢ q
    → (connect_web_socket v o s).objects q ≡ s.objects q
unfolding connect_web_socket connect_web_socket_of schedule_reconnect schedule_reconnect_of
objects-connect_web_socket v o q s other = ground arith

objects-close_connection :
    (o q : ℕ) (s : Service) → o ≢ q → (close_connection o s).objects q ≡ s.objects q
unfolding close_connection close_connection_of
objects-close_connection o q s other = ground arith

host_unique : {a b : String} (x y : Option Connection) → x ≡ y → HasHost a x → HasHost b y → a ≡ b
host_unique x y e h k = ground arith

object_held :
    (a : String) (s : Service) (o : ℕ) → IsSound s → HasHost a (s.objects o) → s.next_object ≢ o
object_held a s o l h e = ground (arith, l.links.held o)

contains_ne :
    (a b : String) (xs : List String) → contains a xs ≡ true → contains b xs ≡ false → b ≢ a
contains_ne a b xs h k e = ground arith

-- Host `host` is registered with the object `o`, which reads as in `old`.
abbrev Kept : String → ℕ → Option Connection → Service → Type 0
Kept host o old s = (lookup host s.connections ≡ some o) × (s.objects o ≡ old)

module _ (host : String) (o : ℕ) (old : Option Connection) where
  close_host-objects :
      (other : String) (s : Service)
      → IsSound s
      → Kept host o old s
      → other ≢ host
      → (close_host other s).objects o ≡ s.objects o
  unfolding close_host
  close_host-objects other s l (here, same) ne = elim (Option-cases (lookup other s.connections)) [
    | inl missing ↦ rw (missing, close_host)
    | inr (q, e) ↦
        rw (e, close_host)
          (objects-close_connection q o s λ h. ne (
            host_unique (s.objects q) (s.objects o) (ap s.objects h) (l.links.registered other q e)
              (l.links.registered host o here)))
  ]

  remove_if_stale-Kept :
      (discovered : List String) (other : String) (s : Service)
      → IsSound s
      → contains host discovered ≡ true
      → Kept host o old s
      → Kept host o old (remove_if_stale discovered other s)
  unfolding remove_if_stale
  remove_if_stale-Kept discovered other s l found (here, same) =
      if_elim (Kept host o old) (contains other discovered) (λ _. (here, same))
        λ stale.
          let ne = contains_ne host other discovered found stale in
          ground (
            arith,
            connections-close_host other s,
            eq_iff other host,
            lookup-delete other host s.connections l.links.distinct,
            close_host-objects other s l (here, same) ne,
          )

  add_if_new-Kept :
      (v : String → Bool) (current : List String) (other : String) (s : Service)
      → IsSound s
      → contains host current ≡ true
      → Kept host o old s
      → Kept host o old (add_if_new v current other s)
  unfolding add_if_new
  add_if_new-Kept v current other s l known (here, same) =
      if_elim (Kept host o old) (contains other current) (λ _. (here, same))
        λ new.
          let ne = contains_ne host other current known new in
          let fresh = object_held host s o l (l.links.registered host o here) in
          ground (
            arith,
            eq_iff other host,
            lookup-insert other host s.next_object s.connections,
            connections-connect_web_socket v s.next_object (register other s),
            objects-connect_web_socket v s.next_object o (register other s) fresh,
          )

  remove_stale-Kept :
      (discovered hosts : List String) (s : Service)
      → IsSound s
      → contains host discovered ≡ true
      → Kept host o old s
      → Kept host o old (remove_stale discovered hosts s)
  unfolding remove_stale
  remove_stale-Kept discovered [] s l found k = k
  remove_stale-Kept discovered (other ∷ hosts) s l found k =
      remove_stale-Kept discovered hosts (remove_if_stale discovered other s)
        (remove_if_stale-IsSound discovered other s l) found
        (remove_if_stale-Kept discovered other s l found k)

  add_connections-Kept :
      (v : String → Bool) (current hosts : List String) (s : Service)
      → IsSound s
      → contains host current ≡ true
      → Kept host o old s
      → Kept host o old (add_connections v current hosts s)
  unfolding add_connections
  add_connections-Kept v current [] s l known k = k
  add_connections-Kept v current (other ∷ hosts) s l known k =
      add_connections-Kept v current hosts (add_if_new v current other s)
        (add_if_new-IsSound v current other s l) known (add_if_new-Kept v current other s l known k)

-- In a sound service, a registered host that is discovered again keeps its connection object, and
-- the object, with its socket, its timer and its attempts, is left as it was.
pub reconcile_keeps :
    (v : String → Bool) (hosts : List String) (s : Service) (host : String) (o : ℕ)
    → IsSound s
    → contains host hosts ≡ true
    → lookup host s.connections ≡ some o
    → (lookup host (reconcile v hosts s).connections ≡ some o)
      × ((reconcile v hosts s).objects o ≡ s.objects o)
unfolding reconcile contains
reconcile_keeps v hosts s host o l found here =
    let old = s.objects o in
    let current = set_from [] (keys s.connections) in
    let discovered = set_from [] hosts in
    let found' : contains host discovered ≡ true = contains-set_from host [] hosts ∙ found in
    let known : contains host current ≡ true =
      contains-set_from host [] (keys s.connections)
      ∙ sym (is_some-lookup host s.connections)
      ∙ ap is_some here in
    add_connections-Kept host o old v current discovered (remove_stale discovered current s)
      (remove_stale-IsSound discovered current s l) known
      (remove_stale-Kept host o old discovered current s l found' (here, refl))
