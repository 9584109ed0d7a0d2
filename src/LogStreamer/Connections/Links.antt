-- ===== src/LogStreamer/Connections/Links.antt =====
-- The links between the map of the connections, the connection objects, their sockets and their
-- timers, and what each operation of the connections does to them.
use nestjs_graphql_fastify_a.Common.{
  ℕ, suc, ◌≤◌, String, Bool, Option, none, some, List, [], ◌∷◌, ◌++◌, ◌==◌, nat_eq, string_eq,
  lookup, insert, delete, keys, ◌≡◌, refl, ◌⊎◌, arith, All, All-append, DistinctKeys, eq_iff,
  lookup-insert, lookup-delete, insert-DistinctKeys, delete-DistinctKeys, not, filter,
}
use nestjs_graphql_fastify_a.LogStreamer.Subscriptions.Balance.{IsCounted}
use nestjs_graphql_fastify_a.LogStreamer.State.{
  Connection, Socket, Timer, Service, update, clear_timeout,
}

-- The object `o` is there, and is one for `host`.
abbrev pub HasHost : String → Option Connection → Type 0
HasHost host none = ⊥
HasHost host (some conn) = conn.host ≡ host

abbrev pub Exists {ℓ} : {A : Type ℓ} → Option A → Type 0
Exists none = ⊥
Exists (some a) = Unit

-- The socket is there, and its handlers refer to the object `o`.
abbrev pub IsOwnedBy : ℕ → Option Socket → Type 0
IsOwnedBy o none = ⊥
IsOwnedBy o (some socket) = socket.owner ≡ o

-- Distinct hosts; a registered object is there, for its host; an object's socket has handlers that
-- refer to that object; handlers and timers find their objects; the counters are fresh.
pub record Linked (connections : List (String × ℕ)) (objects : ℕ → Option Connection)
    (next_object : ℕ) (sockets : ℕ → Option Socket) (next_socket : ℕ) (timers : List Timer)
    : Type 0 where
  pub distinct : DistinctKeys connections
  pub registered :
      (host : String) (o : ℕ) → lookup host connections ≡ some o → HasHost host (objects o)
  pub held : (o : ℕ) → next_object ≤ o → objects o ≡ none
  pub made : (w : ℕ) → next_socket ≤ w → sockets w ≡ none
  pub owned : (w : ℕ) (k : Socket) → sockets w ≡ some k → Exists (objects k.owner)
  pub holds_own :
      (o : ℕ) (conn : Connection) (w : ℕ)
      → objects o ≡ some conn
      → conn.ws ≡ some w
      → IsOwnedBy o (sockets w)
  pub timed : All (λ t. Exists (objects t.owner)) timers

-- The links, and the counts of both kinds of subscriptions.
pub record IsSound (s : Service) : Type 0 where
  pub links : Linked s.connections s.objects s.next_object s.sockets s.next_socket s.timers
  pub counted : IsCounted s.active_subscriptions
  pub counted_services : IsCounted s.active_service_subscriptions

module _ (objects : ℕ → Option Connection) (o : ℕ) (conn : Connection) where
  HasHost-update :
      (old : Connection) (host : String) (q : ℕ)
      → objects o ≡ some old
      → conn.host ≡ old.host
      → HasHost host (objects q)
      → HasHost host (update objects o conn q)
  HasHost-update old host q e same h = ground arith

  Exists-update : (q : ℕ) → Exists (objects q) → Exists (update objects o conn q)
  Exists-update q h = ground arith

  timed-update :
      (timers : List Timer)
      → All (λ t. Exists (objects t.owner)) timers
      → All (λ t. Exists (update objects o conn t.owner)) timers
  timed-update [] h = tt
  timed-update (t ∷ ts) (h, hs) = (Exists-update t.owner h, timed-update ts hs)

-- An object is written again, for the same host, with the socket that it had or none.
pub set-Linked :
    {cs : List (String × ℕ)} {os : ℕ → Option Connection} {n : ℕ} {ss : ℕ → Option Socket} {m : ℕ}
    {ts : List Timer} (o : ℕ) (old conn : Connection)
    → Linked cs os n ss m ts
    → os o ≡ some old
    → conn.host ≡ old.host
    → (conn.ws ≡ old.ws) ⊎ (conn.ws ≡ none)
    → Linked cs (update os o conn) n ss m ts
set-Linked {os} {ts} o old conn l e same ws = record {
  distinct = l.distinct;
  registered = λ host q h. HasHost-update os o conn old host q e same (l.registered host q h);
  held = λ q h. ground (arith, l.held q h, l.held o);
  made = l.made;
  owned = λ w k h. Exists-update os o conn k.owner (l.owned w k h);
  holds_own = λ q c w h k. ground (arith, l.holds_own q c w, l.holds_own o old w);
  timed = timed-update os o conn ts l.timed;
}

-- A new socket, held by the object that its handlers refer to.
pub open-Linked :
    {cs : List (String × ℕ)} {os : ℕ → Option Connection} {n : ℕ} {ss : ℕ → Option Socket} {m : ℕ}
    {ts : List Timer} (o : ℕ) (old : Connection) (k : Socket)
    → Linked cs os n ss m ts
    → os o ≡ some old
    → k.owner ≡ o
    → Linked cs (update os o (record old { ws = some m })) n (update ss m k) (suc m) ts
open-Linked {os} {ss} {m} {ts} o old k l e mine =
    let conn = record old { ws = some m } in
    record {
      distinct = l.distinct;
      registered = λ host q h. HasHost-update os o conn old host q e refl (l.registered host q h);
      held = λ q h. ground (arith, l.held q h, l.held o);
      made = λ w h. ground (arith, l.made w);
      owned =
          λ w j h. ground (arith, l.owned w j, Exists-update os o conn j.owner, mine, e, l.made m);
      holds_own = λ q c w h i. ground (arith, l.holds_own q c w, l.made m, mine);
      timed = timed-update os o conn ts l.timed;
    }

-- Timers are added for objects that are there, and cleared.
pub timer-Linked :
    {cs : List (String × ℕ)} {os : ℕ → Option Connection} {n : ℕ} {ss : ℕ → Option Socket} {m : ℕ}
    {ts : List Timer} (t : Timer)
    → Linked cs os n ss m ts
    → Exists (os t.owner)
    → Linked cs os n ss m (ts ++ t ∷ [])
timer-Linked {os} {ts} t l e = record {
  distinct = l.distinct;
  registered = l.registered;
  held = l.held;
  made = l.made;
  owned = l.owned;
  holds_own = l.holds_own;
  timed = All-append (λ t. Exists (os t.owner)) ts (t ∷ []) l.timed (e, tt);
}

All-filter {ℓ κ} :
    {A : Type ℓ} (P : A → Type κ) (p : A → Bool) (xs : List A) → All P xs → All P (filter p xs)
All-filter P p [] h = tt
All-filter P p (x ∷ xs) h = ground (arith, All-filter P p xs h.1)

pub clear-Linked :
    {cs : List (String × ℕ)} {os : ℕ → Option Connection} {n : ℕ} {ss : ℕ → Option Socket} {m : ℕ}
    {ts : List Timer} (t : ℕ)
    → Linked cs os n ss m ts
    → Linked cs os n ss m (clear_timeout t ts)
clear-Linked {os} {ts} t l = record {
  distinct = l.distinct;
  registered = l.registered;
  held = l.held;
  made = l.made;
  owned = l.owned;
  holds_own = l.holds_own;
  timed = All-filter (λ t. Exists (os t.owner)) (λ timer. not (timer.id == t)) ts l.timed;
}

-- A host is registered with a new object.
pub register-Linked :
    {cs : List (String × ℕ)} {os : ℕ → Option Connection} {n : ℕ} {ss : ℕ → Option Socket} {m : ℕ}
    {ts : List Timer} (host : String) (conn : Connection)
    → Linked cs os n ss m ts
    → conn.host ≡ host
    → conn.ws ≡ none
    → Linked (insert host n cs) (update os n conn) (suc n) ss m ts
register-Linked {cs} {os} {n} {ts} host conn l same bare = record {
  distinct = insert-DistinctKeys host n cs l.distinct;
  registered = λ h q e.
      ground (arith, lookup-insert host h n cs, l.registered h q, l.held n, eq_iff host h, same);
  held = λ q h. ground (arith, l.held q);
  made = l.made;
  owned = λ w k h. Exists-update os n conn k.owner (l.owned w k h);
  holds_own = λ q c w h k. ground (arith, l.holds_own q c w, bare);
  timed = timed-update os n conn ts l.timed;
}

pub unregister-Linked :
    {cs : List (String × ℕ)} {os : ℕ → Option Connection} {n : ℕ} {ss : ℕ → Option Socket} {m : ℕ}
    {ts : List Timer} (host : String)
    → Linked cs os n ss m ts
    → Linked (delete host cs) os n ss m ts
unregister-Linked {cs} host l = record {
  held = l.held;
  made = l.made;
  owned = l.owned;
  holds_own = l.holds_own;
  timed = l.timed;
  distinct = delete-DistinctKeys host cs l.distinct;
  registered = λ h q e. ground (arith, lookup-delete host h cs l.distinct, l.registered h q);
}

-- A socket moves to another `readyState`.
pub ready-Linked :
    {cs : List (String × ℕ)} {os : ℕ → Option Connection} {n : ℕ} {ss : ℕ → Option Socket} {m : ℕ}
    {ts : List Timer} (w : ℕ) (old k : Socket)
    → Linked cs os n ss m ts
    → ss w ≡ some old
    → k.owner ≡ old.owner
    → Linked cs os n (update ss w k) m ts
ready-Linked w old k l e same = record {
  distinct = l.distinct;
  registered = l.registered;
  held = l.held;
  timed = l.timed;
  made = λ v h. ground (arith, l.made v, l.made w);
  owned = λ v j h. ground (arith, l.owned v j, l.owned w old);
  holds_own = λ q c v h i. ground (arith, l.holds_own q c v);
}

-- `connections.clear()`
pub forget-Linked :
    {cs : List (String × ℕ)} {os : ℕ → Option Connection} {n : ℕ} {ss : ℕ → Option Socket} {m : ℕ}
    {ts : List Timer}
    → Linked cs os n ss m ts
    → Linked [] os n ss m ts
unfolding keys lookup
forget-Linked l = record {
  distinct = tt;
  registered = λ host o e. cc;
  held = l.held;
  made = l.made;
  owned = l.owned;
  holds_own = l.holds_own;
  timed = l.timed;
}
