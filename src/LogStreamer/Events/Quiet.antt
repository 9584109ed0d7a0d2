-- ===== src/LogStreamer/Events/Quiet.antt =====
-- No event reconnects a service that shuts down.
use nestjs_graphql_fastify_a.Common.{
  true, ℕ, String, Bool, Option, none, some, List, ◌≡◌, refl, ◌∙◌, inl, inr, Option-cases, if_elim,
  ◌==◌, nat_eq, find, arith,
}
use nestjs_graphql_fastify_a.LogStreamer.State.{Frame, Service, ReadyState}
use nestjs_graphql_fastify_a.LogStreamer.Connections.Invariant.Handlers.{Ensures}
use nestjs_graphql_fastify_a.LogStreamer.Connections.Shutdown.{
  IsQuiet, reconcile-IsQuiet, broadcast_to_all-IsQuiet, on_open-IsQuiet, on_close-IsQuiet,
  on_timeout-IsQuiet, begin_reconcile-IsQuiet, on_module_init-IsQuiet, on_module_destroy_lem,
}
use nestjs_graphql_fastify_a.LogStreamer.Connections.{broadcast_to_all, on_module_destroy}
use nestjs_graphql_fastify_a.LogStreamer.Subscribers.{
  ask_upstream, Subscriber, subscribe_to_logs, subscribe_to_service_logs, return_logs,
  return_service_logs,
}
use nestjs_graphql_fastify_a.LogStreamer.Events.{
  Event, refreshes, initialises, destroys, discovers, ready, opens, closes, fires, subscribes,
  subscribes_service, returns, returns_service, step, Run, here, next, set_ready, discover, fire,
}

module _ {m n : ℕ} where
  same-IsQuiet :
      {s t : Service}
      → IsQuiet m n s
      → t.is_shutting_down ≡ s.is_shutting_down
      → t.next_socket ≡ s.next_socket
      → t.next_timer ≡ s.next_timer
      → IsQuiet m n t
  same-IsQuiet q e f g = record {
    down = e ∙ q.down;
    same_sockets = f ∙ q.same_sockets;
    same_timers = g ∙ q.same_timers;
  }

  ask-IsQuiet :
      (should : Bool) (frame : Frame) (t : Service)
      → IsQuiet m n t
      → IsQuiet m n (ask_upstream should (broadcast_to_all frame) t)
  unfolding ask_upstream
  ask-IsQuiet should frame t q =
      if_elim (IsQuiet m n) should (λ _. broadcast_to_all-IsQuiet m n frame t q) (λ _. q)

module _ {m n : ℕ} {s : Service} (q : IsQuiet m n s) where
  set_ready-IsQuiet : (w : ℕ) (state : ReadyState) → IsQuiet m n (set_ready w state s)
  unfolding set_ready
  set_ready-IsQuiet w state = ground arith

  discover-IsQuiet : (v : String → Bool) (hosts : List String) → IsQuiet m n (discover v hosts s)
  unfolding discover
  discover-IsQuiet v hosts =
      if_elim (IsQuiet m n) (s.pending_discoveries == 0) (λ _. q)
        λ _. reconcile-IsQuiet m n v hosts _ (same-IsQuiet q refl refl refl)

  fire-IsQuiet : (v : String → Bool) (t : ℕ) → IsQuiet m n (fire v t s)
  unfolding fire
  fire-IsQuiet v t = elim (Option-cases (find (λ timer. timer.id == t) s.timers)) [
    | inl missing ↦ rw (missing, fire) q
    | inr (timer, e) ↦ rw (e, fire) (on_timeout-IsQuiet m n v timer s q)
  ]

  subscribe_to_logs-IsQuiet :
      (id : String) (pre : Option ℕ) → IsQuiet m n (subscribe_to_logs id pre s).0
  unfolding subscribe_to_logs
  subscribe_to_logs-IsQuiet id none = q
  subscribe_to_logs-IsQuiet id (some pre) = ask-IsQuiet _ _ _ (same-IsQuiet q refl refl refl)

  subscribe_to_service_logs-IsQuiet :
      (name : String) (pre : Option ℕ) → IsQuiet m n (subscribe_to_service_logs name pre s).0
  unfolding subscribe_to_service_logs
  subscribe_to_service_logs-IsQuiet name none = q
  subscribe_to_service_logs-IsQuiet name (some pre) =
      ask-IsQuiet _ _ _ (same-IsQuiet q refl refl refl)

  return_logs-IsQuiet : (sub : Subscriber) → IsQuiet m n (return_logs sub s)
  unfolding return_logs
  return_logs-IsQuiet sub =
      same-IsQuiet (ask-IsQuiet _ _ _ (same-IsQuiet q refl refl refl)) refl refl refl

  return_service_logs-IsQuiet : (sub : Subscriber) → IsQuiet m n (return_service_logs sub s)
  unfolding return_service_logs
  return_service_logs-IsQuiet sub =
      same-IsQuiet (ask-IsQuiet _ _ _ (same-IsQuiet q refl refl refl)) refl refl refl

destroy-IsQuiet : {m n : ℕ} (s : Service) → IsQuiet m n s → IsQuiet m n (on_module_destroy s)
destroy-IsQuiet s q =
    let d = (on_module_destroy_lem s).0 in
    record {
      down = d.down;
      same_sockets = d.same_sockets ∙ q.same_sockets;
      same_timers = d.same_timers ∙ q.same_timers;
    }

step-IsQuiet :
    (m n : ℕ) (v : String → Bool) (s : Service) (e : Event)
    → IsQuiet m n s
    → Ensures (IsQuiet m n) (step v s e)
unfolding step
step-IsQuiet m n v s refreshes q = begin_reconcile-IsQuiet m n s q
step-IsQuiet m n v s initialises q = on_module_init-IsQuiet m n s q
step-IsQuiet m n v s destroys q = destroy-IsQuiet s q
step-IsQuiet m n v s (discovers hosts) q = discover-IsQuiet q v hosts
step-IsQuiet m n v s (ready w state) q = set_ready-IsQuiet q w state
step-IsQuiet m n v s (opens w) q = on_open-IsQuiet m n w s q
step-IsQuiet m n v s (closes w) q = on_close-IsQuiet m n w s q
step-IsQuiet m n v s (fires t) q = fire-IsQuiet q v t
step-IsQuiet m n v s (subscribes id pre) q = subscribe_to_logs-IsQuiet q id pre
step-IsQuiet m n v s (subscribes_service name pre) q = subscribe_to_service_logs-IsQuiet q name pre
step-IsQuiet m n v s (returns sub) q = return_logs-IsQuiet q sub
step-IsQuiet m n v s (returns_service sub) q = return_service_logs-IsQuiet q sub

Run-IsQuiet :
    {m n : ℕ} {v : String → Bool} {s t : Service} → IsQuiet m n s → Run v s t → IsQuiet m n t
Run-IsQuiet q here = q
Run-IsQuiet {m} {n} {v} q (next {t} r e p) = rw p at (step-IsQuiet m n v t e (Run-IsQuiet q r))

-- After `onModuleDestroy`, whatever happens, also a discovery that was under way, no socket is
-- opened and no reconnect is scheduled any more, and the service stays shut down.
pub destroyed-IsQuiet :
    (v : String → Bool) (s t : Service)
    → Run v (on_module_destroy s) t
    → (t.is_shutting_down ≡ true) × (t.next_socket ≡ s.next_socket) × (t.next_timer ≡ s.next_timer)
destroyed-IsQuiet v s t r =
    let q = Run-IsQuiet (on_module_destroy_lem s).0 r in (q.down, q.same_sockets, q.same_timers)
