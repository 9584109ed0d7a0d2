-- ===== src/LogStreamer/Events/Soundness.antt =====
-- Every event of the service, and so every history, keeps it sound.
use nestjs_graphql_fastify_a.Common.{
  ℕ, String, Bool, Option, none, some, List, refl, inl, inr, Option-cases, if_elim, ◌==◌, nat_eq,
  find,
}
use nestjs_graphql_fastify_a.LogStreamer.State.{Frame, Service, ReadyState}
use nestjs_graphql_fastify_a.LogStreamer.Subscriptions.Balance.{retain-IsCounted, release-IsCounted}
use nestjs_graphql_fastify_a.LogStreamer.Connections.Links.{IsSound, ready-Linked}
use nestjs_graphql_fastify_a.LogStreamer.Connections.Invariant.{
  reconcile-IsSound, on_module_destroy-IsSound, begin_reconcile-IsSound, on_module_init-IsSound,
}
use nestjs_graphql_fastify_a.LogStreamer.Connections.Invariant.Handlers.{
  Ensures, broadcast_to_all-IsSound, on_open-IsSound, on_close-IsSound, on_timeout-IsSound,
}
use nestjs_graphql_fastify_a.LogStreamer.Connections.{broadcast_to_all}
use nestjs_graphql_fastify_a.LogStreamer.Subscribers.{
  ask_upstream, Subscriber, subscribe_to_logs, subscribe_to_service_logs, return_logs,
  return_service_logs,
}
use nestjs_graphql_fastify_a.LogStreamer.Events.{
  Event, refreshes, initialises, destroys, discovers, ready, opens, closes, fires, subscribes,
  subscribes_service, returns, returns_service, step, Run, here, next, set_ready, discover, fire,
}

ask-IsSound :
    (should : Bool) (frame : Frame) (t : Service)
    → IsSound t
    → IsSound (ask_upstream should (broadcast_to_all frame) t)
unfolding ask_upstream
ask-IsSound should frame t l =
    if_elim IsSound should (λ _. broadcast_to_all-IsSound frame t l) (λ _. l)

dropped-IsSound :
    (t : Service) {pre : List ℕ} → IsSound t → IsSound (record t { pre_subscriptions = pre })
dropped-IsSound t l = record {
  links = l.links;
  counted = l.counted;
  counted_services = l.counted_services;
}

module _ {s : Service} (l : IsSound s) where
  set_ready-IsSound : (w : ℕ) (state : ReadyState) → IsSound (set_ready w state s)
  unfolding set_ready
  set_ready-IsSound w state = elim (Option-cases (s.sockets w)) [
    | inl missing ↦ rw (missing, set_ready) l
    | inr (k, e) ↦
        rw (e, set_ready)
          (record {
            links = ready-Linked w k (record k { ready_state = state }) l.links e refl;
            counted = l.counted;
            counted_services = l.counted_services;
          })
  ]

  discover-IsSound : (v : String → Bool) (hosts : List String) → IsSound (discover v hosts s)
  unfolding discover
  discover-IsSound v hosts =
      if_elim IsSound (s.pending_discoveries == 0) (λ _. l)
        λ _.
          reconcile-IsSound v hosts _
            (record { links = l.links; counted = l.counted; counted_services = l.counted_services })

  fire-IsSound : (v : String → Bool) (t : ℕ) → IsSound (fire v t s)
  unfolding fire
  fire-IsSound v t = elim (Option-cases (find (λ timer. timer.id == t) s.timers)) [
    | inl missing ↦ rw (missing, fire) l
    | inr (timer, e) ↦ rw (e, fire) (on_timeout-IsSound v timer s l)
  ]

  subscribe_to_logs-IsSound :
      (id : String) (pre : Option ℕ) → IsSound (subscribe_to_logs id pre s).0
  unfolding subscribe_to_logs
  subscribe_to_logs-IsSound id none = l
  subscribe_to_logs-IsSound id (some pre) = ask-IsSound _ _ _ (record {
    links = l.links;
    counted = retain-IsCounted s.active_subscriptions id l.counted;
    counted_services = l.counted_services;
  })

  subscribe_to_service_logs-IsSound :
      (name : String) (pre : Option ℕ) → IsSound (subscribe_to_service_logs name pre s).0
  unfolding subscribe_to_service_logs
  subscribe_to_service_logs-IsSound name none = l
  subscribe_to_service_logs-IsSound name (some pre) = ask-IsSound _ _ _ (record {
    links = l.links;
    counted = l.counted;
    counted_services = retain-IsCounted s.active_service_subscriptions name l.counted_services;
  })

  return_logs-IsSound : (sub : Subscriber) → IsSound (return_logs sub s)
  unfolding return_logs
  return_logs-IsSound sub = dropped-IsSound _ (
      ask-IsSound _ _ _ (record {
        links = l.links;
        counted = release-IsCounted s.active_subscriptions sub.key l.counted;
        counted_services = l.counted_services;
      }))

  return_service_logs-IsSound : (sub : Subscriber) → IsSound (return_service_logs sub s)
  unfolding return_service_logs
  return_service_logs-IsSound sub = dropped-IsSound _ (
      ask-IsSound _ _ _ (record {
        links = l.links;
        counted = l.counted;
        counted_services =
            release-IsCounted s.active_service_subscriptions sub.key l.counted_services;
      }))

pub step-IsSound :
    (v : String → Bool) (s : Service) (e : Event) → IsSound s → Ensures IsSound (step v s e)
unfolding step
step-IsSound v s refreshes l = begin_reconcile-IsSound s l
step-IsSound v s initialises l = on_module_init-IsSound s l
step-IsSound v s destroys l = on_module_destroy-IsSound s l
step-IsSound v s (discovers hosts) l = discover-IsSound l v hosts
step-IsSound v s (ready w state) l = set_ready-IsSound l w state
step-IsSound v s (opens w) l = on_open-IsSound w s l
step-IsSound v s (closes w) l = on_close-IsSound w s l
step-IsSound v s (fires t) l = fire-IsSound l v t
step-IsSound v s (subscribes id pre) l = subscribe_to_logs-IsSound l id pre
step-IsSound v s (subscribes_service name pre) l = subscribe_to_service_logs-IsSound l name pre
step-IsSound v s (returns sub) l = return_logs-IsSound l sub
step-IsSound v s (returns_service sub) l = return_service_logs-IsSound l sub

-- Every history of a sound service keeps it sound: hosts are distinct, a registered object is
-- there and is for its host, an object's socket has handlers that refer to that object, handlers
-- and timers find their objects, and no subscription is counted 0.
pub Run-IsSound : {v : String → Bool} {s t : Service} → IsSound s → Run v s t → IsSound t
Run-IsSound l here = l
Run-IsSound {v} l (next {t} r e q) = rw q at (step-IsSound v t e (Run-IsSound l r))
