-- ===== src/LogStreamer/Subscribers/Streaming.antt =====
-- What a log streamer has been told on an open socket, while subscribers of container logs come and
-- go.
use nestjs_graphql_fastify_a.Common.{
  ltb, ℕ, ◌+◌, ◌-◌, String, Bool, true, false, not, ◌&&◌, ◌||◌, some, List, [], ◌∷◌, ◌++◌, ◌==◌,
  nat_eq, string_eq, if◌then◌else◌, any, ◌≡◌, refl, ap, ◌∙◌, arith, eq_iff,
}
use nestjs_graphql_fastify_a.LogStreamer.State.{
  Service, Frame, subscribe, unsubscribe, subscribe_service, unsubscribe_service,
}
use nestjs_graphql_fastify_a.LogStreamer.Subscriptions.{retain_subscription, release_subscription}
use nestjs_graphql_fastify_a.LogStreamer.Subscriptions.Balance.{
  count_of, IsCounted, retain-IsCounted, release-IsCounted,
}
use nestjs_graphql_fastify_a.LogStreamer.Connections.Sending.{each_sent, open_now}
use nestjs_graphql_fastify_a.LogStreamer.Subscribers.{Subscriber, subscribe_to_logs, return_logs}
use nestjs_graphql_fastify_a.LogStreamer.Subscribers.Frames.{
  ask_upstream_lem, asked, subscribe_to_logs_lem, return_logs_lem,
}

-- What a log streamer makes of a frame: whether it streams the container `j` after it.
unfoldable pub streams_after : String → Frame → Bool → Bool
streams_after j (subscribe id) b = id == j || b
streams_after j (unsubscribe id) b = not (id == j) && b
streams_after j (subscribe_service name) b = b
streams_after j (unsubscribe_service name) b = b

-- Whether the log streamer at socket `w` streams the container `j` after the frames sent to it
unfoldable pub streams : (w : ℕ) (j : String) → Bool → List (ℕ × Frame) → Bool
streams w j b [] = b
streams w j b ((x, frame) ∷ sent) = streams w j (if x == w then streams_after j frame b else b) sent

-- A subscriber of a container's log comes, with its Redis subscription, or ends.
pub data Visit : Type 0 where
  comes : String → ℕ → Visit
  ends : Subscriber → Visit

pub visit : Visit → Service → Service
visit (comes id pre) s = (subscribe_to_logs id (some pre) s).0
visit (ends sub) s = return_logs sub s

pub visit_all : List Visit → Service → Service
visit_all [] s = s
visit_all (v ∷ vs) s = visit_all vs (visit v s)

-- The subscribers of `j` that are alive after the visits
unfoldable pub alive_after : String → ℕ → List Visit → ℕ
alive_after j n [] = n
alive_after j n (comes id pre ∷ vs) = alive_after j (if id == j then n + 1 else n) vs
alive_after j n (ends sub ∷ vs) = alive_after j (if sub.key == j then n - 1 else n) vs

streams-append :
    (w : ℕ) (j : String) (b : Bool) (xs ys : List (ℕ × Frame))
    → streams w j b (xs ++ ys) ≡ streams w j (streams w j b xs) ys
unfolding streams
streams-append w j b [] ys = refl
streams-append w j b ((x, frame) ∷ xs) ys =
    streams-append w j (if x == w then streams_after j frame b else b) xs ys

streams_after-twice :
    (j : String) (frame : Frame) (b : Bool)
    → streams_after j frame (streams_after j frame b) ≡ streams_after j frame b
unfolding streams_after
streams_after-twice j (subscribe id) b = ground arith
streams_after-twice j (unsubscribe id) b = ground arith
streams_after-twice j (subscribe_service name) b = refl
streams_after-twice j (unsubscribe_service name) b = refl

abbrev pub is_among : ℕ → List ℕ → Bool
is_among w = any (λ x. x == w)

streams-each_sent :
    (w : ℕ) (j : String) (b : Bool) (frame : Frame) (ws : List ℕ)
    → streams w j b (each_sent frame ws) ≡ (if is_among w ws then streams_after j frame b else b)
unfolding streams
streams-each_sent w j b frame [] = refl
streams-each_sent w j b frame (x ∷ ws) = ground (
  arith,
  streams-each_sent w j (streams_after j frame b) frame ws,
  streams-each_sent w j b frame ws,
  streams_after-twice j frame b,
)

streams-asked :
    (w : ℕ) (j : String) (b should : Bool) (frame : Frame) (s : Service)
    → is_among w (open_now s) ≡ true
    → streams w j b (asked should frame s) ≡ (if should then streams_after j frame b else b)
unfolding streams
streams-asked w j b true frame s h = streams-each_sent w j b frame (open_now s) ∙ rw h refl
streams-asked w j b false frame s h = refl

open_now-visit : (v : Visit) (s : Service) → open_now (visit v s) ≡ open_now s
unfolding visit subscribe_to_logs return_logs
open_now-visit (comes id pre) s =
    let r = retain_subscription s.active_subscriptions id in
    rw (ask_upstream_lem r.1 (subscribe id) _) refl
open_now-visit (ends sub) s =
    let r = release_subscription s.active_subscriptions sub.key in
    rw (ask_upstream_lem r.1 (unsubscribe sub.key) _) refl

comes-IsCounted :
    (id : String) (pre : ℕ) (s : Service)
    → IsCounted s.active_subscriptions
    → IsCounted (subscribe_to_logs id (some pre) s).0.active_subscriptions
unfolding subscribe_to_logs
comes-IsCounted id pre s c =
    let r = retain_subscription s.active_subscriptions id in
    rw (ask_upstream_lem r.1 (subscribe id) _) (retain-IsCounted s.active_subscriptions id c)

ends-IsCounted :
    (sub : Subscriber) (s : Service)
    → IsCounted s.active_subscriptions
    → IsCounted (return_logs sub s).active_subscriptions
unfolding return_logs
ends-IsCounted sub s c =
    let r = release_subscription s.active_subscriptions sub.key in
    rw (ask_upstream_lem r.1 (unsubscribe sub.key) _)
      (release-IsCounted s.active_subscriptions sub.key c)

-- The log streamer at socket `w` streams the container `j` exactly while somebody is counted for it.
pub record IsTold (w : ℕ) (j : String) (s : Service) : Type 0 where
  pub counted : IsCounted s.active_subscriptions
  pub is_open : is_among w (open_now s) ≡ true
  pub told : streams w j false s.sent ≡ ltb 0 (count_of j s.active_subscriptions)

comes-IsTold :
    (w : ℕ) (j id : String) (pre : ℕ) (s : Service)
    → IsTold w j s
    → IsTold w j (visit (comes id pre) s)
unfolding visit
comes-IsTold w j id pre s h =
    let frames = subscribe_to_logs_lem id pre s j in
    let first = count_of id s.active_subscriptions == 0 in
    record {
      counted = comes-IsCounted id pre s h.counted;
      is_open = ap (is_among w) (open_now-visit (comes id pre) s) ∙ h.is_open;
      told =
          ap (streams w j false) frames.0
          ∙ streams-append w j false s.sent (asked first (subscribe id) s)
          ∙ streams-asked w j (streams w j false s.sent) first (subscribe id) s h.is_open
          ∙ rw (h.told, frames.1) (unfold streams_after in ground (arith, eq_iff id j));
    }

ends-IsTold :
    (w : ℕ) (j : String) (sub : Subscriber) (s : Service)
    → IsTold w j s
    → IsTold w j (visit (ends sub) s)
unfolding visit
ends-IsTold w j sub s h =
    let frames = return_logs_lem sub s j h.counted in
    let last = count_of sub.key s.active_subscriptions == 1 in
    record {
      counted = ends-IsCounted sub s h.counted;
      is_open = ap (is_among w) (open_now-visit (ends sub) s) ∙ h.is_open;
      told =
          ap (streams w j false) frames.0
          ∙ streams-append w j false s.sent (asked last (unsubscribe sub.key) s)
          ∙ streams-asked w j (streams w j false s.sent) last (unsubscribe sub.key) s h.is_open
          ∙ rw (h.told, frames.1) (unfold streams_after in ground (arith, eq_iff sub.key j));
    }

visit_all-IsTold :
    (w : ℕ) (j : String) (vs : List Visit) (s : Service)
    → IsTold w j s
    → IsTold w j (visit_all vs s)
unfolding visit_all
visit_all-IsTold w j [] s h = h
visit_all-IsTold w j (comes id pre ∷ vs) s h =
    visit_all-IsTold w j vs _ (comes-IsTold w j id pre s h)
visit_all-IsTold w j (ends sub ∷ vs) s h = visit_all-IsTold w j vs _ (ends-IsTold w j sub s h)

count_of-visit_all :
    (j : String) (vs : List Visit) (s : Service)
    → IsCounted s.active_subscriptions
    → count_of j (visit_all vs s).active_subscriptions
      ≡ alive_after j (count_of j s.active_subscriptions) vs
unfolding visit_all alive_after visit
count_of-visit_all j [] s c = refl
count_of-visit_all j (comes id pre ∷ vs) s c =
    count_of-visit_all j vs (subscribe_to_logs id (some pre) s).0 (comes-IsCounted id pre s c)
    ∙ ap (λ n. alive_after j n vs) (subscribe_to_logs_lem id pre s j).1
count_of-visit_all j (ends sub ∷ vs) s c =
    count_of-visit_all j vs (return_logs sub s) (ends-IsCounted sub s c)
    ∙ ap (λ n. alive_after j n vs) (return_logs_lem sub s j c).1

-- Whatever subscribers of container logs come and end, in any order, while a socket is that of a
-- registered connection and open: where the frames on this socket and the counts agree at first, and
-- the map of the counts has distinct keys and no count of 0, the last frame about a container that was
-- sent on it asks to stream exactly while one of its subscribers is alive, and its count is their
-- number; an end where none is alive counts for nothing.
pub streams-alive :
    (w : ℕ) (j : String) (vs : List Visit) (s : Service)
    → IsTold w j s
    → let t = visit_all vs s in
      let alive = alive_after j (count_of j s.active_subscriptions) vs in
      (streams w j false t.sent ≡ ltb 0 alive) × (count_of j t.active_subscriptions ≡ alive)
streams-alive w j vs s h =
    let count = count_of-visit_all j vs s h.counted in
    ((visit_all-IsTold w j vs s h).told ∙ ap (ltb 0) count, count)
