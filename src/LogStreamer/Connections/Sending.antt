-- ===== src/LogStreamer/Connections/Sending.antt =====
-- Which frames are sent on which sockets.
use mathlib.Core.List.{map-append}
use nestjs_graphql_fastify_a.Common.{
  ◌≡⟨◌⟩◌, ◌∎, ℕ, String, Option, none, some, List, [], ◌∷◌, ◌++◌, map, keys, ◌≡◌, ap, ◌∙◌, arith,
  append_assoc, append-nil, if◌then◌else◌,
}
use nestjs_graphql_fastify_a.LogStreamer.State.{
  Connection, Service, Socket, Frame, subscribe, subscribe_service, is_open, send, set_object,
}
use nestjs_graphql_fastify_a.LogStreamer.Connections.{
  send_if_open, send_to, broadcast_over, broadcast_to_all, send_all, resume, on_open_of, on_open,
  frames_for,
}

-- The open sockets of the registered connections, in their order.
module _ (sockets : ℕ → Option Socket) (objects : ℕ → Option Connection) where
  abbrev open_socket : Option ℕ → List ℕ
  open_socket none = []
  open_socket (some w) = if is_open (sockets w) then w ∷ [] else []

  abbrev held_socket : Option Connection → List ℕ
  held_socket none = []
  held_socket (some conn) = open_socket conn.ws

  unfoldable pub open_sockets : List (String × ℕ) → List ℕ
  open_sockets [] = []
  open_sockets ((host, o) ∷ cs) = held_socket (objects o) ++ open_sockets cs

abbrev pub open_now : Service → List ℕ
open_now s = open_sockets s.sockets s.objects s.connections

abbrev pub each_sent : Frame → List ℕ → List (ℕ × Frame)
each_sent frame = map (λ w. (w, frame))

-- Sending changes `sent` alone.
abbrev pub with_sent : Service → List (ℕ × Frame) → Service
with_sent s frames = record s { sent = s.sent ++ frames }

send_to_lem :
    (o : ℕ) (frame : Frame) (s : Service)
    → send_to o frame s
      ≡ with_sent s (each_sent frame (held_socket s.sockets s.objects (s.objects o)))
unfolding send_to send_if_open
send_to_lem o frame s = ground (arith, append-nil s.sent)

broadcast_over_lem :
    (cs : List (String × ℕ)) (frame : Frame) (s : Service)
    → broadcast_over cs frame s
      ≡ with_sent s (each_sent frame (open_sockets s.sockets s.objects cs))
unfolding broadcast_over open_sockets
broadcast_over_lem [] frame s = rw append-nil
broadcast_over_lem ((host, o) ∷ cs) frame s =
    let first = held_socket s.sockets s.objects (s.objects o) in
    let later = open_sockets s.sockets s.objects cs in
    broadcast_over cs frame (send_to o frame s)
    ≡⟨ ap (broadcast_over cs frame) (send_to_lem o frame s) ⟩
      broadcast_over cs frame (with_sent s (each_sent frame first))
    ≡⟨ broadcast_over_lem cs frame (with_sent s (each_sent frame first)) ⟩
      with_sent (with_sent s (each_sent frame first)) (each_sent frame later)
    ≡⟨ (rw (append_assoc, map-append)) ⟩ with_sent s (each_sent frame (first ++ later)) ∎

-- A broadcast sends its frame once to each registered connection with an open socket, and changes
-- nothing else.
pub broadcast_to_all_lem :
    (frame : Frame) (s : Service)
    → broadcast_to_all frame s ≡ with_sent s (each_sent frame (open_now s))
unfolding broadcast_to_all
broadcast_to_all_lem frame s = broadcast_over_lem s.connections frame s

send_all_lem :
    (w : ℕ) (frames : List Frame) (s : Service)
    → send_all w frames s ≡ with_sent s (map (λ f. (w, f)) frames)
unfolding send_all
send_all_lem w [] s = rw append-nil
send_all_lem w (frame ∷ frames) s = send_all_lem w frames (send w frame s) ∙ rw append_assoc

-- When a socket opens whose object holds a socket, the attempts start anew, and that socket is
-- asked for every active container and then for every active service, once each and in order.
pub on_open_lem :
    (w held : ℕ) (k : Socket) (conn : Connection) (s : Service)
    → s.sockets w ≡ some k
    → s.objects k.owner ≡ some conn
    → conn.ws ≡ some held
    → on_open w s
      ≡ some (
          with_sent (set_object k.owner (record conn { reconnect_attempts = 0 }) s) (
            map
              (λ f. (held, f))
              (map subscribe (keys s.active_subscriptions)
                ++ map subscribe_service (keys s.active_service_subscriptions))))
unfolding on_open on_open_of resume frames_for
on_open_lem w held k conn s made e holds =
    rw (made, on_open) (rw e (rw holds (ap some (send_all_lem held _ _))))
