-- ===== src/LogStreamer/Connections/Invariant/Handlers.antt =====
-- Sending keeps the connections well linked, and so do the handlers of a socket and of a timer.
use nestjs_graphql_fastify_a.Common.{
  ℕ, String, Bool, Option, none, some, List, [], ◌∷◌, ◌≡◌, refl, inl, inr, Option-cases, if_elim,
}
use nestjs_graphql_fastify_a.LogStreamer.State.{Connection, Timer, Service, Frame, is_open}
use nestjs_graphql_fastify_a.LogStreamer.Connections.Links.{IsSound, set-Linked, clear-Linked}
use nestjs_graphql_fastify_a.LogStreamer.Connections.{
  send_if_open, send_to, broadcast_over, broadcast_to_all, send_all, on_open_of, on_open, resume,
  on_close, on_timeout, frames_for,
}
use nestjs_graphql_fastify_a.LogStreamer.Connections.Invariant.{
  schedule_reconnect-IsSound, connect_web_socket-IsSound,
}

send_if_open-IsSound :
    (ws : Option ℕ) (frame : Frame) (s : Service) → IsSound s → IsSound (send_if_open ws frame s)
unfolding send_if_open
send_if_open-IsSound none frame s l = l
send_if_open-IsSound (some w) frame s l =
    if_elim IsSound (is_open (s.sockets w))
      (λ _. record { links = l.links; counted = l.counted; counted_services = l.counted_services })
      (λ _. l)

send_to-IsSound : (o : ℕ) (frame : Frame) (s : Service) → IsSound s → IsSound (send_to o frame s)
unfolding send_to
send_to-IsSound o frame s l = elim (Option-cases (s.objects o)) [
  | inl missing ↦ rw (missing, send_to) l
  | inr (conn, e) ↦ rw (e, send_to) (send_if_open-IsSound conn.ws frame s l)
]

broadcast_over-IsSound :
    (cs : List (String × ℕ)) (frame : Frame) (s : Service)
    → IsSound s
    → IsSound (broadcast_over cs frame s)
unfolding broadcast_over
broadcast_over-IsSound [] frame s l = l
broadcast_over-IsSound ((host, o) ∷ cs) frame s l =
    broadcast_over-IsSound cs frame (send_to o frame s) (send_to-IsSound o frame s l)

pub broadcast_to_all-IsSound :
    (frame : Frame) (s : Service) → IsSound s → IsSound (broadcast_to_all frame s)
unfolding broadcast_to_all
broadcast_to_all-IsSound frame s l = broadcast_over-IsSound s.connections frame s l

send_all-IsSound :
    (w : ℕ) (frames : List Frame) (s : Service) → IsSound s → IsSound (send_all w frames s)
unfolding send_all
send_all-IsSound w [] s l = l
send_all-IsSound w (frame ∷ frames) s l =
    send_all-IsSound w frames _
      (record { links = l.links; counted = l.counted; counted_services = l.counted_services })

pub on_close-IsSound : (w : ℕ) (s : Service) → IsSound s → IsSound (on_close w s)
unfolding on_close
on_close-IsSound w s l = elim (Option-cases (s.sockets w)) [
  | inl missing ↦ rw (missing, on_close) l
  | inr (k, e) ↦ rw (e, on_close) (schedule_reconnect-IsSound k.owner s l)
]

pub on_timeout-IsSound :
    (v : String → Bool) (timer : Timer) (s : Service) → IsSound s → IsSound (on_timeout v timer s)
unfolding on_timeout
on_timeout-IsSound v timer s l = connect_web_socket-IsSound v timer.owner _ (record {
  links = clear-Linked timer.id l.links;
  counted = l.counted;
  counted_services = l.counted_services;
})

-- A property of the state after an event that raises nothing.
abbrev pub Ensures : (Service → Type 0) → Option Service → Type 0
Ensures P none = Unit
Ensures P (some s) = P s

resume-IsSound :
    (ws : Option ℕ) (frames : List Frame) (s : Service)
    → IsSound s
    → Ensures IsSound (resume ws frames s)
unfolding resume
resume-IsSound (some w) frames s l = send_all-IsSound w frames s l
resume-IsSound none [] s l = l
resume-IsSound none (_ ∷ _) s l = tt

on_open_of-IsSound :
    (o : ℕ) (conn : Connection) (s : Service)
    → s.objects o ≡ some conn
    → IsSound s
    → Ensures IsSound (on_open_of o conn s)
unfolding on_open_of
on_open_of-IsSound o conn s e l = resume-IsSound conn.ws (frames_for s) _ (record {
  links = set-Linked o conn _ l.links e refl (inl refl);
  counted = l.counted;
  counted_services = l.counted_services;
})

pub on_open-IsSound : (w : ℕ) (s : Service) → IsSound s → Ensures IsSound (on_open w s)
unfolding on_open
on_open-IsSound w s l = elim (Option-cases (s.sockets w)) [
  | inl missing ↦ rw (missing, on_open) l
  | inr (k, made) ↦ elim (Option-cases (s.objects k.owner)) [
    | inl missing ↦ rw (made, on_open) (rw (missing, on_open) l)
    | inr (conn, e) ↦ rw (made, on_open) (rw e (on_open_of-IsSound k.owner conn s e l))
  ]
]
