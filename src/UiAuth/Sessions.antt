-- ===== src/UiAuth/Sessions.antt =====
-- The session: its invariant over all events, the timer after a login, the refresh.
use nestjs_graphql_fastify_a.Common.{
  ℕ, suc, ◌-◌, String, true, false, not, Option, none, some, List, [], ◌∷◌, any, ◌==◌, nat_eq,
  if_elim, ◌≡◌, refl, sym, inl, inr, ◌⊎◌,
}
use nestjs_graphql_fastify_a.Common.Text.{truthy?}
use nestjs_graphql_fastify_a.UiAuth.{
  AuthTokenResponse, State, User, save_tokens, stop_refresh_timer, clear_tokens,
  start_refresh_timer, handle_login, handle_logout, is_access_token_expired, do_refresh,
  refresh_answered, init, init_answered, Event, mounted, unmounted, init_answer, refresh_answer,
  timer, login, logout, step, after,
}
use nestjs_graphql_fastify_a.UiAuth.Storage.{IsWhole}
use nestjs_graphql_fastify_a.UiAuth.Timers.{
  IsSingle, stop_refresh_timer_frame, start_refresh_timer_frame, start_refresh_timer-IsSingle,
  stop_refresh_timer-IsSingle, fired-IsSingle,
}

-- What holds of the session at all times: at most one timer, the tokens whole, and no user unless
-- someone is logged in.
pub record IsSession (s : State) : Type 0 where
  pub single : IsSingle s
  pub whole : IsWhole s.stored
  pub user_known : (s.is_authenticated ≡ true) ⊎ (s.user ≡ none)

stop_refresh_timer-IsSession : (s : State) → IsSession s → IsSession (stop_refresh_timer s)
stop_refresh_timer-IsSession s h =
    let frame = stop_refresh_timer_frame s in
    record {
      single = stop_refresh_timer-IsSingle s h.single;
      whole = rw frame.0 h.whole;
      user_known = rw (frame.2, frame.3) h.user_known;
    }

clear_tokens-IsSession : (s : State) → IsSession s → IsSession (clear_tokens s)
unfolding clear_tokens
clear_tokens-IsSession s h = stop_refresh_timer-IsSession _ (record {
  single = record { at_most_one = h.single.at_most_one; named = h.single.named };
  whole = (refl, refl);
  user_known = h.user_known;
})

start_refresh_timer-IsSession :
    (now : ℕ) (s : State) → IsSession s → IsSession (start_refresh_timer now s)
start_refresh_timer-IsSession now s h = record {
  single = start_refresh_timer-IsSingle now s h.single;
  whole = rw (start_refresh_timer_frame now s).0 h.whole;
  user_known =
      rw ((start_refresh_timer_frame now s).1, (start_refresh_timer_frame now s).2) h.user_known;
}

handle_logout-IsSession : (s : State) → IsSession s → IsSession (handle_logout s)
unfolding handle_logout
handle_logout-IsSession s h =
    let t = stop_refresh_timer-IsSession (clear_tokens s) (clear_tokens-IsSession s h) in
    record {
      single = record { at_most_one = t.single.at_most_one; named = t.single.named };
      whole = t.whole;
      user_known = inr refl;
    }

-- Fields that the session does not depend on may change.
abbrev HasSame : State → State → Type 0
HasSame s t = (s.pending ≡ t.pending) × (s.refresh_timer ≡ t.refresh_timer)

same_timers : (s t : State) → HasSame s t → IsSingle s → IsSingle t
same_timers s t (p, r) h = record {
  at_most_one = rw (sym p) h.at_most_one;
  named = rw (sym p, sym r) h.named;
}

saved-IsSession :
    (now : ℕ) (tokens : AuthTokenResponse) (s : State)
    → IsSession s
    → IsSession (save_tokens now tokens s)
unfolding save_tokens
saved-IsSession now tokens s h = record {
  single = same_timers s (save_tokens now tokens s) (refl, refl) h.single;
  whole = (refl, refl);
  user_known = h.user_known;
}

authenticated-IsSession :
    (u : Option User) (s : State)
    → IsSession s
    → IsSession (record s { user = u; is_authenticated = true })
authenticated-IsSession u s h = record {
  single = same_timers s (record s { user = u; is_authenticated = true }) (refl, refl) h.single;
  whole = h.whole;
  user_known = inl refl;
}

do_refresh-IsSession : (s : State) → IsSession s → IsSession (do_refresh s)
unfolding do_refresh
do_refresh-IsSession s h =
    if_elim IsSession (not (truthy? s.stored.refresh_token)) (λ _. handle_logout-IsSession s h)
      (λ _. record {
        single =
            same_timers s (record s { refresh_requests = suc s.refresh_requests }) (refl, refl)
              h.single;
        whole = h.whole;
        user_known = h.user_known;
      })

refresh_answered-IsSession :
    (now : ℕ) (reply : Option AuthTokenResponse) (s : State)
    → IsSession s
    → IsSession (refresh_answered now reply s)
unfolding refresh_answered
refresh_answered-IsSession now none s h = handle_logout-IsSession s h
refresh_answered-IsSession now (some tokens) s h =
    start_refresh_timer-IsSession now _ (saved-IsSession now tokens s h)

loaded-IsSession : (s : State) → IsSession s → IsSession (record s { is_loading = false })
loaded-IsSession s h = record {
  single = same_timers s (record s { is_loading = false }) (refl, refl) h.single;
  whole = h.whole;
  user_known = h.user_known;
}

module _ (user_of : String → Option User) where
  logged_in-IsSession :
      (now : ℕ) (tokens : AuthTokenResponse) (s : State)
      → IsSession s
      → IsSession (handle_login user_of now tokens s)
  unfolding handle_login
  logged_in-IsSession now tokens s h =
      start_refresh_timer-IsSession now _
        (authenticated-IsSession (user_of tokens.access_token) _ (saved-IsSession now tokens s h))

  init-IsSession : (now : ℕ) (s : State) → IsSession s → IsSession (init user_of now s)
  unfolding init
  init-IsSession now s h =
      if_elim IsSession (not (truthy? s.stored.access_token)) (λ _. loaded-IsSession s h)
        (λ _.
          if_elim IsSession (is_access_token_expired now s.stored)
            (λ _.
              if_elim IsSession (not (truthy? s.stored.refresh_token))
                (λ _. loaded-IsSession (clear_tokens s) (clear_tokens-IsSession s h))
                (λ _. record {
                  single =
                      same_timers s (record s { init_requests = suc s.init_requests }) (refl, refl)
                        h.single;
                  whole = h.whole;
                  user_known = h.user_known;
                }))
            (λ _.
              loaded-IsSession _
                (start_refresh_timer-IsSession now _ (authenticated-IsSession _ s h))))

  init_answered-IsSession :
      (now : ℕ) (reply : Option AuthTokenResponse) (s : State)
      → IsSession s
      → IsSession (init_answered user_of now reply s)
  unfolding init_answered
  init_answered-IsSession now none s h =
      loaded-IsSession (clear_tokens s) (clear_tokens-IsSession s h)
  init_answered-IsSession now (some tokens) s h = loaded-IsSession _ (
      start_refresh_timer-IsSession now _
        (authenticated-IsSession (user_of tokens.access_token) _ (saved-IsSession now tokens s h)))

  step-IsSession :
      (now : ℕ) (event : Event user_of) (s : State)
      → IsSession s
      → IsSession (step user_of now event s)
  unfolding step
  step-IsSession now mounted s h = init-IsSession now s h
  step-IsSession now unmounted s h = stop_refresh_timer-IsSession s h
  step-IsSession now (init_answer reply) s h =
      if_elim IsSession (s.init_requests == 0) (λ _. h)
        (λ _. init_answered-IsSession now reply _ (record {
          single =
              same_timers s (record s { init_requests = s.init_requests - 1 }) (refl, refl)
                h.single;
          whole = h.whole;
          user_known = h.user_known;
        }))
  step-IsSession now (refresh_answer reply) s h =
      if_elim IsSession (s.refresh_requests == 0) (λ _. h)
        (λ _. refresh_answered-IsSession now reply _ (record {
          single =
              same_timers s (record s { refresh_requests = s.refresh_requests - 1 }) (refl, refl)
                h.single;
          whole = h.whole;
          user_known = h.user_known;
        }))
  step-IsSession now (timer id) s h =
      if_elim IsSession (any (λ entry. entry.0 == id) s.pending)
        (λ _. do_refresh-IsSession _ (record {
          single = fired-IsSingle s id h.single;
          whole = h.whole;
          user_known = h.user_known;
        }))
        (λ _. h)
  step-IsSession now (login tokens) s h = logged_in-IsSession now tokens s h
  step-IsSession now logout s h = handle_logout-IsSession s h

-- Whatever happens in whatever order, starting from a session where no timer is pending twice, the
-- stored tokens are whole and no user is known without a login: it stays so. In particular never two
-- refresh timers are pending.
pub after-IsSession :
    (user_of : String → Option User) (events : List (ℕ × Event user_of)) (s : State)
    → IsSession s
    → IsSession (after user_of events s)
unfolding after
after-IsSession user_of [] s h = h
after-IsSession user_of ((now, event) ∷ events) s h =
    after-IsSession user_of events (step user_of now event s) (step-IsSession user_of now event s h)
