-- ===== src/UiAuth/Refresh.antt =====
-- When the tokens are refreshed, and that the refresh keeps the session alive.
use nestjs_graphql_fastify_a.Common.{
  ℕ, suc, ◌+◌, ◌-◌, ◌*◌, String, true, false, not, Option, some, List, [], ◌∷◌, filter, any, ◌==◌,
  nat_eq, leb, ◌≡◌, refl, ap, ◌∙◌, arith,
}
use nestjs_graphql_fastify_a.Common.Text.{truthy?}
use nestjs_graphql_fastify_a.UiAuth.{
  AuthTokenResponse, State, User, save_tokens, start_refresh_timer, handle_login,
  get_time_until_expiry, refresh_ahead, do_refresh, refresh_answered, Event, refresh_answer, timer,
  step, after, is_access_token_expired,
}
use nestjs_graphql_fastify_a.UiAuth.Storage.{save_tokens-expiry}
use nestjs_graphql_fastify_a.UiAuth.Timers.{
  IsSingle, pending-start_refresh_timer, start_refresh_timer_frame,
}

-- What a session with new tokens is: they are stored, and one timer is pending, which fires ten
-- minutes before the tokens end, or at once if they do not last that long.
pub record IsRenewed (now : ℕ) (tokens : AuthTokenResponse) (s : State) : Type 0 where
  pub access : s.stored.access_token ≡ some tokens.access_token
  pub refresh : s.stored.refresh_token ≡ some tokens.refresh_token
  pub lives :
      (later : ℕ)
      → is_access_token_expired later s.stored ≡ leb (now + tokens.expires_in * 1000) later
  pub timer_id : ℕ
  pub waits : s.pending ≡ (timer_id, now + (tokens.expires_in * 1000 - refresh_ahead)) ∷ []
  pub named : s.refresh_timer ≡ some timer_id

-- Tokens that are saved, and a timer that is started after that.
renewed :
    (now : ℕ) (tokens : AuthTokenResponse) (s before : State)
    → IsSingle s
    → s.stored ≡ (save_tokens now tokens before).stored
    → IsRenewed now tokens (start_refresh_timer now s)
renewed now tokens s before h e =
    let saved = (start_refresh_timer_frame now s).0 ∙ e in
    let (pending, name) = pending-start_refresh_timer now s h in
    record {
      access = ap (λ stored. stored.access_token) saved ∙ (unfold save_tokens in refl);
      refresh = ap (λ stored. stored.refresh_token) saved ∙ (unfold save_tokens in refl);
      lives = λ later.
          ap (is_access_token_expired later) saved ∙ (save_tokens-expiry now later tokens before).0;
      timer_id = s.next_timer;
      waits =
          pending
          ∙ ap (λ left. (s.next_timer, now + (left - refresh_ahead)) ∷ [])
              (ap (get_time_until_expiry now) e
                ∙ (save_tokens-expiry now now tokens before).1
                ∙ omega arith);
      named = name;
    }

saved-IsSingle :
    (now : ℕ) (tokens : AuthTokenResponse) (s : State)
    → IsSingle s
    → IsSingle (save_tokens now tokens s)
unfolding save_tokens
saved-IsSingle now tokens s h = record { at_most_one = h.at_most_one; named = h.named }

-- After a login the tokens are stored and the refresh is due ten minutes before they end.
pub handle_login-IsRenewed :
    (user_of : String → Option User) (now : ℕ) (tokens : AuthTokenResponse) (s : State)
    → IsSingle s
    → IsRenewed now tokens (handle_login user_of now tokens s)
unfolding handle_login save_tokens
handle_login-IsRenewed user_of now tokens s h =
    renewed now tokens
      (record (save_tokens now tokens s) {
        user = user_of tokens.access_token;
        is_authenticated = true;
      })
      s (record { at_most_one = h.at_most_one; named = h.named }) refl

-- The state while the server is asked
abbrev asked : State → State
asked s = record s { pending = []; refresh_requests = suc s.refresh_requests }

step-timer :
    (user_of : String → Option User) (now id due : ℕ) (s : State)
    → s.pending ≡ (id, due) ∷ []
    → truthy? s.stored.refresh_token ≡ true
    → step user_of now (timer id) s ≡ asked s
unfolding step do_refresh
step-timer user_of now id due s p t =
    let fires : any (λ entry. entry.0 == id) s.pending ≡ true = rw p (ground arith) in
    let gone : filter (λ entry. not (entry.0 == id)) s.pending ≡ [] = rw p (ground arith) in
    rw (fires, gone, t) refl

step-refresh_answer :
    (user_of : String → Option User) (now : ℕ) (tokens : AuthTokenResponse) (s : State)
    → step user_of now (refresh_answer (some tokens)) (asked s)
      ≡ start_refresh_timer now (
          save_tokens now tokens
            (record s { pending = []; refresh_requests = suc s.refresh_requests - 1 }))
unfolding step refresh_answered
step-refresh_answer user_of now tokens s =
    let some_asked : (suc s.refresh_requests == 0) ≡ false = ground arith in rw some_asked refl

-- When the timer that is pending fires and the server answers with new tokens, these are stored, the
-- next refresh is due ten minutes before they end, and who is logged in stays logged in: a session
-- whose refreshes succeed goes on.
pub refresh-IsRenewed :
    (user_of : String → Option User) (fired answered id due : ℕ) (tokens : AuthTokenResponse)
    (s : State)
    → s.pending ≡ (id, due) ∷ []
    → truthy? s.stored.refresh_token ≡ true
    → let events : List (ℕ × Event user_of) =
        (fired, timer id) ∷ (answered, refresh_answer (some tokens)) ∷ [] in
      IsRenewed answered tokens (after user_of events s)
      × ((after user_of events s).is_authenticated ≡ s.is_authenticated)
unfolding after
refresh-IsRenewed user_of fired answered id due tokens s p t =
    let idle : State = record s { pending = []; refresh_requests = suc s.refresh_requests - 1 } in
    let saved : State = save_tokens answered tokens idle in
    rw (step-timer user_of fired id due s p t, step-refresh_answer user_of answered tokens s)
      (
        renewed answered tokens saved idle
            (saved-IsSingle answered tokens idle (record { at_most_one = omega arith; named = tt }))
            refl,
        (start_refresh_timer_frame answered saved).1 ∙ (unfold save_tokens in refl),
      )

-- The page's address does not matter to the session.
pub moved-IsRenewed :
    (now : ℕ) (tokens : AuthTokenResponse) (s : State) (location : String)
    → IsRenewed now tokens s
    → IsRenewed now tokens (record s { location = location })
moved-IsRenewed now tokens s location h = record {
  access = h.access;
  refresh = h.refresh;
  lives = h.lives;
  timer_id = h.timer_id;
  waits = h.waits;
  named = h.named;
}

pub handle_login_authenticated :
    (user_of : String → Option User) (now : ℕ) (tokens : AuthTokenResponse) (s : State)
    → (handle_login user_of now tokens s).is_authenticated ≡ true
unfolding handle_login
handle_login_authenticated user_of now tokens s = (start_refresh_timer_frame now _).1
