-- ===== src/UiAuth/Races.antt =====
-- Answers that arrive after the session has changed.
use nestjs_graphql_fastify_a.Common.{
  ℕ, suc, ◌+◌, ◌-◌, ◌*◌, ◌<◌, String, true, false, Option, none, some, [], ◌∷◌, ◌==◌, nat_eq, ◌≡◌,
  refl, ap, ◌∙◌, arith, Option-cases, inl, inr,
}
use nestjs_graphql_fastify_a.Common.Text.{truthy, truthy?}
use nestjs_graphql_fastify_a.UiAuth.{
  AuthTokenResponse, State, User, save_tokens, start_refresh_timer, stop_refresh_timer,
  clear_tokens, handle_login, handle_logout, refresh_answered, init, init_answered, mounted,
  refresh_answer, init_answer, login, logout, step, after, is_access_token_expired, nothing_stored,
}
use nestjs_graphql_fastify_a.UiAuth.Storage.{save_tokens-expiry}
use nestjs_graphql_fastify_a.UiAuth.Timers.{stop_refresh_timer_frame, start_refresh_timer_frame}

requests-stop :
    (s : State)
    → ((stop_refresh_timer s).refresh_requests ≡ s.refresh_requests)
      × ((stop_refresh_timer s).init_requests ≡ s.init_requests)
unfolding stop_refresh_timer
requests-stop s = elim (Option-cases s.refresh_timer) [
  | inl e ↦ rw (e, stop_refresh_timer) (refl, refl)
  | inr (id, e) ↦ rw (e, stop_refresh_timer) (refl, refl)
]

requests-handle_logout : (s : State) → (handle_logout s).refresh_requests ≡ s.refresh_requests
unfolding handle_logout clear_tokens
requests-handle_logout s =
    (requests-stop (stop_refresh_timer (record s { stored = nothing_stored }))).0
    ∙ (requests-stop (record s { stored = nothing_stored })).0

-- The page that is loaded again with tokens that have not expired is logged in.
init_authenticated :
    (user_of : String → Option User) (now : ℕ) (s : State)
    → truthy? s.stored.access_token ≡ true
    → is_access_token_expired now s.stored ≡ false
    → (init user_of now s).is_authenticated ≡ true
unfolding init
init_authenticated user_of now s t e = rw (t, e) (start_refresh_timer_frame now _).1

-- Answering a refresh stores its tokens, whoever is logged in.
answered_stored :
    (user_of : String → Option User) (now n : ℕ) (tokens : AuthTokenResponse) (s : State)
    → s.refresh_requests ≡ suc n
    → let t = step user_of now (refresh_answer (some tokens)) s in
      (t.stored ≡ (save_tokens now tokens s).stored) × (t.is_authenticated ≡ s.is_authenticated)
unfolding step refresh_answered save_tokens
answered_stored user_of now n tokens s e =
    let asked : (s.refresh_requests == 0) ≡ false = ground (arith, e) in
    rw asked ((start_refresh_timer_frame now _).0, (start_refresh_timer_frame now _).1)

-- Where a refresh is under way, a logout does not hold: the answer with new tokens stores them again,
-- with nobody logged in, and a page that is loaded before they end is logged in without a login.
pub logout_undone :
    (user_of : String → Option User) (left answered reloaded n : ℕ) (tokens : AuthTokenResponse)
    (s : State)
    → s.refresh_requests ≡ suc n
    → truthy tokens.access_token ≡ true
    → reloaded < answered + tokens.expires_in * 1000
    → let out = after user_of ((left, logout) ∷ (answered, refresh_answer (some tokens)) ∷ []) s in
      (out.is_authenticated ≡ false)
      × (out.stored.refresh_token ≡ some tokens.refresh_token)
      × ((after user_of ((reloaded, mounted) ∷ []) out).is_authenticated ≡ true)
unfolding after step
logout_undone user_of left answered reloaded n tokens s e t h =
    let away : State = handle_logout s in
    let out : State = step user_of answered (refresh_answer (some tokens)) away in
    let (stored, same) =
      answered_stored user_of answered n tokens away (requests-handle_logout s ∙ e) in
    (
      same ∙ (unfold handle_logout in refl),
      ap (λ stored. stored.refresh_token) stored ∙ (unfold save_tokens in refl),
      init_authenticated user_of reloaded out
          (ap (λ stored. truthy? stored.access_token) stored ∙ (unfold save_tokens in t))
          (ap (is_access_token_expired reloaded) stored
            ∙ (save_tokens-expiry answered reloaded tokens away).0
            ∙ ground (arith, h)),
    )

clear_tokens_lem :
    (s : State)
    → ((clear_tokens s).stored ≡ nothing_stored)
      × ((clear_tokens s).is_authenticated ≡ s.is_authenticated)
unfolding clear_tokens
clear_tokens_lem s =
    let frame = stop_refresh_timer_frame (record s { stored = nothing_stored }) in
    (frame.0, frame.2)

requests-handle_login :
    (user_of : String → Option User) (now : ℕ) (tokens : AuthTokenResponse) (s : State)
    → (handle_login user_of now tokens s).init_requests ≡ s.init_requests
unfolding handle_login start_refresh_timer save_tokens
requests-handle_login user_of now tokens s = (requests-stop _).1

-- Where the refresh of the page's start is under way, a login does not hold either: when that refresh
-- fails, the tokens of the login are gone, while the page still shows someone as logged in.
pub login_erased :
    (user_of : String → Option User) (entered failed n : ℕ) (tokens : AuthTokenResponse) (s : State)
    → s.init_requests ≡ suc n
    → let out = after user_of ((entered, login tokens) ∷ (failed, init_answer none) ∷ []) s in
      (out.stored ≡ nothing_stored) × (out.is_authenticated ≡ true)
unfolding after step init_answered
login_erased user_of entered failed n tokens s e =
    let inside : State = handle_login user_of entered tokens s in
    let asked : (inside.init_requests == 0) ≡ false =
      ground (arith, requests-handle_login user_of entered tokens s, e) in
    let cleared = clear_tokens_lem (record inside { init_requests = inside.init_requests - 1 }) in
    rw asked (cleared.0, cleared.1 ∙ authenticated)
  where
    authenticated : (handle_login user_of entered tokens s).is_authenticated ≡ true
    authenticated = unfold handle_login in (start_refresh_timer_frame entered _).1
