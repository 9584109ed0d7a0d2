-- ===== src/UiLogin/Steps.antt =====
-- The steps of a login: which answers open a session, and the way through the second factor.
use nestjs_graphql_fastify_a.Common.{
  ℕ, String, true, Option, none, some, List, [], ◌∷◌, if◌then◌else◌, if_elim, ◌≡◌, refl, Bool-cases,
  Option-cases, inl, inr, ◌⊎◌,
}
use nestjs_graphql_fastify_a.Common.Text.{truthy}
use nestjs_graphql_fastify_a.UiAuth.{AuthTokenResponse, User, handle_login}
use nestjs_graphql_fastify_a.UiAuth.Timers.{IsSingle}
use nestjs_graphql_fastify_a.UiAuth.Refresh.{
  IsRenewed, handle_login-IsRenewed, moved-IsRenewed, handle_login_authenticated,
}
use nestjs_graphql_fastify_a.UiLogin.Messages.{get_auth_error_message}
use nestjs_graphql_fastify_a.UiLogin.{
  otp, Page, thrown, answered, LoginData, enter, login_with, login_answered, otp_answered,
  PageEvent, submitted, login_answer, typed, otp_answer, back, handle_back, turn, turn_all,
}

-- The tokens that an event carries: those of a login that needs no second factor, or those of the
-- second step.
abbrev pub tokens_of :
    {user_of : String → Option User} {from : String}
    → PageEvent user_of from
    → Option AuthTokenResponse
tokens_of (login_answer (answered error (some login))) =
    if login.requires_two_factor then none else login.tokens
tokens_of (otp_answer (answered error (some tokens))) = some tokens
tokens_of _ = none

module _ (user_of : String → Option User) (from : String) (now : ℕ) where
  -- The session is untouched, or it is a login with the tokens of the event.
  abbrev pub IsOpenedBy : Option AuthTokenResponse → Page → Page → Type 0
  IsOpenedBy tokens p q =
      (q.session ≡ p.session)
      ⊎ ((t : AuthTokenResponse) × (tokens ≡ some t)
          × (q.session ≡ (enter user_of from now t p).session))

  login_with-IsOpenedBy :
      (login : LoginData) (p : Page)
      → IsOpenedBy
          (if login.requires_two_factor then none else login.tokens)
          p
          (login_with user_of from now login p)
  unfolding login_with
  login_with-IsOpenedBy login p = elim (Bool-cases login.requires_two_factor) [
    | inl e ↦ rw e (elim (Option-cases login.two_factor_token) [
      | inl n ↦ rw n (inl refl)
      | inr (token, n) ↦
          rw n (if_elim (IsOpenedBy none p) (truthy token) (λ _. inl refl) (λ _. inl refl))
    ])
    | inr e ↦ rw e (elim (Option-cases login.tokens) [
      | inl n ↦ rw n (inl refl)
      | inr (tokens, n) ↦ rw n (inr (tokens, refl, refl))
    ])
  ]

  turn-IsOpenedBy_at :
      (event : PageEvent user_of from) (p : Page)
      → IsOpenedBy (tokens_of event) p (turn user_of from now event p)
  unfolding turn handle_back login_answered otp_answered
  turn-IsOpenedBy_at submitted p = inl refl
  turn-IsOpenedBy_at (typed text) p = inl refl
  turn-IsOpenedBy_at back p = inl refl
  turn-IsOpenedBy_at (login_answer (thrown err)) p = inl refl
  turn-IsOpenedBy_at (login_answer (answered error none)) p =
      if_elim (IsOpenedBy none p) (truthy (get_auth_error_message error "")) (λ _. inl refl)
        (λ _. inl refl)
  turn-IsOpenedBy_at (login_answer (answered error (some login))) p =
      if_elim (IsOpenedBy (if login.requires_two_factor then none else login.tokens) p)
        (truthy (get_auth_error_message error "")) (λ _. inl refl)
        (λ _. login_with-IsOpenedBy login p)
  turn-IsOpenedBy_at (otp_answer (thrown err)) p = inl refl
  turn-IsOpenedBy_at (otp_answer (answered error none)) p =
      if_elim (IsOpenedBy none p) (truthy (get_auth_error_message error "")) (λ _. inl refl)
        (λ _. inl refl)
  turn-IsOpenedBy_at (otp_answer (answered error (some tokens))) p =
      if_elim (IsOpenedBy (some tokens) p) (truthy (get_auth_error_message error ""))
        (λ _. inl refl) (λ _. unfold enter in inr (tokens, refl, refl))

-- Nothing that happens on the login page touches the session but an answer with tokens, and that opens
-- it with just these tokens. In particular the answer of a login that needs a second factor opens none,
-- whatever tokens it carries.
pub turn_session :
    (user_of : String → Option User) (from : String) (now : ℕ) (event : PageEvent user_of from)
    (p : Page)
    → ((turn user_of from now event p).session ≡ p.session)
      ⊎ ((t : AuthTokenResponse) × (tokens_of event ≡ some t)
          × ((turn user_of from now event p).session
              ≡ record (handle_login user_of now t p.session) { location = from }))
turn_session user_of from now event p = unfold enter in turn-IsOpenedBy_at user_of from now event p

-- The way through the second factor: the answer that asks for it keeps its token, and the answer to
-- the code stores the session's tokens, starts their timer, logs in, and removes the token of the
-- second factor.
pub two_step_login :
    (user_of : String → Option User) (from code token : String) (asked typing now : ℕ)
    (tokens : AuthTokenResponse) (login : LoginData) (p : Page)
    → IsSingle p.session
    → login.requires_two_factor ≡ true
    → login.two_factor_token ≡ some token
    → truthy token ≡ true
    → let waiting = turn user_of from asked (login_answer (answered none (some login))) p in
      let events : List (ℕ × PageEvent user_of from) =
        (typing, typed code) ∷ (now, otp_answer (answered none (some tokens))) ∷ [] in
      let inside = turn_all user_of from events waiting in
      (waiting.step ≡ otp)
      × (waiting.stored_token ≡ some token)
      × (waiting.session ≡ p.session)
      × IsRenewed now tokens inside.session
      × (inside.session.is_authenticated ≡ true)
      × (inside.stored_token ≡ none)
unfolding turn_all turn login_answered login_with otp_answered enter get_auth_error_message
two_step_login user_of from code token asked typing now tokens login p h e f t =
    rw (e, f, t)
      (
        refl,
        refl,
        refl,
        moved-IsRenewed now tokens (handle_login user_of now tokens p.session) from
            (handle_login-IsRenewed user_of now tokens p.session h),
        handle_login_authenticated user_of now tokens p.session,
        refl,
      )
