-- ===== src/UiLogin.antt =====
-- The login page (apps/ui/src/features/auth/LoginPage.tsx) and the messages of errors
-- (apps/ui/src/features/auth/error-message.ts). A mutation is started by one handler and answered by
-- another; the session is that of UiAuth. The patterns of the messages are ASCII, so that ignoring the
-- case means lowering ASCII.
pub mod Messages
mod Steps
mod Tests
use nestjs_graphql_fastify_a.Common.{
  ℕ, String, Bool, true, false, not, Option, none, some, List, [], ◌∷◌, if◌then◌else◌, or_default,
}
use nestjs_graphql_fastify_a.Common.Text.{truthy, truthy?}
use nestjs_graphql_fastify_a.UiAuth.{AuthTokenResponse, State, User, handle_login}
use nestjs_graphql_fastify_a.UiLogin.Messages.{ApolloError, get_auth_error_message}

pub data Step : Type 0 where
  credentials : Step
  otp : Step

-- The state of the page, the item `twoFactorToken` of localStorage, and the session
pub record Page : Type 0 where
  pub step : Step
  pub otp_code : String
  pub two_factor_token : String
  pub error : String
  pub stored_token : Option String
  pub session : State

-- How a mutation ends: it throws, or it has an error, data, or both (`errorPolicy: 'all'`).
pub data Answer (D : Type 0) : Type 0 where
  thrown : Option ApolloError → Answer D
  answered : (error : Option ApolloError) → (content : Option D) → Answer D

-- `LoginResponse['login']`
pub record LoginData : Type 0 where
  pub requires_two_factor : Bool
  pub tokens : Option AuthTokenResponse
  pub two_factor_token : Option String

-- `setError`
abbrev pub set_error : String → Page → Page
set_error error p = record p { error = error }

module _ (user_of : String → Option User) (from : String) where
  -- `login(tokens); navigate(from)`
  unfoldable pub enter : (now : ℕ) → AuthTokenResponse → Page → Page
  enter now tokens p = record p {
    session = record (handle_login user_of now tokens p.session) { location = from };
  }

  -- The branch of an answer with data
  unfoldable pub login_with : (now : ℕ) → LoginData → Page → Page
  login_with now login p =
      if login.requires_two_factor
      then elim login.two_factor_token [
        | none ↦ set_error "2단계 인증 토큰을 받지 못했습니다." p
        | some token ↦
            if truthy token
            then record p { two_factor_token = token; stored_token = some token; step = otp }
            else set_error "2단계 인증 토큰을 받지 못했습니다." p
      ]
      else elim login.tokens [
        | none ↦ set_error "로그인 응답이 올바르지 않습니다." p
        | some tokens ↦ enter now tokens p
      ]

  -- `handleLogin` from its `await` on
  unfoldable pub login_answered : (now : ℕ) → Answer LoginData → Page → Page
  login_answered now (thrown err) p = set_error (get_auth_error_message err "로그인에 실패했습니다.") p
  login_answered now (answered error content) p =
      let auth_error = get_auth_error_message error "" in
      if truthy auth_error
      then set_error auth_error p
      else elim content [ none ↦ set_error "로그인에 실패했습니다." p | some login ↦ login_with now login p ]

  -- `handleVerifyOtp` from its `await` on
  unfoldable pub otp_answered : (now : ℕ) → Answer AuthTokenResponse → Page → Page
  otp_answered now (thrown err) p = record p {
    error = get_auth_error_message err "인증 코드가 올바르지 않습니다.";
    otp_code = "";
  }
  otp_answered now (answered error content) p =
      let auth_error = get_auth_error_message error "" in
      if truthy auth_error then record p { error = auth_error; otp_code = "" } else elim content [
        | none ↦ set_error "인증에 실패했습니다." p
        | some tokens ↦ enter now tokens (record p { stored_token = none })
      ]

  -- What the user does and what is answered
  pub data PageEvent : Type 0 where
    submitted : PageEvent
    login_answer : Answer LoginData → PageEvent
    typed : String → PageEvent
    otp_answer : Answer AuthTokenResponse → PageEvent
    back : PageEvent

  -- `handleBack`
  unfoldable pub handle_back : Page → Page
  handle_back p = record p {
    step = credentials;
    otp_code = "";
    two_factor_token = "";
    stored_token = none;
    error = "";
  }

  unfoldable pub turn : (now : ℕ) → PageEvent → Page → Page
  turn now submitted p = set_error "" p
  turn now (login_answer answer) p = login_answered now answer p
  turn now (typed code) p = record p { otp_code = code }
  turn now (otp_answer answer) p = otp_answered now answer p
  turn now back p = handle_back p

  unfoldable pub turn_all : List (ℕ × PageEvent) → Page → Page
  turn_all [] p = p
  turn_all ((now, event) ∷ events) p = turn_all events (turn now event p)
