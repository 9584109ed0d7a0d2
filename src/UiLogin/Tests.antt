-- ===== src/UiLogin/Tests.antt =====
-- The login page with concrete answers.
use nestjs_graphql_fastify_a.Common.{
  ℕ, String, true, false, Option, none, some, List, [], ◌∷◌, ◌≡◌, ◌⊎◌, refl, arith,
}
use nestjs_graphql_fastify_a.Common.Text.{trim, includes, starts_with}
use nestjs_graphql_fastify_a.Common.Headers.{to_lower_case}
use nestjs_graphql_fastify_a.UiAuth.{AuthTokenResponse, User, nothing_stored, handle_login}
use nestjs_graphql_fastify_a.UiAuth.Timers.{IsSingle}
use nestjs_graphql_fastify_a.UiAuth.Refresh.{IsRenewed}
use nestjs_graphql_fastify_a.UiLogin.Messages.{
  ApolloError, get_auth_error_message, is_technical, is_unreachable, mentions_undefined_data,
  line_includes, skip, first_message, first_text,
}
use nestjs_graphql_fastify_a.UiLogin.{
  credentials, otp, Page, answered, LoginData, PageEvent, login_answer, typed, otp_answer, turn,
  turn_all,
}
use nestjs_graphql_fastify_a.UiLogin.Steps.{tokens_of, turn_session, two_step_login}

abbrev error_of : String → ApolloError
error_of message = record {
  message = some message;
  errors = none;
  graph_ql_errors = some (none ∷ some message ∷ []);
  network_message = none;
  network_errors = none;
}

technical :
    get_auth_error_message (some (error_of "Data of X is undefined")) "로그인에 실패했습니다."
    ≡ "로그인에 실패했습니다."
unfolding get_auth_error_message is_unreachable is_technical mentions_undefined_data line_includes
    skip first_message first_text trim to_lower_case includes starts_with
technical = refl

plain : get_auth_error_message (some (error_of " 비밀번호가 틀렸습니다. ")) "" ≡ "비밀번호가 틀렸습니다."
unfolding get_auth_error_message is_unreachable is_technical mentions_undefined_data line_includes
    skip first_message first_text trim to_lower_case includes starts_with
plain = refl

abbrev nobody : String → Option User
nobody token = none

abbrev opened : Page
opened = record {
  step = credentials;
  otp_code = "";
  two_factor_token = "";
  error = "";
  stored_token = none;
  session = record {
    stored = nothing_stored;
    refresh_timer = none;
    pending = [];
    next_timer = 1;
    is_authenticated = false;
    is_loading = false;
    user = none;
    init_requests = 0;
    refresh_requests = 0;
    location = "/admin/login";
  };
}

abbrev session_tokens : AuthTokenResponse
session_tokens = record { access_token = "a1"; refresh_token = "r1"; expires_in = 900 }

abbrev second_step : LoginData
second_step = record { requires_two_factor = true; tokens = none; two_factor_token = some "t1" }

opened-IsSingle : IsSingle opened.session
opened-IsSingle = record { at_most_one = omega arith; named = tt }

abbrev code_answer : PageEvent nobody "/admin/live-stream"
code_answer = otp_answer (answered none (some session_tokens))

turn_session_example :
    ((turn nobody "/admin/live-stream" 7 code_answer opened).session ≡ opened.session)
    ⊎ ((t : AuthTokenResponse) × (tokens_of code_answer ≡ some t)
        × ((turn nobody "/admin/live-stream" 7 code_answer opened).session
            ≡ record (handle_login nobody 7 t opened.session) { location = "/admin/live-stream" }))
turn_session_example = turn_session nobody "/admin/live-stream" 7 code_answer opened

two_step_login_example :
    let waiting =
      turn nobody "/admin/live-stream" 1 (login_answer (answered none (some second_step))) opened in
    let events : List (ℕ × PageEvent nobody "/admin/live-stream") =
      (5, typed "123456") ∷ (7, otp_answer (answered none (some session_tokens))) ∷ [] in
    let inside = turn_all nobody "/admin/live-stream" events waiting in
    (waiting.step ≡ otp)
    × (waiting.stored_token ≡ some "t1")
    × (waiting.session ≡ opened.session)
    × IsRenewed 7 session_tokens inside.session
    × (inside.session.is_authenticated ≡ true)
    × (inside.stored_token ≡ none)
two_step_login_example =
    two_step_login nobody "/admin/live-stream" "123456" "t1" 1 5 7 session_tokens second_step opened
      opened-IsSingle refl refl refl
