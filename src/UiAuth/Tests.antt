-- ===== src/UiAuth/Tests.antt =====
-- Sessions with concrete tokens.
use nestjs_graphql_fastify_a.Common.{
  ℕ, String, true, false, Option, none, some, List, [], ◌∷◌, ◌≡◌, refl, inr, arith,
}
use nestjs_graphql_fastify_a.UiAuth.{
  AuthTokenResponse, State, User, nothing_stored, Event, timer, refresh_answer, init_answer, login,
  logout, mounted, after,
}
use nestjs_graphql_fastify_a.UiAuth.Timers.{IsSingle}
use nestjs_graphql_fastify_a.UiAuth.Sessions.{IsSession, after-IsSession}
use nestjs_graphql_fastify_a.UiAuth.Refresh.{IsRenewed, refresh-IsRenewed}
use nestjs_graphql_fastify_a.UiAuth.Races.{logout_undone, login_erased}

abbrev kim : String → Option User
kim token =
    some (record { login_id = "kim"; name = "Kim"; user_type = "PRIVATE_BO"; role_type = "ADMIN" })

abbrev quarter_hour : AuthTokenResponse
quarter_hour = record { access_token = "a1"; refresh_token = "r1"; expires_in = 900 }

abbrev fresh : State
fresh = record {
  stored = nothing_stored;
  refresh_timer = none;
  pending = [];
  next_timer = 1;
  is_authenticated = false;
  is_loading = true;
  user = none;
  init_requests = 0;
  refresh_requests = 0;
  location = "/";
}

fresh-IsSingle : IsSingle fresh
fresh-IsSingle = record { at_most_one = omega arith; named = tt }

after-IsSession_example :
    IsSession
      (after kim ((1, mounted) ∷ (2, login quarter_hour) ∷ (3, login quarter_hour) ∷ []) fresh)
after-IsSession_example =
    after-IsSession kim ((1, mounted) ∷ (2, login quarter_hour) ∷ (3, login quarter_hour) ∷ [])
      fresh (record { single = fresh-IsSingle; whole = (refl, refl); user_known = inr refl })

-- Logged in, with the timer 1 waiting, and one refresh and one start of the page not answered
abbrev logged_in : State
logged_in = record fresh {
  stored = record {
    access_token = some "a0";
    refresh_token = some "r0";
    token_expiry = some "905000";
  };
  refresh_timer = some 1;
  pending = (1, 305000) ∷ [];
  next_timer = 2;
  is_authenticated = true;
  init_requests = 1;
  refresh_requests = 1;
}

refresh-IsRenewed_example :
    let events : List (ℕ × Event kim) =
      (305000, timer 1) ∷ (305200, refresh_answer (some quarter_hour)) ∷ [] in
    IsRenewed 305200 quarter_hour (after kim events logged_in)
    × ((after kim events logged_in).is_authenticated ≡ logged_in.is_authenticated)
refresh-IsRenewed_example =
    refresh-IsRenewed kim 305000 305200 1 305000 quarter_hour logged_in refl refl

logout_undone_example :
    let out =
      after kim ((305100, logout) ∷ (305200, refresh_answer (some quarter_hour)) ∷ []) logged_in in
    (out.is_authenticated ≡ false)
    × (out.stored.refresh_token ≡ some quarter_hour.refresh_token)
    × ((after kim ((400000, mounted) ∷ []) out).is_authenticated ≡ true)
logout_undone_example =
    logout_undone kim 305100 305200 400000 0 quarter_hour logged_in refl refl (omega arith)

login_erased_example :
    let out = after kim ((5000, login quarter_hour) ∷ (5200, init_answer none) ∷ []) logged_in in
    (out.stored ≡ nothing_stored) × (out.is_authenticated ≡ true)
login_erased_example = login_erased kim 5000 5200 0 quarter_hour logged_in refl
