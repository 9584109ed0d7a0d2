-- ===== src/UiAuth.antt =====
-- The session in the browser (apps/ui/src/features/auth/token.ts and AuthContext.tsx): the tokens in
-- localStorage, the timer that refreshes them, and the handlers of AuthProvider, each as far as it
-- runs without waiting: what follows an `await` of the refresh mutation is a handler of its own. The
-- time is a parameter, and so is the decoding of a token's payload.
mod Storage
pub mod Timers
mod Sessions
pub mod Refresh
mod Races
mod Tests
use nestjs_graphql_fastify_a.Common.{
  ℕ, zero, suc, ◌+◌, ◌-◌, ◌*◌, String, Bool, true, false, not, ◌||◌, Option, none, some, List, [],
  ◌∷◌, filter, any, ltb, leb, ◌==◌, nat_eq, if◌then◌else◌, or_default,
}
use nestjs_graphql_fastify_a.Common.Text.{to_text, number, truthy?}

-- The items of localStorage
pub record Stored : Type 0 where
  pub access_token : Option String
  pub refresh_token : Option String
  pub token_expiry : Option String

pub record AuthTokenResponse : Type 0 where
  pub access_token : String
  pub refresh_token : String
  pub expires_in : ℕ

pub record User : Type 0 where
  pub login_id : String
  pub name : String
  pub user_type : String
  pub role_type : String

-- The state of token.ts and of AuthProvider: localStorage, `refreshTimer`, the timers of the browser
-- that are to fire (a number and the time when), the mutations that are not answered yet.
pub record State : Type 0 where
  pub stored : Stored
  pub refresh_timer : Option ℕ
  pub pending : List (ℕ × ℕ)
  pub next_timer : ℕ
  pub is_authenticated : Bool
  pub is_loading : Bool
  pub user : Option User
  pub init_requests : ℕ
  pub refresh_requests : ℕ
  pub location : String

abbrev pub nothing_stored : Stored
nothing_stored = record { access_token = none; refresh_token = none; token_expiry = none }

-- `saveTokens`
unfoldable pub save_tokens : (now : ℕ) → AuthTokenResponse → State → State
save_tokens now tokens s = record s {
  stored = record {
    access_token = some tokens.access_token;
    refresh_token = some tokens.refresh_token;
    token_expiry = some (to_text (now + tokens.expires_in * 1000));
  };
}

-- `stopRefreshTimer`
unfoldable pub stop_refresh_timer : State → State
stop_refresh_timer s = elim s.refresh_timer [
  | none ↦ s
  | some timer ↦ record s {
    pending = filter (λ entry. not (entry.0 == timer)) s.pending;
    refresh_timer = none;
  }
]

-- `clearTokens`
unfoldable pub clear_tokens : State → State
clear_tokens s = stop_refresh_timer (record s { stored = nothing_stored })

-- `isAccessTokenExpired`; a text that is no number is never reached.
unfoldable pub is_access_token_expired : (now : ℕ) → Stored → Bool
is_access_token_expired now stored =
    if not (truthy? stored.token_expiry)
    then true
    else elim (number (or_default stored.token_expiry "")) [
      | none ↦ false
      | some expiry ↦ leb expiry now
    ]

-- `getTimeUntilExpiry`; the delay NaN is taken as 0, as `setTimeout` takes it.
unfoldable pub get_time_until_expiry : (now : ℕ) → Stored → ℕ
get_time_until_expiry now stored =
    if not (truthy? stored.token_expiry)
    then 0
    else or_default (number (or_default stored.token_expiry "")) 0 - now

abbrev pub refresh_ahead : ℕ
refresh_ahead = 10 * 60 * 1000

-- `startRefreshTimer`
unfoldable pub start_refresh_timer : (now : ℕ) → State → State
start_refresh_timer now s =
    let stopped = stop_refresh_timer s in
    let refresh_in = get_time_until_expiry now stopped.stored - refresh_ahead in
    record stopped {
      pending = (stopped.next_timer, now + refresh_in) ∷ stopped.pending;
      refresh_timer = some stopped.next_timer;
      next_timer = suc stopped.next_timer;
    }

-- `handleLogout`, the navigation included, for which it waits on `client.clearStore()`: that wait is
-- taken to end at once and well.
unfoldable pub handle_logout : State → State
handle_logout s = record (stop_refresh_timer (clear_tokens s)) {
  is_authenticated = false;
  user = none;
  location = "/admin/login";
}

-- `doRefresh` up to its `await`
unfoldable pub do_refresh : State → State
do_refresh s =
    if not (truthy? s.stored.refresh_token)
    then handle_logout s
    else record s { refresh_requests = suc s.refresh_requests }

-- `doRefresh` from there on: `none` where the mutation fails or has no data.
unfoldable pub refresh_answered : (now : ℕ) → Option AuthTokenResponse → State → State
refresh_answered now none s = handle_logout s
refresh_answered now (some tokens) s = start_refresh_timer now (save_tokens now tokens s)

module _ (user_of : String → Option User) where
  -- `handleLogin`
  unfoldable pub handle_login : (now : ℕ) → AuthTokenResponse → State → State
  handle_login now tokens s = start_refresh_timer now (record (save_tokens now tokens s) {
    user = user_of tokens.access_token;
    is_authenticated = true;
  })

  -- `init` up to its `await`
  unfoldable pub init : (now : ℕ) → State → State
  init now s =
      if not (truthy? s.stored.access_token)
      then record s { is_loading = false }
      else if is_access_token_expired now s.stored
      then if not (truthy? s.stored.refresh_token)
        then record (clear_tokens s) { is_loading = false }
        else record s { init_requests = suc s.init_requests }
      else record (start_refresh_timer now (record s {
        user = user_of (or_default s.stored.access_token "");
        is_authenticated = true;
      })) { is_loading = false }

  -- `init` from there on
  unfoldable pub init_answered : (now : ℕ) → Option AuthTokenResponse → State → State
  init_answered now none s = record (clear_tokens s) { is_loading = false }
  init_answered now (some tokens) s =
      record (start_refresh_timer now (record (save_tokens now tokens s) {
        user = user_of tokens.access_token;
        is_authenticated = true;
      })) { is_loading = false }

  -- What can happen: the component is mounted or unmounted, a mutation is answered, a timer fires, the
  -- user logs in or out.
  pub data Event : Type 0 where
    mounted : Event
    unmounted : Event
    init_answer : Option AuthTokenResponse → Event
    refresh_answer : Option AuthTokenResponse → Event
    timer : ℕ → Event
    login : AuthTokenResponse → Event
    logout : Event

  -- An answer without its request, or a timer that is not pending, is no event: nothing happens.
  unfoldable pub step : (now : ℕ) → Event → State → State
  step now mounted s = init now s
  step now unmounted s = stop_refresh_timer s
  step now (init_answer reply) s =
      if s.init_requests == 0
      then s
      else init_answered now reply (record s { init_requests = s.init_requests - 1 })
  step now (refresh_answer reply) s =
      if s.refresh_requests == 0
      then s
      else refresh_answered now reply (record s { refresh_requests = s.refresh_requests - 1 })
  step now (timer id) s =
      if any (λ entry. entry.0 == id) s.pending
      then do_refresh (record s { pending = filter (λ entry. not (entry.0 == id)) s.pending })
      else s
  step now (login tokens) s = handle_login now tokens s
  step now logout s = handle_logout s

  -- The events in their order, each at its time
  unfoldable pub after : List (ℕ × Event) → State → State
  after [] s = s
  after ((now, event) ∷ events) s = after events (step now event s)
