-- ===== src/UiAuth/Storage.antt =====
-- The tokens in localStorage.
use nestjs_graphql_fastify_a.Common.{ℕ, ◌+◌, ◌*◌, ◌-◌, leb, is_some, ◌≡◌, arith}
use nestjs_graphql_fastify_a.Common.Text.{number-to_text, truthy-to_text}
use nestjs_graphql_fastify_a.UiAuth.{
  Stored, AuthTokenResponse, State, save_tokens, is_access_token_expired, get_time_until_expiry,
}

-- Saved tokens count as expired exactly from the time on that their lifetime, in seconds, ends; until
-- then the time that is left is what is missing to it.
pub save_tokens-expiry :
    (now later : ℕ) (tokens : AuthTokenResponse) (s : State)
    → let stored = (save_tokens now tokens s).stored in
      let expiry = now + tokens.expires_in * 1000 in
      (is_access_token_expired later stored ≡ leb expiry later)
      × (get_time_until_expiry later stored ≡ expiry - later)
unfolding save_tokens is_access_token_expired get_time_until_expiry
save_tokens-expiry now later tokens s =
    let expiry = now + tokens.expires_in * 1000 in
    ground (arith, truthy-to_text expiry, number-to_text expiry)

-- The three items are there together, or none of them is.
abbrev pub IsWhole : Stored → Type 0
IsWhole stored =
    (is_some stored.refresh_token ≡ is_some stored.access_token)
    × (is_some stored.token_expiry ≡ is_some stored.access_token)
