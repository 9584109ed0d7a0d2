-- ===== src/LogStreamer/Connections/Backoff.antt =====
-- The delays of `scheduleReconnect`.
use native.Mathlib.Nat.{pow-suc}
use nestjs_graphql_fastify_a.Common.{ℕ, zero, suc, ◌-◌, ◌*◌, ◌^◌, ◌≤◌, ◌<◌, min, ◌≡◌, refl, arith}
use nestjs_graphql_fastify_a.LogStreamer.Connections.{backoff}

pow_pos : (n : ℕ) → 0 < 2 ^ n
pow_pos zero = omega arith
pow_pos (suc n) = omega (arith, pow-suc 2 n, pow_pos n)

backoff-suc : (n : ℕ) → backoff (suc n) ≡ min (1000 * 2 ^ n) 30000
unfolding backoff
backoff-suc n = let e : suc n - 1 ≡ n = omega arith in rw e

-- The first delay is a second, each later one is twice the one before, and none is longer than
-- thirty seconds or shorter than one.
pub backoff_lem :
    (attempts : ℕ)
    → (backoff 1 ≡ 1000)
      × (backoff (suc (suc attempts)) ≡ min (2 * backoff (suc attempts)) 30000)
      × (1000 ≤ backoff (suc attempts))
      × (backoff (suc attempts) ≤ 30000)
unfolding backoff
backoff_lem attempts = (
  refl,
  rw (backoff-suc (suc attempts), backoff-suc attempts) (omega (arith, pow-suc 2 attempts)),
  rw (backoff-suc attempts) (omega (arith, pow_pos attempts)),
  rw (backoff-suc attempts) (omega arith),
)
