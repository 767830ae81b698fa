-- ===== src/Daemon/RateLimiter.antt =====
-- internal/daemon/ratelimit.go: the token bucket of a connection.
-- The source counts tokens and the rate in float64. Here the rate is the fraction
-- `rate_num / rate_den` tokens per second, and tokens are counted in units of
-- 1 / (10^9 * rate_den) tokens, so that a nanosecond adds `rate_num` units and nothing is rounded.
mod Bounds
mod Tests
use go_posix.Base.{ℕ, ◌+◌, ◌-◌, ◌*◌, ◌/◌, Bool, true, false, List, [], ◌∷◌, ltb, leb, if◌then◌else◌}

pub record RateLimiter : Type 0 where
  pub rate_num : ℕ
  pub rate_den : ℕ
  pub burst : ℕ
  pub tokens : ℕ
  pub last_update : ℕ

-- One token, in units.
pub token : RateLimiter → ℕ
token rl = 1_000_000_000 * rl.rate_den

-- The bucket starts full; `now` is the clock, in nanoseconds.
unfoldable pub new_rate_limiter : ℕ → ℕ → ℕ → ℕ → RateLimiter
new_rate_limiter rate_num rate_den burst now = record {
  rate_num = rate_num;
  rate_den = rate_den;
  burst = burst;
  tokens = burst * (1_000_000_000 * rate_den);
  last_update = now;
}

-- `handleConn` takes the whole part of the rate for the burst.
pub conn_rate_limiter : ℕ → ℕ → ℕ → RateLimiter
unfolding new_rate_limiter
conn_rate_limiter rate_num rate_den now =
    new_rate_limiter rate_num rate_den (rate_num / rate_den) now

refill : RateLimiter → ℕ → RateLimiter
unfolding token
refill rl now =
    let tokens = rl.tokens + (now - rl.last_update) * rl.rate_num in
    let full = rl.burst * token rl in
    record rl { tokens = if ltb full tokens then full else tokens; last_update = now }

unfoldable pub allow : RateLimiter → ℕ → RateLimiter × Bool
unfolding refill
allow rl now =
    let rl' = refill rl now in
    if leb (token rl') rl'.tokens
    then (record rl' { tokens = rl'.tokens - token rl' }, true)
    else (rl', false)

-- The requests that arrive at the given times: the limiter behind them, and how many it lets through.
pub serve : RateLimiter → List ℕ → RateLimiter × ℕ
serve rl [] = (rl, 0)
serve rl (now ∷ times) =
    let (rl', ok) = allow rl now in
    let (rl'', n) = serve rl' times in (rl'', if ok then n + 1 else n)
